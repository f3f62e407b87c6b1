-- ===== src/Interaction/Attempt/Rebuild.antt =====
-- Answers that come back from the service.
use bachelor_thesis.Prelude.{◌≡◌, refl, ap, Option, some}
use bachelor_thesis.Interaction.Proto.{InteractionKind, ConfigMessage, LessonInteraction}
use bachelor_thesis.Interaction.Types.{Response}
use bachelor_thesis.Interaction.Registry.{extract_local_response}
use bachelor_thesis.Interaction.Attempt.{
  ResponseMetrics, response_by_config, response_by_kind, time_of, replays_of,
  build_attempt_response_input,
}

rebuild-response_by_config :
    (c : Option ConfigMessage) (r : Option Response)
    → response_by_config c (extract_local_response (some (response_by_config c r)))
      ≡ response_by_config c r
unfolding response_by_config extract_local_response
rebuild-response_by_config (some (ConfigMessage.fill_blank c)) r = refl
rebuild-response_by_config (some (ConfigMessage.reading c)) r = refl
rebuild-response_by_config (some (ConfigMessage.writing c)) r = refl
rebuild-response_by_config (some (ConfigMessage.listening c)) r = refl
rebuild-response_by_config _ r = refl

rebuild-response_by_kind :
    (k : InteractionKind) (c : Option ConfigMessage) (r : Option Response)
    → response_by_kind k c (extract_local_response (some (response_by_kind k c r)))
      ≡ response_by_kind k c r
unfolding response_by_kind extract_local_response
rebuild-response_by_kind InteractionKind.multiple_choice c r = refl
rebuild-response_by_kind _ c r = rebuild-response_by_config c r

-- Reading a submitted answer back and submitting it again gives the same message, for every kind of
-- exercise and every local answer, a missing one included.
pub rebuild_attempt_response_input :
    (it : LessonInteraction) (r : Option Response) (m : Option ResponseMetrics)
    → build_attempt_response_input it
        (extract_local_response (some (build_attempt_response_input it r m).response))
        m
      ≡ build_attempt_response_input it r m
unfolding build_attempt_response_input
rebuild_attempt_response_input it r m =
    ap
      (λ v. record {
        interaction_id = it.id;
        time_to_answer_ms = time_of m;
        replay_count = replays_of m;
        response = v;
      })
      (rebuild-response_by_kind it.kind it.config r)
