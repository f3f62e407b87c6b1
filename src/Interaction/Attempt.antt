-- ===== src/Interaction/Attempt.antt =====
-- The answer that a student submits (lessons/[lessonId]/student-attempt-response.ts).
pub mod Rebuild
use bachelor_thesis.Prelude.{ℕ, String, Option, none, some, List, [], get_or, ℤ, minus_one}
use bachelor_thesis.Interaction.Proto.{
  InteractionKind, ConfigMessage, LessonInteraction, ResponseMessage,
}
use bachelor_thesis.Interaction.Types.{Response}

pub record ResponseMetrics : Type 0 where
  pub time_to_answer_ms : ℕ
  pub replay_count : ℕ

pub record AttemptResponseInput : Type 0 where
  pub interaction_id : String
  pub time_to_answer_ms : ℕ
  pub replay_count : ℕ
  pub response : ResponseMessage

-- `(localResp as McqResponse | undefined)?.selected` and its like: a field that is missing is `none`.
abbrev selected_of : Option Response → Option ℤ
selected_of (some (Response.mcq r)) = some r.selected
selected_of _ = none

abbrev selected_indexes_of : Option Response → Option (List ℤ)
selected_indexes_of (some (Response.mcq r)) = r.selected_indexes
selected_indexes_of _ = none

abbrev answers_of : Option Response → Option (List String)
answers_of (some (Response.fill_blank r)) = some r
answers_of _ = none

abbrev audio_object_key_of : Option Response → Option String
audio_object_key_of (some (Response.reading r)) = some r
audio_object_key_of _ = none

abbrev text_of : Option Response → Option String
text_of (some (Response.writing r)) = some r
text_of _ = none

abbrev comprehension_answers_of : Option Response → Option (List ℤ)
comprehension_answers_of (some (Response.listening r)) = some r
comprehension_answers_of _ = none

-- The `switch (it.config.case)`.
response_by_config : Option ConfigMessage → Option Response → ResponseMessage
response_by_config (some (ConfigMessage.fill_blank c)) r =
    ResponseMessage.fill_blank (get_or (answers_of r) [])
response_by_config (some (ConfigMessage.reading c)) r =
    ResponseMessage.reading (get_or (audio_object_key_of r) "")
response_by_config (some (ConfigMessage.writing c)) r =
    ResponseMessage.writing (get_or (text_of r) "")
response_by_config (some (ConfigMessage.listening c)) r =
    ResponseMessage.listening (get_or (comprehension_answers_of r) [])
response_by_config _ r = ResponseMessage.mcq_selected (get_or (selected_of r) minus_one)

unfoldable pub response_by_kind :
    InteractionKind → Option ConfigMessage → Option Response → ResponseMessage
unfolding response_by_config
response_by_kind InteractionKind.multiple_choice c r =
    ResponseMessage.mcq_multiple (get_or (selected_indexes_of r) [])
response_by_kind _ c r = response_by_config c r

abbrev time_of : Option ResponseMetrics → ℕ
time_of none = 0
time_of (some m) = m.time_to_answer_ms

abbrev replays_of : Option ResponseMetrics → ℕ
replays_of none = 0
replays_of (some m) = m.replay_count

unfoldable pub build_attempt_response_input :
    LessonInteraction → Option Response → Option ResponseMetrics → AttemptResponseInput
unfolding response_by_kind
build_attempt_response_input it local_resp metrics = record {
  interaction_id = it.id;
  time_to_answer_ms = time_of metrics;
  replay_count = replays_of metrics;
  response = response_by_kind it.kind it.config local_resp;
}
