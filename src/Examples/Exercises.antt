-- ===== src/Examples/Exercises.antt =====
-- Exercises, their grades, their forms and their quantities at concrete inputs.
use bachelor_thesis.Errors.Transient.{Names, IsUnanswered, IsLocal, is_transient_error_iff}
use bachelor_thesis.Interaction.Form.Saving.{build_proto_config-form_from_interaction}
use bachelor_thesis.Interaction.Grading.Unanswered.{listening_hidden_full}
use bachelor_thesis.Interaction.Form.{form_from_interaction, build_proto_config}
use bachelor_thesis.Interaction.Grading.Choice.{SameOptions, grade_multiple_iff}
use bachelor_thesis.Interaction.Attempt.Rebuild.{rebuild_attempt_response_input}
use bachelor_thesis.Interaction.Grading.Bounds.{IsBounded, grade_local-IsBounded}
use bachelor_thesis.Errors.{Failure, is_transient_error}
use bachelor_thesis.Interaction.Quantity.{KindQuantities, ChunkInteractionConfig}
use bachelor_thesis.Prelude.{
  String, ◌≡◌, refl, ◌↔◌, ◌⊎◌, true, none, some, List, [], ◌∷◌, arith, pos, minus_one,
}
use bachelor_thesis.Interaction.Proto.{
  InteractionKind, McqOption, BlankMessage, ConfigMessage, LessonInteraction,
}
use bachelor_thesis.Interaction.Types.{McqConfig, McqResponse, ListeningConfig, Config, Response}
use bachelor_thesis.Interaction.Registry.{extract_local_response}
use bachelor_thesis.Interaction.Grading.{
  point, includes_index, grade_multiple, grade_listening, grade_local,
}
use bachelor_thesis.Interaction.Attempt.{build_attempt_response_input}

abbrev pub same_text : String → String
same_text s = s

abbrev pub two_options : List McqOption
two_options = record { text = "yes" } ∷ record { text = "no" } ∷ []

abbrev both_right : McqConfig
both_right = record {
  question = none;
  options = two_options;
  correct_answer = pos 0;
  correct_answers = some (pos 0 ∷ pos 1 ∷ []);
}

abbrev both_chosen : McqResponse
both_chosen = record { selected = minus_one; selected_indexes = some (pos 1 ∷ pos 0 ∷ []) }

grade_local-IsBounded_example : IsBounded (
    grade_local same_text InteractionKind.multiple_choice
      (Config.mcq both_right)
      (Response.mcq both_chosen))
grade_local-IsBounded_example =
    grade_local-IsBounded same_text InteractionKind.multiple_choice (Config.mcq both_right)
      (Response.mcq both_chosen)

grade_multiple_iff_example :
    ((grade_multiple both_right both_chosen).score ≡ point)
    ↔ SameOptions (pos 0 ∷ pos 1 ∷ []) (pos 1 ∷ pos 0 ∷ [])
unfolding includes_index
grade_multiple_iff_example =
    grade_multiple_iff both_right both_chosen (pos 0 ∷ pos 1 ∷ []) (pos 1 ∷ pos 0 ∷ []) refl refl
      (omega arith) (refl, (refl, tt)) (refl, (refl, tt))

abbrev gap : BlankMessage
gap = record { accepted = "one" ∷ []; case_sensitive = true; hint = "" }

abbrev pub fill_in : LessonInteraction
fill_in = record {
  id = "fill";
  chunk_id = "a";
  start_ms = 4000;
  order_index = 0;
  kind = InteractionKind.fill_blank;
  prompt = "Fill in";
  explanation = "";
  config = some (ConfigMessage.fill_blank (record { template = "{{1}}"; blanks = gap ∷ [] }));
}

rebuild_attempt_response_input_example :
    build_attempt_response_input fill_in
      (extract_local_response (
        some
          (build_attempt_response_input fill_in
            (some (Response.fill_blank ("one" ∷ [])))
            none).response))
      none
    ≡ build_attempt_response_input fill_in (some (Response.fill_blank ("one" ∷ []))) none
rebuild_attempt_response_input_example =
    rebuild_attempt_response_input fill_in (some (Response.fill_blank ("one" ∷ []))) none

abbrev hidden_listening : ListeningConfig
hidden_listening = record {
  audio_object_key = "";
  duration_seconds = 3;
  comprehension_questions =
      record {
        question = none;
        options = two_options;
        correct_answer = minus_one;
        correct_answers = none;
      }
      ∷ [];
  audio_source_text = "";
}

listening_hidden_full_example :
    (grade_listening hidden_listening []).score ≡ (grade_listening hidden_listening []).max_score
listening_hidden_full_example = listening_hidden_full hidden_listening (refl, tt) (omega arith)

build_proto_config-form_from_interaction_example :
    build_proto_config (form_from_interaction fill_in)
    ≡ some (ConfigMessage.fill_blank (record { template = "{{1}}"; blanks = gap ∷ [] }))
build_proto_config-form_from_interaction_example =
    build_proto_config-form_from_interaction fill_in
      (ConfigMessage.fill_blank (record { template = "{{1}}"; blanks = gap ∷ [] })) refl tt

abbrev some_of_each : KindQuantities
some_of_each = record {
  single_choice = 2;
  multiple_choice = 0;
  fill_blank = 1;
  reading = 0;
  listening = 3;
}

abbrev five_of_two : ChunkInteractionConfig
five_of_two = record {
  count = 5;
  kinds = InteractionKind.single_choice ∷ InteractionKind.reading ∷ [];
}

abbrev network_failure : Failure
network_failure = Failure.type_error "fetch failed" Failure.value

is_transient_error_iff_example :
    (is_transient_error same_text network_failure ≡ true)
    ↔ (IsUnanswered network_failure ⊎ (IsLocal network_failure × Names same_text 5 network_failure))
is_transient_error_iff_example = is_transient_error_iff same_text network_failure
