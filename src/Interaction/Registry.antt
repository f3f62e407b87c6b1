-- ===== src/Interaction/Registry.antt =====
-- From messages to the client's types (typescript/heino/src/interactions/registry.ts).
use bachelor_thesis.Prelude.{Option, none, some, List, [], ◌∷◌, map, ℤ, minus_one}
use bachelor_thesis.Interaction.Proto.{
  ReadingMode, McqMessage, BlankMessage, ConfigMessage, LessonInteraction, ResponseMessage,
}
use bachelor_thesis.Interaction.Types.{McqConfig, Blank, PassageMode, Config, Response}

abbrev nonempty : List ℤ → Option (List ℤ)
nonempty [] = none
nonempty (x ∷ xs) = some (x ∷ xs)

unfoldable pub mcq_of_message : McqMessage → McqConfig
mcq_of_message v = record {
  question = some v.question;
  options = v.options;
  correct_answer = v.correct_answer;
  correct_answers = nonempty v.correct_answers;
}

abbrev pub blank_of_message : BlankMessage → Blank
blank_of_message b = record {
  accepted = b.accepted;
  case_sensitive = b.case_sensitive;
  hint = b.hint;
}

abbrev pub passage_mode : ReadingMode → PassageMode
passage_mode ReadingMode.open_answer = PassageMode.open_answer
passage_mode ReadingMode.unspecified = PassageMode.pronunciation
passage_mode ReadingMode.pronunciation = PassageMode.pronunciation

unfoldable pub config_of_message : ConfigMessage → Config
unfolding mcq_of_message
config_of_message (ConfigMessage.mcq v) = Config.mcq (mcq_of_message v)
config_of_message (ConfigMessage.fill_blank v) =
    Config.fill_blank (record { template = v.template; blanks = map blank_of_message v.blanks })
config_of_message (ConfigMessage.listening v) = Config.listening (record {
  audio_object_key = v.audio_object_key;
  duration_seconds = v.duration_seconds;
  audio_source_text = v.audio_source_text;
  comprehension_questions = map mcq_of_message v.comprehension_questions;
})
config_of_message (ConfigMessage.reading v) = Config.reading (record {
  mode = passage_mode v.mode;
  passage_markdown = v.passage_markdown;
  question = some v.question;
  expected_answer = some v.expected_answer;
})
config_of_message (ConfigMessage.writing v) = Config.writing (record {
  prompt = v.prompt;
  rubric = some v.rubric;
  expected_answer = some v.expected_answer;
  min_words = v.min_words;
})

unfoldable pub extract_config : LessonInteraction → Option Config
unfolding config_of_message
extract_config it = elim it.config [ none ↦ none | some m ↦ some (config_of_message m) ]

unfoldable pub extract_local_response : Option ResponseMessage → Option Response
extract_local_response none = none
extract_local_response (some (ResponseMessage.mcq_selected v)) =
    some (Response.mcq (record { selected = v; selected_indexes = none }))
extract_local_response (some (ResponseMessage.mcq_multiple v)) =
    some (Response.mcq (record { selected = minus_one; selected_indexes = some v }))
extract_local_response (some (ResponseMessage.fill_blank v)) = some (Response.fill_blank v)
extract_local_response (some (ResponseMessage.listening v)) = some (Response.listening v)
extract_local_response (some (ResponseMessage.reading v)) = some (Response.reading v)
extract_local_response (some (ResponseMessage.writing v)) = some (Response.writing v)
