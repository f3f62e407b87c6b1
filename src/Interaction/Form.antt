-- ===== src/Interaction/Form.antt =====
-- The teacher's form for one exercise (lessons/[lessonId]/interaction-row.tsx).
pub mod Saving
use bachelor_thesis.Prelude.{
  trim, ℕ, String, Bool, false, ◌&&◌, not, Option, none, some, List, [], ◌∷◌, map, ltb,
  if◌then◌else◌, get_or, is_empty, length, all, minus_one,
}
use bachelor_thesis.Interaction.Proto.{
  InteractionKind, ReadingMode, McqOption, McqMessage, BlankMessage, ConfigMessage,
  LessonInteraction,
}
use bachelor_thesis.Interaction.Types.{McqConfig, Blank, PassageMode, Config}
use bachelor_thesis.Interaction.Registry.{extract_config}

pub record InteractionFormData : Type 0 where
  pub kind : InteractionKind
  pub prompt : String
  pub config : Config
  pub explanation : String
  pub start_ms : ℕ

abbrev blank_option : McqOption
blank_option = record { text = "" }

abbrev four_options : List McqOption
four_options = blank_option ∷ blank_option ∷ blank_option ∷ blank_option ∷ []

empty_config : InteractionKind → Config
empty_config InteractionKind.fill_blank = Config.fill_blank (record { template = ""; blanks = [] })
empty_config InteractionKind.listening = Config.listening (record {
  audio_object_key = "";
  duration_seconds = 0;
  audio_source_text = "";
  comprehension_questions =
      record {
        question = some "";
        options = four_options;
        correct_answer = minus_one;
        correct_answers = none;
      }
      ∷ [];
})
empty_config InteractionKind.reading = Config.reading (record {
  mode = PassageMode.pronunciation;
  passage_markdown = "";
  question = some "";
  expected_answer = none;
})
empty_config InteractionKind.writing =
    Config.writing (record { prompt = ""; rubric = none; expected_answer = none; min_words = 0 })
empty_config InteractionKind.multiple_choice = Config.mcq (record {
  question = none;
  options = four_options;
  correct_answer = minus_one;
  correct_answers = some [];
})
empty_config _ = Config.mcq (record {
  question = none;
  options = four_options;
  correct_answer = minus_one;
  correct_answers = none;
})

-- A kind that has no form of its own gets that of a single choice.
abbrev form_kind : InteractionKind → InteractionKind
form_kind InteractionKind.unspecified = InteractionKind.single_choice
form_kind k = k

unfoldable pub empty_form_for_kind : InteractionKind → InteractionFormData
unfolding empty_config
empty_form_for_kind kind = record {
  kind = form_kind kind;
  prompt = "";
  config = empty_config kind;
  explanation = "";
  start_ms = 0;
}

unfoldable pub form_from_interaction : LessonInteraction → InteractionFormData
unfolding extract_config empty_form_for_kind
form_from_interaction it = record {
  kind = it.kind;
  prompt = it.prompt;
  config = get_or (extract_config it) (empty_form_for_kind it.kind).config;
  explanation = it.explanation;
  start_ms = it.start_ms;
}

abbrev is_filled : String → Bool
is_filled s = not (is_empty (trim s))

abbrev options_filled : List McqOption → Bool
options_filled = all (λ o. is_filled o.text)

-- The test of each kind; `none` where it throws, on a configuration that lacks the text it trims.
saveable_config : InteractionKind → Config → Option Bool
saveable_config InteractionKind.single_choice (Config.mcq c) = some (options_filled c.options)
saveable_config InteractionKind.single_choice _ = some false
saveable_config InteractionKind.multiple_choice (Config.mcq c) = some (options_filled c.options)
saveable_config InteractionKind.multiple_choice _ = some false
saveable_config InteractionKind.fill_blank (Config.fill_blank c) = some (
    is_filled c.template
    && ltb 0 (length c.blanks)
    && all (λ b. ltb 0 (length b.accepted)) c.blanks)
saveable_config InteractionKind.fill_blank _ = some false
saveable_config InteractionKind.listening (Config.listening c) = some (
    is_filled c.audio_source_text
    && ltb 0 (length c.comprehension_questions)
    && all (λ q. options_filled q.options) c.comprehension_questions)
saveable_config InteractionKind.listening _ = some false
saveable_config InteractionKind.reading (Config.reading c) = some (is_filled c.passage_markdown)
saveable_config InteractionKind.reading _ = none
saveable_config InteractionKind.writing (Config.writing c) = some (is_filled c.prompt)
saveable_config InteractionKind.writing _ = none
saveable_config InteractionKind.unspecified _ = some false

unfoldable pub is_saveable : InteractionFormData → Option Bool
unfolding saveable_config
is_saveable form =
    if is_filled form.prompt then saveable_config form.kind form.config else some false

abbrev blank_message : Blank → BlankMessage
blank_message b = record { accepted = b.accepted; case_sensitive = b.case_sensitive; hint = b.hint }

-- A listening question is sent without its list of right options.
abbrev question_message : McqConfig → McqMessage
question_message q = record {
  question = get_or q.question "";
  options = q.options;
  correct_answer = q.correct_answer;
  correct_answers = [];
}

abbrev choice_message : McqConfig → McqMessage
choice_message c = record {
  options = c.options;
  question = get_or c.question "";
  correct_answer = c.correct_answer;
  correct_answers = get_or c.correct_answers [];
}

abbrev reading_mode : PassageMode → ReadingMode
reading_mode PassageMode.open_answer = ReadingMode.open_answer
reading_mode PassageMode.pronunciation = ReadingMode.pronunciation

-- `none` where the configuration has the shape of another kind: the source then throws, or sends a
-- message whose fields are missing.
config_message : InteractionKind → Config → Option ConfigMessage
config_message InteractionKind.fill_blank (Config.fill_blank c) = some (
    ConfigMessage.fill_blank
      (record { template = c.template; blanks = map blank_message c.blanks }))
config_message InteractionKind.fill_blank _ = none
config_message InteractionKind.listening (Config.listening c) = some (
    ConfigMessage.listening (record {
      audio_object_key = c.audio_object_key;
      duration_seconds = c.duration_seconds;
      audio_source_text = c.audio_source_text;
      comprehension_questions = map question_message c.comprehension_questions;
    }))
config_message InteractionKind.listening _ = none
config_message InteractionKind.reading (Config.reading c) = some (
    ConfigMessage.reading (record {
      mode = reading_mode c.mode;
      passage_markdown = c.passage_markdown;
      question = get_or c.question "";
      expected_answer = get_or c.expected_answer "";
    }))
config_message InteractionKind.reading _ = none
config_message InteractionKind.writing (Config.writing c) = some (
    ConfigMessage.writing (record {
      prompt = c.prompt;
      rubric = get_or c.rubric "";
      expected_answer = get_or c.expected_answer "";
      min_words = c.min_words;
    }))
config_message InteractionKind.writing _ = none
config_message _ (Config.mcq c) = some (ConfigMessage.mcq (choice_message c))
config_message _ _ = none

unfoldable pub build_proto_config : InteractionFormData → Option ConfigMessage
unfolding config_message
build_proto_config form = config_message form.kind form.config
