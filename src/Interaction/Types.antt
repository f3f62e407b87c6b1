-- ===== src/Interaction/Types.antt =====
-- The client's types (typescript/heino/src/interactions/types.ts). A field that may be missing is an
-- `Option`; a configuration or an answer of any kind is one data type with a case for each kind.
use bachelor_thesis.Prelude.{ℕ, String, Bool, Option, List, ℤ}
use bachelor_thesis.Interaction.Proto.{McqOption}

pub record McqConfig : Type 0 where
  pub question : Option String
  pub options : List McqOption
  pub correct_answer : ℤ
  pub correct_answers : Option (List ℤ)

pub record McqResponse : Type 0 where
  pub selected : ℤ
  pub selected_indexes : Option (List ℤ)

pub record Blank : Type 0 where
  pub accepted : List String
  pub case_sensitive : Bool
  pub hint : String

pub record FillBlankConfig : Type 0 where
  pub template : String
  pub blanks : List Blank

pub record ListeningConfig : Type 0 where
  pub audio_object_key : String
  pub duration_seconds : ℕ
  pub comprehension_questions : List McqConfig
  pub audio_source_text : String

pub data PassageMode : Type 0 where
  pronunciation open_answer : PassageMode

pub record ReadingConfig : Type 0 where
  pub mode : PassageMode
  pub passage_markdown : String
  pub question : Option String
  pub expected_answer : Option String

pub record WritingConfig : Type 0 where
  pub prompt : String
  pub rubric : Option String
  pub expected_answer : Option String
  pub min_words : ℕ

pub data Config : Type 0 where
  mcq : McqConfig → Config
  fill_blank : FillBlankConfig → Config
  listening : ListeningConfig → Config
  reading : ReadingConfig → Config
  writing : WritingConfig → Config

pub data Response : Type 0 where
  mcq : McqResponse → Response
  fill_blank : List String → Response
  listening : List ℤ → Response
  reading : String → Response
  writing : String → Response

pub record Grade : Type 0 where
  pub score : ℕ
  pub max_score : ℕ
  pub feedback : Option String
