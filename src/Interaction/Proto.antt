-- ===== src/Interaction/Proto.antt =====
-- The messages of proto/richter/v1/interactions.proto. Times are in milliseconds and a time that is not
-- positive stands as 0; scores are in thousandths.
use bachelor_thesis.Prelude.{ℕ, String, Bool, Option, List, ℤ}

pub data InteractionKind : Type 0 where
  unspecified single_choice fill_blank listening reading multiple_choice writing : InteractionKind

pub data FeedbackMode : Type 0 where
  unspecified hidden after_submit after_each : FeedbackMode

pub data ReadingMode : Type 0 where
  unspecified pronunciation open_answer : ReadingMode

pub record McqOption : Type 0 where
  pub text : String

pub record McqMessage : Type 0 where
  pub options : List McqOption
  pub correct_answer : ℤ
  pub correct_answers : List ℤ
  pub question : String

pub record BlankMessage : Type 0 where
  pub accepted : List String
  pub case_sensitive : Bool
  pub hint : String

pub record FillBlankMessage : Type 0 where
  pub template : String
  pub blanks : List BlankMessage

pub record ListeningMessage : Type 0 where
  pub audio_object_key : String
  pub duration_seconds : ℕ
  pub comprehension_questions : List McqMessage
  pub audio_source_text : String

pub record ReadingMessage : Type 0 where
  pub mode : ReadingMode
  pub passage_markdown : String
  pub question : String
  pub expected_answer : String

pub record WritingMessage : Type 0 where
  pub prompt : String
  pub rubric : String
  pub expected_answer : String
  pub min_words : ℕ

-- The `oneof config`.
pub data ConfigMessage : Type 0 where
  mcq : McqMessage → ConfigMessage
  fill_blank : FillBlankMessage → ConfigMessage
  listening : ListeningMessage → ConfigMessage
  reading : ReadingMessage → ConfigMessage
  writing : WritingMessage → ConfigMessage

pub record LessonInteraction : Type 0 where
  pub id : String
  pub chunk_id : String
  pub start_ms : ℕ
  pub order_index : ℕ
  pub kind : InteractionKind
  pub prompt : String
  pub explanation : String
  pub config : Option ConfigMessage

-- The `oneof response` of an answer.
pub data ResponseMessage : Type 0 where
  mcq_selected : ℤ → ResponseMessage
  fill_blank : List String → ResponseMessage
  listening : List ℤ → ResponseMessage
  reading : String → ResponseMessage
  mcq_multiple : List ℤ → ResponseMessage
  writing : String → ResponseMessage

pub record LessonAttemptResponse : Type 0 where
  pub interaction_id : String
  pub score : ℕ
  pub max_score : ℕ
  pub feedback : String
  pub response : Option ResponseMessage

pub record LessonAttempt : Type 0 where
  pub total_score : ℕ
  pub max_score : ℕ
  pub attempt_count : ℕ
  pub responses : List LessonAttemptResponse
