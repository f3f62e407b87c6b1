-- ===== src/Settings.antt =====
-- The settings of a lesson, each shown at once and taken back where the service refuses it
-- (lessons/[lessonId]/use-lesson-analysis-settings.ts, and the actions that update a lesson of
-- lessons/[lessonId]/actions.ts).
pub mod Overlap
use bachelor_thesis.Actions.{ActionResult}
use bachelor_thesis.Prelude.{ℕ, String, Option, none, some, get_or}
use bachelor_thesis.Interaction.Proto.{FeedbackMode}

-- What the page says of the lesson.
pub record LessonInfo : Type 0 where
  pub lesson_id : String
  pub title : String
  pub description : String
  pub order_index : ℕ

pub record Settings : Type 0 where
  pub feedback_mode : FeedbackMode
  pub language : String
  pub audio_language : String
  pub max_attempts : ℕ

-- The message of `updateLesson`; an empty audio language is one that the service keeps.
pub record UpdateLesson : Type 0 where
  pub id : String
  pub title : String
  pub description : String
  pub order_index : ℕ
  pub language : String
  pub max_attempts : ℕ
  pub audio_language : String

pub data LessonRequest : Type 0 where
  update_lesson : UpdateLesson → LessonRequest
  update_lesson_feedback_mode : String → FeedbackMode → LessonRequest

update_lesson_language_action : LessonInfo → String → ℕ → Option String → LessonRequest
update_lesson_language_action lesson language attempts audio = update_lesson (record {
  id = lesson.lesson_id;
  title = lesson.title;
  description = lesson.description;
  order_index = lesson.order_index;
  language = language;
  max_attempts = attempts;
  audio_language = get_or audio "";
})

update_lesson_max_attempts_action : LessonInfo → String → ℕ → LessonRequest
update_lesson_max_attempts_action lesson language attempts = update_lesson (record {
  id = lesson.lesson_id;
  title = lesson.title;
  description = lesson.description;
  order_index = lesson.order_index;
  language = language;
  max_attempts = attempts;
  audio_language = "";
})

-- One setting with its value.
pub data Setting : Type 0 where
  of_feedback_mode : FeedbackMode → Setting
  of_language of_audio_language : String → Setting
  of_max_attempts : ℕ → Setting

-- The `set...State` of the setting.
abbrev pub put : Setting → Settings → Settings
put (of_feedback_mode x) s = record s { feedback_mode = x }
put (of_language x) s = record s { language = x }
put (of_audio_language x) s = record s { audio_language = x }
put (of_max_attempts x) s = record s { max_attempts = x }

-- A save under way: the value before it, and what it asks of the service.
pub record Save : Type 0 where
  pub previous : Setting
  pub request : LessonRequest

module _ (lesson : LessonInfo) where
  set_feedback_mode : FeedbackMode → Settings → Settings × Save
  set_feedback_mode mode s = (
    put (of_feedback_mode mode) s,
    record {
      previous = of_feedback_mode s.feedback_mode;
      request = update_lesson_feedback_mode lesson.lesson_id mode;
    },
  )

  set_language : String → Settings → Settings × Save
  unfolding update_lesson_language_action
  set_language lang s = (
    put (of_language lang) s,
    record {
      previous = of_language s.language;
      request = update_lesson_language_action lesson lang s.max_attempts none;
    },
  )

  set_audio_language : String → Settings → Settings × Save
  unfolding update_lesson_language_action
  set_audio_language lang s = (
    put (of_audio_language lang) s,
    record {
      previous = of_audio_language s.audio_language;
      request = update_lesson_language_action lesson s.language s.max_attempts (some lang);
    },
  )

  set_max_attempts : ℕ → Settings → Settings × Save
  unfolding update_lesson_max_attempts_action
  set_max_attempts attempts s = (
    put (of_max_attempts attempts) s,
    record {
      previous = of_max_attempts s.max_attempts;
      request = update_lesson_max_attempts_action lesson s.language attempts;
    },
  )

  -- The setter of the setting.
  unfoldable pub change : Setting → Settings → Settings × Save
  unfolding set_feedback_mode set_language set_audio_language set_max_attempts
  change (of_feedback_mode x) s = set_feedback_mode x s
  change (of_language x) s = set_language x s
  change (of_audio_language x) s = set_audio_language x s
  change (of_max_attempts x) s = set_max_attempts x s

-- The answer to a save: the settings, and the message that is shown.
unfoldable pub finish_save : Save → ActionResult → Settings → Settings × Option String
finish_save save ActionResult.done s = (s, none)
finish_save save (ActionResult.refused msg) s = (put save.previous s, some msg)
