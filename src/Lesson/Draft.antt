-- ===== src/Lesson/Draft.antt =====
-- The draft of the attempt in the session storage.
pub mod Reload
use bachelor_thesis.Prelude.{false, ◌||◌, Option, none, some, ltb, ◌==◌, if◌then◌else◌, length}
use bachelor_thesis.Lesson.State.{Props, Draft, LessonState}

abbrev restore : Draft → LessonState → LessonState
restore d s = record s {
  submitted = false;
  result = none;
  responses = d.responses;
  passed_ids = if length d.passed_ids == 0 then s.passed_ids else d.passed_ids;
  auto_submit_draft = some d.responses;
}

abbrev pub hydrate_from : Option Draft → LessonState → LessonState
hydrate_from none s = s
hydrate_from (some d) s = if length d.responses == 0 then s else restore d s

-- The effect of the mount: a stored draft with an answer is restored, to be submitted.
unfoldable pub hydrate : Props → LessonState → LessonState
hydrate props s = if props.is_preview then s else hydrate_from s.stored_draft s

-- The effect that keeps the draft, run after the mount's.
unfoldable pub persist : Props → LessonState → LessonState
persist props s =
    if props.is_preview
    then s
    else if s.submitted
    then record s { stored_draft = none }
    else if ltb 0 (length s.responses) || ltb 0 (length s.passed_ids)
    then record s {
      stored_draft = some (record { responses = s.responses; passed_ids = s.passed_ids });
    }
    else s
