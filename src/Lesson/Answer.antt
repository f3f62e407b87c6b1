-- ===== src/Lesson/Answer.antt =====
-- Answering a question, going on, and starting the lesson again.
pub mod Next
use bachelor_thesis.Prelude.{
  ℕ, ◌+◌, ◌-◌, String, Bool, true, false, ◌&&◌, not, Option, none, some, List, [], str_eq, ltb, leb,
  if◌then◌else◌, is_some, get_or, head, find, filter, Ids, has, add, delete, get, set, insert_by,
  sort_by, times,
}
use bachelor_thesis.Interaction.Proto.{InteractionKind, LessonInteraction}
use bachelor_thesis.Interaction.Types.{Response, Grade}
use bachelor_thesis.Interaction.Attempt.{
  ResponseMetrics, AttemptResponseInput, build_attempt_response_input,
}
use bachelor_thesis.Lesson.State.{Video, Props, LessonState, is_after_each, starts_before}
use bachelor_thesis.Lesson.Playback.{show_question}

unfoldable pub handle_answer : String → Response → LessonState → LessonState
unfolding set
handle_answer id response s = record s { responses = set s.responses id response }

abbrev time_since : Option ℕ → String → ℕ → List (String × ℕ) → List (String × ℕ)
time_since none id now times = times
time_since (some shown_at) id now times = set times id (now - shown_at)

-- The clock does not go back between the showing and the answer.
unfoldable pub record_time_to_answer : ℕ → String → LessonState → LessonState
unfolding get set
record_time_to_answer now id s = if is_some (get s.time_to_answer_ms id) then s else record s {
  time_to_answer_ms = time_since (get s.question_shown_at id) id now s.time_to_answer_ms;
}

abbrev pub has_id : String → LessonInteraction → Bool
has_id id it = str_eq it.id id

abbrev is_reading : InteractionKind → Bool
is_reading InteractionKind.reading = true
is_reading _ = false

abbrev pub metrics_of : LessonState → String → ResponseMetrics
metrics_of s id = record {
  time_to_answer_ms = get_or (get s.time_to_answer_ms id) 0;
  replay_count = get_or (get s.replay_counts id) 0;
}

unfoldable pub save_of : Props → LessonState → LessonInteraction → Option AttemptResponseInput
unfolding build_attempt_response_input get
save_of props s it =
    if is_reading it.kind && is_after_each props.feedback_mode
    then none
    else some (build_attempt_response_input it (get s.responses it.id) (some (metrics_of s it.id)))

unfoldable pub mark_saving :
    Option AttemptResponseInput → String → LessonState → LessonState × Option AttemptResponseInput
unfolding add
mark_saving none id s = (s, none)
mark_saving (some m) id s =
    (record s { saving_response_ids = add s.saving_response_ids id }, some m)

abbrev pub save_of_found :
    Props → Option LessonInteraction → LessonState → Option AttemptResponseInput
unfolding save_of
save_of_found props none s = none
save_of_found props (some it) s = save_of props s it

-- `saveDraftResponse` up to its call: the message to save, if there is one.
unfoldable pub begin_save : Props → String → LessonState → LessonState × Option AttemptResponseInput
unfolding save_of find add mark_saving
begin_save props id s =
    if props.is_preview
    then (s, none)
    else mark_saving (save_of_found props (find (has_id id) s.lesson_interactions) s) id s

-- What the service answers to a save.
pub data SaveOutcome : Type 0 where
  saved : Bool → Grade → SaveOutcome
  failed : SaveOutcome

abbrev pub save_error : String
save_error = "Một câu trả lời chưa được lưu tạm thời. Hệ thống sẽ chấm lại khi nộp bài."

abbrev save_result : String → SaveOutcome → LessonState → LessonState
save_result id (saved true g) s = record s { draft_grades = set s.draft_grades id g }
save_result id (saved false g) s = s
save_result id failed s = record s { error = some save_error }

-- The rest of `saveDraftResponse`.
unfoldable pub complete_save : String → SaveOutcome → LessonState → LessonState
unfolding set delete
complete_save id outcome s =
    let t = save_result id outcome s in
    record t { saving_response_ids = delete t.saving_response_ids id }

-- The timed questions of the same checkpoint, or of an earlier one, that are still pending.
abbrev pub is_next : LessonInteraction → Ids → LessonInteraction → Bool
is_next current passed it =
    not (str_eq it.id current.id)
    && not (has passed it.id)
    && ltb 0 it.start_ms
    && leb it.start_ms current.start_ms

unfoldable pub next_after : Option LessonInteraction → LessonState → Option LessonInteraction
unfolding filter sort_by insert_by
next_after none s = none
next_after (some current) s =
    head (sort_by starts_before (filter (is_next current s.passed_ids) s.lesson_interactions))

unfoldable pub next_in_checkpoint : String → LessonState → Option LessonInteraction
unfolding find next_after
next_in_checkpoint id s = next_after (find (has_id id) s.lesson_interactions) s

abbrev resume : Option Video → Option Video
resume none = none
resume (some v) = if v.ended then some v else some (record v { paused = false })

unfoldable pub go_on : ℕ → Option LessonInteraction → LessonState → LessonState
go_on now none s = record s { active_id = none; video = resume s.video }
go_on now (some next) s = record s {
  question_shown_at = show_question s next.id now;
  active_id = some next.id;
}

unfoldable pub handle_continue :
    Props → ℕ → String → LessonState → LessonState × Option AttemptResponseInput
unfolding record_time_to_answer begin_save next_in_checkpoint go_on add
handle_continue props now id s =
    if has s.saving_response_ids id
    then (s, none)
    else let (t, request) = begin_save props id (record_time_to_answer now id s) in
      (go_on now (next_in_checkpoint id s) (record t { passed_ids = add t.passed_ids id }), request)

abbrev rewind : Option Video → Option Video
rewind none = none
rewind (some v) = some (record v { position = 0; paused = true })

-- `handleRetake`, with the effect of the new player key, which sets the initial-load flag.
unfoldable pub handle_retake : Props → LessonState → LessonState
handle_retake props s = record s {
  stored_draft = none;
  prev_time = 0;
  watched = 0;
  max_watched = 0;
  last_max_watched_push = 0;
  max_watched_shown = 0;
  question_shown_at = [];
  time_to_answer_ms = [];
  replay_counts = [];
  player_key = s.player_key + 1;
  is_initial_load = true;
  video = rewind s.video;
  preview_attempt_count =
      if props.is_preview then s.preview_attempt_count + 1 else s.preview_attempt_count;
  submitted = false;
  auto_submitted = false;
  submitting = false;
  result = none;
  passed_ids = [];
  responses = [];
  active_id = none;
  error = none;
  preview_metrics = none;
}

-- The checkpoint's `onGrade` and `onReplayCount`.
unfoldable pub handle_grade : String → Grade → LessonState → LessonState
unfolding set
handle_grade id g s = record s { draft_grades = set s.draft_grades id g }

unfoldable pub handle_replay_count : String → ℕ → LessonState → LessonState
unfolding set
handle_replay_count id n s = record s { replay_counts = set s.replay_counts id n }
