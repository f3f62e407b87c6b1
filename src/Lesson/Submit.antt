-- ===== src/Lesson/Submit.antt =====
-- Submitting the attempt: by hand, after the last question, after a reload, and again after a failure.
pub mod Attempt
use bachelor_thesis.Prelude.{
  ℕ, String, Bool, true, false, ◌&&◌, ◌||◌, not, Option, none, some, List, [], ◌∷◌, map, ltb, ◌==◌,
  if◌then◌else◌, is_some, get_or, length, get,
}
use bachelor_thesis.Interaction.Proto.{LessonInteraction, LessonAttemptResponse, LessonAttempt}
use bachelor_thesis.Interaction.Types.{Response}
use bachelor_thesis.Interaction.Attempt.{AttemptResponseInput, build_attempt_response_input}
use bachelor_thesis.Interaction.Registry.{extract_local_response}
use bachelor_thesis.Errors.{Failure, submit_attempt_error_message}
use bachelor_thesis.Lesson.State.{
  Video, QuizResponse, QuizResult, Fraction, Props, Flight, LessonState, is_pending, all_answered,
  is_after_each,
}
use bachelor_thesis.Lesson.Preview.{preview_calls}
use bachelor_thesis.Lesson.Answer.{record_time_to_answer, metrics_of}

-- The calls that a submission makes: the grading of recordings in a preview, or the attempt.
pub data Request : Type 0 where
  grade_preview : List AttemptResponseInput → Request
  submit_attempt : List AttemptResponseInput → Fraction → Request

abbrev pub duration_of : Option Video → ℕ
duration_of none = 0
duration_of (some v) = v.duration

-- The share of the video that was watched, at most the whole of it.
unfoldable pub compute_video_watch_fraction : LessonState → Fraction
compute_video_watch_fraction s =
    let duration = duration_of s.video in
    if duration == 0
    then record { part = 0; whole = 1 }
    else record { part = if ltb duration s.watched then duration else s.watched; whole = duration }

unfoldable pub record_all_times : ℕ → List LessonInteraction → LessonState → LessonState
unfolding record_time_to_answer
record_all_times now [] s = s
record_all_times now (it ∷ its) s = record_all_times now its (record_time_to_answer now it.id s)

-- One answer for each interaction of the lesson, in order; a missing one is sent empty.
unfoldable pub attempt_inputs :
    LessonState → List (String × Response) → List LessonInteraction → List AttemptResponseInput
unfolding get build_attempt_response_input
attempt_inputs s answers [] = []
attempt_inputs s answers (it ∷ its) =
    build_attempt_response_input it (get answers it.id) (some (metrics_of s it.id))
    ∷ attempt_inputs s answers its

abbrev flight_of : List (String × Response) → LessonState → Flight
flight_of answers s = record {
  responses = answers;
  interactions = s.lesson_interactions;
  draft_grades = s.draft_grades;
  attempt_count = s.preview_attempt_count;
  watch_fraction = compute_video_watch_fraction s;
}

unfoldable pub request_of : Props → List (String × Response) → LessonState → Request
unfolding preview_calls attempt_inputs compute_video_watch_fraction
request_of props answers s =
    if props.is_preview
    then grade_preview (preview_calls (flight_of answers s) s.lesson_interactions)
    else submit_attempt (attempt_inputs s answers s.lesson_interactions)
        (compute_video_watch_fraction s)

unfoldable pub begin_submit : Props → ℕ → List (String × Response) → LessonState → LessonState
unfolding record_all_times compute_video_watch_fraction
begin_submit props now answers s =
    let t = record s { submitting = true; error = none; flight = some (flight_of answers s) } in
    if props.is_preview then record_all_times now s.lesson_interactions t else t

-- The guards of `runSubmit`.
unfoldable pub is_blocked : Bool → LessonState → Bool
unfolding all_answered
is_blocked partial s =
    s.submitting || s.submitted || is_pending s || not partial && not (all_answered s)

-- `runSubmit` up to its first await.
unfoldable pub run_submit :
    Props → ℕ → List (String × Response) → Bool → LessonState → LessonState × Option Request
unfolding begin_submit request_of is_blocked
run_submit props now answers partial s =
    if is_blocked partial s
    then (s, none)
    else (begin_submit props now answers s, some (request_of props answers s))

abbrev quiz_response : LessonAttemptResponse → QuizResponse
quiz_response r = record {
  interaction_id = r.interaction_id;
  response = extract_local_response r.response;
  score = r.score;
  max_score = r.max_score;
  feedback = some r.feedback;
}

abbrev quiz_result : LessonAttempt → QuizResult
quiz_result a = record {
  total_score = a.total_score;
  max_score = a.max_score;
  attempt_count = a.attempt_count;
  responses = map quiz_response a.responses;
}

abbrev pub with_attempt :
    Option LessonAttempt → Option (List LessonInteraction) → LessonState → LessonState
with_attempt none fresh s = s
with_attempt (some a) fresh s = record s {
  lesson_interactions = get_or fresh s.lesson_interactions;
  result = some (quiz_result a);
}

unfoldable pub end_submit :
    Option Flight
    → Option LessonAttempt
    → Option (List LessonInteraction)
    → LessonState
    → LessonState
unfolding extract_local_response
end_submit none attempt fresh s = s
end_submit (some f) attempt fresh s = record (with_attempt attempt fresh s) {
  submitted = true;
  flight = none;
}

-- The end of a student's submission, with the attempt and the interactions that the service sends.
unfoldable pub finish_submit :
    Option LessonAttempt → Option (List LessonInteraction) → LessonState → LessonState
unfolding end_submit
finish_submit attempt fresh s = end_submit s.flight attempt fresh s

unfoldable pub end_failed : Option Flight → Failure → LessonState → LessonState
unfolding submit_attempt_error_message
end_failed none e s = s
end_failed (some f) e s = record s {
  submitting = false;
  error = some (submit_attempt_error_message e);
  flight = none;
}

-- A submission that failed may be made again.
unfoldable pub fail_submit : Failure → LessonState → LessonState
unfolding end_failed
fail_submit e s = end_failed s.flight e s

unfoldable pub handle_submit : Props → ℕ → LessonState → LessonState × Option Request
unfolding run_submit
handle_submit props now s = run_submit props now s.responses false s

unfoldable pub retry_submit : Props → ℕ → LessonState → LessonState × Option Request
unfolding run_submit all_answered
retry_submit props now s =
    run_submit props now (get_or s.auto_submit_draft s.responses) (not (all_answered s)) s

-- The guards of the effect below.
unfoldable pub auto_blocked : Props → LessonState → Bool
unfolding all_answered
auto_blocked props s =
    not (is_after_each props.feedback_mode)
    || is_some s.auto_submit_draft
    || s.auto_submitted
    || s.submitted
    || is_pending s
    || not (all_answered s)
    || is_some s.active_id

-- The effect that submits after the last question, where the feedback comes after each one.
unfoldable pub auto_submit : Props → ℕ → LessonState → LessonState × Option Request
unfolding handle_submit auto_blocked
auto_submit props now s =
    if auto_blocked props s
    then (s, none)
    else handle_submit props now (record s { auto_submitted = true })

unfoldable pub submit_restored :
    Props → ℕ → Option (List (String × Response)) → LessonState → LessonState × Option Request
unfolding run_submit
submit_restored props now none s = (s, none)
submit_restored props now (some draft) s =
    if s.auto_submitted_draft || s.submitted || is_pending s || length s.lesson_interactions == 0
    then (s, none)
    else run_submit props now draft true (record s { auto_submitted_draft = true })

-- The effect that submits a draft restored after a reload.
unfoldable pub submit_draft : Props → ℕ → LessonState → LessonState × Option Request
unfolding submit_restored
submit_draft props now s = submit_restored props now s.auto_submit_draft s
