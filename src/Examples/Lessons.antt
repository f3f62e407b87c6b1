-- ===== src/Examples/Lessons.antt =====
-- A lesson with two questions, watched, answered and submitted.
use bachelor_thesis.Lesson.Playback.Seeks.{IsGuarded, guard_seek-IsGuarded}
use bachelor_thesis.Lesson.Run.Requests.{total_allowed, run_requests}
use bachelor_thesis.Lesson.Run.Stuck.{retake-stuck}
use bachelor_thesis.Lesson.Playback.{handle_time_update, guard_seek}
use bachelor_thesis.Lesson.Playback.Watch.{time_updates, time_updates_bounded}
use bachelor_thesis.Lesson.Draft.Reload.{reload, draft_of, reload-persist}
use bachelor_thesis.Lesson.Answer.{handle_retake}
use bachelor_thesis.Lesson.Submit.{
  compute_video_watch_fraction, record_all_times, request_of, begin_submit, is_blocked, run_submit,
  end_failed, fail_submit, handle_submit,
}
use bachelor_thesis.Lesson.Run.Over.{IsOver, run-IsOver}
use bachelor_thesis.Lesson.Playback.Gates.{Outcome, handle_time_update-Outcome}
use bachelor_thesis.Lesson.Run.{
  Event, submit_pressed, retry_pressed, auto_submitted, submit_failed, press_submit, step, run,
}
use bachelor_thesis.Prelude.{
  suc, ◌+◌, ◌*◌, ◌≤◌, String, ◌≡◌, refl, true, false, Option, none, some, List, [], ◌∷◌, arith,
}
use bachelor_thesis.Interaction.Proto.{FeedbackMode, LessonInteraction}
use bachelor_thesis.Interaction.Types.{Response, Grade}
use bachelor_thesis.Errors.{Failure}
use bachelor_thesis.Lesson.State.{
  Video, Props, Draft, Flight, LessonState, mount, all_answered, ready_to_submit,
}
use bachelor_thesis.Examples.Exercises.{same_text, fill_in}

abbrev pub later : LessonInteraction
later = record fill_in { id = "later"; start_ms = 9000 }

abbrev pub two_questions : List LessonInteraction
two_questions = later ∷ fill_in ∷ []

abbrev pub props : Props
props = record {
  initial_position = 0;
  interactions = two_questions;
  previous_result = none;
  feedback_mode = FeedbackMode.after_submit;
  is_preview = false;
}

abbrev pub player : Video
player = record { position = 20000; paused = false; ended = false; duration = 60000 }

abbrev pub opened : LessonState
unfolding mount
opened = mount props (some player) none

abbrev pub watched_state : LessonState
watched_state = record opened { is_initial_load = false; prev_time = 3000 }

handle_time_update-Outcome_example :
    Outcome watched_state 4000 (handle_time_update props 7 4000 watched_state)
unfolding mount opened
handle_time_update-Outcome_example =
    handle_time_update-Outcome props 7 4000 watched_state
      (record { open_attempt = refl; no_question = refl; loaded = refl }) (omega arith)

guard_seek-IsGuarded_example : IsGuarded (guard_seek watched_state)
unfolding mount
guard_seek-IsGuarded_example = guard_seek-IsGuarded watched_state player refl refl refl

time_updates_bounded_example :
    (watched_state.watched
      ≤ (time_updates props ((1, 3500) ∷ (2, 50000) ∷ []) watched_state).watched)
    × ((time_updates props ((1, 3500) ∷ (2, 50000) ∷ []) watched_state).watched
        ≤ watched_state.watched + 1500 * 2)
    × (watched_state.max_watched
        ≤ (time_updates props ((1, 3500) ∷ (2, 50000) ∷ []) watched_state).max_watched)
time_updates_bounded_example =
    time_updates_bounded props ((1, 3500) ∷ (2, 50000) ∷ []) watched_state

abbrev answered_state : LessonState
answered_state = record watched_state {
  responses = ("fill", Response.fill_blank ("one" ∷ [])) ∷ [];
  passed_ids = "fill" ∷ "later" ∷ [];
}

abbrev twice : List Event
twice = submit_pressed 1 ∷ submit_failed Failure.value ∷ submit_pressed 2 ∷ submit_pressed 3 ∷ []

run_requests_example :
    (run same_text props twice answered_state).1.submissions ≤ suc (total_allowed twice)
run_requests_example = run_requests same_text props twice answered_state

-- The failure allows a second call, and nothing a third.
run-twice : (run same_text props twice answered_state).1.submissions ≡ 2
unfolding run step press_submit handle_submit run_submit is_blocked fail_submit end_failed
    ready_to_submit all_answered mount begin_submit record_all_times request_of
run-twice = refl

abbrev over_state : LessonState
over_state = record answered_state { submitted = true; result = none }

run-IsOver_example :
    IsOver none (run same_text props (submit_pressed 1 ∷ retry_pressed 2 ∷ []) over_state).0
    × ((run same_text props (submit_pressed 1 ∷ retry_pressed 2 ∷ []) over_state).1.submissions ≡ 0)
unfolding mount
run-IsOver_example =
    run-IsOver same_text props none (submit_pressed 1 ∷ retry_pressed 2 ∷ []) over_state
      (record { over = refl; settled = refl; kept = refl }) (refl, (refl, tt))

abbrev each_props : Props
each_props = record props { feedback_mode = FeedbackMode.after_each }

abbrev restored_state : LessonState
restored_state = record answered_state {
  auto_submit_draft = some answered_state.responses;
  auto_submitted_draft = true;
  submitted = true;
}

retake-stuck_example :
    ((run same_text each_props
        (auto_submitted 1 ∷ retry_pressed 2 ∷ [])
        (handle_retake each_props restored_state)).1.submissions
      ≡ 0)
    × ((run same_text each_props
          (auto_submitted 1 ∷ retry_pressed 2 ∷ [])
          (handle_retake each_props restored_state)).0.submitted
        ≡ false)
unfolding mount
retake-stuck_example =
    retake-stuck same_text each_props answered_state.responses
      (auto_submitted 1 ∷ retry_pressed 2 ∷ []) restored_state refl refl refl refl
      (refl, (refl, tt))

abbrev draft_text : Draft → String
draft_text d = "draft"

abbrev read_draft : String → Option Draft
read_draft t = some (draft_of answered_state)

abbrev reloaded : LessonState
reloaded = reload draft_text read_draft props (some player) answered_state

reload-persist_example :
    (reloaded.responses ≡ answered_state.responses)
    × (reloaded.passed_ids ≡ answered_state.passed_ids)
    × (reloaded.submitted ≡ false)
    × (reloaded.auto_submit_draft ≡ some answered_state.responses)
unfolding mount
reload-persist_example =
    reload-persist draft_text read_draft props (some player) answered_state refl refl refl
      (omega arith) (omega arith)

abbrev good_grade : Grade
good_grade = record { score = 700; max_score = 1000; feedback = none }

abbrev preview_flight : Flight
preview_flight = record {
  responses = ("fill", Response.fill_blank ("one" ∷ [])) ∷ [];
  interactions = two_questions;
  draft_grades = ("later", good_grade) ∷ [];
  attempt_count = 1;
  watch_fraction = record { part = 0; whole = 1 };
}

-- A video whose watched time passes its length counts as watched, and no more than once.
watch_fraction-at_most_whole :
    compute_video_watch_fraction (record answered_state {
      video = some (record { position = 0; duration = 9000; paused = true; ended = false });
      watched = 12000;
    })
    ≡ record { part = 9000; whole = 9000 }
unfolding compute_video_watch_fraction
watch_fraction-at_most_whole = refl
