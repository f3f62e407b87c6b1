-- ===== src/Lesson/Run.antt =====
-- The student view as a machine: what may happen to it, and the calls that a sequence of it makes.
pub mod Quiet
pub mod Requests
pub mod Over
pub mod Stuck
use bachelor_thesis.Lesson.Preview.{finish_preview}
use bachelor_thesis.Prelude.{
  ℕ, ◌+◌, String, ◌&&◌, not, Option, none, some, List, [], ◌∷◌, if◌then◌else◌, is_some,
}
use bachelor_thesis.Interaction.Proto.{LessonInteraction, LessonAttempt}
use bachelor_thesis.Interaction.Attempt.{AttemptResponseInput}
use bachelor_thesis.Interaction.Types.{Response, Grade}
use bachelor_thesis.Errors.{Failure}
use bachelor_thesis.Lesson.State.{Props, LessonState, ready_to_submit}
use bachelor_thesis.Lesson.Playback.{
  handle_time_update, handle_ended, handle_first_play, hold_at_mark, guard_seek, release_clamp,
  check_initial_gate,
}
use bachelor_thesis.Lesson.Answer.{
  handle_answer, SaveOutcome, complete_save, handle_continue, handle_retake, handle_grade,
  handle_replay_count,
}
use bachelor_thesis.Lesson.Submit.{
  Request, finish_submit, fail_submit, handle_submit, retry_submit, auto_submit, submit_draft,
}
use bachelor_thesis.Lesson.Draft.{persist}

-- What the player, the questions and the drafts do.
pub data PlayEvent : Type 0 where
  time_update : ℕ → ℕ → PlayEvent
  ended : ℕ → PlayEvent
  first_play : ℕ → PlayEvent
  held : PlayEvent
  seeked : PlayEvent
  clamp_released : PlayEvent
  gate_checked : ℕ → PlayEvent
  answered : String → Response → PlayEvent
  save_done : String → SaveOutcome → PlayEvent
  continued : ℕ → String → PlayEvent
  graded : String → Grade → PlayEvent
  replayed : String → ℕ → PlayEvent
  persisted : PlayEvent

-- The rest: submissions, their ends, and a new attempt. The number is the clock.
pub data Event : Type 0 where
  play : PlayEvent → Event
  submit_pressed : ℕ → Event
  retry_pressed : ℕ → Event
  auto_submitted : ℕ → Event
  draft_submitted : ℕ → Event
  preview_done : List (String × Grade) → Event
  submit_done : Option LessonAttempt → Option (List LessonInteraction) → Event
  submit_failed : Failure → Event
  retaken : Event

unfoldable pub play_step : Props → PlayEvent → LessonState → LessonState
unfolding handle_time_update handle_ended handle_first_play hold_at_mark guard_seek release_clamp
    check_initial_gate handle_answer complete_save handle_continue handle_grade handle_replay_count
    persist
play_step props (time_update now t) s = handle_time_update props now t s
play_step props (ended now) s = handle_ended now s
play_step props (first_play now) s = handle_first_play now s
play_step props held s = hold_at_mark s
play_step props seeked s = guard_seek s
play_step props clamp_released s = release_clamp s
play_step props (gate_checked now) s = check_initial_gate props now s
play_step props (answered id r) s = handle_answer id r s
play_step props (save_done id o) s = complete_save id o s
play_step props (continued now id) s = (handle_continue props now id s).0
play_step props (graded id g) s = handle_grade id g s
play_step props (replayed id n) s = handle_replay_count id n s
play_step props persisted s = persist props s

-- The buttons of the status card: to submit when all is answered, and to try again after an error.
unfoldable pub press_submit : Props → ℕ → LessonState → LessonState × Option Request
unfolding handle_submit ready_to_submit
press_submit props now s = if ready_to_submit props s then handle_submit props now s else (s, none)

unfoldable pub press_retry : Props → ℕ → LessonState → LessonState × Option Request
unfolding retry_submit
press_retry props now s =
    if is_some s.error && not s.submitted then retry_submit props now s else (s, none)

-- The state after an event and the submission that it sends; the saves of answers are in `save_of`.
-- `lower` is the runtime's lower-casing of a text.
unfoldable pub step : (String → String) → Props → Event → LessonState → LessonState × Option Request
unfolding play_step press_submit press_retry auto_submit submit_draft finish_preview finish_submit
    fail_submit handle_retake
step lower props (play e) s = (play_step props e s, none)
step lower props (submit_pressed now) s = press_submit props now s
step lower props (retry_pressed now) s = press_retry props now s
step lower props (auto_submitted now) s = auto_submit props now s
step lower props (draft_submitted now) s = submit_draft props now s
step lower props (preview_done calls) s = (finish_preview lower calls s, none)
step lower props (submit_done attempt fresh) s = (finish_submit attempt fresh s, none)
step lower props (submit_failed e) s = (fail_submit e s, none)
step lower props retaken s = (handle_retake props s, none)

abbrev sent : Option Request → ℕ
sent none = 0
sent (some r) = 1

-- The save of an answer that an event asks for, `saveAttemptResponse` of `handleContinue`.
unfoldable pub save_of : Props → Event → LessonState → Option AttemptResponseInput
unfolding handle_continue
save_of props (play (continued now id)) s = (handle_continue props now id s).1
save_of props e s = none

abbrev saved : Option AttemptResponseInput → ℕ
saved none = 0
saved (some input) = 1

-- The numbers of the calls of a run: its submissions, and its saves of answers.
pub record Calls : Type 0 where
  pub submissions : ℕ
  pub saves : ℕ

-- The state after a sequence of events, and the calls that it made.
unfoldable pub run : (String → String) → Props → List Event → LessonState → LessonState × Calls
unfolding step save_of
run lower props [] s = (s, record { submissions = 0; saves = 0 })
run lower props (e ∷ es) s =
    let (t, r) = step lower props e s in
    let (u, calls) = run lower props es t in
    (
      u,
      record {
        submissions = sent r + calls.submissions;
        saves = saved (save_of props e s) + calls.saves;
      },
    )
