-- ===== src/Analysis/Polling.antt =====
-- The polling of the tasks (lessons/[lessonId]/use-lesson-tasks.ts): the answers are kept until the next
-- animation frame, and failures make the polls rarer.
pub mod Frames
use bachelor_thesis.Prelude.{
  ℕ, ◌+◌, ◌-◌, ◌*◌, ◌^◌, Option, none, some, List, [], ◌∷◌, leb, ◌==◌, if◌then◌else◌,
}
use bachelor_thesis.Errors.{Failure}
use bachelor_thesis.Analysis.Types.{LessonTask}

-- `rafRef`: no frame, a frame that will run, or one that was cancelled. The reference is null in the
-- first only.
pub data FrameRef : Type 0 where
  idle scheduled cancelled : FrameRef

pub record PollState : Type 0 where
  pub tasks : List LessonTask
  pub last_success_at : Option ℕ
  pub last_error : Option Failure
  pub pending : Option (List LessonTask)
  pub frame : FrameRef
  pub failures : ℕ

pub data PollEvent : Type 0 where
  answered : List LessonTask → PollEvent
  failed : Failure → PollEvent
  frame_fired : ℕ → PollEvent
  effect_cleaned effect_enabled effect_disabled : PollEvent

abbrev pub schedule : FrameRef → FrameRef
schedule FrameRef.idle = FrameRef.scheduled
schedule f = f

-- `scheduleApply`, where the window has animation frames.
abbrev pub schedule_apply : PollState → PollState
schedule_apply s = record s { frame = schedule s.frame }

abbrev pub apply_to : ℕ → Option (List LessonTask) → PollState → PollState
apply_to now none s = s
apply_to now (some next) s = record s {
  tasks = next;
  last_success_at = some now;
  last_error = none;
  failures = 0;
}

-- `applyPending`.
unfoldable pub apply_pending : ℕ → PollState → PollState
apply_pending now s = apply_to now s.pending (record s { frame = FrameRef.idle; pending = none })

unfoldable pub fire : FrameRef → ℕ → PollState → PollState
unfolding apply_pending
fire FrameRef.scheduled now s = apply_pending now s
fire f now s = s

abbrev pub cancel : FrameRef → FrameRef
cancel FrameRef.scheduled = FrameRef.cancelled
cancel f = f

unfoldable pub poll_step : PollEvent → PollState → PollState
unfolding fire
poll_step (answered tasks) s = schedule_apply (record s { pending = some tasks })
poll_step (failed e) s = record s { failures = s.failures + 1; last_error = some e }
poll_step (frame_fired now) s = fire s.frame now s
poll_step effect_cleaned s = record s { frame = cancel s.frame }
poll_step effect_enabled s = record s { failures = 0 }
poll_step effect_disabled s = record s { tasks = []; last_success_at = none; last_error = none }

unfoldable pub poll_run : List PollEvent → PollState → PollState
unfolding poll_step
poll_run [] s = s
poll_run (e ∷ es) s = poll_run es (poll_step e s)

abbrev pub smaller : ℕ → ℕ → ℕ
smaller a b = if leb a b then a else b

-- The time until the next poll.
unfoldable pub poll_interval : ℕ → ℕ → ℕ → ℕ
poll_interval base max_backoff failures =
    if failures == 0 then base else smaller max_backoff (base * 2 ^ (failures - 1))
