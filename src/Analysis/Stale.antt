-- ===== src/Analysis/Stale.antt =====
-- The check for tasks that have stopped reporting (analysis-task-tracker.ts). A timestamp is an object of
-- the message library; `to_date` is its method of that name, `none` where it has none.
pub mod Unseen
use bachelor_thesis.Prelude.{
  ℕ, ◌+◌, Bool, false, ◌&&◌, Option, none, some, List, [], ◌∷◌, ltb, ◌==◌, if◌then◌else◌, is_empty,
}
use bachelor_thesis.Analysis.Types.{
  TaskKind, TaskStatus, ProgressStep, Timestamp, LessonTask, StreamRunState, GenRunState,
  analysis_step_from_task,
}
use bachelor_thesis.Analysis.Active.{TrackerState}

pub record AnalysisConfig : Type 0 where
  pub stale_threshold_ms : ℕ
  pub heartbeat_timeout_ms : ℕ

abbrev date_of : Option ℕ → ℕ → ℕ
date_of none now = now
date_of (some ms) now = ms

module _ (to_date : Timestamp → Option ℕ) where
  -- `getMs`: a missing timestamp, or one without the method, counts as now.
  unfoldable pub get_ms : ℕ → Option Timestamp → ℕ
  get_ms now none = now
  get_ms now (some t) = date_of (to_date t) now

  -- The operator `||`: zero is falsy.
  abbrev pub or_else : ℕ → ℕ → ℕ
  or_else a b = if a == 0 then b else a

  unfoldable pub last_seen : ℕ → LessonTask → ℕ
  unfolding get_ms
  last_seen now task =
      or_else (get_ms now task.last_heartbeat)
        (or_else (get_ms now task.updated_at) (get_ms now task.created_at))

  -- The age is compared with the threshold in whole numbers, which may be negative in the source.
  unfoldable pub is_stale : AnalysisConfig → ℕ → LessonTask → TaskStatus → Bool
  unfolding last_seen get_ms
  is_stale config now task TaskStatus.running =
      ltb 0 config.heartbeat_timeout_ms
      && ltb (last_seen now task + config.heartbeat_timeout_ms) now
  is_stale config now task TaskStatus.queued =
      ltb 0 config.stale_threshold_ms
      && ltb (get_ms now task.created_at + config.stale_threshold_ms) now
  is_stale config now task _ = false

  abbrev pub stale_run : Option ProgressStep → StreamRunState → StreamRunState
  stale_run step (StreamRunState.running cur coarse) = StreamRunState.stale step
  stale_run step StreamRunState.syncing = StreamRunState.stale step
  stale_run step run = run

  abbrev pub stale_gen : GenRunState → GenRunState
  stale_gen (GenRunState.running message index total) =
      GenRunState.stale "Tiến trình bị treo." index total
  stale_gen run = run

  unfoldable pub mark_stale : TaskKind → LessonTask → TrackerState → TrackerState
  unfolding analysis_step_from_task
  mark_stale TaskKind.extract_transcript task s = record s {
    extract_state = stale_run (analysis_step_from_task task) s.extract_state;
  }
  mark_stale TaskKind.chunk_transcript task s = record s {
    chunk_state = stale_run (analysis_step_from_task task) s.chunk_state;
  }
  mark_stale TaskKind.generate_interactions task s =
      if is_empty task.chunk_id then record s { gen_state = stale_gen s.gen_state } else s
  mark_stale _ task s = s

  -- One tick of the timer, over the tasks.
  unfoldable pub detect_stale : AnalysisConfig → ℕ → List LessonTask → TrackerState → TrackerState
  unfolding is_stale mark_stale
  detect_stale config now [] s = s
  detect_stale config now (task ∷ tasks) s =
      detect_stale config now tasks
        (if is_stale config now task task.status then mark_stale task.kind task s else s)
