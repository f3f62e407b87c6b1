-- ===== src/Analysis/Panel.antt =====
-- The panel of the tasks that run in the background (lessons/[lessonId]/lesson-task-panel.tsx).
pub mod Shown
use bachelor_thesis.Prelude.{
  ℕ, ◌+◌, String, Bool, true, false, ◌&&◌, not, Option, none, some, List, ltb, ◌==◌, filter, Ids,
  has, add,
}
use bachelor_thesis.Analysis.Types.{TaskKind, TaskStatus, LessonTask, ms_of}
use bachelor_thesis.Analysis.Stale.{AnalysisConfig}

pub data PanelStep : Type 0 where
  transcript_step chunks_step exercises_step no_step : PanelStep

unfoldable pub task_kind_to_step : TaskKind → PanelStep
task_kind_to_step TaskKind.extract_transcript = transcript_step
task_kind_to_step TaskKind.chunk_transcript = chunks_step
task_kind_to_step TaskKind.generate_interactions = exercises_step
task_kind_to_step _ = no_step

abbrev pub step_number : PanelStep → ℕ
step_number transcript_step = 1
step_number chunks_step = 2
step_number exercises_step = 3
step_number no_step = 4

abbrev pub same_step : PanelStep → PanelStep → Bool
same_step a b = step_number a == step_number b

-- The operator `??` on three times; a timestamp of the messages has its seconds and nanoseconds.
abbrev pub last_heartbeat_ms : LessonTask → Option ℕ
last_heartbeat_ms task = elim task.last_heartbeat [
  | some t ↦ some (ms_of t)
  | none ↦ elim task.updated_at [
    | some t ↦ some (ms_of t)
    | none ↦ elim task.created_at [ some t ↦ some (ms_of t) | none ↦ none ]
  ]
]

abbrev is_older : ℕ → ℕ → Option ℕ → Bool
is_older limit now none = false
is_older limit now (some at) = ltb (at + limit) now

abbrev created_ms : LessonTask → Option ℕ
created_ms task = elim task.created_at [ some t ↦ some (ms_of t) | none ↦ none ]

abbrev stale_by_status : AnalysisConfig → ℕ → LessonTask → TaskStatus → Bool
stale_by_status config now task TaskStatus.running =
    ltb 0 config.heartbeat_timeout_ms
    && is_older config.heartbeat_timeout_ms now (last_heartbeat_ms task)
stale_by_status config now task TaskStatus.queued =
    ltb 0 config.stale_threshold_ms && is_older config.stale_threshold_ms now (created_ms task)
stale_by_status config now task _ = false

-- `isTaskStale`.
unfoldable pub is_task_stale : AnalysisConfig → ℕ → LessonTask → Bool
is_task_stale config now task = stale_by_status config now task task.status

abbrev pub failed_dismiss_ms : ℕ
failed_dismiss_ms = 30000

abbrev pub succeeded_dismiss_ms : ℕ
succeeded_dismiss_ms = 5000

abbrev finished_ms : LessonTask → Option ℕ
finished_ms task = elim task.finished_at [ some t ↦ some (ms_of t) | none ↦ none ]

abbrev is_recent : Bool → ℕ → ℕ → Option ℕ → Bool
is_recent unknown limit now none = unknown
is_recent unknown limit now (some at) = ltb now (at + limit)

abbrev keep_by_status : ℕ → LessonTask → TaskStatus → Bool
keep_by_status now task TaskStatus.queued = true
keep_by_status now task TaskStatus.running = true
keep_by_status now task TaskStatus.failed = is_recent true failed_dismiss_ms now (finished_ms task)
keep_by_status now task TaskStatus.canceled =
    is_recent true failed_dismiss_ms now (finished_ms task)
keep_by_status now task TaskStatus.succeeded =
    is_recent false succeeded_dismiss_ms now (finished_ms task)
keep_by_status now task TaskStatus.unspecified = false

-- `shouldKeepTask`.
unfoldable pub should_keep_task : Ids → ℕ → LessonTask → Bool
unfolding has
should_keep_task dismissed now task =
    not (has dismissed task.id) && keep_by_status now task task.status

abbrev pub is_pipeline : TaskKind → Bool
is_pipeline TaskKind.run_pipeline = true
is_pipeline _ = false

abbrev pub is_elsewhere : PanelStep → Bool → LessonTask → Bool
is_elsewhere step hide_pipeline task =
    not (hide_pipeline && is_pipeline task.kind)
    && not (same_step (task_kind_to_step task.kind) step)

-- The tasks that the panel shows for the step that is viewed.
unfoldable pub display_tasks : Ids → ℕ → PanelStep → Bool → List LessonTask → List LessonTask
unfolding should_keep_task task_kind_to_step filter
display_tasks dismissed now step hide_pipeline tasks =
    filter (is_elsewhere step hide_pipeline) (filter (should_keep_task dismissed now) tasks)

unfoldable pub dismiss : Ids → String → Ids
unfolding add
dismiss dismissed id = add dismissed id
