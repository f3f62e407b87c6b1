-- ===== src/Examples/Tasks.antt =====
-- The tasks of a lesson, polled and tracked, at concrete inputs.
use bachelor_thesis.Analysis.Shell.{stage_of}
use bachelor_thesis.Errors.{includes}
use bachelor_thesis.Analysis.Ended.{
  sync_once, attribute_once, close_timings, finish_succeeded, finish_by_status, finish_task,
  track_ended,
}
use bachelor_thesis.Analysis.Polling.Frames.{poll_run-frozen}
use bachelor_thesis.Analysis.Workflow.{
  AnalysisStatus, WorkflowProps, mount_workflow, reset_pending, Analysis, sync_run,
}
use bachelor_thesis.Analysis.Tracker.Once.{handle_polls-once}
use bachelor_thesis.Analysis.Stale.Unseen.{detect_stale-unchanged}
use bachelor_thesis.Analysis.Tracker.Paid.{syncs, ends}
use bachelor_thesis.Analysis.Tracker.{handle_task, handle_tasks, handle_polls}
use bachelor_thesis.Analysis.Timings.{Timings}
use bachelor_thesis.Analysis.Polling.{
  FrameRef, PollState, PollEvent, answered, frame_fired, effect_cleaned, effect_enabled, poll_run,
  poll_interval,
}
use bachelor_thesis.Analysis.Tracker.Stage.{ShowsStage, handle_task-OneStage}
use bachelor_thesis.Analysis.Stale.{AnalysisConfig, detect_stale}
use bachelor_thesis.Prelude.{
  begins, ℕ, ◌≤◌, ◌≡◌, refl, ◌⊎◌, true, Option, none, some, List, [], ◌∷◌, has, add, delete, get,
  set,
}
use bachelor_thesis.Analysis.Types.{
  TaskKind, TaskStatus, Timestamp, LessonTask, StreamRunState, GenRunState, ContentStep,
}
use bachelor_thesis.Analysis.Active.{
  load_transcript, sync_analysis, after_extract, TrackerState, track_pipeline, track_active,
}

abbrev pub pipeline : LessonTask
pipeline = record {
  id = "t1";
  chunk_id = "";
  kind = TaskKind.run_pipeline;
  status = TaskStatus.running;
  progress_step = "CHUNKING";
  progress_current = 1;
  progress_total = 3;
  message = "";
  error_msg = "";
  created_at = some (record { seconds = 10; nanos = 0 });
  updated_at = none;
  started_at = none;
  finished_at = none;
  last_heartbeat = none;
}

abbrev pub extract_done : LessonTask
extract_done = record pipeline {
  id = "t2";
  kind = TaskKind.extract_transcript;
  status = TaskStatus.succeeded;
}

abbrev pub fresh_tracker : TrackerState
fresh_tracker = record {
  started = "t2" ∷ [];
  completed = [];
  status_by_id = [];
  gen_chunks_loaded = [];
  transcript_loaded = [];
  analysis_synced = [];
  extract_cleared = [];
  failed_attributed = [];
  segments = [];
  chunks = [];
  interactions = [];
  extract_state = StreamRunState.idle;
  chunk_state = StreamRunState.done;
  gen_state = GenRunState.done;
  extract_timings = [];
  chunk_timings = [];
}

abbrev two_polls : List (ℕ × List LessonTask)
two_polls = (1, extract_done ∷ pipeline ∷ []) ∷ (2, extract_done ∷ pipeline ∷ []) ∷ []

handle_polls-once_example :
    (syncs "t2" (handle_polls two_polls fresh_tracker).1 ≤ 1)
    × (ends "t2" (handle_polls two_polls fresh_tracker).1 ≤ 1)
handle_polls-once_example = handle_polls-once "t2" two_polls fresh_tracker

-- The second poll asks for nothing more.
two_polls_load :
    (handle_polls two_polls fresh_tracker).1
    ≡ sync_analysis "t2" ∷ after_extract "t2" ∷ load_transcript "t1" ∷ []
unfolding handle_polls handle_tasks handle_task track_ended sync_once attribute_once finish_task
    finish_by_status finish_succeeded close_timings track_active track_pipeline includes begins has
    add delete get set
two_polls_load = refl

handle_task-OneStage_example :
    ShowsStage (stage_of (some pipeline)) (handle_task 5 pipeline fresh_tracker).0
handle_task-OneStage_example = handle_task-OneStage 5 pipeline fresh_tracker refl refl

abbrev open_step : Timings
open_step =
    (1, record { start = 10; finish = none }) ∷ (2, record { start = 3; finish = some 8 }) ∷ []

abbrev plain_message : Timestamp → Option ℕ
plain_message t = none

abbrev short_limits : AnalysisConfig
short_limits = record { stale_threshold_ms = 1000; heartbeat_timeout_ms = 1000 }

detect_stale-unchanged_example :
    detect_stale plain_message short_limits 999999999 (pipeline ∷ []) fresh_tracker ≡ fresh_tracker
detect_stale-unchanged_example =
    detect_stale-unchanged plain_message (λ t. refl) short_limits 999999999 (pipeline ∷ [])
      fresh_tracker

abbrev first_poll : PollState
first_poll = record {
  tasks = [];
  last_success_at = none;
  last_error = none;
  pending = none;
  frame = FrameRef.idle;
  failures = 2;
}

abbrev later_events : List PollEvent
later_events = frame_fired 9 ∷ effect_enabled ∷ answered (pipeline ∷ []) ∷ frame_fired 12 ∷ []

poll_run-frozen_example :
    ((poll_run (answered (pipeline ∷ []) ∷ effect_cleaned ∷ later_events) first_poll).tasks
      ≡ first_poll.tasks)
    ⊎ ((poll_run (answered (pipeline ∷ []) ∷ effect_cleaned ∷ later_events) first_poll).tasks ≡ [])
poll_run-frozen_example = poll_run-frozen (pipeline ∷ []) later_events first_poll

-- The polls become rarer with each failure, up to the bound.
poll_intervals :
    (poll_interval 2500 30000 0 ≡ 2500)
    × (poll_interval 2500 30000 2 ≡ 5000)
    × (poll_interval 2500 30000 9 ≡ 30000)
unfolding poll_interval
poll_intervals = (refl, refl, refl)

abbrev reopened : WorkflowProps
reopened = record {
  has_video = true;
  segments = [];
  chunks = [];
  interactions = [];
  transcript = "";
  status = some AnalysisStatus.processing;
  error_msg = "";
}

abbrev ready : Analysis
ready = record {
  status = AnalysisStatus.transcript_extracted;
  segments = "s1" ∷ [];
  chunks = [];
  error_msg = "";
}

-- The transcript is shown once it is there, and the workflow goes on to the chunks.
wait_shows_transcript :
    ((sync_run (none ∷ some ready ∷ []) (mount_workflow reopened)).segments ≡ "s1" ∷ [])
    × ((sync_run (none ∷ some ready ∷ []) (mount_workflow reopened)).step ≡ ContentStep.chunks)
unfolding sync_run mount_workflow
wait_shows_transcript = (refl, refl)

-- A status that is not known yet does not take away chunks that exist.
reset_keeps_chunks :
    reset_pending (record reopened { status = none; chunks = "c1" ∷ [] }) (mount_workflow reopened)
    ≡ mount_workflow reopened
unfolding reset_pending
reset_keeps_chunks = refl
