-- ===== src/Analysis/Types.antt =====
-- The tasks of the service, and the phases of the three runs of the workflow.
use bachelor_thesis.Prelude.{
  ℕ, ◌+◌, ◌*◌, ◌/◌, String, Bool, true, false, Option, none, some, ltb, ◌==◌, if◌then◌else◌,
}
use bachelor_thesis.Errors.{includes}

pub data TaskKind : Type 0 where
  unspecified extract_transcript chunk_transcript generate_interactions run_pipeline : TaskKind

pub data TaskStatus : Type 0 where
  unspecified queued running succeeded failed canceled : TaskStatus

pub data ProgressStep : Type 0 where
  unspecified downloading uploading analyzing saving done error : ProgressStep

abbrev pub step_number : ProgressStep → ℕ
step_number ProgressStep.unspecified = 0
step_number ProgressStep.downloading = 1
step_number ProgressStep.uploading = 2
step_number ProgressStep.analyzing = 3
step_number ProgressStep.saving = 4
step_number ProgressStep.done = 5
step_number ProgressStep.error = 6

pub record Timestamp : Type 0 where
  pub seconds : ℕ
  pub nanos : ℕ

-- The progress counts are not negative.
pub record LessonTask : Type 0 where
  pub id : String
  pub chunk_id : String
  pub kind : TaskKind
  pub status : TaskStatus
  pub progress_step : String
  pub progress_current : ℕ
  pub progress_total : ℕ
  pub message : String
  pub error_msg : String
  pub created_at : Option Timestamp
  pub updated_at : Option Timestamp
  pub started_at : Option Timestamp
  pub finished_at : Option Timestamp
  pub last_heartbeat : Option Timestamp

pub data StreamRunState : Type 0 where
  idle starting syncing : StreamRunState
  running : Option ProgressStep → Bool → StreamRunState
  stale : Option ProgressStep → StreamRunState
  done : StreamRunState
  error : Option ProgressStep → String → StreamRunState

pub data GenRunState : Type 0 where
  idle starting : GenRunState
  running : String → ℕ → ℕ → GenRunState
  stale : String → ℕ → ℕ → GenRunState
  done : GenRunState
  error : String → GenRunState

unfoldable pub analysis_step_from_task : LessonTask → Option ProgressStep
unfolding includes
analysis_step_from_task task =
    if includes task.progress_step "DOWNLOADING"
    then some ProgressStep.downloading
    else if includes task.progress_step "UPLOADING"
    then some ProgressStep.uploading
    else if includes task.progress_step "ANALYZING"
    then some ProgressStep.analyzing
    else if includes task.progress_step "SAVING"
    then some ProgressStep.saving
    else none

abbrev pub is_active : TaskStatus → Bool
is_active TaskStatus.queued = true
is_active TaskStatus.running = true
is_active _ = false

abbrev pub is_terminal : TaskStatus → Bool
is_terminal TaskStatus.succeeded = true
is_terminal TaskStatus.failed = true
is_terminal TaskStatus.canceled = true
is_terminal _ = false

-- How the strip shows a step of a run.
pub data StepState : Type 0 where
  pending active done error : StepState

abbrev compare_step : ProgressStep → ProgressStep → StepState → StepState
compare_step step at here =
    if ltb (step_number step) (step_number at)
    then StepState.done
    else if step_number step == step_number at
    then here
    else StepState.pending

unfoldable pub get_step_state : ProgressStep → StreamRunState → StepState
get_step_state step StreamRunState.done = StepState.done
get_step_state step (StreamRunState.error none message) = StepState.pending
get_step_state step (StreamRunState.error (some at) message) = compare_step step at StepState.error
get_step_state step (StreamRunState.running none coarse) = StepState.pending
get_step_state step (StreamRunState.running (some cur) coarse) =
    compare_step step cur StepState.active
get_step_state step _ = StepState.pending

pub data ContentStep : Type 0 where
  upload transcript chunks exercises : ContentStep

abbrev pub ms_of : Timestamp → ℕ
ms_of t = t.seconds * 1000 + t.nanos / 1000000
