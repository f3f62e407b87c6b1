-- ===== src/Analysis/Shell.antt =====
-- What the workflow shows: the step and its status (lessons/[lessonId]/analysis-workflow-shell.tsx).
pub mod Order
use bachelor_thesis.Prelude.{
  trim, String, Bool, true, false, ◌&&◌, ◌||◌, not, Option, none, some, List, if◌then◌else◌, get_or,
  is_empty, find,
}
use bachelor_thesis.Errors.{includes}
use bachelor_thesis.Analysis.Types.{
  TaskKind, LessonTask, StreamRunState, GenRunState, is_active, ContentStep,
}
use bachelor_thesis.Analysis.Workflow.{AnalysisStatus, filled, is_syncing}
use bachelor_thesis.Analysis.Starting.{runs}

-- What the shell is drawn from. The segments, chunks and exercises are kept by their ids; the transcript and
-- the status are those that the page was opened with.
pub record ShellProps : Type 0 where
  pub has_video : Bool
  pub active_step : ContentStep
  pub segments : List String
  pub chunks : List String
  pub interactions : List String
  pub initial_transcript : String
  pub initial_status : Option AnalysisStatus
  pub extract_state : StreamRunState
  pub chunk_state : StreamRunState
  pub gen_state : GenRunState
  pub tasks : List LessonTask
  pub manual_step : Option ContentStep

abbrev has_text_status : Option AnalysisStatus → Bool
has_text_status (some AnalysisStatus.transcript_extracted) = true
has_text_status (some AnalysisStatus.chunks_ready) = true
has_text_status _ = false

-- `hasTranscriptContent`.
unfoldable pub has_transcript_content : ShellProps → Bool
unfolding trim
has_transcript_content p =
    filled p.segments
    || not (is_empty (trim p.initial_transcript))
    || filled p.chunks
    || filled p.interactions
    || has_text_status p.initial_status

abbrev pub generates : GenRunState → Bool
generates (GenRunState.running message index total) = true
generates _ = false

abbrev pub stream_failed : StreamRunState → Bool
stream_failed (StreamRunState.error step message) = true
stream_failed _ = false

abbrev pub gen_failed : GenRunState → Bool
gen_failed (GenRunState.error message) = true
gen_failed _ = false

abbrev pub transcribing : ShellProps → Bool
transcribing p = runs p.extract_state || is_syncing p.extract_state

abbrev pub is_complete : ShellProps → Bool
is_complete p = filled p.interactions && not (transcribing p)

pub data PipelineStage : Type 0 where
  transcribe chunk generate : PipelineStage

abbrev is_pipeline : TaskKind → Bool
is_pipeline TaskKind.run_pipeline = true
is_pipeline _ = false

abbrev pub runs_pipeline : LessonTask → Bool
runs_pipeline t = is_pipeline t.kind && is_active t.status

unfoldable pub stage_of : Option LessonTask → Option PipelineStage
unfolding includes
stage_of none = none
stage_of (some t) =
    if includes t.progress_step "GENERATING"
    then some generate
    else if includes t.progress_step "CHUNKING"
    then some chunk
    else some transcribe

unfoldable pub pipeline_stage : ShellProps → Option PipelineStage
unfolding stage_of find
pipeline_stage p = stage_of (find runs_pipeline p.tasks)

abbrev view_of : PipelineStage → ContentStep
view_of transcribe = ContentStep.transcript
view_of chunk = ContentStep.chunks
view_of generate = ContentStep.exercises

abbrev shown_step : Option PipelineStage → ShellProps → ContentStep
shown_step none p = p.active_step
shown_step (some stage) p = get_or p.manual_step (view_of stage)

-- `displayStep`: the step of the pipeline's stage, or the one that was clicked while it runs.
unfoldable pub display_step : ShellProps → ContentStep
unfolding pipeline_stage
display_step p = shown_step (pipeline_stage p) p

pub data WorkflowStatus : Type 0 where
  locked ready active running done error : WorkflowStatus

abbrev is_on_transcript : ContentStep → Bool
is_on_transcript ContentStep.transcript = true
is_on_transcript _ = false

abbrev is_on_chunks : ContentStep → Bool
is_on_chunks ContentStep.chunks = true
is_on_chunks _ = false

abbrev is_on_exercises : ContentStep → Bool
is_on_exercises ContentStep.exercises = true
is_on_exercises _ = false

abbrev pub chosen : Bool → WorkflowStatus
chosen here = if here then active else ready

unfoldable pub transcript_status : Option PipelineStage → ShellProps → WorkflowStatus
unfolding has_transcript_content
transcript_status (some transcribe) p = running
transcript_status (some _) p = done
transcript_status none p =
    if not p.has_video
    then locked
    else if stream_failed p.extract_state
    then error
    else if transcribing p
    then running
    else if filled p.segments || has_transcript_content p || filled p.chunks || is_complete p
    then done
    else chosen (is_on_transcript p.active_step)

unfoldable pub chunk_status : Option PipelineStage → ShellProps → WorkflowStatus
unfolding has_transcript_content
chunk_status (some transcribe) p = locked
chunk_status (some chunk) p = running
chunk_status (some generate) p = done
chunk_status none p =
    if transcribing p || stream_failed p.extract_state
    then locked
    else if not (has_transcript_content p) && not (is_complete p)
    then locked
    else if stream_failed p.chunk_state
    then error
    else if runs p.chunk_state
    then running
    else if filled p.chunks || is_complete p
    then done
    else chosen (is_on_chunks p.active_step)

unfoldable pub exercise_status : Option PipelineStage → ShellProps → WorkflowStatus
exercise_status (some generate) p = running
exercise_status (some _) p = locked
exercise_status none p =
    if transcribing p || stream_failed p.extract_state || stream_failed p.chunk_state
    then locked
    else if not (filled p.chunks) && not (is_complete p)
    then locked
    else if gen_failed p.gen_state
    then error
    else if generates p.gen_state
    then running
    else if filled p.interactions
    then done
    else chosen (is_on_exercises p.active_step)

unfoldable pub preview_status : Option PipelineStage → ShellProps → WorkflowStatus
preview_status (some stage) p = locked
preview_status none p = if not (transcribing p) && filled p.interactions then ready else locked
