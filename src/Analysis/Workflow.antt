-- ===== src/Analysis/Workflow.antt =====
-- The state of the workflow: what it starts from, its steps, the wait for an analysis that is under way,
-- and the starts of the tasks (use-lesson-analysis-state.ts and analysis-stepper.ts).
pub mod Mounting
pub mod Syncing
use bachelor_thesis.Prelude.{
  trim, String, Bool, true, false, ◌&&◌, ◌||◌, not, Option, none, some, List, [], ◌∷◌,
  if◌then◌else◌, is_empty, or_text,
}
use bachelor_thesis.Analysis.Types.{StreamRunState, GenRunState, ContentStep}
use bachelor_thesis.Analysis.Timings.{Timings}

pub data AnalysisStatus : Type 0 where
  unspecified pending processing done error transcript_extracted chunks_ready : AnalysisStatus

-- What the page passes. The segments, the chunks and the exercises are kept by their ids.
pub record WorkflowProps : Type 0 where
  pub has_video : Bool
  pub segments : List String
  pub chunks : List String
  pub interactions : List String
  pub transcript : String
  pub status : Option AnalysisStatus
  pub error_msg : String

abbrev is_done : Option AnalysisStatus → Bool
is_done (some AnalysisStatus.done) = true
is_done _ = false

abbrev is_extracted : Option AnalysisStatus → Bool
is_extracted (some AnalysisStatus.transcript_extracted) = true
is_extracted _ = false

abbrev pub is_error : Option AnalysisStatus → Bool
is_error (some AnalysisStatus.error) = true
is_error _ = false

abbrev pub is_processing : Option AnalysisStatus → Bool
is_processing (some AnalysisStatus.processing) = true
is_processing _ = false

abbrev is_fresh : Option AnalysisStatus → Bool
is_fresh none = true
is_fresh (some AnalysisStatus.pending) = true
is_fresh _ = false

abbrev pub filled : List String → Bool
filled [] = false
filled (x ∷ xs) = true

get_initial_workflow_step :
    Bool → List String → List String → List String → String → Option AnalysisStatus → ContentStep
unfolding trim
get_initial_workflow_step video segments chunks interactions text status =
    if not video
    then ContentStep.upload
    else if filled chunks || filled interactions || is_done status
    then ContentStep.exercises
    else if filled segments || not (is_empty (trim text)) || is_extracted status
    then ContentStep.chunks
    else ContentStep.transcript

-- `reset` has the flags that the reducer reads: whether there is a video and a transcript.
pub data StepperAction : Type 0 where
  set_step : ContentStep → StepperAction
  reset : Bool → Bool → StepperAction
  advance_after_extract : Bool → StepperAction
  advance_after_chunk advance_after_generate : StepperAction

stepper_reducer : ContentStep → StepperAction → ContentStep
unfolding get_initial_workflow_step
stepper_reducer s (set_step step) = step
stepper_reducer s (reset video text) =
    let status = if text then some AnalysisStatus.transcript_extracted else none in
    let step = get_initial_workflow_step video [] [] [] "" status in
    if video then step else ContentStep.upload
stepper_reducer s (advance_after_extract has_chunks) =
    if has_chunks then ContentStep.exercises else ContentStep.chunks
stepper_reducer s advance_after_chunk = ContentStep.exercises
stepper_reducer s advance_after_generate = ContentStep.exercises

pub record WorkflowState : Type 0 where
  pub step : ContentStep
  pub segments : List String
  pub chunks : List String
  pub interactions : List String
  pub extract_state : StreamRunState
  pub chunk_state : StreamRunState
  pub gen_state : GenRunState
  pub extract_timings : Timings
  pub chunk_timings : Timings
  pub gen_warnings : List String
  pub confirm_re_extract : Bool

abbrev failed_text : String → String
failed_text message = or_text message "Thao tác thất bại."

initial_extract : WorkflowProps → StreamRunState
initial_extract p =
    if is_error p.status && not (filled p.segments)
    then StreamRunState.error none (failed_text p.error_msg)
    else if not (is_processing p.status)
    then StreamRunState.idle
    else if filled p.segments
    then StreamRunState.done
    else StreamRunState.syncing

initial_chunk : WorkflowProps → StreamRunState
initial_chunk p =
    if is_error p.status && filled p.segments && not (filled p.chunks)
    then StreamRunState.error none (failed_text p.error_msg)
    else if is_processing p.status && filled p.segments && not (filled p.chunks)
    then StreamRunState.syncing
    else StreamRunState.idle

initial_gen : WorkflowProps → GenRunState
initial_gen p =
    if is_error p.status && filled p.chunks
    then GenRunState.error (failed_text p.error_msg)
    else GenRunState.idle

unfoldable pub mount_workflow : WorkflowProps → WorkflowState
unfolding initial_extract initial_chunk initial_gen get_initial_workflow_step
mount_workflow p = record {
  step =
      get_initial_workflow_step p.has_video p.segments p.chunks p.interactions p.transcript
        p.status;
  segments = p.segments;
  chunks = p.chunks;
  interactions = p.interactions;
  extract_state = initial_extract p;
  chunk_state = initial_chunk p;
  gen_state = initial_gen p;
  extract_timings = [];
  chunk_timings = [];
  gen_warnings = [];
  confirm_re_extract = false;
}

-- The effect that starts afresh for a new video, which leaves chunks and exercises that exist alone.
unfoldable pub reset_pending : WorkflowProps → WorkflowState → WorkflowState
unfolding stepper_reducer
reset_pending p s =
    if not (is_fresh p.status) || filled p.chunks || filled p.interactions then s else record {
      step = stepper_reducer s.step (reset p.has_video false);
      segments = [];
      chunks = [];
      interactions = [];
      extract_state = StreamRunState.idle;
      chunk_state = StreamRunState.idle;
      gen_state = GenRunState.idle;
      extract_timings = [];
      chunk_timings = [];
      gen_warnings = [];
      confirm_re_extract = false;
    }

-- The answer of `getLessonAnalysis`, with the ids of the segments and of the chunks.
pub record Analysis : Type 0 where
  pub status : AnalysisStatus
  pub segments : List String
  pub chunks : List String
  pub error_msg : String

abbrev pub is_syncing : StreamRunState → Bool
is_syncing StreamRunState.syncing = true
is_syncing _ = false

abbrev end_sync : StreamRunState → StreamRunState → StreamRunState
end_sync StreamRunState.syncing to = to
end_sync run to = run

-- Both runs that wait go on to `to`.
abbrev pub end_syncs : StreamRunState → WorkflowState → WorkflowState
end_syncs to s = record s {
  extract_state = end_sync s.extract_state to;
  chunk_state = end_sync s.chunk_state to;
}

show_analysis : Analysis → WorkflowState → WorkflowState
unfolding stepper_reducer
show_analysis a s = record (end_syncs StreamRunState.done s) {
  segments = a.segments;
  chunks = a.chunks;
  step = stepper_reducer s.step (advance_after_extract (filled a.chunks));
}

sync_status : Analysis → AnalysisStatus → WorkflowState → WorkflowState
unfolding show_analysis
sync_status a AnalysisStatus.processing s = s
sync_status a AnalysisStatus.transcript_extracted s = show_analysis a s
sync_status a AnalysisStatus.chunks_ready s = show_analysis a s
sync_status a AnalysisStatus.done s = show_analysis a s
sync_status a AnalysisStatus.error s =
    end_syncs (StreamRunState.error none (failed_text a.error_msg)) s
sync_status a _ s = end_syncs StreamRunState.idle s

-- One answer while a run waits, `none` where the call failed or there is no analysis.
unfoldable pub sync_answer : Option Analysis → WorkflowState → WorkflowState
unfolding sync_status
sync_answer none s = s
sync_answer (some a) s = sync_status a a.status s

-- Whether a run waits, so that the effect asks again.
abbrev pub waits : WorkflowState → Bool
waits s = is_syncing s.extract_state || is_syncing s.chunk_state

-- The answers that come, each to a question that is asked while a run waits.
unfoldable pub sync_run : List (Option Analysis) → WorkflowState → WorkflowState
unfolding sync_answer
sync_run [] s = s
sync_run (a ∷ xs) s = let rest = sync_run xs (sync_answer a s) in if waits s then rest else s
