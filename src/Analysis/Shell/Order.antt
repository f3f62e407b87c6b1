-- ===== src/Analysis/Shell/Order.antt =====
-- The statuses of the steps follow the order of the steps.
use bachelor_thesis.Prelude.{
  ◌≡◌, refl, Bool, true, false, ◌&&◌, ◌||◌, not, Option, none, some, arith,
}
use bachelor_thesis.Analysis.Shell.{
  ShellProps, has_transcript_content, PipelineStage, transcribe, chunk, generate, pipeline_stage,
  WorkflowStatus, transcript_status, chunk_status, exercise_status, preview_status,
}

abbrev pub is_locked : WorkflowStatus → Bool
is_locked WorkflowStatus.locked = true
is_locked _ = false

abbrev pub is_done : WorkflowStatus → Bool
is_done WorkflowStatus.done = true
is_done _ = false

abbrev pub is_running : WorkflowStatus → Bool
is_running WorkflowStatus.running = true
is_running _ = false

abbrev pub is_error : WorkflowStatus → Bool
is_error WorkflowStatus.error = true
is_error _ = false

-- While the transcript is made, or could not be made, what follows it is locked; the exercises are open only
-- where the chunks are done or being divided again; and nothing is previewed while the transcript is made.
pub record InOrder (t c e v : WorkflowStatus) : Type 0 where
  pub chunks_wait : ((is_running t || is_error t) && not (is_locked c)) ≡ false
  pub exercises_wait : ((is_running t || is_error t) && not (is_locked e)) ≡ false
  pub opened : (not (is_locked e) && not (is_done c || is_running c)) ≡ false
  pub unseen : (is_running t && not (is_locked v)) ≡ false

by_stage :
    (stage : Option PipelineStage) (p : ShellProps)
    → InOrder
        (transcript_status stage p)
        (chunk_status stage p)
        (exercise_status stage p)
        (preview_status stage p)
unfolding transcript_status chunk_status exercise_status preview_status has_transcript_content
by_stage (some transcribe) p = record {
  chunks_wait = refl;
  exercises_wait = refl;
  opened = refl;
  unseen = refl;
}
by_stage (some chunk) p = record {
  chunks_wait = refl;
  exercises_wait = refl;
  opened = refl;
  unseen = refl;
}
by_stage (some generate) p = record {
  chunks_wait = refl;
  exercises_wait = refl;
  opened = refl;
  unseen = refl;
}
by_stage none p = record {
  chunks_wait = ground arith;
  exercises_wait = ground arith;
  opened = ground arith;
  unseen = ground arith;
}

-- Whatever the state of the workflow, while the transcript is made, or could not be made, the chunks and the
-- exercises are locked; the exercises are open only where the chunks are done or being divided again; and
-- nothing is previewed while the transcript is made.
pub pipeline_stage-InOrder :
    (p : ShellProps)
    → InOrder
        (transcript_status (pipeline_stage p) p)
        (chunk_status (pipeline_stage p) p)
        (exercise_status (pipeline_stage p) p)
        (preview_status (pipeline_stage p) p)
pipeline_stage-InOrder p = by_stage (pipeline_stage p) p
