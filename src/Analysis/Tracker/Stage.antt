-- ===== src/Analysis/Tracker/Stage.antt =====
-- While a pipeline runs, one of its stages is shown as running.
use bachelor_thesis.Analysis.Shell.{PipelineStage, transcribe, chunk, generate, stage_of}
use bachelor_thesis.Prelude.{
  ℕ, ◌≡◌, refl, inl, inr, Bool, true, false, Option, none, some, Bool-cases, set,
}
use bachelor_thesis.Errors.{includes}
use bachelor_thesis.Analysis.Types.{TaskKind, LessonTask, StreamRunState, GenRunState, is_active}
use bachelor_thesis.Analysis.Active.{TrackerState, track_pipeline, track_active}
use bachelor_thesis.Analysis.Tracker.{handle_task}

abbrev pub is_generating : GenRunState → Bool
is_generating (GenRunState.running message index total) = true
is_generating _ = false

-- The stage is shown as running, with those before it done and those after it idle.
abbrev pub ShowsStage : Option PipelineStage → TrackerState → Type 0
ShowsStage (some transcribe) s =
    (s.extract_state ≡ StreamRunState.running none true)
    × (s.chunk_state ≡ StreamRunState.idle)
    × (s.gen_state ≡ GenRunState.idle)
ShowsStage (some chunk) s =
    (s.extract_state ≡ StreamRunState.done)
    × (s.chunk_state ≡ StreamRunState.running none true)
    × (s.gen_state ≡ GenRunState.idle)
ShowsStage (some generate) s =
    (s.extract_state ≡ StreamRunState.done)
    × (s.chunk_state ≡ StreamRunState.done)
    × (is_generating s.gen_state ≡ true)
ShowsStage none s = ⊥

track_pipeline-ShowsStage :
    (task : LessonTask) (s : TrackerState)
    → ShowsStage (stage_of (some task)) (track_pipeline task s).0
unfolding track_pipeline stage_of
track_pipeline-ShowsStage task s = elim (Bool-cases (includes task.progress_step "GENERATING")) [
  | inl h ↦ rw h (refl, refl, refl)
  | inr h ↦ elim (Bool-cases (includes task.progress_step "CHUNKING")) [
    | inl k ↦ rw (h, k) (refl, refl, refl)
    | inr k ↦ rw (h, k) (refl, refl, refl)
  ]
]

-- Whatever was shown before, a pipeline that is queued or running makes the tracker show as running the
-- very stage that the workflow shell reads from the same task, with the earlier stages done and the later
-- ones idle.
pub handle_task-OneStage :
    (now : ℕ) (task : LessonTask) (s : TrackerState)
    → task.kind ≡ TaskKind.run_pipeline
    → is_active task.status ≡ true
    → ShowsStage (stage_of (some task)) (handle_task now task s).0
unfolding handle_task track_active stage_of
handle_task-OneStage now task s k a =
    rw (a, k)
      (track_pipeline-ShowsStage task
        (record s { status_by_id = set s.status_by_id task.id task.status }))
