-- ===== src/Analysis/Workflow/Mounting.antt =====
-- What the workflow shows when the page is opened.
use bachelor_thesis.Prelude.{
  ◌≡◌, refl, Bool, true, false, ◌&&◌, ◌||◌, not, Option, none, some, arith,
}
use bachelor_thesis.Analysis.Types.{StreamRunState, GenRunState}
use bachelor_thesis.Analysis.Workflow.{
  AnalysisStatus, WorkflowProps, is_error, is_processing, filled, mount_workflow, is_syncing,
}

abbrev pub has_failed : StreamRunState → Bool
has_failed (StreamRunState.error at message) = true
has_failed _ = false

abbrev pub gen_failed : GenRunState → Bool
gen_failed (GenRunState.error message) = true
gen_failed _ = false

apart : (o : Option AnalysisStatus) → (is_error o && is_processing o) ≡ false
apart none = refl
apart (some AnalysisStatus.unspecified) = refl
apart (some AnalysisStatus.pending) = refl
apart (some AnalysisStatus.processing) = refl
apart (some AnalysisStatus.done) = refl
apart (some AnalysisStatus.error) = refl
apart (some AnalysisStatus.transcript_extracted) = refl
apart (some AnalysisStatus.chunks_ready) = refl

-- Opened on an analysis that failed, the page shows the failure in one of the three runs; opened on one
-- under way, it waits in at most one of the two runs that wait; and opened on any other, in none of them.
pub mount_workflow-runs :
    (p : WorkflowProps)
    → ((has_failed (mount_workflow p).extract_state
          || has_failed (mount_workflow p).chunk_state
          || gen_failed (mount_workflow p).gen_state)
        ≡ is_error p.status)
      × ((is_syncing (mount_workflow p).extract_state && is_syncing (mount_workflow p).chunk_state)
          ≡ false)
      × ((is_syncing (mount_workflow p).extract_state || is_syncing (mount_workflow p).chunk_state)
          ≡ (is_processing p.status && (not (filled p.segments) || not (filled p.chunks))))
unfolding mount_workflow
mount_workflow-runs p = let h = apart p.status in ground arith
