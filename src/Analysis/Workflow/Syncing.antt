-- ===== src/Analysis/Workflow/Syncing.antt =====
-- The wait for an analysis that is under way.
use bachelor_thesis.Analysis.Types.{StreamRunState}
use bachelor_thesis.Prelude.{
  ◌≡◌, refl, ◌⊎◌, inl, inr, Bool, true, false, ◌||◌, not, Option, none, some, List, [], ◌∷◌,
  Bool-cases, any,
}
use bachelor_thesis.Analysis.Workflow.{
  AnalysisStatus, is_processing, WorkflowState, Analysis, is_syncing, end_sync, end_syncs,
  sync_status, sync_answer, waits, sync_run,
}

-- Whether an answer ends the wait.
abbrev pub ends_wait : Option Analysis → Bool
ends_wait none = false
ends_wait (some a) = not (is_processing (some a.status))

end_sync-is_syncing :
    (run to : StreamRunState) → is_syncing to ≡ false → is_syncing (end_sync run to) ≡ false
end_sync-is_syncing StreamRunState.syncing to h = h
end_sync-is_syncing StreamRunState.idle to h = refl
end_sync-is_syncing StreamRunState.starting to h = refl
end_sync-is_syncing (StreamRunState.running at coarse) to h = refl
end_sync-is_syncing (StreamRunState.stale at) to h = refl
end_sync-is_syncing StreamRunState.done to h = refl
end_sync-is_syncing (StreamRunState.error at message) to h = refl

end_syncs-waits :
    (to : StreamRunState) (s : WorkflowState)
    → is_syncing to ≡ false
    → waits (end_syncs to s) ≡ false
end_syncs-waits to s h =
    rw (end_sync-is_syncing s.extract_state to h, end_sync-is_syncing s.chunk_state to h) refl

sync_status-waits :
    (a : Analysis) (st : AnalysisStatus) (s : WorkflowState)
    → ((is_processing (some st) ≡ true) × (sync_status a st s ≡ s))
      ⊎ ((is_processing (some st) ≡ false) × (waits (sync_status a st s) ≡ false))
unfolding sync_status
sync_status-waits a AnalysisStatus.processing s = inl (refl, refl)
sync_status-waits a AnalysisStatus.unspecified s = inr (refl, end_syncs-waits _ s refl)
sync_status-waits a AnalysisStatus.pending s = inr (refl, end_syncs-waits _ s refl)
sync_status-waits a AnalysisStatus.error s = inr (refl, end_syncs-waits _ s refl)
sync_status-waits a AnalysisStatus.done s = inr (refl, end_syncs-waits StreamRunState.done s refl)
sync_status-waits a AnalysisStatus.transcript_extracted s =
    inr (refl, end_syncs-waits StreamRunState.done s refl)
sync_status-waits a AnalysisStatus.chunks_ready s =
    inr (refl, end_syncs-waits StreamRunState.done s refl)

-- An answer leaves the state as it is, or ends the wait.
sync_answer-waits :
    (a : Option Analysis) (s : WorkflowState)
    → ((ends_wait a ≡ false) × (sync_answer a s ≡ s)) ⊎ (waits (sync_answer a s) ≡ false)
unfolding sync_answer
sync_answer-waits none s = inl (refl, refl)
sync_answer-waits (some a) s = elim (sync_status-waits a a.status s) [
  | inl (h, e) ↦ inl (rw h refl, e)
  | inr (h, e) ↦ inr e
]

rests : (xs : List (Option Analysis)) (s : WorkflowState) → waits s ≡ false → sync_run xs s ≡ s
unfolding sync_run
rests [] s h = refl
rests (a ∷ xs) s h = rw h refl

-- What a list of answers does to a state.
Waited : List (Option Analysis) → WorkflowState → Type 0
Waited xs s = ((any ends_wait xs ≡ false) × (sync_run xs s ≡ s)) ⊎ (waits (sync_run xs s) ≡ false)

after_answer :
    (a : Option Analysis) (xs : List (Option Analysis)) (s : WorkflowState)
    → Waited xs s
    → ((ends_wait a ≡ false) × (sync_answer a s ≡ s)) ⊎ (waits (sync_answer a s) ≡ false)
    → (((ends_wait a || any ends_wait xs) ≡ false) × (sync_run xs (sync_answer a s) ≡ s))
      ⊎ (waits (sync_run xs (sync_answer a s)) ≡ false)
unfolding Waited
after_answer a xs s rest (inl (h, e)) = rw (h, e) rest
after_answer a xs s rest (inr h) = inr (rw (rests xs (sync_answer a s) h, h) refl)

-- While every answer is that the analysis is still under way or cannot be asked, the state stays as it is;
-- the first other answer ends the wait of both runs, and it does not start again.
pub sync_run-waits :
    (xs : List (Option Analysis)) (s : WorkflowState)
    → ((any ends_wait xs ≡ false) × (sync_run xs s ≡ s)) ⊎ (waits (sync_run xs s) ≡ false)
unfolding sync_run any Waited
sync_run-waits [] s = inl (refl, refl)
sync_run-waits (a ∷ xs) s = elim (Bool-cases (waits s)) [
  | inl w ↦ rw w (after_answer a xs s (sync_run-waits xs s) (sync_answer-waits a s))
  | inr w ↦ inr (rw (w, w) refl)
]
