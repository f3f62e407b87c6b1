-- ===== src/Chunks/Settled.antt =====
-- What an edit of a chunk leaves.
use bachelor_thesis.Actions.{ActionResult, with_ai_client}
use bachelor_thesis.Session.Access.{UserSession}
use bachelor_thesis.Prelude.{String, ◌≡◌, refl, false, Option, none, some, List, ◌∷◌}
use bachelor_thesis.Session.{Answer}
use bachelor_thesis.Chunks.{TranscriptChunk, ChunkRequest, Mutation, MutationState, run_mutation}

-- The new list is shown and no error, or the old list and an error, which was also shown as a message.
pub data Outcome (fresh : Answer (List TranscriptChunk)) (s t : MutationState) : Type 0 where
  reloaded :
      (chunks : List TranscriptChunk)
      → fresh ≡ Answer.ok chunks
      → t.chunks ≡ chunks
      → t.mutating_error ≡ none
      → t.toasts ≡ s.toasts
      → Outcome fresh s t
  rejected :
      (msg : String)
      → t.chunks ≡ s.chunks
      → t.mutating_error ≡ some msg
      → t.toasts ≡ msg ∷ s.toasts
      → Outcome fresh s t

pub record Settled (fresh : Answer (List TranscriptChunk)) (s t : MutationState) : Type 0 where
  pub no_chunk : t.mutating_chunk_id ≡ none
  pub no_op : t.mutating_op ≡ none
  pub not_reloading : t.is_reloading ≡ false
  pub outcome : Outcome fresh s t

-- Where no reload was under way, an edit ends with no chunk marked and no reload, whatever was answered,
-- and shows either the new list and no error, or the old list and the error.
pub run_mutation-Settled :
    (m : Mutation) (action : Answer ActionResult) (fresh : Answer (List TranscriptChunk))
    (s : MutationState)
    → s.is_reloading ≡ false
    → Settled fresh s (run_mutation m action fresh s)
unfolding run_mutation
run_mutation-Settled m (Answer.failed e) fresh s h = record {
  no_chunk = refl;
  no_op = refl;
  not_reloading = h;
  outcome = rejected _ refl refl refl;
}
run_mutation-Settled m (Answer.ok r) (Answer.ok cs) s h = record {
  no_chunk = refl;
  no_op = refl;
  not_reloading = refl;
  outcome = reloaded cs refl refl refl refl;
}
run_mutation-Settled m (Answer.ok r) (Answer.failed e) s h = record {
  no_chunk = refl;
  no_op = refl;
  not_reloading = refl;
  outcome = rejected _ refl refl refl;
}

-- The state after an edit whose action was reached does not depend on what the service answered to the
-- action: an edit that the service refuses shows what a done one shows.
pub run_mutation-with_ai_client :
    {A : Type 0} (service other : String → ChunkRequest → Answer A) (session : Option UserSession)
    (m : Mutation) (fresh : Answer (List TranscriptChunk)) (s : MutationState)
    → run_mutation m (Answer.ok (with_ai_client (λ token. service token m.request) session)) fresh s
      ≡ run_mutation m (Answer.ok (with_ai_client (λ token. other token m.request) session)) fresh s
unfolding run_mutation
run_mutation-with_ai_client service other session m fresh s = refl
