-- ===== src/Chunks.antt =====
-- The edits of the chunks of a transcript: merging, deleting, splitting and moving a boundary
-- (lessons/[lessonId]/analysis-chunk-mutations.ts, and the actions on chunks of actions.ts there).
pub mod Merging
pub mod Settled
use bachelor_thesis.Interaction.Quantity.{ChunkInteractionConfig}
use bachelor_thesis.Prelude.{
  ℕ, zero, suc, String, Bool, true, false, Option, none, some, List, [], ◌∷◌, str_eq, leb,
  if◌then◌else◌, length, get_elem?,
}
use bachelor_thesis.Session.{Answer}
use bachelor_thesis.Actions.{ActionResult}
use bachelor_thesis.Errors.{Failure, to_user_message}

-- A chunk; its bounds are in milliseconds.
pub record TranscriptChunk : Type 0 where
  pub id : String
  pub order_index : ℕ
  pub start_ms : ℕ
  pub end_ms : ℕ
  pub summary : String
  pub transcript : String
  pub interaction_config : Option ChunkInteractionConfig

pub data MutatingOp : Type 0 where
  merge delete split move : MutatingOp

-- What an action asks of the service.
pub data ChunkRequest : Type 0 where
  merge_chunks : String → String → ChunkRequest
  delete_chunk : String → ChunkRequest
  split_chunk : String → ℕ → ChunkRequest
  adjust_chunk_boundary : String → String → ℕ → ChunkRequest

-- The edit that a handler starts.
pub record Mutation : Type 0 where
  pub chunk_id : Option String
  pub op : Option MutatingOp
  pub request : ChunkRequest
  pub fallback : String

-- The state of the hook, with the messages that were shown, the last first.
pub record MutationState : Type 0 where
  pub chunks : List TranscriptChunk
  pub mutating_chunk_id : Option String
  pub mutating_op : Option MutatingOp
  pub mutating_error : Option String
  pub is_reloading : Bool
  pub toasts : List String

abbrev one_later : Option ℕ → Option ℕ
one_later none = none
one_later (some i) = some (suc i)

-- `Array.prototype.findIndex`, with `none` for -1.
unfoldable pub find_index : {A : Type 0} → (A → Bool) → List A → Option ℕ
find_index p [] = none
find_index p (x ∷ xs) = let rest = find_index p xs in if p x then some 0 else one_later rest

abbrev pub has_chunk_id : String → TranscriptChunk → Bool
has_chunk_id id c = str_eq c.id id

-- The edit in which the chunk `id` is merged, the second chunk into the first.
abbrev pub merge_of : String → String → String → Mutation
merge_of id keep discard = record {
  chunk_id = some id;
  op = some MutatingOp.merge;
  request = merge_chunks keep discard;
  fallback = "Không thể gộp đoạn";
}

abbrev merge_into : String → Option TranscriptChunk → Option Mutation
merge_into id none = none
merge_into id (some prev) = some (merge_of id prev.id id)

abbrev merge_with : String → Option TranscriptChunk → Option Mutation
merge_with id none = none
merge_with id (some next) = some (merge_of id id next.id)

abbrev merge_prev_at : List TranscriptChunk → String → Option ℕ → Option Mutation
merge_prev_at chunks id none = none
merge_prev_at chunks id (some zero) = none
merge_prev_at chunks id (some (suc i)) = merge_into id (get_elem? chunks i)

unfoldable pub handle_merge_with_prev : List TranscriptChunk → String → Option Mutation
unfolding find_index
handle_merge_with_prev chunks id = merge_prev_at chunks id (find_index (has_chunk_id id) chunks)

abbrev merge_next_at : List TranscriptChunk → String → Option ℕ → Option Mutation
merge_next_at chunks id none = none
merge_next_at chunks id (some i) =
    if leb (length chunks) (suc i) then none else merge_with id (get_elem? chunks (suc i))

unfoldable pub handle_merge_with_next : List TranscriptChunk → String → Option Mutation
unfolding find_index
handle_merge_with_next chunks id = merge_next_at chunks id (find_index (has_chunk_id id) chunks)

unfoldable pub handle_delete_chunk : String → Mutation
handle_delete_chunk id = record {
  chunk_id = some id;
  op = some MutatingOp.delete;
  request = delete_chunk id;
  fallback = "Không thể xóa đoạn";
}

unfoldable pub handle_split_chunk : String → ℕ → Mutation
handle_split_chunk id split_at = record {
  chunk_id = some id;
  op = some MutatingOp.split;
  request = split_chunk id split_at;
  fallback = "Không thể tách đoạn";
}

unfoldable pub handle_move_segment : String → String → ℕ → String → Mutation
handle_move_segment prev next boundary trigger = record {
  chunk_id = some trigger;
  op = some MutatingOp.move;
  request = adjust_chunk_boundary prev next boundary;
  fallback = "Không thể di chuyển segment";
}

-- `runMutation` up to its first await.
abbrev begin_mutation : Mutation → MutationState → MutationState
begin_mutation m s = record s {
  mutating_chunk_id = m.chunk_id;
  mutating_op = m.op;
  mutating_error = none;
}

abbrev end_mutation : MutationState → MutationState
end_mutation s = record s { mutating_chunk_id = none; mutating_op = none }

fail_mutation : String → Failure → MutationState → MutationState
unfolding to_user_message
fail_mutation fallback e s =
    let msg = to_user_message e fallback in
    record s { mutating_error = some msg; toasts = msg ∷ s.toasts }

-- `reloadChunks`: what the answer of the list leaves; a failure is thrown on.
unfoldable pub reload_chunks : Answer (List TranscriptChunk) → MutationState → MutationState
reload_chunks (Answer.ok chunks) s = record s { chunks = chunks; is_reloading = false }
reload_chunks (Answer.failed e) s = record s { is_reloading = false }

abbrev after_reload : String → Answer (List TranscriptChunk) → MutationState → MutationState
after_reload fallback (Answer.ok chunks) s = s
after_reload fallback (Answer.failed e) s = fail_mutation fallback e s

-- What follows the call of the action, which is rejected only where the action itself is not reached.
abbrev after_action :
    String → Answer ActionResult → Answer (List TranscriptChunk) → MutationState → MutationState
after_action fallback (Answer.failed e) fresh s = fail_mutation fallback e s
after_action fallback (Answer.ok result) fresh s =
    after_reload fallback fresh (reload_chunks fresh (record s { is_reloading = true }))

-- `runMutation`, with the answer of the action and that of the list.
unfoldable pub run_mutation :
    Mutation → Answer ActionResult → Answer (List TranscriptChunk) → MutationState → MutationState
unfolding fail_mutation reload_chunks
run_mutation m action fresh s =
    end_mutation (after_action m.fallback action fresh (begin_mutation m s))
