-- ===== src/ExerciseTab/Deletion.antt =====
-- The deletions of the tab, each of which is asked to be confirmed (lessons/[lessonId]/tab-exercises.tsx).
use bachelor_thesis.Prelude.{
  String, ◌||◌, not, Option, none, some, List, [], ◌==◌, if◌then◌else◌, is_some, length, filter,
}
use bachelor_thesis.Errors.{Failure, to_user_message}
use bachelor_thesis.Interaction.Proto.{LessonInteraction}
use bachelor_thesis.ExerciseTab.{
  Scope, whole_lesson, one_chunk, TabState, update_interactions, toast, is_of_chunk, summary_of,
}

unfoldable pub request_delete_lesson : TabState → TabState
request_delete_lesson s =
    if length s.interactions_ref == 0 || is_some s.deleting_scope then s else record s {
      pending_delete =
          some (record { scope = whole_lesson; title = ""; count = length s.interactions_ref });
    }

unfoldable pub request_delete_chunk : String → TabState → TabState
unfolding filter summary_of
request_delete_chunk id s =
    let its = filter (is_of_chunk id) s.interactions_ref in
    if length its == 0 || is_some s.deleting_scope then s else record s {
      pending_delete = some (record {
        scope = one_chunk id;
        title = summary_of id s.local_chunks;
        count = length its;
      });
    }

abbrev pub cancel_delete : TabState → TabState
cancel_delete s = record s { pending_delete = none }

-- `confirmPendingDelete` up to its call: nothing is deleted while a deletion is under way.
unfoldable pub begin_delete : TabState → TabState
begin_delete s = elim s.pending_delete [
  | none ↦ s
  | some target ↦
      if is_some s.deleting_scope
      then s
      else record s { pending_delete = none; deleting_scope = some target.scope }
]

abbrev deleted_text : Scope → String
deleted_text whole_lesson = "Đã xóa toàn bộ bài tập"
deleted_text (one_chunk id) = "Đã xóa bài tập của phân đoạn"

abbrev not_deleted_text : Scope → String
not_deleted_text whole_lesson = "Không thể xóa bài tập"
not_deleted_text (one_chunk id) = "Không thể xóa bài tập của phân đoạn"

abbrev pub kept_by : Scope → List LessonInteraction → List LessonInteraction
unfolding filter
kept_by whole_lesson its = []
kept_by (one_chunk id) its = filter (λ it. not (is_of_chunk id it)) its

-- The answer to the deletion of `scope`: `none` where it was done.
unfoldable pub finish_delete : Scope → Option Failure → TabState → TabState
unfolding to_user_message filter
finish_delete scope none s =
    record (toast (deleted_text scope) (update_interactions (kept_by scope s.interactions_ref) s)) {
      deleting_scope = none;
    }
finish_delete scope (some e) s = record (toast (to_user_message e (not_deleted_text scope)) s) {
  deleting_scope = none;
}
