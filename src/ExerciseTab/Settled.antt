-- ===== src/ExerciseTab/Settled.antt =====
-- What the tab keeps through all its events.
use bachelor_thesis.ExerciseTab.Deletion.{
  request_delete_lesson, request_delete_chunk, begin_delete, finish_delete,
}
use bachelor_thesis.Analysis.Types.{TaskStatus, LessonTask}
use bachelor_thesis.Interaction.Proto.{LessonInteraction}
use bachelor_thesis.Session.{Answer}
use bachelor_thesis.ExerciseTab.Steps.{TabEvent, tab_step, tab_run}
use bachelor_thesis.Prelude.{
  ℕ, String, ◌≡◌, Bool, false, ◌&&◌, Option, none, some, List, [], ◌∷◌, arith, is_some, if-elim,
}
use bachelor_thesis.ExerciseTab.{
  TabState, toggle_chunk, handle_gen_dialog_generate, finish_add, rest_unless_running,
  handle_open_generate, handle_open_add, handle_close_generate, update_one, delete_one,
}
use bachelor_thesis.ExerciseTab.Generation.{
  Run, is_aborted, handle_chunk_generate, config_saved, release, run_failed, run_succeeded,
  close_done, show_message, config_answered, start_answered, PollAnswer, by_status, by_answer,
  poll_once,
}

-- The list that is shown is the one that is worked on and that the page holds, and no deletion is asked to
-- be confirmed while another is under way.
pub record IsSettled (s : TabState) : Type 0 where
  pub worked_on : s.interactions_ref ≡ s.interactions
  pub told : s.shared ≡ s.interactions
  pub single : (is_some s.pending_delete && is_some s.deleting_scope) ≡ false

by_status-IsSettled :
    (count : ℕ → String) (r : Run) (fresh : Option (List LessonInteraction)) (t : LessonTask)
    (st : TaskStatus) (s : TabState)
    → IsSettled s
    → IsSettled (by_status count r fresh t st s).0
unfolding by_status run_succeeded release show_message
by_status-IsSettled count r none t TaskStatus.succeeded s h = ground arith
by_status-IsSettled count r (some its) t TaskStatus.succeeded s h = ground arith
by_status-IsSettled count r fresh t TaskStatus.failed s h = ground arith
by_status-IsSettled count r fresh t TaskStatus.canceled s h = ground arith
by_status-IsSettled count r fresh t TaskStatus.queued s h = ground arith
by_status-IsSettled count r fresh t TaskStatus.running s h = ground arith
by_status-IsSettled count r fresh t TaskStatus.unspecified s h = ground arith

by_answer-IsSettled :
    (count : ℕ → String) (r : Run) (fresh : Option (List LessonInteraction))
    (a : Answer (Option LessonTask)) (s : TabState)
    → IsSettled s
    → IsSettled (by_answer count r fresh a s).0
unfolding by_answer run_failed release
by_answer-IsSettled count r fresh (Answer.failed e) s h = ground arith
by_answer-IsSettled count r fresh (Answer.ok none) s h = ground arith
by_answer-IsSettled count r fresh (Answer.ok (some t)) s h =
    by_status-IsSettled count r fresh t t.status s h

poll_once-IsSettled :
    (count : ℕ → String) (r : Run) (a : PollAnswer) (s : TabState)
    → IsSettled s
    → IsSettled (poll_once count r a s).0
unfolding poll_once release
poll_once-IsSettled count r a s h =
    if-elim {A = TabState × Bool} (λ q. IsSettled q.0) (is_aborted r s) (ground arith)
      (by_answer-IsSettled count r a.fresh a.task s h)

step-IsSettled :
    (count : ℕ → String) (e : TabEvent) (s : TabState)
    → IsSettled s
    → IsSettled (tab_step count e s)
unfolding tab_step handle_gen_dialog_generate toggle_chunk finish_add handle_open_generate
    handle_open_add handle_close_generate rest_unless_running update_one delete_one
    request_delete_lesson request_delete_chunk begin_delete finish_delete handle_chunk_generate
    config_answered config_saved start_answered run_failed release close_done
step-IsSettled count (TabEvent.interactions_received its) s h = ground arith
step-IsSettled count (TabEvent.chunks_received cs) s h = ground arith
step-IsSettled count (TabEvent.defaults_received cfg) s h = ground arith
step-IsSettled count (TabEvent.quantities_set q) s h = ground arith
step-IsSettled count (TabEvent.dialog_set shows) s h = ground arith
step-IsSettled count (TabEvent.dialog_requested n g) s h = ground arith
step-IsSettled count (TabEvent.chunk_toggled id) s h = ground arith
step-IsSettled count (TabEvent.searched text) s h = ground arith
step-IsSettled count (TabEvent.filter_chosen f) s h = ground arith
step-IsSettled count (TabEvent.add_opened id) s h = ground arith
step-IsSettled count (TabEvent.add_closed) s h = ground arith
step-IsSettled count (TabEvent.add_started) s h = ground arith
step-IsSettled count (TabEvent.lesson_delete_requested) s h = ground arith
step-IsSettled count (TabEvent.delete_canceled) s h = ground arith
step-IsSettled count (TabEvent.delete_confirmed) s h = ground arith
step-IsSettled count (TabEvent.row_updated it) s h = ground arith
step-IsSettled count (TabEvent.row_deleted id) s h = ground arith
step-IsSettled count (TabEvent.chunk_delete_requested id) s h = ground arith
step-IsSettled count (TabEvent.delete_answered scope none) s h = ground arith
step-IsSettled count (TabEvent.delete_answered scope (some e)) s h = ground arith
step-IsSettled count (TabEvent.added (Answer.failed e)) s h = ground arith
step-IsSettled count (TabEvent.added (Answer.ok none)) s h = ground arith
step-IsSettled count (TabEvent.added (Answer.ok (some it))) s h = ground arith
step-IsSettled count (TabEvent.generate_opened id) s h = ground arith
step-IsSettled count (TabEvent.generate_closed id) s h = ground arith
step-IsSettled count (TabEvent.generate_pressed id []) s h = ground arith
step-IsSettled count (TabEvent.generate_pressed id (k ∷ ks)) s h = ground arith
step-IsSettled count (TabEvent.dialog_generated saved b d f) s h = ground arith
step-IsSettled count (TabEvent.config_came r (Answer.ok chunk)) s h = ground arith
step-IsSettled count (TabEvent.config_came r (Answer.failed e)) s h = ground arith
step-IsSettled count (TabEvent.start_came r (Answer.ok none)) s h = ground arith
step-IsSettled count (TabEvent.start_came r (Answer.ok (some id))) s h = ground arith
step-IsSettled count (TabEvent.start_came r (Answer.failed e)) s h = ground arith
step-IsSettled count (TabEvent.poll_came r a) s h = poll_once-IsSettled count r a s h
step-IsSettled count (TabEvent.close_due r) s h = ground arith

-- Whatever the teacher does and whatever is answered in which order, the list that is shown stays the one
-- that is worked on and that the page holds, and no deletion is asked to be confirmed while another is under
-- way.
pub tab_run-IsSettled :
    (count : ℕ → String) (es : List TabEvent) (s : TabState)
    → IsSettled s
    → IsSettled (tab_run count es s)
unfolding tab_run
tab_run-IsSettled count [] s h = h
tab_run-IsSettled count (e ∷ es) s h =
    tab_run-IsSettled count es (tab_step count e s) (step-IsSettled count e s h)
