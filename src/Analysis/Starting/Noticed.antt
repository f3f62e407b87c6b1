-- ===== src/Analysis/Starting/Noticed.antt =====
-- The end of a task that was started from the workflow is not missed.
use bachelor_thesis.Analysis.Starting.{note_started}
use bachelor_thesis.Analysis.Tracker.{handle_task}
use bachelor_thesis.Prelude.{
  ℕ, String, subst, ◌≡◌, refl, sym, ap, ◌∙◌, inl, inr, true, false, ◌&&◌, ◌||◌, not, Option, none,
  some, List, arith, eq_refl, if◌then◌else◌, Bool-cases, if-elim, if-false, Ids, has, add, has-add,
}
use bachelor_thesis.Analysis.Types.{
  TaskKind, TaskStatus, LessonTask, StreamRunState, is_active, is_terminal,
}
use bachelor_thesis.Analysis.Active.{Load, TrackerState}
use bachelor_thesis.Analysis.Ended.{
  is_succeeded, is_failed, sync_once, failing_step, attribute_kind, attribute_once,
  finish_succeeded, finish_failed, failure_text, finish_by_status, was_active, finish_task,
  track_ended,
}

-- How a run ends with its task: done, or with the failure that the task says.
abbrev pub outcome_of : LessonTask → StreamRunState
outcome_of task =
    if is_succeeded task.status
    then StreamRunState.done
    else StreamRunState.error (failing_step task) (failure_text task)

-- The run that shows the task, of an extraction or a division.
abbrev pub run_of : TaskKind → TrackerState → Option StreamRunState
run_of TaskKind.extract_transcript t = some t.extract_state
run_of TaskKind.chunk_transcript t = some t.chunk_state
run_of _ t = none

-- The kinds that one run shows.
abbrev pub IsShown : TaskKind → Type 0
IsShown TaskKind.extract_transcript = Unit
IsShown TaskKind.chunk_transcript = Unit
IsShown _ = ⊥

finish_succeeded-run :
    (kind : TaskKind) (task : LessonTask) (t : TrackerState)
    → IsShown kind
    → run_of kind (finish_succeeded kind task t).0 ≡ some StreamRunState.done
unfolding finish_succeeded
finish_succeeded-run TaskKind.extract_transcript task t k = refl
finish_succeeded-run TaskKind.chunk_transcript task t k = refl
finish_succeeded-run _ task t k = absurd k

finish_failed-run :
    (kind : TaskKind) (task : LessonTask) (msg : String) (t : TrackerState)
    → IsShown kind
    → run_of kind (finish_failed kind task msg t)
      ≡ some (StreamRunState.error (failing_step task) msg)
unfolding finish_failed
finish_failed-run TaskKind.extract_transcript task msg t k = refl
finish_failed-run TaskKind.chunk_transcript task msg t k = refl
finish_failed-run _ task msg t k = absurd k

finish_by_status-run :
    (task : LessonTask) (t : TrackerState)
    → IsShown task.kind
    → run_of task.kind (finish_by_status task t).0 ≡ some (outcome_of task)
unfolding finish_by_status
finish_by_status-run task t k = elim (Bool-cases (is_succeeded task.status)) [
  | inl h ↦ rw h (finish_succeeded-run task.kind task t k)
  | inr h ↦ rw h (finish_failed-run task.kind task (failure_text task) t k)
]

-- The end of a task that was noted as started is handled.
finish_task-noticed :
    (now : ℕ) (task : LessonTask) (previous : Option TaskStatus) (t : TrackerState)
    → is_terminal task.status ≡ true
    → has t.started task.id ≡ true
    → has t.completed task.id ≡ false
    → IsShown task.kind
    → run_of task.kind (finish_task now previous task t).0 ≡ some (outcome_of task)
unfolding finish_task
finish_task-noticed now task previous t over mine new k =
    let goes : (not (is_terminal task.status)
          || not (was_active previous || has t.started task.id)
          || has t.completed task.id)
        ≡ false =
      ground arith in
    subst (λ (q : TrackerState × List Load). run_of task.kind q.0 ≡ some (outcome_of task))
      (sym (if-false _ _ _ goes)) (finish_by_status-run task _ k)

-- The tasks that are noted as started, and those whose end is handled, are the same.
record SameNotes (t u : TrackerState) : Type 0 where
  begun : u.started ≡ t.started
  ended : u.completed ≡ t.completed

sync_once-Same : (task : LessonTask) (t : TrackerState) → SameNotes t (sync_once task t).0
unfolding sync_once
sync_once-Same task t = record { begun = ground arith; ended = ground arith }

attribute_kind-Same :
    (kind : TaskKind) (task : LessonTask) (t : TrackerState)
    → SameNotes t (attribute_kind kind task t)
unfolding attribute_kind
attribute_kind-Same TaskKind.run_pipeline task t = record {
  begun = ground arith;
  ended = ground arith;
}
attribute_kind-Same _ task t = record { begun = refl; ended = refl }

attribute_once-Same : (task : LessonTask) (t : TrackerState) → SameNotes t (attribute_once task t)
unfolding attribute_once
attribute_once-Same task t =
    if-elim (SameNotes t) (is_failed task.status && not (has t.failed_attributed task.id))
      (let h =
          attribute_kind-Same task.kind task
            (record t { failed_attributed = add t.failed_attributed task.id }) in
        record { begun = h.begun; ended = h.ended })
      (record { begun = refl; ended = refl })

terminal-active : (st : TaskStatus) → is_terminal st ≡ true → is_active st ≡ false
terminal-active TaskStatus.succeeded h = refl
terminal-active TaskStatus.failed h = refl
terminal-active TaskStatus.canceled h = refl
terminal-active _ h = cc

has-add_self : (ids : Ids) (id : String) → has (add ids id) id ≡ true
has-add_self ids id = has-add ids id id ∙ ap (λ b. b || has ids id) (eq_refl id)

track_ended-noticed :
    (now : ℕ) (previous : Option TaskStatus) (task : LessonTask) (t : TrackerState)
    → is_terminal task.status ≡ true
    → has t.started task.id ≡ true
    → has t.completed task.id ≡ false
    → IsShown task.kind
    → run_of task.kind (track_ended now previous task t).0 ≡ some (outcome_of task)
unfolding track_ended
track_ended-noticed now previous task t over mine new k =
    let synced = (sync_once task t).0 in
    let a = sync_once-Same task t in
    let b = attribute_once-Same task synced in
    finish_task-noticed now task previous (attribute_once task synced) over
      (ap (λ ids. has ids task.id) (b.begun ∙ a.begun) ∙ mine)
      (ap (λ ids. has ids task.id) (b.ended ∙ a.ended) ∙ new) k

-- An extraction or a division into chunks that was started from the workflow and has ended by the time that
-- it is polled is not missed: where its end is not handled yet, the run that shows it ends with it, done or
-- with the failure of the task, whatever was known of it before.
pub handle_task-noticed :
    (now : ℕ) (task : LessonTask) (t : TrackerState)
    → is_terminal task.status ≡ true
    → has t.completed task.id ≡ false
    → IsShown task.kind
    → run_of task.kind (handle_task now task (note_started task.id t)).0 ≡ some (outcome_of task)
unfolding handle_task track_ended note_started
handle_task-noticed now task t over new k =
    rw (terminal-active task.status over)
      (track_ended-noticed now _ task _ over (has-add_self t.started task.id) new k)
