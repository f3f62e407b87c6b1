-- ===== src/Analysis/Tracker/Once.antt =====
-- How often the loads that a task asks for are made.
use bachelor_thesis.Errors.{includes}
use bachelor_thesis.Prelude.{
  ℕ, ◌+◌, ◌≤◌, String, subst, ◌≡◌, refl, sym, inl, inr, Bool, false, ◌||◌, not, Option, List, [],
  ◌∷◌, arith, str_eq, Bool-cases, is_empty, if-elim, if-false, if-true, has, add, delete, get, set,
}
use bachelor_thesis.Analysis.Types.{TaskKind, TaskStatus, LessonTask, is_active, is_terminal}
use bachelor_thesis.Analysis.Active.{Load, TrackerState, end_ms}
use bachelor_thesis.Analysis.Ended.{
  is_succeeded, sync_once, attribute_once, close_timings, finish_succeeded, finish_failed,
  failure_text, finish_by_status, was_active, finish_task, track_ended,
}
use bachelor_thesis.Analysis.Tracker.Paid.{
  one_if, count, syncs, ends, IsPaid, free, IsPaid-append, pay, sync_once-IsPaid,
  attribute_once-free, track_active-IsPaid,
}
use bachelor_thesis.Analysis.Tracker.{handle_task, handle_tasks, handle_polls}

-- The end of the task `k` is handled: it is noted, and makes at most one load, for itself.
record IsEnding (id k : String) (s : TrackerState) (p : TrackerState × List Load) : Type 0 where
  synced_kept : p.0.analysis_synced ≡ s.analysis_synced
  noted : p.0.completed ≡ add s.completed k
  no_sync : syncs id p.1 ≡ 0
  at_most_one : ends id p.1 ≤ one_if (str_eq k id)

IsEnding-IsPaid :
    (id k : String) (s : TrackerState) (p : TrackerState × List Load)
    → has s.completed k ≡ false
    → IsEnding id k s p
    → IsPaid id s p
IsEnding-IsPaid id k s p h e = record {
  synced = rw (e.synced_kept, e.no_sync) (omega arith);
  ended = rw e.noted (omega (arith, e.at_most_one, pay s.completed k id h));
}

finish_succeeded-IsEnding :
    (id : String) (kind : TaskKind) (task : LessonTask) (s t : TrackerState)
    → t.analysis_synced ≡ s.analysis_synced
    → t.completed ≡ add s.completed task.id
    → IsEnding id task.id s (finish_succeeded kind task t)
unfolding finish_succeeded count
finish_succeeded-IsEnding id TaskKind.extract_transcript task s t a b = record {
  synced_kept = a;
  noted = b;
  no_sync = omega arith;
  at_most_one = omega arith;
}
finish_succeeded-IsEnding id TaskKind.chunk_transcript task s t a b = record {
  synced_kept = a;
  noted = b;
  no_sync = omega arith;
  at_most_one = omega arith;
}
finish_succeeded-IsEnding id TaskKind.generate_interactions task s t a b =
    if-elim (λ xs. IsEnding id task.id s (t, xs)) (is_empty task.chunk_id)
      (record { synced_kept = a; noted = b; no_sync = omega arith; at_most_one = omega arith })
      (record { synced_kept = a; noted = b; no_sync = omega arith; at_most_one = omega arith })
finish_succeeded-IsEnding id TaskKind.run_pipeline task s t a b = record {
  synced_kept = a;
  noted = b;
  no_sync = omega arith;
  at_most_one = omega arith;
}
finish_succeeded-IsEnding id TaskKind.unspecified task s t a b = record {
  synced_kept = a;
  noted = b;
  no_sync = omega arith;
  at_most_one = omega arith;
}

no_loads :
    (id k : String) (s t : TrackerState)
    → t.analysis_synced ≡ s.analysis_synced
    → t.completed ≡ add s.completed k
    → IsEnding id k s (t, [])
unfolding count
no_loads id k s t a b = record {
  synced_kept = a;
  noted = b;
  no_sync = omega arith;
  at_most_one = omega arith;
}

finish_failed-IsEnding :
    (id : String) (kind : TaskKind) (task : LessonTask) (msg : String) (s t : TrackerState)
    → t.analysis_synced ≡ s.analysis_synced
    → t.completed ≡ add s.completed task.id
    → IsEnding id task.id s (finish_failed kind task msg t, [])
unfolding finish_failed
finish_failed-IsEnding id TaskKind.extract_transcript task msg s t a b = no_loads id task.id s _ a b
finish_failed-IsEnding id TaskKind.chunk_transcript task msg s t a b = no_loads id task.id s _ a b
finish_failed-IsEnding id TaskKind.generate_interactions task msg s t a b =
    if-elim (λ u. IsEnding id task.id s (u, [])) (is_empty task.chunk_id)
      (no_loads id task.id s _ a b) (no_loads id task.id s t a b)
finish_failed-IsEnding id TaskKind.run_pipeline task msg s t a b =
    if-elim (λ u. IsEnding id task.id s (u, [])) (includes task.progress_step "GENERATING")
      (no_loads id task.id s _ a b)
      (if-elim (λ u. IsEnding id task.id s (u, [])) (includes task.progress_step "CHUNKING")
        (no_loads id task.id s _ a b) (no_loads id task.id s _ a b))
finish_failed-IsEnding id TaskKind.unspecified task msg s t a b = no_loads id task.id s t a b

close_timings-kept :
    (at : ℕ) (kind : TaskKind) (t : TrackerState)
    → ((close_timings at kind t).analysis_synced ≡ t.analysis_synced)
      × ((close_timings at kind t).completed ≡ t.completed)
unfolding close_timings
close_timings-kept at TaskKind.extract_transcript t = (refl, refl)
close_timings-kept at TaskKind.chunk_transcript t = (refl, refl)
close_timings-kept at TaskKind.generate_interactions t = (refl, refl)
close_timings-kept at TaskKind.run_pipeline t = (refl, refl)
close_timings-kept at TaskKind.unspecified t = (refl, refl)

not_completed : (a b c : Bool) → (not a || not b || c) ≡ false → c ≡ false
not_completed a b c h = ground arith

finish_task-IsPaid :
    (id : String) (now : ℕ) (previous : Option TaskStatus) (task : LessonTask) (s : TrackerState)
    → IsPaid id s (finish_task now previous task s)
unfolding finish_task finish_by_status
finish_task-IsPaid id now previous task s =
    elim (Bool-cases (
      not (is_terminal task.status)
      || not (was_active previous || has s.started task.id)
      || has s.completed task.id)) [
        | inl h ↦ subst (IsPaid id s) (sym (if-true _ _ _ h)) (free id s s refl refl)
        | inr h ↦
            subst (IsPaid id s) (sym (if-false _ _ _ h))
              (IsEnding-IsPaid id task.id s _ (not_completed _ _ _ h) ending)
      ]
  where
    noted : TrackerState
    noted = record s { completed = add s.completed task.id; started = delete s.started task.id }

    ending :
        IsEnding id task.id s
          (finish_by_status task (close_timings (end_ms now task) task.kind noted))
    ending =
        let (a, b) = close_timings-kept (end_ms now task) task.kind noted in
        if-elim (IsEnding id task.id s) (is_succeeded task.status)
          (finish_succeeded-IsEnding id task.kind task s _ a b)
          (finish_failed-IsEnding id task.kind task (failure_text task) s _ a b)

track_ended-IsPaid :
    (id : String) (now : ℕ) (previous : Option TaskStatus) (task : LessonTask) (s : TrackerState)
    → IsPaid id s (track_ended now previous task s)
unfolding track_ended
track_ended-IsPaid id now previous task s =
    let t = (sync_once task s).0 in
    let u = attribute_once task t in
    IsPaid-append id s t _ _ _ (sync_once-IsPaid id task s) (
      IsPaid-append id t u _ [] _ (attribute_once-free id task t)
        (finish_task-IsPaid id now previous task u))

from_noted :
    (id : String) (s : TrackerState) (m : List (String × TaskStatus)) (p : TrackerState × List Load)
    → IsPaid id (record s { status_by_id = m }) p
    → IsPaid id s p
from_noted id s m p h = record { synced = h.synced; ended = h.ended }

handle_task-IsPaid :
    (id : String) (now : ℕ) (task : LessonTask) (s : TrackerState)
    → IsPaid id s (handle_task now task s)
unfolding handle_task
handle_task-IsPaid id now task s =
    let m = set s.status_by_id task.id task.status in
    let noted = record s { status_by_id = m } in
    if-elim (IsPaid id s) (is_active task.status)
      (from_noted id s m _ (track_active-IsPaid id now task.kind task noted))
      (from_noted id s m _ (track_ended-IsPaid id now (get s.status_by_id task.id) task noted))

handle_tasks-IsPaid :
    (id : String) (now : ℕ) (tasks : List LessonTask) (s : TrackerState)
    → IsPaid id s (handle_tasks now tasks s)
unfolding handle_tasks
handle_tasks-IsPaid id now [] s = free id s s refl refl
handle_tasks-IsPaid id now (task ∷ tasks) s =
    let t = (handle_task now task s).0 in
    IsPaid-append id s t _ _ _ (handle_task-IsPaid id now task s)
      (handle_tasks-IsPaid id now tasks t)

handle_polls-IsPaid :
    (id : String) (polls : List (ℕ × List LessonTask)) (s : TrackerState)
    → IsPaid id s (handle_polls polls s)
unfolding handle_polls
handle_polls-IsPaid id [] s = free id s s refl refl
handle_polls-IsPaid id ((now, tasks) ∷ polls) s =
    let t = (handle_tasks now tasks s).0 in
    IsPaid-append id s t _ _ _ (handle_tasks-IsPaid id now tasks s) (handle_polls-IsPaid id polls t)

at_most_one : (n : ℕ) (a b : Bool) → n + one_if a ≤ one_if b → n ≤ 1
at_most_one n a b h = ground arith

-- Over any sequence of polls, whatever the service reports in them, the load that brings the analysis up to
-- date with a task that succeeded is asked for at most once for each task, and so is, counted apart, the
-- load that follows the handled end of the task.
pub handle_polls-once :
    (id : String) (polls : List (ℕ × List LessonTask)) (s : TrackerState)
    → (syncs id (handle_polls polls s).1 ≤ 1) × (ends id (handle_polls polls s).1 ≤ 1)
handle_polls-once id polls s =
    let h = handle_polls-IsPaid id polls s in
    (
      at_most_one _ (has s.analysis_synced id) (has (handle_polls polls s).0.analysis_synced id)
          h.synced,
      at_most_one _ (has s.completed id) (has (handle_polls polls s).0.completed id) h.ended,
    )
