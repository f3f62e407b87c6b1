-- ===== src/ExerciseTab/Ending.antt =====
-- How the generation of a chunk ends.
use bachelor_thesis.Prelude.{
  ℕ, String, ◌≡◌, refl, ap, ◌∙◌, inl, inr, Bool, true, false, Option, none, some, List, [], ◌∷◌,
  arith, eq_refl, ◌==◌, Bool-cases, if-true, any, get, set, get-set,
}
use bachelor_thesis.Errors.{Failure}
use bachelor_thesis.Session.{Answer}
use bachelor_thesis.Analysis.Types.{TaskStatus, LessonTask, is_terminal}
use bachelor_thesis.Interaction.Proto.{LessonInteraction}
use bachelor_thesis.ExerciseTab.{ChunkGenPhase, TabState, is_running}
use bachelor_thesis.ExerciseTab.Generation.{
  Run, is_aborted, release, lost_text, failed_text, run_failed, run_succeeded, show_message,
  empty_task, PollAnswer, by_status, by_answer, poll_once, poll_task,
}

-- The answers that end a run: a failure, none, or a task that is over.
abbrev pub answer_ends : Answer (Option LessonTask) → Bool
answer_ends (Answer.failed e) = true
answer_ends (Answer.ok none) = true
answer_ends (Answer.ok (some t)) = is_terminal t.status

abbrev pub ends : PollAnswer → Bool
ends a = answer_ends a.task

-- What one answer leaves: the run is over exactly where the answer ends it, and then the chunk's
-- generation is not shown as running; the aborted runs are the same.
record Turn (r : Run) (over : Bool) (s : TabState) (q : TabState × Bool) : Type 0 where
  ended : q.1 ≡ over
  rests : over ≡ true → is_running (get q.0.chunk_gen_state r.chunk) ≡ false
  same : q.0.aborted ≡ s.aborted

at_rest :
    (m : List (String × ChunkGenPhase)) (k : String) (p : ChunkGenPhase)
    → is_running (some p) ≡ false
    → is_running (get (set m k p) k) ≡ false
at_rest m k p h = ap is_running (get-set m k k p ∙ if-true _ _ _ (eq_refl k)) ∙ h

ended-Turn :
    (r : Run) (p : ChunkGenPhase) (s : TabState) {t : TabState}
    → t.chunk_gen_state ≡ set s.chunk_gen_state r.chunk p
    → t.aborted ≡ s.aborted
    → is_running (some p) ≡ false
    → Turn r true s (t, true)
ended-Turn r p s e a h = record {
  ended = refl;
  rests = λ _. ap (λ m. is_running (get m r.chunk)) e ∙ at_rest s.chunk_gen_state r.chunk p h;
  same = a;
}

by_status-Turn :
    (count : ℕ → String) (r : Run) (fresh : Option (List LessonInteraction)) (t : LessonTask)
    (st : TaskStatus) (s : TabState)
    → Turn r (is_terminal st) s (by_status count r fresh t st s)
unfolding by_status run_succeeded show_message set release
by_status-Turn count r none t TaskStatus.succeeded s =
    ended-Turn r ChunkGenPhase.done s (ground arith) (ground arith) refl
by_status-Turn count r (some its) t TaskStatus.succeeded s =
    ended-Turn r ChunkGenPhase.done s (ground arith) (ground arith) refl
by_status-Turn count r fresh t TaskStatus.failed s =
    ended-Turn r (ChunkGenPhase.error (failed_text t)) s (ground arith) (ground arith) refl
by_status-Turn count r fresh t TaskStatus.canceled s =
    ended-Turn r ChunkGenPhase.idle s (ground arith) (ground arith) refl
by_status-Turn count r fresh t _ s = record { ended = refl; rests = λ h. cc; same = ground arith }

failed-Turn :
    (r : Run) (e : Failure) (s : TabState)
    → is_aborted r s ≡ false
    → Turn r true s (run_failed r e s, true)
unfolding run_failed release set
failed-Turn r e s h =
    rw h (ended-Turn r (ChunkGenPhase.error (lost_text e)) s (ground arith) (ground arith) refl)

by_answer-Turn :
    (count : ℕ → String) (r : Run) (fresh : Option (List LessonInteraction))
    (a : Answer (Option LessonTask)) (s : TabState)
    → is_aborted r s ≡ false
    → Turn r (answer_ends a) s (by_answer count r fresh a s)
unfolding by_answer
by_answer-Turn count r fresh (Answer.failed e) s h = failed-Turn r e s h
by_answer-Turn count r fresh (Answer.ok none) s h = failed-Turn r empty_task s h
by_answer-Turn count r fresh (Answer.ok (some t)) s h = by_status-Turn count r fresh t t.status s

poll_once-Turn :
    (count : ℕ → String) (r : Run) (a : PollAnswer) (s : TabState)
    → is_aborted r s ≡ false
    → Turn r (ends a) s (poll_once count r a s)
unfolding poll_once
poll_once-Turn count r a s h = rw h (by_answer-Turn count r a.fresh a.task s h)

-- A run that is not aborted is over exactly when one of the answers to its polls ends it, which are a call
-- that fails, an answer without a task, and a task that is over; and then the chunk is no longer shown as
-- being generated.
pub poll_task-ends :
    (count : ℕ → String) (r : Run) (answers : List PollAnswer) (s : TabState)
    → is_aborted r s ≡ false
    → ((poll_task count r answers s).1 ≡ any ends answers)
      × (any ends answers ≡ true
          → is_running (get (poll_task count r answers s).0.chunk_gen_state r.chunk) ≡ false)
unfolding poll_task any
poll_task-ends count r [] s h = (refl, λ k. cc)
poll_task-ends count r (a ∷ rest) s h =
    let k = poll_once-Turn count r a s h in
    let q = poll_once count r a s in
    let still : is_aborted r q.0 ≡ false = ap (λ ns. any (λ n. n == r.controller) ns) k.same ∙ h in
    let later = poll_task-ends count r rest q.0 still in
    elim (Bool-cases (ends a)) [
      | inl over ↦ rw (k.ended ∙ over, over) (refl, λ _. k.rests over)
      | inr goes ↦ rw (k.ended ∙ goes, goes) later
    ]
