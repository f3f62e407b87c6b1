-- ===== src/ExerciseTab/Isolation.antt =====
-- The generations of different chunks do not disturb each other.
use bachelor_thesis.ExerciseTab.Deletion.{
  request_delete_lesson, request_delete_chunk, begin_delete, finish_delete,
}
use bachelor_thesis.Analysis.Types.{TaskStatus, LessonTask}
use bachelor_thesis.Session.{Answer}
use bachelor_thesis.Interaction.Proto.{LessonInteraction}
use bachelor_thesis.Errors.{Failure}
use bachelor_thesis.ExerciseTab.{
  ChunkGenPhase, TabState, toggle_chunk, handle_gen_dialog_generate, finish_add, is_running,
  rest_unless_running, handle_open_generate, handle_open_add, handle_close_generate, update_one,
  delete_one,
}
use bachelor_thesis.ExerciseTab.Steps.{TabEvent, tab_step, tab_run}
use bachelor_thesis.Prelude.{
  ℕ, String, ◌≡◌, refl, ap, ◌∙◌, Bool, false, Option, none, some, List, [], ◌∷◌, arith, str_eq,
  eq_iff, is_empty, if-elim, if-false, All, get, set, get-set,
}
use bachelor_thesis.ExerciseTab.Generation.{
  Run, is_aborted, handle_chunk_generate, config_saved, remove_key, holds, release, run_failed,
  run_succeeded, close_done, show_message, empty_task, no_task_id, config_answered, start_answered,
  PollAnswer, by_status, by_answer, poll_once,
}

get-remove_key :
    (m : List (String × ℕ)) (k j : String) → str_eq k j ≡ false → get (remove_key m k) j ≡ get m j
unfolding get remove_key
get-remove_key [] k j h = refl
get-remove_key ((i, n) ∷ m) k j h =
    ground (arith, eq_iff i k, eq_iff i j, eq_iff k j, get-remove_key m k j h)

-- The chunk whose generation an event is about.
abbrev pub is_about : String → TabEvent → Bool
is_about d (TabEvent.generate_opened id) = str_eq id d
is_about d (TabEvent.generate_closed id) = str_eq id d
is_about d (TabEvent.generate_pressed id kinds) = str_eq id d
is_about d (TabEvent.config_came r answer) = str_eq r.chunk d
is_about d (TabEvent.start_came r answer) = str_eq r.chunk d
is_about d (TabEvent.poll_came r answer) = str_eq r.chunk d
is_about d (TabEvent.close_due r) = str_eq r.chunk d
is_about d _ = false

-- The generation of the chunk is in the same phase, under the same controller.
pub record SameGeneration (d : String) (s t : TabState) : Type 0 where
  pub phase : get t.chunk_gen_state d ≡ get s.chunk_gen_state d
  pub controller : get t.controllers d ≡ get s.controllers d

module _ (d : String) where
  set-Same :
      (id : String) (p : ChunkGenPhase) {s t : TabState}
      → t.chunk_gen_state ≡ set s.chunk_gen_state id p
      → t.controllers ≡ s.controllers
      → str_eq id d ≡ false
      → SameGeneration d s t
  unfolding set
  set-Same id p {s} {t} e c h = record {
    phase = ap (λ m. get m d) e ∙ get-set s.chunk_gen_state id d p ∙ if-false (str_eq id d) _ _ h;
    controller = ap (λ m. get m d) c;
  }

  kept-Same :
      {s t : TabState}
      → t.chunk_gen_state ≡ s.chunk_gen_state
      → t.controllers ≡ s.controllers
      → SameGeneration d s t
  kept-Same e c = record { phase = ap (λ m. get m d) e; controller = ap (λ m. get m d) c }

  release-Same :
      (r : Run) (s : TabState) → str_eq r.chunk d ≡ false → SameGeneration d s (release r s)
  unfolding release
  release-Same r s h =
      if-elim (SameGeneration d s) (holds (get s.controllers r.chunk) r.controller)
        (record { phase = refl; controller = get-remove_key s.controllers r.chunk d h })
        (record { phase = refl; controller = refl })

  then-Same :
      {s t u : TabState} → SameGeneration d s t → SameGeneration d t u → SameGeneration d s u
  then-Same h k = record { phase = k.phase ∙ h.phase; controller = k.controller ∙ h.controller }

  failed-Same :
      (r : Run) (e : Failure) (s : TabState)
      → str_eq r.chunk d ≡ false
      → SameGeneration d s (run_failed r e s)
  unfolding run_failed set
  failed-Same r e s h =
      if-elim (SameGeneration d s) (is_aborted r s) (release-Same r s h)
        (then-Same (set-Same r.chunk _ refl refl h) (release-Same r _ h))

  by_status-Same :
      (count : ℕ → String) (r : Run) (fresh : Option (List LessonInteraction)) (t : LessonTask)
      (st : TaskStatus) (s : TabState)
      → str_eq r.chunk d ≡ false
      → SameGeneration d s (by_status count r fresh t st s).0
  unfolding by_status run_succeeded show_message set
  by_status-Same count r none t TaskStatus.succeeded s h =
      then-Same (set-Same r.chunk _ refl refl h) (release-Same r _ h)
  by_status-Same count r (some its) t TaskStatus.succeeded s h =
      then-Same (set-Same r.chunk _ refl refl h) (release-Same r _ h)
  by_status-Same count r fresh t TaskStatus.failed s h =
      then-Same (set-Same r.chunk _ refl refl h) (release-Same r _ h)
  by_status-Same count r fresh t TaskStatus.canceled s h =
      then-Same (set-Same r.chunk _ refl refl h) (release-Same r _ h)
  by_status-Same count r fresh t _ s h =
      if-elim (SameGeneration d s) (is_empty t.message) (kept-Same refl refl)
        (set-Same r.chunk _ refl refl h)

  by_answer-Same :
      (count : ℕ → String) (r : Run) (fresh : Option (List LessonInteraction))
      (a : Answer (Option LessonTask)) (s : TabState)
      → str_eq r.chunk d ≡ false
      → SameGeneration d s (by_answer count r fresh a s).0
  unfolding by_answer
  by_answer-Same count r fresh (Answer.failed e) s h = failed-Same r e s h
  by_answer-Same count r fresh (Answer.ok none) s h = failed-Same r empty_task s h
  by_answer-Same count r fresh (Answer.ok (some t)) s h =
      by_status-Same count r fresh t t.status s h

  poll_once-Same :
      (count : ℕ → String) (r : Run) (a : PollAnswer) (s : TabState)
      → str_eq r.chunk d ≡ false
      → SameGeneration d s (poll_once count r a s).0
  unfolding poll_once
  poll_once-Same count r a s h =
      if-elim {A = TabState × Bool} (λ q. SameGeneration d s q.0) (is_aborted r s)
        (release-Same r s h) (by_answer-Same count r a.fresh a.task s h)

  rest-Same :
      (id : String) {s : TabState} (t : TabState)
      → t.chunk_gen_state ≡ s.chunk_gen_state
      → t.controllers ≡ s.controllers
      → str_eq id d ≡ false
      → SameGeneration d s (rest_unless_running id t)
  unfolding rest_unless_running set
  rest-Same id {s} t e c h =
      if-elim (SameGeneration d s) (is_running (get t.chunk_gen_state id)) (kept-Same e c)
        (set-Same id _ (ap (λ m. set m id ChunkGenPhase.idle) e) c h)

  step-Same :
      (count : ℕ → String) (e : TabEvent) (s : TabState)
      → is_about d e ≡ false
      → SameGeneration d s (tab_step count e s)
  unfolding tab_step handle_gen_dialog_generate toggle_chunk finish_add handle_open_generate
      handle_open_add handle_close_generate rest_unless_running update_one delete_one
      request_delete_lesson request_delete_chunk begin_delete finish_delete handle_chunk_generate
      config_answered config_saved start_answered close_done set
  step-Same count (TabEvent.interactions_received its) s h = kept-Same refl refl
  step-Same count (TabEvent.chunks_received cs) s h = kept-Same refl refl
  step-Same count (TabEvent.chunk_toggled id) s h = kept-Same refl refl
  step-Same count (TabEvent.searched text) s h = kept-Same refl refl
  step-Same count (TabEvent.filter_chosen f) s h = kept-Same refl refl
  step-Same count (TabEvent.add_opened id) s h = kept-Same refl refl
  step-Same count (TabEvent.add_closed) s h = kept-Same refl refl
  step-Same count (TabEvent.add_started) s h = kept-Same refl refl
  step-Same count (TabEvent.delete_canceled) s h = kept-Same refl refl
  step-Same count (TabEvent.row_updated it) s h = kept-Same refl refl
  step-Same count (TabEvent.row_deleted id) s h = kept-Same refl refl
  step-Same count (TabEvent.delete_answered scope none) s h = kept-Same refl refl
  step-Same count (TabEvent.delete_answered scope (some e)) s h = kept-Same refl refl
  step-Same count (TabEvent.added (Answer.failed e)) s h = kept-Same refl refl
  step-Same count (TabEvent.added (Answer.ok none)) s h = kept-Same refl refl
  step-Same count (TabEvent.added (Answer.ok (some it))) s h = kept-Same refl refl
  step-Same count (TabEvent.defaults_received cfg) s h = kept-Same refl refl
  step-Same count (TabEvent.quantities_set q) s h = kept-Same refl refl
  step-Same count (TabEvent.dialog_set shows) s h = kept-Same refl refl
  step-Same count (TabEvent.dialog_requested n g) s h = ground arith
  step-Same count (TabEvent.lesson_delete_requested) s h = ground arith
  step-Same count (TabEvent.delete_confirmed) s h = ground arith
  step-Same count (TabEvent.chunk_delete_requested id) s h = ground arith
  step-Same count (TabEvent.dialog_generated saved b x f) s h = ground arith
  step-Same count (TabEvent.generate_opened id) s h = rest-Same id _ refl refl h
  step-Same count (TabEvent.generate_closed id) s h = rest-Same id _ refl refl h
  step-Same count (TabEvent.generate_pressed id []) s h = kept-Same refl refl
  step-Same count (TabEvent.generate_pressed id (k ∷ ks)) s h =
      if-elim {A = TabState × Option Run} (λ q. SameGeneration d s q.0)
        (is_running (get s.chunk_gen_state id)) (kept-Same refl refl)
        (record {
          phase = get-set s.chunk_gen_state id d _ ∙ if-false (str_eq id d) _ _ h;
          controller = get-set s.controllers id d s.next_controller ∙ if-false (str_eq id d) _ _ h;
        })
  step-Same count (TabEvent.config_came r (Answer.ok chunk)) s h = set-Same r.chunk _ refl refl h
  step-Same count (TabEvent.config_came r (Answer.failed e)) s h = failed-Same r e s h
  step-Same count (TabEvent.start_came r (Answer.ok none)) s h = failed-Same r no_task_id s h
  step-Same count (TabEvent.start_came r (Answer.ok (some id))) s h =
      if-elim (SameGeneration d s) (is_empty id) (failed-Same r no_task_id s h)
        (kept-Same refl refl)
  step-Same count (TabEvent.start_came r (Answer.failed e)) s h = failed-Same r e s h
  step-Same count (TabEvent.poll_came r a) s h = poll_once-Same count r a s h
  step-Same count (TabEvent.close_due r) s h = set-Same r.chunk _ refl refl h

-- What happens to other chunks, to the list and to the forms leaves the generation of a chunk in its phase
-- and under its controller: the generations of several chunks that run at once do not disturb each other.
pub tab_run-Same :
    (count : ℕ → String) (d : String) (es : List TabEvent) (s : TabState)
    → All (λ e. is_about d e ≡ false) es
    → SameGeneration d s (tab_run count es s)
unfolding tab_run
tab_run-Same count d [] s h = kept-Same d refl refl
tab_run-Same count d (e ∷ es) s h =
    then-Same d (step-Same d count e s h.0) (tab_run-Same count d es (tab_step count e s) h.1)
