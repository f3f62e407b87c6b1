-- ===== src/Examples/Tab.antt =====
-- The tab of the exercises, at concrete inputs.
use bachelor_thesis.ExerciseTab.Listing.{matches, filtered_chunks}
use bachelor_thesis.Examples.Exercises.{fill_in}
use bachelor_thesis.Examples.Edits.{three_chunks}
use bachelor_thesis.Prelude.{
  ℕ, String, ◌≡◌, refl, true, false, none, some, List, [], ◌∷◌, map, length, any, get,
}
use bachelor_thesis.Errors.{Failure}
use bachelor_thesis.Session.{Answer}
use bachelor_thesis.Analysis.Types.{TaskKind, TaskStatus, LessonTask}
use bachelor_thesis.Interaction.Proto.{InteractionKind, LessonInteraction}
use bachelor_thesis.ExerciseTab.{
  ChunkGenPhase, ChunkFilter, Scope, TabState, mount_tab, handle_gen_dialog_generate, is_running,
}
use bachelor_thesis.ExerciseTab.Generation.{Run, handle_chunk_generate, PollAnswer, poll_task}
use bachelor_thesis.ExerciseTab.Steps.{TabEvent, tab_run}
use bachelor_thesis.ExerciseTab.Settled.{IsSettled, tab_run-IsSettled}
use bachelor_thesis.ExerciseTab.Isolation.{SameGeneration, tab_run-Same}
use bachelor_thesis.ExerciseTab.Ending.{ends, poll_task-ends}

abbrev number : ℕ → String
number n = "1"

abbrev same_text : String → String
same_text t = t

abbrev exercise_of : String → String → LessonInteraction
exercise_of id c = record fill_in { id = id; chunk_id = c }

abbrev opened_tab : TabState
opened_tab = mount_tab (exercise_of "x" "a" ∷ exercise_of "y" "b" ∷ []) three_chunks none

abbrev first_run : Run
first_run = record { chunk = "a"; controller = 0; summary = "" }

abbrev task_with : TaskStatus → LessonTask
task_with status = record {
  id = "t1";
  chunk_id = "a";
  kind = TaskKind.generate_interactions;
  status = status;
  progress_step = "";
  progress_current = 0;
  progress_total = 0;
  message = "Half done";
  error_msg = "";
  created_at = none;
  updated_at = none;
  started_at = none;
  finished_at = none;
  last_heartbeat = none;
}

abbrev answer_with : TaskStatus → PollAnswer
answer_with status = record {
  task = Answer.ok (some (task_with status));
  fresh = some (exercise_of "z" "a" ∷ []);
}

abbrev busy_day : List TabEvent
busy_day =
    TabEvent.generate_opened "a"
    ∷ TabEvent.generate_pressed "a" (InteractionKind.fill_blank ∷ [])
    ∷ TabEvent.config_came first_run (Answer.ok none)
    ∷ TabEvent.chunk_delete_requested "b"
    ∷ TabEvent.delete_confirmed
    ∷ TabEvent.poll_came first_run (answer_with TaskStatus.running)
    ∷ TabEvent.delete_answered (Scope.one_chunk "b") none
    ∷ TabEvent.poll_came first_run (answer_with TaskStatus.succeeded)
    ∷ []

tab_run-IsSettled_example : IsSettled (tab_run number busy_day opened_tab)
unfolding mount_tab
tab_run-IsSettled_example =
    tab_run-IsSettled number busy_day opened_tab
      (record { worked_on = refl; told = refl; single = refl })

tab_run-Same_example : SameGeneration "b" opened_tab (tab_run number busy_day opened_tab)
tab_run-Same_example =
    tab_run-Same number "b" busy_day opened_tab
      (refl, (refl, (refl, (refl, (refl, (refl, (refl, (refl, tt))))))))

abbrev generating_tab : TabState
generating_tab = (handle_chunk_generate "a" (InteractionKind.fill_blank ∷ []) opened_tab).0

abbrev two_answers : List PollAnswer
two_answers = answer_with TaskStatus.running ∷ answer_with TaskStatus.succeeded ∷ []

poll_task-ends_example :
    ((poll_task number first_run two_answers generating_tab).1 ≡ any ends two_answers)
    × (any ends two_answers ≡ true
        → is_running
            (get (poll_task number first_run two_answers generating_tab).0.chunk_gen_state "a")
          ≡ false)
unfolding handle_chunk_generate mount_tab
poll_task-ends_example = poll_task-ends number first_run two_answers generating_tab refl

-- A form that is generated from again within half a second of a success: the old timer shows the new run
-- as if nothing ran.
late_timer :
    get
      (tab_run number
        (TabEvent.generate_pressed "a" (InteractionKind.fill_blank ∷ [])
          ∷ TabEvent.poll_came first_run (answer_with TaskStatus.succeeded)
          ∷ TabEvent.generate_closed "a"
          ∷ TabEvent.generate_opened "a"
          ∷ TabEvent.generate_pressed "a" (InteractionKind.fill_blank ∷ [])
          ∷ TabEvent.close_due first_run
          ∷ [])
        opened_tab).chunk_gen_state
      "a"
    ≡ some ChunkGenPhase.idle
unfolding tab_run mount_tab
late_timer = refl

-- The summary and the filter of the empty chunks.
one_empty :
    map
      (λ c. c.id)
      (filtered_chunks same_text (record opened_tab { chunk_filter = ChunkFilter.empty_chunks }))
    ≡ "c" ∷ []
unfolding filtered_chunks matches mount_tab
one_empty = refl

-- Where the quantities cannot be saved, the dialog stays open and nothing is generated.
not_generated :
    length (handle_gen_dialog_generate (some Failure.value) false "" "" opened_tab).1 ≡ 1
unfolding handle_gen_dialog_generate mount_tab
not_generated = refl
