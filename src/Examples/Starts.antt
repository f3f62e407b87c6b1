-- ===== src/Examples/Starts.antt =====
-- The starts of the workflow's tasks, what the workflow shows, and the panel of the tasks, at concrete inputs.
use bachelor_thesis.Examples.Tasks.{pipeline, extract_done, fresh_tracker}
use bachelor_thesis.Prelude.{◌≡◌, refl, true, false, none, some, [], ◌∷◌, has}
use bachelor_thesis.Errors.{Failure}
use bachelor_thesis.Session.{Answer}
use bachelor_thesis.Analysis.Types.{TaskKind, StreamRunState, GenRunState, ContentStep}
use bachelor_thesis.Analysis.Tracker.{handle_task}
use bachelor_thesis.Analysis.Shell.{
  ShellProps, PipelineStage, pipeline_stage, display_step, WorkflowStatus, transcript_status,
  chunk_status, exercise_status, preview_status,
}
use bachelor_thesis.Analysis.Shell.Order.{InOrder, pipeline_stage-InOrder}
use bachelor_thesis.Analysis.Panel.{chunks_step, is_task_stale, display_tasks, dismiss}
use bachelor_thesis.Analysis.Starting.{
  Console, start_task, start_generation, refresh_tasks, start_extract, handle_chunk,
  handle_generate, note_started, start_answered, is_busy, chunk_generate_busy,
}
use bachelor_thesis.Analysis.Starting.Noticed.{outcome_of, run_of, handle_task-noticed}

abbrev at_work : Console
at_work = record {
  step = ContentStep.transcript;
  gen_warnings = [];
  confirm_re_extract = true;
  tracker = fresh_tracker;
  toasts = [];
}

handle_task-noticed_example :
    run_of TaskKind.extract_transcript
      (handle_task 5 extract_done (note_started "t2" (start_extract at_work).0.tracker)).0
    ≡ some (outcome_of extract_done)
unfolding start_extract has
handle_task-noticed_example =
    handle_task-noticed 5 extract_done (start_extract at_work).0.tracker refl refl tt

-- A division that was asked for twice is started once.
asked_twice :
    ((handle_chunk [] at_work).1 ≡ start_task TaskKind.chunk_transcript ∷ [])
    × ((handle_chunk [] (handle_chunk [] at_work).0).1 ≡ refresh_tasks ∷ [])
unfolding handle_chunk
asked_twice = (refl, refl)

-- Without exercises, a generation is not forced.
not_forced :
    (handle_generate none (some "c1") "" "" at_work).1 ≡ start_generation "c1" false "" "" ∷ []
unfolding handle_generate
not_forced = refl

-- A start that fails is shown.
start_shown :
    (start_answered TaskKind.extract_transcript
      (Answer.failed Failure.value)
      at_work).tracker.extract_state
    ≡ StreamRunState.error none "Không thể bắt đầu phiên âm."
unfolding start_answered
start_shown = refl

-- The generation for one chunk keeps the workflow busy, and not the generations for others.
one_generates :
    (is_busy false none
        (record pipeline { kind = TaskKind.generate_interactions; chunk_id = "c1" } ∷ [])
        fresh_tracker
      ≡ true)
    × (chunk_generate_busy false none
          (record pipeline { kind = TaskKind.generate_interactions; chunk_id = "c1" } ∷ [])
          fresh_tracker
        ≡ false)
unfolding is_busy chunk_generate_busy
one_generates = (refl, refl)

abbrev shell : ShellProps
shell = record {
  has_video = true;
  active_step = ContentStep.exercises;
  segments = "s1" ∷ [];
  chunks = "c1" ∷ [];
  interactions = "i1" ∷ [];
  initial_transcript = "";
  initial_status = none;
  extract_state = StreamRunState.idle;
  chunk_state = StreamRunState.idle;
  gen_state = GenRunState.idle;
  tasks = pipeline ∷ [];
  manual_step = none;
}

pipeline_stage-InOrder_example :
    InOrder
      (transcript_status (pipeline_stage shell) shell)
      (chunk_status (pipeline_stage shell) shell)
      (exercise_status (pipeline_stage shell) shell)
      (preview_status (pipeline_stage shell) shell)
pipeline_stage-InOrder_example = pipeline_stage-InOrder shell

-- While a pipeline divides a lesson that has exercises, the chunks are shown and not the old exercises.
live_stage :
    (pipeline_stage shell ≡ some PipelineStage.chunk)
    × (display_step shell ≡ ContentStep.chunks)
    × (exercise_status (pipeline_stage shell) shell ≡ WorkflowStatus.locked)
unfolding pipeline_stage display_step exercise_status
live_stage = (refl, refl, refl)

-- The panel leaves out the task of the step that is viewed, and the pipeline.
other_tasks :
    (display_tasks [] 0 chunks_step true (extract_done ∷ pipeline ∷ []) ≡ [])
    × (display_tasks [] 0 chunks_step false
          (extract_done ∷ record pipeline { kind = TaskKind.extract_transcript } ∷ [])
        ≡ record pipeline { kind = TaskKind.extract_transcript } ∷ [])
    × (display_tasks
          (dismiss [] "t1")
          0
          chunks_step
          true
          (record pipeline { kind = TaskKind.extract_transcript } ∷ [])
        ≡ [])
unfolding display_tasks dismiss
other_tasks = (refl, refl, refl)

-- A running task that was never heard of since it was created is stale.
silent_task :
    is_task_stale
      (record { stale_threshold_ms = 180000; heartbeat_timeout_ms = 30000 })
      50000
      pipeline
    ≡ true
unfolding is_task_stale
silent_task = refl
