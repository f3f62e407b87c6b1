-- ===== src/Analysis/Active.antt =====
-- What the tracker keeps, and what a task that is queued or running does to it
-- (analysis-task-tracker.ts, the first half of the loop).
use bachelor_thesis.Prelude.{
  ℕ, ◌-◌, String, true, false, Option, none, some, List, [], ◌∷◌, ◌++◌, if◌then◌else◌, is_empty,
  or_text, Ids, has, add,
}
use bachelor_thesis.Errors.{includes}
use bachelor_thesis.Analysis.Types.{
  TaskKind, TaskStatus, ProgressStep, step_number, LessonTask, StreamRunState, GenRunState,
  analysis_step_from_task, ms_of,
}
use bachelor_thesis.Analysis.Timings.{Timings, update_step_timings}

-- What the effect asks for, with the task that asks: the chunks, or the transcript, of a running
-- pipeline; the whole analysis; and what follows the end of each kind of task.
pub data Load : Type 0 where
  reload_chunks load_transcript sync_analysis : String → Load
  after_extract after_chunk after_generate after_pipeline : String → Load

-- The references and the states that the effect reads and sets. The segments, the chunks and the
-- exercises are kept by their ids.
pub record TrackerState : Type 0 where
  pub started : Ids
  pub completed : Ids
  pub status_by_id : List (String × TaskStatus)
  pub gen_chunks_loaded : Ids
  pub transcript_loaded : Ids
  pub analysis_synced : Ids
  pub extract_cleared : Ids
  pub failed_attributed : Ids
  pub segments : List String
  pub chunks : List String
  pub interactions : List String
  pub extract_state : StreamRunState
  pub chunk_state : StreamRunState
  pub gen_state : GenRunState
  pub extract_timings : Timings
  pub chunk_timings : Timings

abbrev pub start_ms : ℕ → LessonTask → ℕ
start_ms now task = elim task.started_at [ none ↦ now | some t ↦ ms_of t ]

abbrev pub end_ms : ℕ → LessonTask → ℕ
end_ms now task = elim task.finished_at [ none ↦ now | some t ↦ ms_of t ]

unfoldable pub time_step : Option ProgressStep → Timings → ℕ → Timings
unfolding update_step_timings
time_step none ts now = ts
time_step (some step) ts now = update_step_timings ts (step_number step) now

abbrev pub generating : LessonTask → GenRunState
generating task =
    GenRunState.running (or_text task.message "Đang tạo bài tập...") (task.progress_current - 1)
      task.progress_total

abbrev pub clear_once : LessonTask → TrackerState → TrackerState
clear_once task s = if has s.extract_cleared task.id then s else record s {
  extract_cleared = add s.extract_cleared task.id;
  segments = [];
  chunks = [];
  interactions = [];
}

unfoldable pub track_extract : ℕ → LessonTask → TrackerState → TrackerState
unfolding analysis_step_from_task time_step has add
track_extract now task s =
    let step = analysis_step_from_task task in
    clear_once task (record s {
      extract_state = StreamRunState.running step false;
      extract_timings = time_step step s.extract_timings (start_ms now task);
    })

unfoldable pub track_chunk : ℕ → LessonTask → TrackerState → TrackerState
unfolding analysis_step_from_task time_step
track_chunk now task s =
    let step = analysis_step_from_task task in
    record s {
      chunk_state = StreamRunState.running step false;
      chunk_timings = time_step step s.chunk_timings (start_ms now task);
    }

abbrev pub load_once : Ids → String → Load → List Load
load_once seen id load = if has seen id then [] else load ∷ []

unfoldable pub track_pipeline : LessonTask → TrackerState → TrackerState × List Load
unfolding includes has add
track_pipeline task s =
    if includes task.progress_step "GENERATING"
    then (
      record s {
        extract_state = StreamRunState.done;
        chunk_state = StreamRunState.done;
        gen_state = generating task;
        gen_chunks_loaded = add s.gen_chunks_loaded task.id;
        transcript_loaded = add s.transcript_loaded task.id;
      },
      load_once s.gen_chunks_loaded task.id (reload_chunks task.id)
          ++ load_once s.transcript_loaded task.id (load_transcript task.id),
    )
    else if includes task.progress_step "CHUNKING"
    then (
      record s {
        extract_state = StreamRunState.done;
        chunk_state = StreamRunState.running none true;
        gen_state = GenRunState.idle;
        transcript_loaded = add s.transcript_loaded task.id;
      },
      load_once s.transcript_loaded task.id (load_transcript task.id),
    )
    else (
      record s {
        extract_state = StreamRunState.running none true;
        chunk_state = StreamRunState.idle;
        gen_state = GenRunState.idle;
      },
      [],
    )

-- A task that is queued or running.
unfoldable pub track_active : ℕ → TaskKind → LessonTask → TrackerState → TrackerState × List Load
unfolding track_extract track_chunk track_pipeline
track_active now TaskKind.extract_transcript task s = (track_extract now task s, [])
track_active now TaskKind.chunk_transcript task s = (track_chunk now task s, [])
track_active now TaskKind.generate_interactions task s =
    (if is_empty task.chunk_id then record s { gen_state = generating task } else s, [])
track_active now TaskKind.run_pipeline task s = track_pipeline task s
track_active now TaskKind.unspecified task s = (s, [])
