-- ===== src/Analysis/Ended.antt =====
-- What a task that has ended does to the tracker (analysis-task-tracker.ts, the second half of the loop).
use bachelor_thesis.Prelude.{
  ℕ, String, Bool, true, false, ◌&&◌, ◌||◌, not, Option, none, some, List, [], ◌∷◌, ◌++◌,
  if◌then◌else◌, get_or, is_empty, or_text, has, add, delete,
}
use bachelor_thesis.Errors.{includes}
use bachelor_thesis.Analysis.Types.{
  TaskKind, TaskStatus, ProgressStep, LessonTask, StreamRunState, GenRunState,
  analysis_step_from_task, is_active, is_terminal,
}
use bachelor_thesis.Analysis.Timings.{close_step_timings}
use bachelor_thesis.Analysis.Active.{
  Load, sync_analysis, after_extract, after_chunk, after_generate, after_pipeline, TrackerState,
  end_ms,
}

abbrev pub makes_transcript : TaskKind → Bool
makes_transcript TaskKind.extract_transcript = true
makes_transcript TaskKind.chunk_transcript = true
makes_transcript TaskKind.run_pipeline = true
makes_transcript _ = false

abbrev pub is_succeeded : TaskStatus → Bool
is_succeeded TaskStatus.succeeded = true
is_succeeded _ = false

abbrev pub is_failed : TaskStatus → Bool
is_failed TaskStatus.failed = true
is_failed _ = false

-- The analysis is loaded once for each task that succeeds.
unfoldable pub sync_once : LessonTask → TrackerState → TrackerState × List Load
unfolding has add
sync_once task s =
    if is_succeeded task.status && makes_transcript task.kind && not (has s.analysis_synced task.id)
    then (record s { analysis_synced = add s.analysis_synced task.id }, sync_analysis task.id ∷ [])
    else (s, [])

abbrev pub failing_step : LessonTask → Option ProgressStep
failing_step task = some (get_or (analysis_step_from_task task) ProgressStep.analyzing)

unfoldable pub attribute : LessonTask → StreamRunState → StreamRunState
unfolding analysis_step_from_task
attribute task (StreamRunState.error none message) =
    StreamRunState.error (failing_step task) (or_text task.error_msg (or_text task.message message))
attribute task run = run

unfoldable pub attribute_kind : TaskKind → LessonTask → TrackerState → TrackerState
unfolding attribute includes
attribute_kind TaskKind.extract_transcript task s = record s {
  extract_state = attribute task s.extract_state;
}
attribute_kind TaskKind.chunk_transcript task s = record s {
  chunk_state = attribute task s.chunk_state;
}
attribute_kind TaskKind.run_pipeline task s =
    if includes task.progress_step "CHUNKING"
    then record s { chunk_state = attribute task s.chunk_state }
    else if includes task.progress_step "GENERATING"
    then s
    else record s { extract_state = attribute task s.extract_state }
attribute_kind _ task s = s

unfoldable pub attribute_once : LessonTask → TrackerState → TrackerState
unfolding attribute_kind has add
attribute_once task s =
    if is_failed task.status && not (has s.failed_attributed task.id)
    then attribute_kind task.kind task
        (record s { failed_attributed = add s.failed_attributed task.id })
    else s

unfoldable pub close_timings : ℕ → TaskKind → TrackerState → TrackerState
unfolding close_step_timings
close_timings at TaskKind.extract_transcript s = record s {
  extract_timings = close_step_timings s.extract_timings at;
}
close_timings at TaskKind.chunk_transcript s = record s {
  chunk_timings = close_step_timings s.chunk_timings at;
}
close_timings at _ s = s

unfoldable pub finish_succeeded : TaskKind → LessonTask → TrackerState → TrackerState × List Load
finish_succeeded TaskKind.extract_transcript task s =
    (record s { extract_state = StreamRunState.done }, after_extract task.id ∷ [])
finish_succeeded TaskKind.chunk_transcript task s =
    (record s { chunk_state = StreamRunState.done }, after_chunk task.id ∷ [])
finish_succeeded TaskKind.generate_interactions task s =
    (s, if is_empty task.chunk_id then after_generate task.id ∷ [] else [])
finish_succeeded TaskKind.run_pipeline task s = (
  record s { extract_state = StreamRunState.done; chunk_state = StreamRunState.done },
  after_pipeline task.id ∷ [],
)
finish_succeeded TaskKind.unspecified task s = (s, [])

unfoldable pub finish_failed : TaskKind → LessonTask → String → TrackerState → TrackerState
unfolding analysis_step_from_task includes
finish_failed TaskKind.extract_transcript task msg s = record s {
  extract_state = StreamRunState.error (failing_step task) msg;
}
finish_failed TaskKind.chunk_transcript task msg s = record s {
  chunk_state = StreamRunState.error (failing_step task) msg;
}
finish_failed TaskKind.generate_interactions task msg s =
    if is_empty task.chunk_id then record s { gen_state = GenRunState.error msg } else s
finish_failed TaskKind.run_pipeline task msg s =
    if includes task.progress_step "GENERATING"
    then record s { gen_state = GenRunState.error msg }
    else if includes task.progress_step "CHUNKING"
    then record s { chunk_state = StreamRunState.error (failing_step task) msg }
    else record s { extract_state = StreamRunState.error (failing_step task) msg }
finish_failed TaskKind.unspecified task msg s = s

abbrev pub failure_text : LessonTask → String
failure_text task = or_text task.error_msg (or_text task.message "Tác vụ thất bại.")

unfoldable pub finish_by_status : LessonTask → TrackerState → TrackerState × List Load
unfolding finish_succeeded finish_failed
finish_by_status task s =
    if is_succeeded task.status
    then finish_succeeded task.kind task s
    else (finish_failed task.kind task (failure_text task) s, [])

abbrev pub was_active : Option TaskStatus → Bool
was_active none = false
was_active (some st) = is_active st

-- The end of a task that was seen active, or was started here, and is not handled yet.
unfoldable pub finish_task :
    ℕ → Option TaskStatus → LessonTask → TrackerState → TrackerState × List Load
unfolding close_timings finish_by_status has add delete
finish_task now previous task s =
    if not (is_terminal task.status)
      || not (was_active previous || has s.started task.id)
      || has s.completed task.id
    then (s, [])
    else finish_by_status task (
        close_timings (end_ms now task) task.kind
          (record s { completed = add s.completed task.id; started = delete s.started task.id }))

-- A task that is not active: the sync, the attribution of an old failure, and its end.
unfoldable pub track_ended :
    ℕ → Option TaskStatus → LessonTask → TrackerState → TrackerState × List Load
unfolding sync_once attribute_once finish_task
track_ended now previous task s =
    let (t, synced) = sync_once task s in
    let (u, loads) = finish_task now previous task (attribute_once task t) in (u, synced ++ loads)
