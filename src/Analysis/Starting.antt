-- ===== src/Analysis/Starting.antt =====
-- The starts of the tasks from the workflow, and what counts as busy
-- (lessons/[lessonId]/use-lesson-analysis-state.ts, with the calls of use-lesson-tasks.ts).
pub mod Noticed
pub mod Busy
use bachelor_thesis.Prelude.{
  String, Bool, true, false, ◌&&◌, ◌||◌, not, Option, none, some, List, [], ◌∷◌, str_eq,
  if◌then◌else◌, get_or, is_empty, filter, any, add, set,
}
use bachelor_thesis.Errors.{to_user_message}
use bachelor_thesis.Session.{Answer}
use bachelor_thesis.Analysis.Types.{
  TaskKind, TaskStatus, LessonTask, StreamRunState, GenRunState, ContentStep,
}
use bachelor_thesis.Analysis.Active.{TrackerState}
use bachelor_thesis.Analysis.Workflow.{filled}

-- What the handlers of the workflow read and set: its own states, and those that the tracker sets as well.
pub record Console : Type 0 where
  pub step : ContentStep
  pub gen_warnings : List String
  pub confirm_re_extract : Bool
  pub tracker : TrackerState
  pub toasts : List String

-- What is asked: a task with the chunk, the force flag, the difficulty and the prompt of a generation, or
-- only a refresh of the tasks.
pub data StartCall : Type 0 where
  start_task : TaskKind → StartCall
  start_generation : String → Bool → String → String → StartCall
  refresh_tasks : StartCall

unfoldable pub start_extract : Console → Console × List StartCall
start_extract s = (
  record s {
    step = ContentStep.transcript;
    gen_warnings = [];
    confirm_re_extract = false;
    tracker = record s.tracker {
      segments = [];
      chunks = [];
      interactions = [];
      extract_state = StreamRunState.running none false;
      chunk_state = StreamRunState.idle;
      gen_state = GenRunState.idle;
      extract_timings = [];
      chunk_timings = [];
    };
  },
  start_task TaskKind.extract_transcript ∷ [],
)

abbrev pub runs : StreamRunState → Bool
runs (StreamRunState.running step coarse) = true
runs _ = false

abbrev is_division : TaskKind → Bool
is_division TaskKind.chunk_transcript = true
is_division _ = false

abbrev pub is_chunk_task : LessonTask → Bool
is_chunk_task task = is_division task.kind

-- `handleChunk`, for the active tasks: a division that is under way is not started again.
unfoldable pub handle_chunk : List LessonTask → Console → Console × List StartCall
unfolding any
handle_chunk active_tasks s =
    if runs s.tracker.chunk_state || any is_chunk_task active_tasks
    then (
      record s {
        step = ContentStep.chunks;
        tracker = record s.tracker { chunk_state = StreamRunState.running none false };
      },
      refresh_tasks ∷ [],
    )
    else (
      record s {
        step = ContentStep.chunks;
        gen_warnings = [];
        tracker = record s.tracker {
          chunk_state = StreamRunState.running none false;
          chunk_timings = [];
          gen_state = GenRunState.idle;
        };
      },
      start_task TaskKind.chunk_transcript ∷ [],
    )

unfoldable pub handle_generate :
    Option Bool → Option String → String → String → Console → Console × List StartCall
handle_generate force chunk difficulty focus s = (
  record s {
    step = ContentStep.exercises;
    gen_warnings = [];
    tracker = record s.tracker { gen_state = GenRunState.running "Đang bắt đầu..." 0 0 };
  },
  start_generation (get_or chunk "") (get_or force (filled s.tracker.interactions)) difficulty focus
      ∷ [],
)

-- A task was started: it is noted as one of this page, and as queued.
unfoldable pub note_started : String → TrackerState → TrackerState
unfolding add set
note_started id t = record t {
  started = add t.started id;
  status_by_id = set t.status_by_id id TaskStatus.queued;
}

abbrev failed_start : String → StreamRunState
failed_start msg = StreamRunState.error none msg

-- What a start that fails sets, by the kind of the task, with its message.
unfoldable pub start_failed : TaskKind → String → TrackerState → TrackerState
start_failed TaskKind.extract_transcript msg t = record t { extract_state = failed_start msg }
start_failed TaskKind.chunk_transcript msg t = record t { chunk_state = failed_start msg }
start_failed TaskKind.generate_interactions msg t = record t { gen_state = GenRunState.error msg }
start_failed _ msg t = t

abbrev start_error : TaskKind → String
start_error TaskKind.extract_transcript = "Không thể bắt đầu phiên âm."
start_error TaskKind.chunk_transcript = "Không thể bắt đầu phân đoạn."
start_error _ = "Không thể bắt đầu tạo bài tập."

-- The answer to a start of one of the three kinds.
unfoldable pub start_answered : TaskKind → Answer (Option LessonTask) → Console → Console
unfolding note_started start_failed to_user_message
start_answered kind (Answer.ok none) s = s
start_answered kind (Answer.ok (some task)) s = record s {
  tracker = note_started task.id s.tracker;
}
start_answered kind (Answer.failed e) s =
    let msg = to_user_message e (start_error kind) in
    record s { tracker = start_failed kind msg s.tracker; toasts = msg ∷ s.toasts }

abbrev stream_busy : StreamRunState → Bool
stream_busy StreamRunState.starting = true
stream_busy (StreamRunState.running step coarse) = true
stream_busy (StreamRunState.stale step) = true
stream_busy _ = false

abbrev gen_busy : GenRunState → Bool
gen_busy GenRunState.starting = true
gen_busy (GenRunState.running message index total) = true
gen_busy (GenRunState.stale message index total) = true
gen_busy _ = false

-- The runs and the edits of chunks that are under way.
abbrev pub work_busy : Bool → Option String → TrackerState → Bool
work_busy reloading mutating t =
    stream_busy t.extract_state
    || stream_busy t.chunk_state
    || gen_busy t.gen_state
    || reloading
    || not (is_empty (get_or mutating ""))

abbrev pub some_task : List LessonTask → Bool
some_task [] = false
some_task (x ∷ xs) = true

-- `isBusy`, for the edits of chunks and the active tasks.
unfoldable pub is_busy : Bool → Option String → List LessonTask → TrackerState → Bool
is_busy reloading mutating active_tasks t = work_busy reloading mutating t || some_task active_tasks

abbrev pub zero_uuid : String
zero_uuid = "00000000-0000-0000-0000-000000000000"

abbrev pub is_generation : TaskKind → Bool
is_generation TaskKind.generate_interactions = true
is_generation _ = false

-- A task that generates the exercises of one chunk.
abbrev pub is_chunk_generation : LessonTask → Bool
is_chunk_generation task =
    is_generation task.kind && not (is_empty task.chunk_id) && not (str_eq task.chunk_id zero_uuid)

unfoldable pub active_blocking_tasks : List LessonTask → List LessonTask
unfolding filter
active_blocking_tasks active_tasks = filter (λ t. not (is_chunk_generation t)) active_tasks

-- `chunkGenerateBusy`: other chunks' generations do not count.
unfoldable pub chunk_generate_busy : Bool → Option String → List LessonTask → TrackerState → Bool
unfolding active_blocking_tasks
chunk_generate_busy reloading mutating active_tasks t =
    work_busy reloading mutating t || some_task (active_blocking_tasks active_tasks)
