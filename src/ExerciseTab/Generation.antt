-- ===== src/ExerciseTab/Generation.antt =====
-- The generation of the exercises of one chunk (lessons/[lessonId]/tab-exercises.tsx, handleChunkGenerate):
-- its start, the answers that it waits for, and its polls.
use bachelor_thesis.Prelude.{
  join_text, ℕ, ◌+◌, String, Bool, true, false, Option, none, some, List, [], ◌∷◌, map, str_eq,
  ◌==◌, if◌then◌else◌, is_empty, or_text, length, find, filter, any, add, delete, get, set,
}
use bachelor_thesis.Errors.{Failure, to_user_message}
use bachelor_thesis.Session.{Answer}
use bachelor_thesis.Chunks.{TranscriptChunk}
use bachelor_thesis.Analysis.Types.{TaskStatus, LessonTask}
use bachelor_thesis.Interaction.Proto.{InteractionKind, LessonInteraction}
use bachelor_thesis.ExerciseTab.{
  ChunkGenPhase, TabState, update_interactions, toast, is_of_chunk, is_running, set_phase,
  summary_of,
}

-- A generation that was started: its chunk, its controller and the text that names the chunk.
pub record Run : Type 0 where
  pub chunk : String
  pub controller : ℕ
  pub summary : String

abbrev abort_old : Option ℕ → List ℕ → List ℕ
abort_old none ids = ids
abort_old (some c) ids = c ∷ ids

abbrev pub is_aborted : Run → TabState → Bool
unfolding any
is_aborted r s = any (λ n. n == r.controller) s.aborted

abbrev start_run : String → TabState → TabState
unfolding get set add
start_run id s = record (set_phase id (ChunkGenPhase.running "Đang lưu cấu hình...") s) {
  aborted = abort_old (get s.controllers id) s.aborted;
  controllers = set s.controllers id s.next_controller;
  next_controller = s.next_controller + 1;
  open_generate_chunk_ids = add s.open_generate_chunk_ids id;
}

abbrev run_of : String → TabState → Run
unfolding find
run_of id s = record {
  chunk = id;
  controller = s.next_controller;
  summary = summary_of id s.local_chunks;
}

-- The handler up to its first call, with the run that it starts, if any.
unfoldable pub handle_chunk_generate :
    String → List InteractionKind → TabState → TabState × Option Run
unfolding start_run run_of get
handle_chunk_generate id [] s = (s, none)
handle_chunk_generate id (k ∷ ks) s =
    if is_running (get s.chunk_gen_state id)
    then (s, none)
    else (start_run id s, some (run_of id s))

abbrev put_chunk : String → Option TranscriptChunk → List TranscriptChunk → List TranscriptChunk
put_chunk id none cs = cs
put_chunk id (some c) cs = map (λ x. if str_eq x.id id then c else x) cs

-- The configuration was saved, and the task is about to be asked for.
unfoldable pub config_saved : Run → Option TranscriptChunk → TabState → TabState
unfolding set
config_saved r chunk s =
    set_phase r.chunk (ChunkGenPhase.running "Đang bắt đầu...")
      (record s { local_chunks = put_chunk r.chunk chunk s.local_chunks })

-- `delete chunkAbortRefs.current[chunkId]`, on the first entry of the key.
unfoldable pub remove_key : List (String × ℕ) → String → List (String × ℕ)
remove_key [] k = []
remove_key ((j, n) ∷ m) k = let rest = remove_key m k in if str_eq j k then m else (j, n) ∷ rest

abbrev pub holds : Option ℕ → ℕ → Bool
holds none n = false
holds (some m) n = m == n

-- The `finally` of a run: its controller is dropped, where no later run has put its own there.
unfoldable pub release : Run → TabState → TabState
unfolding get remove_key
release r s =
    if holds (get s.controllers r.chunk) r.controller
    then record s { controllers = remove_key s.controllers r.chunk }
    else s

abbrev pub lost_text : Failure → String
lost_text e = to_user_message e "Mất kết nối với máy chủ."

abbrev pub failed_text : LessonTask → String
failed_text t = or_text t.error_msg (or_text t.message "Lỗi tạo bài tập")

unfoldable pub failure_toast : Run → String
failure_toast r = join_text "Lỗi tạo bài tập cho \"" (join_text r.summary "\"")

-- A call of the run fails: an aborted run says nothing.
unfoldable pub run_failed : Run → Failure → TabState → TabState
unfolding release set any to_user_message failure_toast
run_failed r e s =
    if is_aborted r s
    then release r s
    else release r
        (toast (failure_toast r) (set_phase r.chunk (ChunkGenPhase.error (lost_text e)) s))

-- The task has succeeded; `fresh` has the exercises that were loaded, `count` writes how many are new.
unfoldable pub run_succeeded :
    (ℕ → String) → Run → Option (List LessonInteraction) → TabState → TabState
unfolding release set
run_succeeded count r none s = release r (
    set_phase r.chunk ChunkGenPhase.done
      (toast "Tạo xong nhưng không tải được kết quả. Refresh trang." s))
run_succeeded count r (some fresh) s = release r (
    set_phase r.chunk ChunkGenPhase.done (
      toast
        (join_text "Đã tạo " (
          join_text (count (length (filter (is_of_chunk r.chunk) fresh)))
            (join_text " bài tập cho \"" (join_text r.summary "\""))))
        (update_interactions fresh s)))

-- Half a second after a success the form is closed.
unfoldable pub close_done : Run → TabState → TabState
unfolding set delete
close_done r s =
    set_phase r.chunk ChunkGenPhase.idle
      (record s { open_generate_chunk_ids = delete s.open_generate_chunk_ids r.chunk })

unfoldable pub show_message : Run → String → TabState → TabState
unfolding set
show_message r message s =
    if is_empty message then s else set_phase r.chunk (ChunkGenPhase.running message) s

-- The errors that the run throws itself.
abbrev pub empty_task : Failure
empty_task = Failure.error "Server returned an empty task" Failure.value

abbrev pub no_task_id : Failure
no_task_id = Failure.error "Server did not return a task id" Failure.value

-- The call that saves the configuration is answered.
unfoldable pub config_answered : Run → Answer (Option TranscriptChunk) → TabState → TabState
unfolding config_saved run_failed
config_answered r (Answer.ok chunk) s = config_saved r chunk s
config_answered r (Answer.failed e) s = run_failed r e s

-- The task is started, with the id that came, if any. A run that polls keeps its state.
unfoldable pub start_answered : Run → Answer (Option String) → TabState → TabState
unfolding run_failed
start_answered r (Answer.ok (some id)) s = if is_empty id then run_failed r no_task_id s else s
start_answered r (Answer.ok none) s = run_failed r no_task_id s
start_answered r (Answer.failed e) s = run_failed r e s

-- What one poll is answered: the task and, where it has succeeded, the exercises that are loaded then.
pub record PollAnswer : Type 0 where
  pub task : Answer (Option LessonTask)
  pub fresh : Option (List LessonInteraction)

-- The state after a poll, and whether the run is over.
unfoldable pub by_status :
    (ℕ → String)
    → Run
    → Option (List LessonInteraction)
    → LessonTask
    → TaskStatus
    → TabState
    → TabState × Bool
unfolding run_succeeded release set failure_toast show_message
by_status count r fresh t TaskStatus.succeeded s = (run_succeeded count r fresh s, true)
by_status count r fresh t TaskStatus.failed s = (
  release r (toast (failure_toast r) (set_phase r.chunk (ChunkGenPhase.error (failed_text t)) s)),
  true,
)
by_status count r fresh t TaskStatus.canceled s =
    (release r (set_phase r.chunk ChunkGenPhase.idle s), true)
by_status count r fresh t _ s = (show_message r t.message s, false)

unfoldable pub by_answer :
    (ℕ → String)
    → Run
    → Option (List LessonInteraction)
    → Answer (Option LessonTask)
    → TabState
    → TabState × Bool
unfolding run_failed by_status
by_answer count r fresh (Answer.failed e) s = (run_failed r e s, true)
by_answer count r fresh (Answer.ok none) s = (run_failed r empty_task s, true)
by_answer count r fresh (Answer.ok (some t)) s = by_status count r fresh t t.status s

-- One turn of the loop.
unfoldable pub poll_once : (ℕ → String) → Run → PollAnswer → TabState → TabState × Bool
unfolding by_answer release any
poll_once count r a s =
    if is_aborted r s then (release r s, true) else by_answer count r a.fresh a.task s

-- The answers to the polls, in their order, up to the one that ends the run.
unfoldable pub poll_task : (ℕ → String) → Run → List PollAnswer → TabState → TabState × Bool
unfolding poll_once
poll_task count r [] s = (s, false)
poll_task count r (a ∷ rest) s =
    let (t, over) = poll_once count r a s in
    let later = poll_task count r rest t in if over then (t, true) else later
