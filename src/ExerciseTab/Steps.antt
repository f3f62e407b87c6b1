-- ===== src/ExerciseTab/Steps.antt =====
-- The tab as a machine: what the teacher does, and the answers that come.
use bachelor_thesis.ExerciseTab.Deletion.{
  request_delete_lesson, request_delete_chunk, cancel_delete, begin_delete, finish_delete,
}
use bachelor_thesis.Prelude.{ℕ, String, Bool, Option, List, [], ◌∷◌}
use bachelor_thesis.Errors.{Failure}
use bachelor_thesis.Session.{Answer}
use bachelor_thesis.Chunks.{TranscriptChunk}
use bachelor_thesis.Interaction.Proto.{InteractionKind, LessonInteraction}
use bachelor_thesis.Interaction.Quantity.{KindQuantities, ChunkInteractionConfig, from_config}
use bachelor_thesis.ExerciseTab.{
  ChunkFilter, Scope, TabState, receive_interactions, receive_chunks, toggle_chunk, open_requested,
  handle_gen_dialog_generate, begin_add, finish_add, handle_open_generate, handle_open_add,
  handle_close_add, handle_close_generate, update_one, delete_one,
}
use bachelor_thesis.ExerciseTab.Generation.{
  Run, handle_chunk_generate, close_done, config_answered, start_answered, PollAnswer, poll_once,
}

-- The flag of `dialog_requested` is whether the lesson's exercises are being generated.
pub data TabEvent : Type 0 where
  interactions_received : List LessonInteraction → TabEvent
  chunks_received : List TranscriptChunk → TabEvent
  defaults_received : Option ChunkInteractionConfig → TabEvent
  quantities_set : KindQuantities → TabEvent
  dialog_set : Bool → TabEvent
  dialog_requested : ℕ → Bool → TabEvent
  dialog_generated : Option Failure → Bool → String → String → TabEvent
  chunk_toggled : String → TabEvent
  searched : String → TabEvent
  filter_chosen : ChunkFilter → TabEvent
  add_opened : String → TabEvent
  add_closed add_started : TabEvent
  added : Answer (Option LessonInteraction) → TabEvent
  row_updated : LessonInteraction → TabEvent
  row_deleted : String → TabEvent
  lesson_delete_requested : TabEvent
  chunk_delete_requested : String → TabEvent
  delete_canceled delete_confirmed : TabEvent
  delete_answered : Scope → Option Failure → TabEvent
  generate_opened : String → TabEvent
  generate_closed : String → TabEvent
  generate_pressed : String → List InteractionKind → TabEvent
  config_came : Run → Answer (Option TranscriptChunk) → TabEvent
  start_came : Run → Answer (Option String) → TabEvent
  poll_came : Run → PollAnswer → TabEvent
  close_due : Run → TabEvent

-- `count` writes a number.
unfoldable pub tab_step : (ℕ → String) → TabEvent → TabState → TabState
unfolding from_config handle_gen_dialog_generate toggle_chunk finish_add handle_open_generate
    handle_open_add handle_close_generate update_one delete_one request_delete_lesson
    request_delete_chunk begin_delete finish_delete handle_chunk_generate config_answered
    start_answered poll_once close_done
tab_step count (interactions_received its) s = receive_interactions its s
tab_step count (chunks_received cs) s = receive_chunks cs s
tab_step count (defaults_received cfg) s = record s { default_quantities = from_config cfg }
tab_step count (quantities_set q) s = record s { default_quantities = q }
tab_step count (dialog_set shows) s = record s { gen_dialog_open = shows }
tab_step count (dialog_requested n generating) s = open_requested n generating s
tab_step count (dialog_generated saved force difficulty focus) s =
    (handle_gen_dialog_generate saved force difficulty focus s).0
tab_step count (chunk_toggled id) s = toggle_chunk id s
tab_step count (searched text) s = record s { search_query = text }
tab_step count (filter_chosen f) s = record s { chunk_filter = f }
tab_step count (add_opened id) s = handle_open_add id s
tab_step count add_closed s = handle_close_add s
tab_step count add_started s = begin_add s
tab_step count (added answer) s = finish_add answer s
tab_step count (row_updated it) s = update_one it s
tab_step count (row_deleted id) s = delete_one id s
tab_step count lesson_delete_requested s = request_delete_lesson s
tab_step count (chunk_delete_requested id) s = request_delete_chunk id s
tab_step count delete_canceled s = cancel_delete s
tab_step count delete_confirmed s = begin_delete s
tab_step count (delete_answered scope failure) s = finish_delete scope failure s
tab_step count (generate_opened id) s = handle_open_generate id s
tab_step count (generate_closed id) s = handle_close_generate id s
tab_step count (generate_pressed id kinds) s = (handle_chunk_generate id kinds s).0
tab_step count (config_came r answer) s = config_answered r answer s
tab_step count (start_came r answer) s = start_answered r answer s
tab_step count (poll_came r answer) s = (poll_once count r answer s).0
tab_step count (close_due r) s = close_done r s

unfoldable pub tab_run : (ℕ → String) → List TabEvent → TabState → TabState
unfolding tab_step
tab_run count [] s = s
tab_run count (e ∷ es) s = tab_run count es (tab_step count e s)
