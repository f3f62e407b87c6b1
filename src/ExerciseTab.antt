-- ===== src/ExerciseTab.antt =====
-- The tab of a lesson's exercises (lessons/[lessonId]/tab-exercises.tsx): its state, the
-- forms of the chunks, and the additions.
pub mod Listing
pub mod Deletion
pub mod Generation
pub mod Steps
pub mod Isolation
pub mod Settled
pub mod Summary
pub mod Ending
use bachelor_thesis.Prelude.{
  ℕ, String, Bool, true, false, ◌&&◌, ◌||◌, not, Option, none, some, List, [], ◌∷◌, ◌++◌, map,
  str_eq, ltb, if◌then◌else◌, is_some, length, find, filter, any, Ids, has, add, delete, get, set,
}
use bachelor_thesis.Errors.{Failure, to_user_message}
use bachelor_thesis.Session.{Answer}
use bachelor_thesis.Chunks.{TranscriptChunk}
use bachelor_thesis.Interaction.Proto.{InteractionKind, LessonInteraction}
use bachelor_thesis.Interaction.Quantity.{
  KindQuantities, ChunkInteractionConfig, total_quantity, from_config, to_kinds_list,
}

pub data ChunkGenPhase : Type 0 where
  idle : ChunkGenPhase
  running : String → ChunkGenPhase
  done : ChunkGenPhase
  error : String → ChunkGenPhase

pub data ChunkFilter : Type 0 where
  all_chunks empty_chunks with_exercises default_cfg custom_cfg : ChunkFilter

pub data Scope : Type 0 where
  whole_lesson : Scope
  one_chunk : String → Scope

pub record PendingDelete : Type 0 where
  pub scope : Scope
  pub title : String
  pub count : ℕ

-- The states and references of the tab. `shared` is what `onInteractionsChange` gave to the page last, at
-- first what the page passed; `controllers` are the abort controllers of the generations, by number.
pub record TabState : Type 0 where
  pub interactions : List LessonInteraction
  pub interactions_ref : List LessonInteraction
  pub shared : List LessonInteraction
  pub local_chunks : List TranscriptChunk
  pub gen_dialog_open : Bool
  pub default_quantities : KindQuantities
  pub expanded_chunks : Ids
  pub search_query : String
  pub chunk_filter : ChunkFilter
  pub adding_chunk_id : Option String
  pub add_error : Option String
  pub open_generate_chunk_ids : Ids
  pub chunk_gen_state : List (String × ChunkGenPhase)
  pub controllers : List (String × ℕ)
  pub aborted : List ℕ
  pub next_controller : ℕ
  pub deleting_scope : Option Scope
  pub pending_delete : Option PendingDelete
  pub toasts : List String

unfoldable pub mount_tab :
    List LessonInteraction → List TranscriptChunk → Option ChunkInteractionConfig → TabState
unfolding from_config
mount_tab interactions chunks cfg = record {
  interactions = interactions;
  interactions_ref = interactions;
  shared = interactions;
  local_chunks = chunks;
  gen_dialog_open = false;
  default_quantities = from_config cfg;
  expanded_chunks = [];
  search_query = "";
  chunk_filter = all_chunks;
  adding_chunk_id = none;
  add_error = none;
  open_generate_chunk_ids = [];
  chunk_gen_state = [];
  controllers = [];
  aborted = [];
  next_controller = 0;
  deleting_scope = none;
  pending_delete = none;
  toasts = [];
}

abbrev pub update_interactions : List LessonInteraction → TabState → TabState
update_interactions its s = record s { interactions = its; interactions_ref = its; shared = its }

-- The page passes other exercises, or other chunks.
abbrev pub receive_interactions : List LessonInteraction → TabState → TabState
receive_interactions its s = update_interactions its s

abbrev pub receive_chunks : List TranscriptChunk → TabState → TabState
receive_chunks chunks s = record s { local_chunks = chunks }

abbrev pub toast : String → TabState → TabState
toast msg s = record s { toasts = msg ∷ s.toasts }

unfoldable pub toggle_chunk : String → TabState → TabState
unfolding has add delete
toggle_chunk id s = record s {
  expanded_chunks =
      if has s.expanded_chunks id then delete s.expanded_chunks id else add s.expanded_chunks id;
}

abbrev pub is_of_chunk : String → LessonInteraction → Bool
is_of_chunk id it = str_eq it.chunk_id id

-- The effect of a request to open the dialog.
abbrev pub open_requested : ℕ → Bool → TabState → TabState
open_requested request generating s =
    if ltb 0 request && ltb 0 (length s.local_chunks) && not generating
    then record s { gen_dialog_open = true }
    else s

-- What the tab asks of the service, in `handleGenDialogGenerate`, and of the page.
pub data DialogCall : Type 0 where
  save_default : ℕ → List InteractionKind → DialogCall
  generate_lesson : Bool → String → String → DialogCall

-- `saved` is how the call that saves the quantities fails, if it does.
unfoldable pub handle_gen_dialog_generate :
    Option Failure → Bool → String → String → TabState → TabState × List DialogCall
unfolding total_quantity to_kinds_list
handle_gen_dialog_generate saved force difficulty focus s =
    let total = total_quantity s.default_quantities in
    let save =
      if ltb 0 total then save_default total (to_kinds_list s.default_quantities) ∷ [] else [] in
    if ltb 0 total && is_some saved
    then (toast "Không thể lưu cấu hình mặc định" s, save)
    else (record s { gen_dialog_open = false }, save ++ generate_lesson force difficulty focus ∷ [])

-- `handleAdd`, before its call and after the answer.
abbrev pub begin_add : TabState → TabState
begin_add s = record s { add_error = none }

unfoldable pub finish_add : Answer (Option LessonInteraction) → TabState → TabState
unfolding to_user_message
finish_add (Answer.failed e) s = record s {
  add_error = some (to_user_message e "Không thể thêm câu hỏi");
}
finish_add (Answer.ok none) s = s
finish_add (Answer.ok (some it)) s =
    record (update_interactions (s.interactions_ref ++ it ∷ []) s) { adding_chunk_id = none }

abbrev pub is_running : Option ChunkGenPhase → Bool
is_running (some (ChunkGenPhase.running message)) = true
is_running _ = false

abbrev pub set_phase : String → ChunkGenPhase → TabState → TabState
unfolding set
set_phase id p s = record s { chunk_gen_state = set s.chunk_gen_state id p }

-- A generation that runs is left alone.
unfoldable pub rest_unless_running : String → TabState → TabState
unfolding get set
rest_unless_running id s =
    if is_running (get s.chunk_gen_state id) then s else set_phase id ChunkGenPhase.idle s

unfoldable pub handle_open_generate : String → TabState → TabState
unfolding rest_unless_running add
handle_open_generate id s = rest_unless_running id (record s {
  expanded_chunks = add s.expanded_chunks id;
  adding_chunk_id = none;
  add_error = none;
  open_generate_chunk_ids = add s.open_generate_chunk_ids id;
})

unfoldable pub handle_open_add : String → TabState → TabState
unfolding add delete
handle_open_add id s = record s {
  expanded_chunks = add s.expanded_chunks id;
  open_generate_chunk_ids = delete s.open_generate_chunk_ids id;
  adding_chunk_id = some id;
  add_error = none;
}

abbrev pub handle_close_add : TabState → TabState
handle_close_add s = record s { adding_chunk_id = none; add_error = none }

unfoldable pub handle_close_generate : String → TabState → TabState
unfolding rest_unless_running delete
handle_close_generate id s =
    rest_unless_running id
      (record s { open_generate_chunk_ids = delete s.open_generate_chunk_ids id })

-- An exercise was changed, or deleted, in its row.
unfoldable pub update_one : LessonInteraction → TabState → TabState
update_one it s =
    update_interactions (map (λ x. if str_eq x.id it.id then it else x) s.interactions_ref) s

unfoldable pub delete_one : String → TabState → TabState
unfolding filter
delete_one id s = update_interactions (filter (λ x. not (str_eq x.id id)) s.interactions_ref) s

abbrev summary_or : Option TranscriptChunk → String
summary_or none = "phân đoạn này"
summary_or (some c) = c.summary

abbrev pub summary_of : String → List TranscriptChunk → String
unfolding find
summary_of id chunks = summary_or (find (λ c. str_eq c.id id) chunks)

-- `isActuallyBusy`, for what the page says of itself.
unfoldable pub is_actually_busy : Bool → Bool → TabState → Bool
unfolding any
is_actually_busy disabled generating s =
    disabled
    || generating
    || any (λ e. is_running (some e.1)) s.chunk_gen_state
    || is_some s.deleting_scope
