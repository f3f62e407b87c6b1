-- ===== src/Lesson/State.antt =====
-- What the student view keeps, and what it derives from it. Times are in milliseconds.
use bachelor_thesis.Prelude.{
  ℕ, String, Bool, true, false, ◌&&◌, not, Option, none, some, List, [], ◌∷◌, map, ltb, leb,
  if◌then◌else◌, is_some, length, head, filter, Ids, has, add_all, set, insert_by, sort_by,
}
use bachelor_thesis.Interaction.Proto.{FeedbackMode, LessonInteraction}
use bachelor_thesis.Interaction.Types.{Response, Grade}

pub record Video : Type 0 where
  pub position : ℕ
  pub paused : Bool
  pub ended : Bool
  pub duration : ℕ

pub record QuizResponse : Type 0 where
  pub interaction_id : String
  pub response : Option Response
  pub score : ℕ
  pub max_score : ℕ
  pub feedback : Option String

pub record QuizResult : Type 0 where
  pub total_score : ℕ
  pub max_score : ℕ
  pub attempt_count : ℕ
  pub responses : List QuizResponse

-- A part of a whole as a fraction, not yet divided.
pub record Fraction : Type 0 where
  pub part : ℕ
  pub whole : ℕ

pub record PreviewMetrics : Type 0 where
  pub time_to_answer_ms : List (String × ℕ)
  pub replay_counts : List (String × ℕ)
  pub video_watch_fraction : Fraction

pub record Props : Type 0 where
  pub initial_position : ℕ
  pub interactions : List LessonInteraction
  pub previous_result : Option QuizResult
  pub feedback_mode : FeedbackMode
  pub is_preview : Bool

-- What is kept in the session storage under the draft's key: the value that its text is written from.
pub record Draft : Type 0 where
  pub responses : List (String × Response)
  pub passed_ids : Ids

-- A submission under way, with the values that it captured.
pub record Flight : Type 0 where
  pub responses : List (String × Response)
  pub interactions : List LessonInteraction
  pub draft_grades : List (String × Grade)
  pub attempt_count : ℕ
  pub watch_fraction : Fraction

pub record LessonState : Type 0 where
  pub video : Option Video
  pub prev_time : ℕ
  pub is_initial_load : Bool
  pub preview_attempt_count : ℕ
  pub player_key : ℕ
  pub question_shown_at : List (String × ℕ)
  pub time_to_answer_ms : List (String × ℕ)
  pub replay_counts : List (String × ℕ)
  pub watched : ℕ
  pub max_watched : ℕ
  pub max_watched_shown : ℕ
  pub last_max_watched_push : ℕ
  pub preview_metrics : Option PreviewMetrics
  pub error : Option String
  pub submitted : Bool
  pub result : Option QuizResult
  pub lesson_interactions : List LessonInteraction
  pub draft_grades : List (String × Grade)
  pub saving_response_ids : Ids
  pub passed_ids : Ids
  pub responses : List (String × Response)
  pub active_id : Option String
  pub auto_submit_draft : Option (List (String × Response))
  pub auto_submitted_draft : Bool
  pub auto_submitted : Bool
  pub submitting : Bool
  pub flight : Option Flight
  pub clamping : Bool
  pub initial_gate_checked : Bool
  pub stored_draft : Option Draft

abbrev pub checkpoint_epsilon : ℕ
checkpoint_epsilon = 350

abbrev pub forward_seek_slack : ℕ
forward_seek_slack = 1000

abbrev pub max_watch_delta : ℕ
max_watch_delta = 1500

abbrev pub ids_of : List LessonInteraction → List String
ids_of = map (λ it. it.id)

responses_of : List QuizResponse → List (String × Response)
responses_of [] = []
responses_of (r ∷ rs) = elim r.response [
  | none ↦ responses_of rs
  | some v ↦ (r.interaction_id, v) ∷ responses_of rs
]

add_responses : List (String × Response) → List (String × Response) → List (String × Response)
add_responses m [] = m
add_responses m ((k, v) ∷ rs) = add_responses (set m k v) rs

abbrev initial_passed : Option QuizResult → List LessonInteraction → Ids
initial_passed none its = []
initial_passed (some r) its = add_all [] (ids_of its)

abbrev initial_responses : Option QuizResult → List (String × Response)
initial_responses none = []
initial_responses (some r) = add_responses [] (responses_of r.responses)

-- The state of the first render; the storage and the video are the page's.
unfoldable pub mount : Props → Option Video → Option Draft → LessonState
unfolding responses_of add_responses add_all
mount props video stored = record {
  video = video;
  prev_time = props.initial_position;
  is_initial_load = true;
  preview_attempt_count = 1;
  player_key = 0;
  question_shown_at = [];
  time_to_answer_ms = [];
  replay_counts = [];
  watched = 0;
  max_watched = props.initial_position;
  max_watched_shown = props.initial_position;
  last_max_watched_push = 0;
  preview_metrics = none;
  error = none;
  submitted = is_some props.previous_result;
  result = props.previous_result;
  lesson_interactions = props.interactions;
  draft_grades = [];
  saving_response_ids = [];
  passed_ids = initial_passed props.previous_result props.interactions;
  responses = initial_responses props.previous_result;
  active_id = none;
  auto_submit_draft = none;
  auto_submitted_draft = false;
  auto_submitted = false;
  submitting = false;
  flight = none;
  clamping = false;
  initial_gate_checked = false;
  stored_draft = stored;
}

-- `isPending` of the transition that submits.
abbrev pub is_pending : LessonState → Bool
is_pending s = is_some s.flight

unfoldable pub all_answered : LessonState → Bool
all_answered s =
    ltb 0 (length s.lesson_interactions) && leb (length s.lesson_interactions) (length s.passed_ids)

abbrev pub is_after_each : FeedbackMode → Bool
is_after_each FeedbackMode.after_each = true
is_after_each _ = false

unfoldable pub ready_to_submit : Props → LessonState → Bool
unfolding all_answered
ready_to_submit props s =
    all_answered s && not s.submitted && not (is_after_each props.feedback_mode)

abbrev pub starts_before : LessonInteraction → LessonInteraction → Bool
starts_before a b = leb a.start_ms b.start_ms

abbrev pub is_gate : Ids → LessonInteraction → Bool
is_gate passed it = ltb 0 it.start_ms && not (has passed it.id)

-- The timed questions that are not answered yet, by their time.
unfoldable pub pending_checkpoints : LessonState → List LessonInteraction
unfolding filter sort_by insert_by
pending_checkpoints s = sort_by starts_before (filter (is_gate s.passed_ids) s.lesson_interactions)

unfoldable pub next_gate : LessonState → Option LessonInteraction
unfolding pending_checkpoints
next_gate s = head (pending_checkpoints s)

abbrev pub start_of : Option LessonInteraction → Option ℕ
start_of none = none
start_of (some c) = some c.start_ms

-- The cap of the saved position that the view gives to the player.
unfoldable pub max_savable_position : Props → LessonState → Option ℕ
unfolding next_gate
max_savable_position props s = if props.is_preview then none else start_of (next_gate s)
