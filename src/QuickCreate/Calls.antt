-- ===== src/QuickCreate/Calls.antt =====
-- Calls that are made one after the other until one fails, with the calls that were made.
use bachelor_thesis.Interaction.Proto.{InteractionKind, FeedbackMode}
use bachelor_thesis.Errors.{Failure}
use bachelor_thesis.Session.{Answer}
use bachelor_thesis.Prelude.{ℕ, String, Bool, true, false, Option, none, some, List, [], ◌∷◌, ◌++◌}
use bachelor_thesis.Settings.{UpdateLesson}

pub data QuickCall : Type 0 where
  creates : String → String → String → ℕ → QuickCall
  updates : UpdateLesson → QuickCall
  updates_feedback : String → FeedbackMode → QuickCall
  asks_url : String → String → String → QuickCall
  puts : String → String → String → QuickCall
  registers : String → String → ℕ → QuickCall
  starts : String → List InteractionKind → ℕ → String → String → QuickCall

-- An error under the form, or the error of the dialog with its stage and its lesson.
pub data QuickEnd : Type 0 where
  form_error : String → QuickEnd
  dialog_error : String → String → String → QuickEnd

pub data Outcome (A : Type 0) : Type 0 where
  went_on : A → Outcome A
  stopped : QuickEnd → Outcome A

abbrev pub Act : Type 0 → Type 0
Act A = List QuickCall × Outcome A

abbrev pub continue_with : {A B : Type 0} → List QuickCall → Outcome A → (A → Act B) → Act B
continue_with calls (went_on a) f = (calls ++ (f a).0, (f a).1)
continue_with calls (stopped e) f = (calls, stopped e)

infixl 5 ◌>>=◌ ◌>>◌
abbrev pub ◌>>=◌ : {A B : Type 0} → Act A → (A → Act B) → Act B
m >>= f = continue_with m.0 m.1 f

abbrev pub ◌>>◌ : {B : Type 0} → Act (Unit {0}) → Act B → Act B
m >> k = m >>= λ _. k

abbrev pub give : {A : Type 0} → A → Act A
give a = ([], went_on a)

-- An early return.
abbrev pub guard : Bool → QuickEnd → Act (Unit {0})
guard true e = ([], went_on tt)
guard false e = ([], stopped e)

abbrev pub required : {A : Type 0} → Option A → QuickEnd → Act A
required none e = ([], stopped e)
required (some a) e = ([], went_on a)

-- A call with its answer; a failure ends the whole.
abbrev pub ask : {A : Type 0} → QuickCall → (Failure → QuickEnd) → Answer A → Act A
ask call caught (Answer.ok a) = (call ∷ [], went_on a)
ask call caught (Answer.failed e) = (call ∷ [], stopped (caught e))

-- A call without data.
abbrev pub send : QuickCall → (Failure → QuickEnd) → Option Failure → Act (Unit {0})
send call caught none = (call ∷ [], went_on tt)
send call caught (some e) = (call ∷ [], stopped (caught e))

-- A call whose end is looked at afterwards.
abbrev pub note : QuickCall → Act (Unit {0})
note call = (call ∷ [], went_on tt)

abbrev pub allow : Option String → (String → QuickEnd) → Act (Unit {0})
allow none caught = ([], went_on tt)
allow (some msg) caught = ([], stopped (caught msg))
