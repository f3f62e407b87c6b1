-- ===== src/Lesson/Run/Requests.antt =====
-- At most one call for each attempt, and none after the attempt is over.
use bachelor_thesis.Lesson.Preview.{end_preview, finish_preview}
use bachelor_thesis.Prelude.{
  ℕ, suc, ◌+◌, ◌≤◌, String, ◌≡◌, refl, ap, ◌∙◌, inl, inr, Bool, true, false, ◌&&◌, not, Option,
  none, some, List, [], ◌∷◌, arith, if◌then◌else◌, Bool-cases, is_some, if-elim, get,
}
use bachelor_thesis.Interaction.Proto.{LessonInteraction, LessonAttempt}
use bachelor_thesis.Interaction.Types.{Response, Grade}
use bachelor_thesis.Errors.{Failure}
use bachelor_thesis.Lesson.State.{Props, Flight, LessonState, ready_to_submit}
use bachelor_thesis.Lesson.Answer.{record_time_to_answer, handle_retake}
use bachelor_thesis.Lesson.Submit.{
  Request, record_all_times, begin_submit, is_blocked, run_submit, end_submit, finish_submit,
  end_failed, fail_submit, handle_submit, retry_submit, auto_submit, submit_restored, submit_draft,
}
use bachelor_thesis.Lesson.Run.Quiet.{Frame, play_step-quiet}
use bachelor_thesis.Lesson.Run.{
  Event, play, submit_pressed, retry_pressed, auto_submitted, draft_submitted, preview_done,
  submit_done, submit_failed, retaken, press_submit, press_retry, step, sent, run,
}

abbrev one_if : Bool → ℕ
one_if b = if b then 1 else 0

-- Whether the guard against a second call is set.
abbrev in_call : LessonState → ℕ
in_call s = one_if s.submitting

-- The events that allow another call: the failure of one, and a new attempt.
abbrev pub allows : Event → ℕ
allows (submit_failed e) = 1
allows retaken = 1
allows _ = 0

pub total_allowed : List Event → ℕ
total_allowed [] = 0
total_allowed (e ∷ es) = allows e + total_allowed es

-- A step that makes a call sets the guard, which was not set.
Balanced : LessonState → LessonState × Option Request → Type 0
Balanced s (t, r) = sent r + in_call s ≤ in_call t

Balanced-same : (s t : LessonState) → t.submitting ≡ s.submitting → Balanced s (t, none)
unfolding Balanced
Balanced-same s t e = rw e (omega arith)

record_all_times-submitting :
    (now : ℕ) (its : List LessonInteraction) (s : LessonState)
    → (record_all_times now its s).submitting ≡ s.submitting
unfolding record_all_times record_time_to_answer
record_all_times-submitting now [] s = refl
record_all_times-submitting now (it ∷ its) s =
    record_all_times-submitting now its (record_time_to_answer now it.id s)
    ∙ if-elim (λ (t : LessonState). t.submitting ≡ s.submitting)
        (is_some (get s.time_to_answer_ms it.id)) refl refl

begin_submit-submitting :
    (props : Props) (now : ℕ) (answers : List (String × Response)) (s : LessonState)
    → (begin_submit props now answers s).submitting ≡ true
unfolding begin_submit
begin_submit-submitting props now answers s =
    if-elim (λ (t : LessonState). t.submitting ≡ true) props.is_preview
      (record_all_times-submitting now s.lesson_interactions _) refl

is_blocked-submitting :
    (partial : Bool) (s : LessonState) → is_blocked partial s ≡ false → s.submitting ≡ false
unfolding is_blocked
is_blocked-submitting partial s h = elim (Bool-cases s.submitting) [
  | inl t ↦ absurd (clash (rw t at h))
  | inr f ↦ f
]
  where
    clash : true ≡ false → ⊥
    clash e = cc

run_submit-Balanced :
    (props : Props) (now : ℕ) (answers : List (String × Response)) (partial : Bool)
    (s r : LessonState)
    → r.submitting ≡ s.submitting
    → Balanced s (run_submit props now answers partial r)
unfolding run_submit Balanced
run_submit-Balanced props now answers partial s r same = elim (Bool-cases (is_blocked partial r)) [
  | inl h ↦ rw (h, same) (omega arith)
  | inr h ↦
      let open_guard : s.submitting ≡ false = rw same at (is_blocked-submitting partial r h) in
      rw (h, open_guard, begin_submit-submitting props now answers r) (omega arith)
]

press_submit-Balanced :
    (props : Props) (now : ℕ) (s : LessonState) → Balanced s (press_submit props now s)
unfolding press_submit handle_submit
press_submit-Balanced props now s =
    if-elim (Balanced s) (ready_to_submit props s)
      (run_submit-Balanced props now s.responses false s s refl) (Balanced-same s s refl)

press_retry-Balanced :
    (props : Props) (now : ℕ) (s : LessonState) → Balanced s (press_retry props now s)
unfolding press_retry retry_submit
press_retry-Balanced props now s =
    if-elim (Balanced s) (is_some s.error && not s.submitted)
      (run_submit-Balanced props now _ _ s s refl) (Balanced-same s s refl)

auto_submit-Balanced :
    (props : Props) (now : ℕ) (s : LessonState) → Balanced s (auto_submit props now s)
unfolding auto_submit handle_submit
auto_submit-Balanced props now s =
    if-elim (Balanced s) _ (Balanced-same s s refl)
      (run_submit-Balanced props now s.responses false s (record s { auto_submitted = true }) refl)

submit_restored-Balanced :
    (props : Props) (now : ℕ) (o : Option (List (String × Response))) (s : LessonState)
    → Balanced s (submit_restored props now o s)
unfolding submit_restored
submit_restored-Balanced props now none s = Balanced-same s s refl
submit_restored-Balanced props now (some draft) s =
    if-elim (Balanced s) _ (Balanced-same s s refl)
      (run_submit-Balanced props now draft true s (record s { auto_submitted_draft = true }) refl)

finish_preview-submitting :
    (lower : String → String) (calls : List (String × Grade)) (o : Option Flight) (s : LessonState)
    → (end_preview lower calls o s).submitting ≡ s.submitting
unfolding end_preview
finish_preview-submitting lower calls none s = refl
finish_preview-submitting lower calls (some f) s = refl

finish_submit-submitting :
    (attempt : Option LessonAttempt) (fresh : Option (List LessonInteraction)) (o : Option Flight)
    (s : LessonState)
    → (end_submit o attempt fresh s).submitting ≡ s.submitting
unfolding end_submit
finish_submit-submitting attempt fresh none s = refl
finish_submit-submitting none fresh (some f) s = refl
finish_submit-submitting (some a) fresh (some f) s = refl

one_if_le : (b : Bool) → one_if b ≤ 1
one_if_le b = ground arith

same_le : (a b : Bool) → a ≡ b → 0 + one_if b ≤ 0 + one_if a
same_le a b e = rw e (omega arith)

fail_submit-submitting :
    (e : Failure) (o : Option Flight) (s : LessonState)
    → 0 + one_if s.submitting ≤ 1 + one_if (end_failed o e s).submitting
unfolding end_failed
fail_submit-submitting e none s = omega arith
fail_submit-submitting e (some f) s = ground arith

step-balance :
    (lower : String → String) (props : Props) (e : Event) (s : LessonState)
    → sent (step lower props e s).1 + in_call s ≤ allows e + in_call (step lower props e s).0
unfolding Balanced step submit_draft finish_preview finish_submit fail_submit handle_retake
step-balance lower props (play e) s =
    same_le _ _ (ap (λ (f : Frame). f.submitting) (play_step-quiet props e s))
step-balance lower props (submit_pressed now) s = omega (arith, press_submit-Balanced props now s)
step-balance lower props (retry_pressed now) s = omega (arith, press_retry-Balanced props now s)
step-balance lower props (auto_submitted now) s = omega (arith, auto_submit-Balanced props now s)
step-balance lower props (draft_submitted now) s =
    omega (arith, submit_restored-Balanced props now s.auto_submit_draft s)
step-balance lower props (preview_done calls) s =
    same_le _ _ (finish_preview-submitting lower calls s.flight s)
step-balance lower props (submit_done attempt fresh) s =
    same_le _ _ (finish_submit-submitting attempt fresh s.flight s)
step-balance lower props (submit_failed e) s = fail_submit-submitting e s.flight s
step-balance lower props retaken s = omega (arith, one_if_le s.submitting)

-- Over any run, the submissions that are sent are at most one more than the failures and the new attempts
-- of the run together.
pub run_requests :
    (lower : String → String) (props : Props) (es : List Event) (s : LessonState)
    → (run lower props es s).1.submissions ≤ suc (total_allowed es)
unfolding run total_allowed
run_requests lower props es s =
    omega (arith, balance es s, one_if_le (run lower props es s).0.submitting)
  where
    balance :
        (fs : List Event) (r : LessonState)
        → (run lower props fs r).1.submissions + in_call r
          ≤ total_allowed fs + in_call (run lower props fs r).0
    balance [] r = omega arith
    balance (e ∷ fs) r =
        omega (arith, step-balance lower props e r, balance fs (step lower props e r).0)
