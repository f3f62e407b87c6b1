-- ===== src/Lesson/Run/Stuck.antt =====
-- A restored draft that was submitted, where the feedback comes after each question: a new attempt
-- after it cannot be submitted.
use bachelor_thesis.Lesson.Preview.{end_preview, finish_preview}
use bachelor_thesis.Prelude.{
  ℕ, String, subst, ◌≡◌, refl, ap, ◌∙◌, Bool, true, false, ◌&&◌, ◌||◌, not, Option, none, some,
  List, [], ◌∷◌, arith, ◌==◌, if◌then◌else◌, is_some, length, All,
}
use bachelor_thesis.Interaction.Proto.{FeedbackMode}
use bachelor_thesis.Interaction.Types.{Response}
use bachelor_thesis.Lesson.State.{Props, LessonState, is_pending, all_answered, ready_to_submit}
use bachelor_thesis.Lesson.Answer.{handle_retake}
use bachelor_thesis.Lesson.Submit.{
  Request, end_submit, finish_submit, end_failed, fail_submit, auto_blocked, auto_submit,
  submit_restored, submit_draft,
}
use bachelor_thesis.Lesson.Run.Quiet.{Frame, frame, is_calm, play_step-quiet}
use bachelor_thesis.Lesson.Run.Over.{end_preview-idle, end_submit-idle, end_failed-idle}
use bachelor_thesis.Lesson.Run.{
  Event, play, submit_pressed, retry_pressed, auto_submitted, draft_submitted, preview_done,
  submit_done, submit_failed, retaken, play_step, press_submit, press_retry, step, sent, run,
}

-- The draft was submitted by itself before, and the state still holds it; the attempt is a new one.
pub record IsStuck (draft : List (String × Response)) (s : LessonState) : Type 0 where
  pub open_attempt : s.submitted ≡ false
  pub settled : s.flight ≡ none
  pub held_draft : s.auto_submit_draft ≡ some draft
  pub used_draft : s.auto_submitted_draft ≡ true
  pub no_error : s.error ≡ none

abbrev pub is_calm_event : Event → Bool
is_calm_event (play e) = is_calm e
is_calm_event _ = true

Stays : List (String × Response) → LessonState × Option Request → Type 0
Stays draft (t, r) = IsStuck draft t × (sent r ≡ 0)

play-stays :
    (draft : List (String × Response)) (s t : LessonState)
    → IsStuck draft s
    → frame true t ≡ frame true s
    → IsStuck draft t
play-stays draft s t k e = record {
  open_attempt = ap (λ (f : Frame). f.submitted) e ∙ k.open_attempt;
  settled = ap (λ (f : Frame). f.flight) e ∙ k.settled;
  held_draft = ap (λ (f : Frame). f.auto_submit_draft) e ∙ k.held_draft;
  used_draft = ap (λ (f : Frame). f.auto_submitted_draft) e ∙ k.used_draft;
  no_error = ap (λ (f : Frame). f.shown_error) e ∙ k.no_error;
}

Stays-when :
    (draft : List (String × Response)) (s : LessonState) (b : Bool)
    (p q : LessonState × Option Request)
    → b ≡ false
    → Stays draft q
    → Stays draft (if b then p else q)
Stays-when draft s b p q h k = rw h k

Stays-unless :
    (draft : List (String × Response)) (s : LessonState) (b : Bool)
    (p q : LessonState × Option Request)
    → b ≡ true
    → Stays draft p
    → Stays draft (if b then p else q)
Stays-unless draft s b p q h k = rw h k

module _ {draft : List (String × Response)} {s : LessonState} (k : IsStuck draft s) (props : Props)
    (mode : props.feedback_mode ≡ FeedbackMode.after_each) where
  not_ready : ready_to_submit props s ≡ false
  unfolding ready_to_submit
  not_ready = rw mode (never (all_answered s) (not s.submitted))
    where
      never : (a b : Bool) → (a && b && false) ≡ false
      never a b = ground arith

  restored-Stays :
      (now : ℕ) (o : Option (List (String × Response)))
      → Stays draft (submit_restored props now o s)
  unfolding Stays submit_restored
  restored-Stays now none = (k, refl)
  restored-Stays now (some d) =
      Stays-unless draft s
        (s.auto_submitted_draft || s.submitted || is_pending s || length s.lesson_interactions == 0)
        _ _ (rw k.used_draft refl) (k, refl)

  step-Stays :
      (lower : String → String) (e : Event)
      → is_calm_event e ≡ true
      → Stays draft (step lower props e s)
  unfolding Stays step press_submit press_retry auto_submit auto_blocked submit_draft
      submit_restored ready_to_submit finish_preview finish_submit fail_submit end_preview
      end_submit end_failed handle_retake
  step-Stays lower (play e) h = (
    play-stays draft s _ k
        (subst (λ b. frame b (play_step props e s) ≡ frame b s) h (play_step-quiet props e s)),
    refl,
  )
  step-Stays lower (submit_pressed now) h =
      Stays-when draft s (ready_to_submit props s) _ _ not_ready (k, refl)
  step-Stays lower (retry_pressed now) h =
      Stays-when draft s (is_some s.error && not s.submitted) _ _ (rw k.no_error refl) (k, refl)
  step-Stays lower (auto_submitted now) h =
      Stays-unless draft s (auto_blocked props s) _ _ (rw (mode, k.held_draft) refl) (k, refl)
  step-Stays lower (draft_submitted now) h = restored-Stays now s.auto_submit_draft
  step-Stays lower (preview_done calls) h =
      rw (end_preview-idle lower calls s.flight s k.settled) (k, refl)
  step-Stays lower (submit_done attempt fresh) h =
      rw (end_submit-idle attempt fresh s.flight s k.settled) (k, refl)
  step-Stays lower (submit_failed e) h = rw (end_failed-idle e s.flight s k.settled) (k, refl)
  step-Stays lower retaken h = (
    record {
      open_attempt = refl;
      settled = k.settled;
      held_draft = k.held_draft;
      used_draft = k.used_draft;
      no_error = refl;
    },
    refl,
  )

-- Where the feedback comes after each question, a restored draft was submitted by itself before and is
-- still held, and no submission is under way:
-- after a new attempt is started, no run in which every save succeeds sends a submission, so that the
-- new attempt is never submitted.
pub retake-stuck :
    (lower : String → String) (props : Props) (draft : List (String × Response)) (es : List Event)
    (s : LessonState)
    → props.feedback_mode ≡ FeedbackMode.after_each
    → s.flight ≡ none
    → s.auto_submit_draft ≡ some draft
    → s.auto_submitted_draft ≡ true
    → All (λ e. is_calm_event e ≡ true) es
    → ((run lower props es (handle_retake props s)).1.submissions ≡ 0)
      × ((run lower props es (handle_retake props s)).0.submitted ≡ false)
unfolding handle_retake run Stays
retake-stuck lower props draft es s mode f d u h =
    go es _
      (record { open_attempt = refl; settled = f; held_draft = d; used_draft = u; no_error = refl })
      h
  where
    go :
        (fs : List Event) (r : LessonState)
        → IsStuck draft r
        → All (λ e. is_calm_event e ≡ true) fs
        → ((run lower props fs r).1.submissions ≡ 0) × ((run lower props fs r).0.submitted ≡ false)
    go [] r k q = (refl, k.open_attempt)
    go (e ∷ fs) r k (q, qs) =
        let (t, n) = step-Stays k props mode lower e q in
        let (m, o) = go fs (step lower props e r).0 t qs in (omega arith, o)
