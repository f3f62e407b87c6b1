-- ===== src/Lesson/Run/Over.antt =====
-- After an attempt is over.
use bachelor_thesis.Lesson.Preview.{end_preview, finish_preview}
use bachelor_thesis.Interaction.Proto.{LessonInteraction, LessonAttempt}
use bachelor_thesis.Errors.{Failure}
use bachelor_thesis.Prelude.{
  ℕ, String, ◌≡◌, refl, ap, ◌∙◌, Bool, true, false, ◌&&◌, ◌||◌, not, Option, none, some, List, [],
  ◌∷◌, arith, get_or, if-elim, All,
}
use bachelor_thesis.Interaction.Types.{Response, Grade}
use bachelor_thesis.Lesson.State.{QuizResult, Props, Flight, LessonState, is_pending, all_answered}
use bachelor_thesis.Lesson.Submit.{
  Request, is_blocked, run_submit, end_submit, finish_submit, end_failed, fail_submit,
  handle_submit, retry_submit, auto_submit, submit_restored, submit_draft,
}
use bachelor_thesis.Lesson.Run.Quiet.{Frame, frame, play_step-quiet}
use bachelor_thesis.Lesson.Run.{
  Event, play, submit_pressed, retry_pressed, auto_submitted, draft_submitted, preview_done,
  submit_done, submit_failed, retaken, press_submit, press_retry, step, sent, run,
}

-- The attempt is over, with this result, and no submission is under way.
pub record IsOver (result : Option QuizResult) (s : LessonState) : Type 0 where
  pub over : s.submitted ≡ true
  pub settled : s.flight ≡ none
  pub kept : s.result ≡ result

abbrev pub is_retaken : Event → Bool
is_retaken retaken = true
is_retaken _ = false

-- A step that sends no submission and leaves the attempt over.
Rests : Option QuizResult → LessonState × Option Request → Type 0
Rests result (t, r) = IsOver result t × (sent r ≡ 0)

blocked_when : (a b c d : Bool) → b ≡ true → (a || b || c || d) ≡ true
blocked_when a b c d h = ground arith

-- The end of a submission does nothing where none is under way.
pub end_preview-idle :
    (lower : String → String) (calls : List (String × Grade)) (o : Option Flight) (s : LessonState)
    → o ≡ none
    → end_preview lower calls o s ≡ s
unfolding end_preview
end_preview-idle lower calls none s h = refl
end_preview-idle lower calls (some f) s h = cc

pub end_submit-idle :
    (attempt : Option LessonAttempt) (fresh : Option (List LessonInteraction)) (o : Option Flight)
    (s : LessonState)
    → o ≡ none
    → end_submit o attempt fresh s ≡ s
unfolding end_submit
end_submit-idle attempt fresh none s h = refl
end_submit-idle attempt fresh (some f) s h = cc

pub end_failed-idle :
    (e : Failure) (o : Option Flight) (s : LessonState) → o ≡ none → end_failed o e s ≡ s
unfolding end_failed
end_failed-idle e none s h = refl
end_failed-idle e (some f) s h = cc

run_submit-Rests :
    {result : Option QuizResult} {s : LessonState} (r : LessonState) (k : IsOver result s)
    (props : Props) (now : ℕ) (answers : List (String × Response)) (partial : Bool)
    → IsOver result r
    → Rests result (run_submit props now answers partial r)
unfolding Rests run_submit is_blocked
run_submit-Rests r k props now answers partial q =
    rw
      (blocked_when r.submitting r.submitted (is_pending r) (not partial && not (all_answered r))
        q.over)
      (q, refl)

play-rests :
    {result : Option QuizResult} {s : LessonState} (k : IsOver result s) (t : LessonState)
    (b : Bool)
    → frame b t ≡ frame b s
    → IsOver result t
play-rests k t b e = record {
  over = ap (λ (f : Frame). f.submitted) e ∙ k.over;
  settled = ap (λ (f : Frame). f.flight) e ∙ k.settled;
  kept = ap (λ (f : Frame). f.result) e ∙ k.kept;
}

module _ {result : Option QuizResult} {s : LessonState} (k : IsOver result s) where
  restored-Rests :
      (props : Props) (now : ℕ) (o : Option (List (String × Response)))
      → Rests result (submit_restored props now o s)
  unfolding Rests submit_restored
  restored-Rests props now none = (k, refl)
  restored-Rests props now (some d) =
      if-elim (Rests result) _ (k, refl)
        (run_submit-Rests (record s { auto_submitted_draft = true }) k props now d true
          (record { over = k.over; settled = k.settled; kept = k.kept }))

  step-Rests :
      (lower : String → String) (props : Props) (e : Event)
      → is_retaken e ≡ false
      → Rests result (step lower props e s)
  unfolding Rests step press_submit press_retry handle_submit retry_submit auto_submit submit_draft
      finish_preview finish_submit fail_submit
  step-Rests lower props (play e) h = (play-rests k _ _ (play_step-quiet props e s), refl)
  step-Rests lower props (submit_pressed now) h =
      if-elim (Rests result) _ (run_submit-Rests s k props now s.responses false k) (k, refl)
  step-Rests lower props (retry_pressed now) h =
      if-elim (Rests result) _
        (run_submit-Rests s k props now (get_or s.auto_submit_draft s.responses)
          (not (all_answered s)) k)
        (k, refl)
  step-Rests lower props (auto_submitted now) h =
      if-elim (Rests result) _ (k, refl)
        (run_submit-Rests (record s { auto_submitted = true }) k props now s.responses false
          (record { over = k.over; settled = k.settled; kept = k.kept }))
  step-Rests lower props (draft_submitted now) h = restored-Rests props now s.auto_submit_draft
  step-Rests lower props (preview_done calls) h =
      rw (end_preview-idle lower calls s.flight s k.settled) (k, refl)
  step-Rests lower props (submit_done attempt fresh) h =
      rw (end_submit-idle attempt fresh s.flight s k.settled) (k, refl)
  step-Rests lower props (submit_failed e) h = rw (end_failed-idle e s.flight s k.settled) (k, refl)
  step-Rests lower props retaken h = cc

-- Once an attempt is over, with no submission under way, nothing but a new attempt changes that: any
-- run of the mounted view without one sends no submission, keeps the result, and leaves the attempt over.
pub run-IsOver :
    (lower : String → String) (props : Props) (result : Option QuizResult) (es : List Event)
    (s : LessonState)
    → IsOver result s
    → All (λ e. is_retaken e ≡ false) es
    → IsOver result (run lower props es s).0 × ((run lower props es s).1.submissions ≡ 0)
unfolding run Rests
run-IsOver lower props result [] s k h = (k, refl)
run-IsOver lower props result (e ∷ es) s k (h, hs) =
    let (q, n) = step-Rests k lower props e h in
    let (p, m) = run-IsOver lower props result es (step lower props e s).0 q hs in (p, omega arith)
