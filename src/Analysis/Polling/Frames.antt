-- ===== src/Analysis/Polling/Frames.antt =====
-- The latest answer is shown at the next frame; but none is shown after a frame was cancelled.
use bachelor_thesis.Prelude.{
  ℕ, ◌≡◌, refl, ap, ◌∙◌, ◌≢◌, ◌⊎◌, inl, inr, none, some, List, [], ◌∷◌, ◌++◌, map,
}
use bachelor_thesis.Analysis.Types.{LessonTask}
use bachelor_thesis.Analysis.Polling.{
  FrameRef, PollState, PollEvent, answered, frame_fired, effect_cleaned, effect_enabled,
  effect_disabled, schedule, apply_pending, fire, cancel, poll_step, poll_run,
}

schedule-twice : (f : FrameRef) → schedule (schedule f) ≡ schedule f
schedule-twice FrameRef.idle = refl
schedule-twice FrameRef.scheduled = refl
schedule-twice FrameRef.cancelled = refl

-- The tasks of the last answer.
abbrev pub last_of : List LessonTask → List (List LessonTask) → List LessonTask
last_of d [] = d
last_of d (x ∷ xs) = last_of x xs

scheduled-when : (f : FrameRef) → f ≢ FrameRef.cancelled → schedule f ≡ FrameRef.scheduled
scheduled-when FrameRef.idle h = refl
scheduled-when FrameRef.scheduled h = refl
scheduled-when FrameRef.cancelled h = absurd (h refl)

-- While no frame was cancelled, the frame after any number of answers shows the last one, and clears the
-- failures and the error.
pub poll_run-shown :
    (now : ℕ) (first : List LessonTask) (answers : List (List LessonTask)) (s : PollState)
    → s.frame ≢ FrameRef.cancelled
    → let r = poll_run (map answered (first ∷ answers) ++ (frame_fired now ∷ [])) s in
      (r.tasks ≡ last_of first answers)
      × (r.failures ≡ 0)
      × (r.last_error ≡ none)
      × (r.frame ≡ FrameRef.idle)
unfolding poll_run poll_step fire apply_pending
poll_run-shown now first [] s h = rw (scheduled-when s.frame h) (refl, refl, refl, refl)
poll_run-shown now first (x ∷ xs) s h =
    poll_run-shown now x xs (poll_step (answered first) s) (open_frame s.frame h)
  where
    open_frame : (f : FrameRef) → f ≢ FrameRef.cancelled → schedule f ≢ FrameRef.cancelled
    open_frame FrameRef.idle k = λ e. cc
    open_frame FrameRef.scheduled k = λ e. cc
    open_frame FrameRef.cancelled k = k

-- A step after a frame was cancelled.
frozen_step :
    (e : PollEvent) (s : PollState)
    → s.frame ≡ FrameRef.cancelled
    → ((poll_step e s).frame ≡ FrameRef.cancelled)
      × (((poll_step e s).tasks ≡ s.tasks) ⊎ ((poll_step e s).tasks ≡ []))
unfolding poll_step fire
frozen_step (answered tasks) s h = (ap schedule h, inl refl)
frozen_step (PollEvent.failed e) s h = (h, inl refl)
frozen_step (frame_fired now) s h = kept s.frame h
  where
    kept :
        (f : FrameRef)
        → f ≡ FrameRef.cancelled
        → ((fire f now s).frame ≡ FrameRef.cancelled)
          × (((fire f now s).tasks ≡ s.tasks) ⊎ ((fire f now s).tasks ≡ []))
    kept FrameRef.idle q = cc
    kept FrameRef.scheduled q = cc
    kept FrameRef.cancelled q = (h, inl refl)
frozen_step effect_cleaned s h = (ap cancel h, inl refl)
frozen_step effect_enabled s h = (h, inl refl)
frozen_step effect_disabled s h = (h, inr refl)

same_or_empty :
    (a b c : List LessonTask) → (a ≡ b) ⊎ (a ≡ []) → (b ≡ c) ⊎ (b ≡ []) → (a ≡ c) ⊎ (a ≡ [])
same_or_empty a b c (inl e) (inl f) = inl (e ∙ f)
same_or_empty a b c (inl e) (inr f) = inr (e ∙ f)
same_or_empty a b c (inr e) k = inr e

frozen_run :
    (es : List PollEvent) (s : PollState)
    → s.frame ≡ FrameRef.cancelled
    → ((poll_run es s).tasks ≡ s.tasks) ⊎ ((poll_run es s).tasks ≡ [])
unfolding poll_run
frozen_run [] s h = inl refl
frozen_run (e ∷ es) s h =
    let (f, k) = frozen_step e s h in
    same_or_empty _ (poll_step e s).tasks s.tasks (frozen_run es (poll_step e s) f) k

cancel-schedule : (f : FrameRef) → cancel (schedule f) ≡ FrameRef.cancelled
cancel-schedule FrameRef.idle = refl
cancel-schedule FrameRef.scheduled = refl
cancel-schedule FrameRef.cancelled = refl

-- Where the effect is cleaned up between an answer and its frame, no answer is ever shown again, whatever
-- comes after, a new run of the effect too: the tasks stay as they are, or are emptied.
pub poll_run-frozen :
    (answer : List LessonTask) (es : List PollEvent) (s : PollState)
    → ((poll_run (answered answer ∷ effect_cleaned ∷ es) s).tasks ≡ s.tasks)
      ⊎ ((poll_run (answered answer ∷ effect_cleaned ∷ es) s).tasks ≡ [])
unfolding poll_run poll_step
poll_run-frozen answer es s =
    frozen_run es (record s { pending = some answer; frame = cancel (schedule s.frame) })
      (cancel-schedule s.frame)
