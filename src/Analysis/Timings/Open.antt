-- ===== src/Analysis/Timings/Open.antt =====
-- At most the current step runs, and a step that has ended is not opened again.
use bachelor_thesis.Prelude.{
  ℕ, ◌≡◌, ap, ◌∙◌, inl, inr, Bool, true, false, Option, none, some, [], ◌∷◌, arith, ◌==◌,
  if◌then◌else◌, Bool-cases, is_some, if-elim, if-true, All,
}
use bachelor_thesis.Analysis.Timings.{
  Timing, Timings, close_at, close_step_timings, close_others, has_step, append_step,
  update_step_timings,
}

-- Every entry but that of the current step has ended.
abbrev pub OnlyOpen : ℕ → Timings → Type 0
OnlyOpen current = All (λ e. (e.0 == current) ≡ false → is_some e.1.finish ≡ true)

-- No entry runs.
abbrev pub AllEnded : Timings → Type 0
AllEnded = All (λ e. is_some e.1.finish ≡ true)

close_at-ended : (now : ℕ) (t : Timing) → is_some (close_at now t).finish ≡ true
close_at-ended now t = ground arith

close_others-OnlyOpen :
    (ts : Timings) (current now : ℕ) → OnlyOpen current (close_others ts current now)
unfolding close_others
close_others-OnlyOpen [] current now = tt
close_others-OnlyOpen ((k, t) ∷ ts) current now =
    (λ h. rw h (close_at-ended now t), close_others-OnlyOpen ts current now)

append_step-OnlyOpen :
    (ts : Timings) (current now : ℕ)
    → OnlyOpen current ts
    → OnlyOpen current (append_step ts current now)
unfolding append_step
append_step-OnlyOpen [] current now h = (λ k. ground arith, tt)
append_step-OnlyOpen (e ∷ ts) current now h = (h.0, append_step-OnlyOpen ts current now h.1)

-- After a step is reported, every other step has ended; and after a task is over, every step has.
pub update_step_timings-OnlyOpen :
    (ts : Timings) (current now end_time : ℕ)
    → OnlyOpen current (update_step_timings ts current now)
      × AllEnded (close_step_timings (update_step_timings ts current now) end_time)
unfolding update_step_timings close_step_timings
update_step_timings-OnlyOpen ts current now end_time = (
  if-elim (OnlyOpen current) (has_step (close_others ts current now) current)
      (close_others-OnlyOpen ts current now)
      (append_step-OnlyOpen _ current now (close_others-OnlyOpen ts current now)),
  all_ended (update_step_timings ts current now),
)
  where
    all_ended : (us : Timings) → AllEnded (close_step_timings us end_time)
    all_ended [] = tt
    all_ended ((k, t) ∷ us) = (close_at-ended end_time t, all_ended us)

-- The first entry of a step.
unfoldable pub timing_of : Timings → ℕ → Option Timing
timing_of [] k = none
timing_of ((j, t) ∷ ts) k = if j == k then some t else timing_of ts k

-- A step that has ended keeps its times, whatever step is reported.
pub update_step_timings-ended :
    (ts : Timings) (current now k : ℕ) (t : Timing)
    → timing_of ts k ≡ some t
    → is_some t.finish ≡ true
    → timing_of (update_step_timings ts current now) k ≡ some t
unfolding update_step_timings timing_of
update_step_timings-ended ts current now k t h e =
    if-elim (λ us. timing_of us k ≡ some t) (has_step (close_others ts current now) current)
      (kept ts h) (extended (close_others ts current now) (kept ts h))
  where
    ended_kept :
        (b : Bool) (u : Timing) → some u ≡ some t → some (if b then u else close_at now u) ≡ some t
    ended_kept true u q = q
    ended_kept false u q =
        let same : u ≡ t = cc in
        let over : is_some u.finish ≡ true = ap (λ (x : Timing). is_some x.finish) same ∙ e in
        ap some (if-true (is_some u.finish) _ _ over ∙ same)

    kept :
        (us : Timings)
        → timing_of us k ≡ some t
        → timing_of (close_others us current now) k ≡ some t
    kept [] q = cc
    kept ((j, u) ∷ us) q = elim (Bool-cases (j == k)) [
      | inl m ↦ rw m (ended_kept (j == current) u (rw m at q))
      | inr m ↦ rw m (kept us (rw m at q))
    ]

    extended :
        (us : Timings) → timing_of us k ≡ some t → timing_of (append_step us current now) k ≡ some t
    extended [] q = cc
    extended ((j, u) ∷ us) q = elim (Bool-cases (j == k)) [
      | inl m ↦ rw m (rw m at q)
      | inr m ↦ rw m (extended us (rw m at q))
    ]
