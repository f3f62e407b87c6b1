-- ===== src/Analysis/Timings.antt =====
-- When each step of a run started and ended (`updateStepTimings` and `closeStepTimings`).
pub mod Open
use bachelor_thesis.Prelude.{
  ℕ, Bool, false, ◌||◌, Option, none, some, List, [], ◌∷◌, ◌==◌, if◌then◌else◌, is_some,
}

pub record Timing : Type 0 where
  pub start : ℕ
  pub finish : Option ℕ

-- Keyed by the number of the step; a number stands at most once.
abbrev pub Timings : Type 0
Timings = List (ℕ × Timing)

abbrev pub close_at : ℕ → Timing → Timing
close_at now t = if is_some t.finish then t else record { start = t.start; finish = some now }

unfoldable pub close_step_timings : Timings → ℕ → Timings
close_step_timings [] now = []
close_step_timings ((k, t) ∷ ts) now = (k, close_at now t) ∷ close_step_timings ts now

-- The loop over the entries, which leaves the current step.
unfoldable pub close_others : Timings → ℕ → ℕ → Timings
close_others [] current now = []
close_others ((k, t) ∷ ts) current now =
    (k, if k == current then t else close_at now t) ∷ close_others ts current now

unfoldable pub has_step : Timings → ℕ → Bool
has_step [] k = false
has_step ((j, t) ∷ ts) k = j == k || has_step ts k

unfoldable pub append_step : Timings → ℕ → ℕ → Timings
append_step [] k now = (k, record { start = now; finish = none }) ∷ []
append_step (e ∷ ts) k now = e ∷ append_step ts k now

unfoldable pub update_step_timings : Timings → ℕ → ℕ → Timings
unfolding close_others has_step append_step
update_step_timings prev current now =
    let next = close_others prev current now in
    if has_step next current then next else append_step next current now
