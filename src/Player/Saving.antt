-- ===== src/Player/Saving.antt =====
-- How much of the video the saved progress reports as watched.
use bachelor_thesis.Player.Run.{run-Credit}
use bachelor_thesis.Player.Steps.{PlayerEvent, player_run}
use bachelor_thesis.Prelude.{◌≤◌, ◌≡◌, true, List, arith, is_some}
use bachelor_thesis.Player.{PlayerProps, Player}
use bachelor_thesis.Player.Credit.{reported, played, PausesFollow, Credit}

-- Over any ticks, pauses, seeks and starts, from a player whose open interval starts at its last tick (as it
-- does when it is mounted), where the element is there, each pause follows
-- playback and the cap stays the same, the intervals reported as watched are together no longer than what was
-- played, counted in steps forward of at most a second and a half.
pub player_run-reported :
    (props : PlayerProps) (es : List PlayerEvent) (p : Player)
    → is_some p.media ≡ true
    → p.interval_from ≡ p.last_tick_pos
    → PausesFollow p.last_tick_pos es
    → reported (player_run props es p).1 ≤ played p.last_tick_pos es
player_run-reported props es p h e k =
    omega (arith, run-Credit props p.last_tick_pos 0 es p start k)
  where
    start : Credit props p.last_tick_pos 0 p
    start = record { present = h; ticked_before = omega arith; enough = ground arith }
