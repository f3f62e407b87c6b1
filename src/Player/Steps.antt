-- ===== src/Player/Steps.antt =====
-- The events of the video player, one by one and in a row (lessons/[lessonId]/video-player.tsx).
use bachelor_thesis.Prelude.{ℕ, Bool, Option, none, some, List, [], ◌∷◌, ◌++◌}
use bachelor_thesis.Player.{
  Media, PlayerProps, Player, PlayerCall, handle_native_time_update, handle_native_pause,
  handle_native_play, handle_seek_change,
}

-- The events of the player, with the position at which the element fires its own.
pub data PlayerEvent : Type 0 where
  ticked paused_at sought : ℕ → PlayerEvent
  play_started : Bool → PlayerEvent

abbrev pub moved : ℕ → Option Media → Option Media
moved t none = none
moved t (some v) = some (record v { position = t })

abbrev pub at : ℕ → Player → Player
at t p = record p { media = moved t p.media }

unfoldable pub player_step : PlayerProps → PlayerEvent → Player → Player × List PlayerCall
unfolding handle_native_time_update handle_native_pause handle_seek_change handle_native_play
player_step props (ticked t) p = handle_native_time_update props (at t p)
player_step props (paused_at t) p = handle_native_pause props (at t p)
player_step props (sought t) p = handle_seek_change t p
player_step props (play_started blocked) p = handle_native_play blocked p

unfoldable pub player_run : PlayerProps → List PlayerEvent → Player → Player × List PlayerCall
unfolding player_step
player_run props [] p = (p, [])
player_run props (e ∷ es) p =
    let (q, calls) = player_step props e p in
    let (r, rest) = player_run props es q in (r, calls ++ rest)
