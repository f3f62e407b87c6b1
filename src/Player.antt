-- ===== src/Player.antt =====
-- The video player: the progress that it saves, its handlers and its controls
-- (lessons/[lessonId]/video-player.tsx). Times are in milliseconds.
pub mod Steps
pub mod Credit
pub mod Run
pub mod Saving
pub mod Resuming
use bachelor_thesis.Prelude.{
  ℕ, ◌+◌, ◌-◌, String, Bool, true, false, ◌&&◌, ◌||◌, not, Option, none, some, List, [], ◌∷◌, ◌++◌,
  ltb, leb, ◌==◌, if◌then◌else◌,
}

-- The media element. Its duration is missing while it is not finite.
pub record Media : Type 0 where
  pub position : ℕ
  pub duration : Option ℕ
  pub paused : Bool
  pub muted : Bool
  pub volume : ℕ

-- What the player is given: whether there is a lesson, the cap of the saved position where it is
-- finite, the time between two saves, and the position to resume at.
pub record PlayerProps : Type 0 where
  pub has_lesson : Bool
  pub max_savable_position : Option ℕ
  pub save_interval : ℕ
  pub initial_position : ℕ
  pub player_key : ℕ

-- The references and the states. No save yet is `none`, where the source has -1 second.
pub record Player : Type 0 where
  pub media : Option Media
  pub last_saved_pos : Option ℕ
  pub interval_from : ℕ
  pub last_tick_pos : ℕ
  pub seeked_since_save : Bool
  pub last_set_current_time : Option ℕ
  pub has_played : Bool
  pub duration_ref : ℕ
  pub current_time : ℕ
  pub duration : ℕ
  pub paused : Bool
  pub muted : Bool
  pub volume : ℕ
  pub player_error : Option String

-- The message of `updateWatchProgress`.
pub record Progress : Type 0 where
  pub position : ℕ
  pub watched_from : ℕ
  pub watched_to : ℕ

-- What the player calls: the service, and the callbacks that it is given.
pub data PlayerCall : Type 0 where
  update_watch_progress : Progress → PlayerCall
  on_time_update on_duration_change : ℕ → PlayerCall
  on_first_play : PlayerCall

abbrev pub distance : ℕ → ℕ → ℕ
distance a b = (a - b) + (b - a)

abbrev pub cap_position : Option ℕ → ℕ → ℕ
cap_position none t = t
cap_position (some most) t = if ltb most t then most else t

-- How far a position is from the last one that was saved.
abbrev pub save_gap : Option ℕ → ℕ → ℕ
save_gap none t = t + 1000
save_gap (some last) t = distance t last

-- The interval since the last save counts only where no seek fell into it.
abbrev pub progress_of : ℕ → Player → Progress
progress_of t p =
    if not p.seeked_since_save && ltb p.interval_from t
    then record { position = t; watched_from = p.interval_from; watched_to = t }
    else record { position = t; watched_from = 0; watched_to = 0 }

abbrev pub save_capped : ℕ → Player → Player × List PlayerCall
save_capped t p = if ltb (save_gap p.last_saved_pos t) 1000 then (p, []) else (
  record p { last_saved_pos = some t; interval_from = t; seeked_since_save = false },
  update_watch_progress (progress_of t p) ∷ [],
)

unfoldable pub save_progress : PlayerProps → ℕ → Player → Player × List PlayerCall
save_progress props t p =
    if props.has_lesson then save_capped (cap_position props.max_savable_position t) p else (p, [])

abbrev known_duration : ℕ → Player → Player × List PlayerCall
known_duration d p = (record p { duration_ref = d; duration = d }, on_duration_change d ∷ [])

sync_media_duration : Option ℕ → Player → Player × List PlayerCall
sync_media_duration none p = (p, [])
sync_media_duration (some d) p =
    if d == 0 || ltb (distance d p.duration_ref) 250 then (p, []) else known_duration d p

abbrev pub continuous_tick_gap : ℕ
continuous_tick_gap = 1500

-- A jump since the last tick moves the start of the interval to where it landed.
note_tick : ℕ → Player → Player
note_tick t p =
    let jump = ltb t p.last_tick_pos || ltb (p.last_tick_pos + continuous_tick_gap) t in
    record p {
      seeked_since_save = jump || p.seeked_since_save;
      interval_from = if jump then t else p.interval_from;
      last_tick_pos = t;
    }

abbrev is_far : Option ℕ → ℕ → Bool
is_far none t = true
is_far (some last) t = leb 250 (distance t last)

show_time : ℕ → Player → Player
show_time t p =
    if is_far p.last_set_current_time t || t == 0
    then record p { last_set_current_time = some t; current_time = t }
    else p

abbrev is_due : Option ℕ → ℕ → ℕ → Bool
is_due none interval t = leb interval (t + 1000)
is_due (some last) interval t = leb (last + interval) t

save_due : PlayerProps → ℕ → Player → Player × List PlayerCall
unfolding save_progress
save_due props t p =
    if is_due p.last_saved_pos props.save_interval t then save_progress props t p else (p, [])

pub tick : PlayerProps → Option Media → Player → Player × List PlayerCall
unfolding sync_media_duration note_tick show_time save_due
tick props none p = (p, [])
tick props (some v) p =
    let (q, synced) = sync_media_duration v.duration p in
    let (r, saved) = save_due props v.position (show_time v.position (note_tick v.position q)) in
    (r, synced ++ saved ++ on_time_update v.position ∷ [])

unfoldable pub handle_native_time_update : PlayerProps → Player → Player × List PlayerCall
unfolding tick
handle_native_time_update props p = tick props p.media p

pub pause_at : PlayerProps → Option Media → Player → Player × List PlayerCall
unfolding save_progress
pause_at props none p = (p, [])
pause_at props (some v) p = save_progress props v.position p

unfoldable pub handle_native_pause : PlayerProps → Player → Player × List PlayerCall
unfolding pause_at
handle_native_pause props p = pause_at props p.media (record p { paused = true })

-- `blocked` is whether the page shows a question.
pub play_from : Bool → Option Media → Player → Player × List PlayerCall
unfolding sync_media_duration
play_from blocked none p = (
  record p { paused = false; has_played = true },
  if p.has_played then [] else on_first_play ∷ [],
)
play_from blocked (some v) p =
    if blocked
    then (record p { media = some (record v { paused = true }); paused = true }, [])
    else (
      record (sync_media_duration v.duration p).0 { paused = false; has_played = true },
      (sync_media_duration v.duration p).1 ++ (if p.has_played then [] else on_first_play ∷ []),
    )

unfoldable pub handle_native_play : Bool → Player → Player × List PlayerCall
unfolding play_from
handle_native_play blocked p = play_from blocked p.media p

-- The element's own `pause` event follows, with `handleNativePause`.
unfoldable pub toggle_play : Bool → Player → Player
toggle_play blocked p = elim p.media [
  | none ↦ p
  | some v ↦ record p { media = some (record v { paused = blocked || not v.paused }) }
]

unfoldable pub handle_seek_change : ℕ → Player → Player × List PlayerCall
handle_seek_change value p = elim p.media [
  | none ↦ (p, [])
  | some v ↦ (
    record p { media = some (record v { position = value }); current_time = value },
    on_time_update value ∷ [],
  )
]

-- Where the player resumes: at the start, where the saved position is within a second of the end.
abbrev seek_time : Option ℕ → ℕ → ℕ
seek_time none initial = initial
seek_time (some d) initial = if not (d == 0) && leb d (initial + 1000) then 0 else initial

abbrev first_duration : Option ℕ → Player → Player × List PlayerCall
first_duration none p = (p, [])
first_duration (some d) p = if d == 0 then (p, []) else known_duration d p

abbrev resume_at : Media → ℕ → Player → Player
resume_at v t p = record p { media = some (record v { position = t }); current_time = t }

-- `seekInitial`, when the metadata of the video is there.
unfoldable pub seek_initial : PlayerProps → Player → Player × List PlayerCall
seek_initial props p = elim p.media [
  | none ↦ (p, [])
  | some v ↦
      if ltb 0 props.player_key || not props.has_lesson || leb props.initial_position 5000
      then (p, [])
      else let (q, synced) = first_duration v.duration p in
        (resume_at v (seek_time v.duration props.initial_position) q, synced)
]

abbrev rewound : Option Media → Option Media
rewound none = none
rewound (some v) = some (record v { position = 0; paused = true })

-- The effect of a new attempt, which also runs when the player is mounted.
unfoldable pub reset_player : PlayerProps → Player → Player
reset_player props p = record p {
  has_played = false;
  duration_ref = 0;
  last_set_current_time = none;
  last_saved_pos = none;
  interval_from = if ltb 0 props.player_key then 0 else p.interval_from;
  last_tick_pos = if ltb 0 props.player_key then 0 else p.last_tick_pos;
  seeked_since_save = false;
  player_error = none;
  media = rewound p.media;
}

-- The player as it is mounted, before its effects.
abbrev pub new_player : PlayerProps → Option Media → Player
new_player props media = record {
  media = media;
  last_saved_pos = none;
  interval_from = props.initial_position;
  last_tick_pos = props.initial_position;
  seeked_since_save = false;
  last_set_current_time = none;
  has_played = false;
  duration_ref = 0;
  current_time = 0;
  duration = 0;
  paused = true;
  muted = false;
  volume = 100;
  player_error = none;
}
