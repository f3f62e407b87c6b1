-- ===== src/Player/Credit.antt =====
-- What the player may still report as watched, part by part.
use bachelor_thesis.Prelude.{
  ℕ, ◌+◌, ◌-◌, ◌≤◌, ◌≡◌, refl, ◌∙◌, Bool, true, false, ◌&&◌, Option, none, some, List, [], ◌∷◌,
  ◌++◌, arith, leb, if◌then◌else◌, is_some, if-elim,
}
use bachelor_thesis.Player.Steps.{PlayerEvent, ticked, paused_at, sought, play_started}
use bachelor_thesis.Player.{
  Media, PlayerProps, Player, PlayerCall, update_watch_progress, on_time_update, on_duration_change,
  on_first_play, cap_position, save_progress, sync_media_duration, continuous_tick_gap, note_tick,
  show_time, is_due, save_due, tick, pause_at, play_from, handle_seek_change,
}

-- The length of the intervals that calls report.
abbrev pub reported : List PlayerCall → ℕ
reported [] = 0
reported (update_watch_progress g ∷ calls) = (g.watched_to - g.watched_from) + reported calls
reported (on_time_update t ∷ calls) = reported calls
reported (on_duration_change t ∷ calls) = reported calls
reported (on_first_play ∷ calls) = reported calls

-- A step forward of at most the gap that counts as playback.
abbrev pub smooth : ℕ → ℕ → ℕ
smooth from t = if leb from t && leb t (from + continuous_tick_gap) then t - from else 0

-- What was played, over the positions that the events of playback show.
abbrev pub played : ℕ → List PlayerEvent → ℕ
played from [] = 0
played from (ticked t ∷ es) = smooth from t + played t es
played from (paused_at t ∷ es) = smooth from t + played t es
played from (sought t ∷ es) = played from es
played from (play_started b ∷ es) = played from es

-- Each pause follows the last position that playback showed.
abbrev pub PausesFollow : ℕ → List PlayerEvent → Type 0
PausesFollow from [] = Unit
PausesFollow from (ticked t ∷ es) = PausesFollow t es
PausesFollow from (paused_at t ∷ es) =
    (from ≤ t) × (t ≤ from + continuous_tick_gap) × PausesFollow t es
PausesFollow from (sought t ∷ es) = PausesFollow from es
PausesFollow from (play_started b ∷ es) = PausesFollow from es

-- What may still be reported, at the last position.
pub record Credit (props : PlayerProps) (from b : ℕ) (p : Player) : Type 0 where
  pub present : is_some p.media ≡ true
  pub ticked_before : p.last_tick_pos ≤ from
  pub enough : cap_position props.max_savable_position from ≤ p.interval_from + b

save_progress-Credit :
    (props : PlayerProps) (t b : ℕ) (p : Player)
    → Credit props t b p
    → (reported (save_progress props t p).1 ≤ b)
      × Credit props t (b - reported (save_progress props t p).1) (save_progress props t p).0
unfolding save_progress
save_progress-Credit props t b p k = ground arith

note_tick-Credit :
    (props : PlayerProps) (from b t : ℕ) (p : Player)
    → Credit props from b p
    → Credit props t (b + smooth from t) (note_tick t p)
unfolding note_tick
note_tick-Credit props from b t p k = ground arith

show_time-Credit :
    (props : PlayerProps) (from b t : ℕ) (p : Player)
    → Credit props from b p
    → Credit props from b (show_time t p)
unfolding show_time
show_time-Credit props from b t p k = ground arith

sync-Credit :
    (props : PlayerProps) (from b : ℕ) (d : Option ℕ) (p : Player)
    → Credit props from b p
    → Credit props from b (sync_media_duration d p).0 × (reported (sync_media_duration d p).1 ≡ 0)
unfolding sync_media_duration
sync-Credit props from b none p k = (k, refl)
sync-Credit props from b (some d) p k = ground arith

-- What a part of the player pays: it reports no more than it may, and leaves the rest.
unfoldable pub Pays : PlayerProps → ℕ → ℕ → Player × List PlayerCall → Type 0
Pays props from b r = (reported r.1 ≤ b) × Credit props from (b - reported r.1) r.0

save_due-Pays :
    (props : PlayerProps) (t b : ℕ) (p : Player)
    → Credit props t b p
    → Pays props t b (save_due props t p)
unfolding save_due Pays
save_due-Pays props t b p k =
    if-elim
      (λ (r : Player × List PlayerCall). (reported r.1 ≤ b) × Credit props t (b - reported r.1) r.0)
      (is_due p.last_saved_pos props.save_interval t) (save_progress-Credit props t b p k)
      (
        omega arith,
        record {
          present = k.present;
          ticked_before = k.ticked_before;
          enough = omega (arith, k.enough);
        },
      )

pub reported-append : (xs ys : List PlayerCall) → reported (xs ++ ys) ≡ reported xs + reported ys
reported-append [] ys = omega arith
reported-append (update_watch_progress g ∷ xs) ys = omega (arith, reported-append xs ys)
reported-append (on_time_update t ∷ xs) ys = reported-append xs ys
reported-append (on_duration_change t ∷ xs) ys = reported-append xs ys
reported-append (on_first_play ∷ xs) ys = reported-append xs ys

-- Calls that report nothing, before and after, change nothing.
between :
    (xs saved : List PlayerCall) (t : ℕ)
    → reported xs ≡ 0
    → reported (xs ++ saved ++ on_time_update t ∷ []) ≡ reported saved
between xs saved t h =
    omega
      (arith, reported-append (xs ++ saved) (on_time_update t ∷ []), reported-append xs saved, h)

repay :
    (props : PlayerProps) (t b : ℕ) (p : Player) (xs ys : List PlayerCall)
    → reported ys ≡ reported xs
    → Pays props t b (p, xs)
    → Pays props t b (p, ys)
unfolding Pays
repay props t b p xs ys e h = rw e h

pub tick-Pays :
    (props : PlayerProps) (from b : ℕ) (v : Media) (p : Player)
    → Credit props from b p
    → Pays props v.position (b + smooth from v.position) (tick props (some v) p)
unfolding tick
tick-Pays props from b v p k =
    let t = v.position in
    let (synced, nothing) = sync-Credit props from b v.duration p k in
    let noted = note_tick-Credit props from b t _ synced in
    let shown = show_time-Credit props t _ t _ noted in
    repay props t _ _ _ _ (between (sync_media_duration v.duration p).1 _ t nothing)
      (save_due-Pays props t _ _ shown)

pub pause-Pays :
    (props : PlayerProps) (from b : ℕ) (v : Media) (p : Player)
    → Credit props from b p
    → from ≤ v.position
    → v.position ≤ from + continuous_tick_gap
    → Pays props v.position
        (b + smooth from v.position)
        (pause_at props (some v) (record p { paused = true }))
unfolding pause_at Pays
pause-Pays props from b v p k h l = save_progress-Credit props v.position _ _ paused
  where
    paused : Credit props v.position (b + smooth from v.position) (record p { paused = true })
    paused = ground (arith, k.present, k.ticked_before, k.enough)

pub sought-Credit :
    (props : PlayerProps) (from b t : ℕ) (p : Player)
    → Credit props from b p
    → Credit props from b (handle_seek_change t p).0 × (reported (handle_seek_change t p).1 ≡ 0)
unfolding handle_seek_change
sought-Credit props from b t p k = ground arith

first_play_reports : (b : Bool) → reported (if b then [] else on_first_play ∷ []) ≡ 0
first_play_reports true = refl
first_play_reports false = refl

pub play-Credit :
    (props : PlayerProps) (from b : ℕ) (blocked : Bool) (v : Media) (p : Player)
    → Credit props from b p
    → Credit props from b (play_from blocked (some v) p).0
      × (reported (play_from blocked (some v) p).1 ≡ 0)
unfolding play_from
play-Credit props from b true v p k = (ground arith, refl)
play-Credit props from b false v p k =
    let (synced, nothing) = sync-Credit props from b v.duration p k in
    (
      record {
        present = synced.present;
        ticked_before = synced.ticked_before;
        enough = synced.enough;
      },
      reported-append (sync_media_duration v.duration p).1 _
          ∙ omega (arith, nothing, first_play_reports p.has_played),
    )
