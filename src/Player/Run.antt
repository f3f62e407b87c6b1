-- ===== src/Player/Run.antt =====
-- What the player reports over a run of events.
use bachelor_thesis.Prelude.{
  ℕ, ◌+◌, ◌≤◌, subst, ◌≡◌, refl, sym, inl, inr, Bool, true, Option, none, some, List, [], ◌∷◌,
  arith, Option-cases, is_some,
}
use bachelor_thesis.Player.{
  Media, PlayerProps, Player, continuous_tick_gap, tick, handle_native_time_update, pause_at,
  handle_native_pause, play_from, handle_native_play, handle_seek_change,
}
use bachelor_thesis.Player.Steps.{
  PlayerEvent, ticked, paused_at, sought, play_started, moved, at, player_run,
}
use bachelor_thesis.Player.Credit.{
  reported, smooth, played, PausesFollow, Credit, Pays, reported-append, tick-Pays, pause-Pays,
  sought-Credit, play-Credit,
}

moved-is_some : (t : ℕ) (m : Option Media) → is_some m ≡ true → is_some (moved t m) ≡ true
moved-is_some t none h = h
moved-is_some t (some v) h = refl

at-Credit :
    (props : PlayerProps) (from b t : ℕ) (p : Player)
    → Credit props from b p
    → Credit props from b (at t p)
at-Credit props from b t p k = record {
  present = moved-is_some t p.media k.present;
  ticked_before = k.ticked_before;
  enough = k.enough;
}

module _ (props : PlayerProps) (from b t : ℕ) (p : Player) (k : Credit props from b p) where
  -- The element is there, at the position of the event.
  with_media :
      (P : Option Media → Type 0)
      → ((v : Media) → v.position ≡ t → P (some v))
      → P (moved t p.media)
  with_media P h = elim (Option-cases p.media) [
    | inl e ↦ absurd (missing e k.present)
    | inr (v, e) ↦ subst (λ m. P (moved t m)) (sym e) (h (record v { position = t }) refl)
  ]
    where
      missing : p.media ≡ none → is_some p.media ≡ true → ⊥
      missing e h = cc

  ticked-Pays : Pays props t (b + smooth from t) (handle_native_time_update props (at t p))
  unfolding handle_native_time_update
  ticked-Pays =
      with_media (λ m. Pays props t (b + smooth from t) (tick props m (at t p)))
        (λ v e.
          subst (λ u. Pays props u (b + smooth from u) (tick props (some v) (at t p))) e
            (tick-Pays props from b v (at t p) (at-Credit props from b t p k)))

  paused-Pays :
      from ≤ t
      → t ≤ from + continuous_tick_gap
      → Pays props t (b + smooth from t) (handle_native_pause props (at t p))
  unfolding handle_native_pause
  paused-Pays h l =
      with_media
        (λ m.
          Pays props t (b + smooth from t) (pause_at props m (record (at t p) { paused = true })))
        (λ v e.
          subst
            (λ u.
              Pays props u (b + smooth from u)
                (pause_at props (some v) (record (at t p) { paused = true })))
            e (pause-Pays props from b v (at t p) (at-Credit props from b t p k) (rw e h) (rw e l)))

started-Credit :
    (props : PlayerProps) (from b : ℕ) (blocked : Bool) (p : Player)
    → Credit props from b p
    → Credit props from b (handle_native_play blocked p).0
      × (reported (handle_native_play blocked p).1 ≡ 0)
unfolding handle_native_play
started-Credit props from b blocked p k = elim (Option-cases p.media) [
  | inl e ↦ absurd (missing e k.present)
  | inr (v, e) ↦
      subst
        (λ m.
          Credit props from b (play_from blocked m p).0 × (reported (play_from blocked m p).1 ≡ 0))
        (sym e) (play-Credit props from b blocked v p k)
]
  where
    missing : p.media ≡ none → is_some p.media ≡ true → ⊥
    missing e h = cc

-- Over any events, with pauses that follow playback, the calls report no more than may be reported.
pub run-Credit :
    (props : PlayerProps) (from b : ℕ) (es : List PlayerEvent) (p : Player)
    → Credit props from b p
    → PausesFollow from es
    → reported (player_run props es p).1 ≤ b + played from es
unfolding player_run Pays
run-Credit props from b [] p k h = omega arith
run-Credit props from b (ticked t ∷ es) p k h =
    let (paid, left) = ticked-Pays props from b t p k in
    omega (
      arith,
      paid,
      reported-append (handle_native_time_update props (at t p)).1 _,
      run-Credit props t _ es _ left h,
    )
run-Credit props from b (paused_at t ∷ es) p k h =
    let (paid, left) = paused-Pays props from b t p k h.0 h.1 in
    omega (
      arith,
      paid,
      reported-append (handle_native_pause props (at t p)).1 _,
      run-Credit props t _ es _ left h.2,
    )
run-Credit props from b (sought t ∷ es) p k h =
    let (kept, nothing) = sought-Credit props from b t p k in
    omega (
      arith,
      nothing,
      reported-append (handle_seek_change t p).1 _,
      run-Credit props from b es _ kept h,
    )
run-Credit props from b (play_started o ∷ es) p k h =
    let (kept, nothing) = started-Credit props from b o p k in
    omega (
      arith,
      nothing,
      reported-append (handle_native_play o p).1 _,
      run-Credit props from b es _ kept h,
    )
