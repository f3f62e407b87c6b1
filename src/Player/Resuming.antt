-- ===== src/Player/Resuming.antt =====
-- Where the video resumes: never past a question that is not answered.
use bachelor_thesis.Player.Steps.{
  PlayerEvent, ticked, paused_at, sought, play_started, at, player_step, player_run,
}
use bachelor_thesis.Lesson.Playback.Gates.{pending_checkpoints-IsSorted}
use bachelor_thesis.Lesson.State.{
  Props, LessonState, starts_before, pending_checkpoints, next_gate, start_of, max_savable_position,
}
use bachelor_thesis.Interaction.Proto.{LessonInteraction}
use bachelor_thesis.Prelude.{
  ℕ, ◌≤◌, ◌≡◌, Bool, true, false, Option, none, some, List, [], ◌∷◌, ◌++◌, arith, if◌then◌else◌,
  if-elim, head, All, All-append, All-universal, IsSorted,
}
use bachelor_thesis.Player.{
  Media, PlayerProps, Player, PlayerCall, update_watch_progress, on_time_update, on_duration_change,
  on_first_play, progress_of, save_progress, sync_media_duration, is_due, save_due, tick,
  handle_native_time_update, pause_at, handle_native_pause, play_from, handle_native_play,
  handle_seek_change,
}

-- A call that saves no position past `most`.
abbrev pub Capped : ℕ → PlayerCall → Type 0
Capped most (update_watch_progress g) = g.position ≤ most
Capped most (on_time_update t) = Unit
Capped most (on_duration_change d) = Unit
Capped most on_first_play = Unit

progress_of-position : (t : ℕ) (p : Player) → (progress_of t p).position ≡ t
progress_of-position t p = ground arith

module _ (props : PlayerProps) (most : ℕ) (capped : props.max_savable_position ≡ some most) where
  save_progress-Capped : (t : ℕ) (p : Player) → All (Capped most) (save_progress props t p).1
  unfolding save_progress
  save_progress-Capped t p = rw capped (ground arith)

  sync-Capped : (d : Option ℕ) (p : Player) → All (Capped most) (sync_media_duration d p).1
  unfolding sync_media_duration
  sync-Capped none p = tt
  sync-Capped (some d) p = ground arith

  save_due-Capped : (t : ℕ) (p : Player) → All (Capped most) (save_due props t p).1
  unfolding save_due
  save_due-Capped t p =
      if-elim (λ (r : Player × List PlayerCall). All (Capped most) r.1)
        (is_due p.last_saved_pos props.save_interval t) (save_progress-Capped t p) tt

  tick-Capped : (m : Option Media) (p : Player) → All (Capped most) (tick props m p).1
  unfolding tick
  tick-Capped none p = tt
  tick-Capped (some v) p =
      All-append (Capped most) ((sync_media_duration v.duration p).1 ++ _) _
        (All-append (Capped most) (sync_media_duration v.duration p).1 _ (sync-Capped v.duration p)
          (save_due-Capped v.position _))
        (tt, tt)

  pause_at-Capped : (m : Option Media) (p : Player) → All (Capped most) (pause_at props m p).1
  unfolding pause_at
  pause_at-Capped none p = tt
  pause_at-Capped (some v) p = save_progress-Capped v.position p

  first_play-Capped : (b : Bool) → All (Capped most) (if b then [] else on_first_play ∷ [])
  first_play-Capped true = tt
  first_play-Capped false = (tt, tt)

  play_from-Capped :
      (blocked : Bool) (m : Option Media) (p : Player) → All (Capped most) (play_from blocked m p).1
  unfolding play_from
  play_from-Capped blocked none p = first_play-Capped p.has_played
  play_from-Capped true (some v) p = tt
  play_from-Capped false (some v) p =
      All-append (Capped most) (sync_media_duration v.duration p).1 _ (sync-Capped v.duration p)
        (first_play-Capped p.has_played)

  sought-Capped : (t : ℕ) (p : Player) → All (Capped most) (handle_seek_change t p).1
  unfolding handle_seek_change
  sought-Capped t p = ground arith

  player_step-Capped : (e : PlayerEvent) (p : Player) → All (Capped most) (player_step props e p).1
  unfolding player_step handle_native_time_update handle_native_pause handle_native_play
  player_step-Capped (ticked t) p = tick-Capped (at t p).media (at t p)
  player_step-Capped (paused_at t) p =
      pause_at-Capped (at t p).media (record (at t p) { paused = true })
  player_step-Capped (sought t) p = sought-Capped t p
  player_step-Capped (play_started b) p = play_from-Capped b p.media p

  player_run-Capped :
      (es : List PlayerEvent) (p : Player) → All (Capped most) (player_run props es p).1
  unfolding player_run
  player_run-Capped [] p = tt
  player_run-Capped (e ∷ es) p =
      All-append (Capped most) (player_step props e p).1 _ (player_step-Capped e p)
        (player_run-Capped es _)

-- A call that saves no position past the start of any of the questions.
abbrev pub SavesBefore : List LessonInteraction → PlayerCall → Type 0
SavesBefore cs (update_watch_progress g) = All (λ c. g.position ≤ c.start_ms) cs
SavesBefore cs (on_time_update t) = Unit
SavesBefore cs (on_duration_change d) = Unit
SavesBefore cs on_first_play = Unit

before-All :
    (t : ℕ) (c : LessonInteraction) (cs : List LessonInteraction)
    → t ≤ c.start_ms
    → All (λ d. starts_before c d ≡ true) cs
    → All (λ d. t ≤ d.start_ms) cs
before-All t c [] h k = tt
before-All t c (d ∷ cs) h k = (ground arith, before-All t c cs h k.1)

Capped-SavesBefore :
    (c : LessonInteraction) (cs : List LessonInteraction) (calls : List PlayerCall)
    → All (λ d. starts_before c d ≡ true) cs
    → All (Capped c.start_ms) calls
    → All (SavesBefore (c ∷ cs)) calls
Capped-SavesBefore c cs [] h k = tt
Capped-SavesBefore c cs (update_watch_progress g ∷ calls) h k =
    ((k.0, before-All g.position c cs k.0 h), Capped-SavesBefore c cs calls h k.1)
Capped-SavesBefore c cs (on_time_update t ∷ calls) h k = (tt, Capped-SavesBefore c cs calls h k.1)
Capped-SavesBefore c cs (on_duration_change t ∷ calls) h k =
    (tt, Capped-SavesBefore c cs calls h k.1)
Capped-SavesBefore c cs (on_first_play ∷ calls) h k = (tt, Capped-SavesBefore c cs calls h k.1)

no_question : (call : PlayerCall) → SavesBefore [] call
no_question (update_watch_progress g) = tt
no_question (on_time_update t) = tt
no_question (on_duration_change t) = tt
no_question on_first_play = tt

saves_before :
    (props : PlayerProps) (es : List PlayerEvent) (p : Player) (cs : List LessonInteraction)
    → IsSorted starts_before cs
    → props.max_savable_position ≡ start_of (head cs)
    → All (SavesBefore cs) (player_run props es p).1
saves_before props es p [] h e =
    All-universal (SavesBefore []) no_question (player_run props es p).1
saves_before props es p (c ∷ cs) h e =
    Capped-SavesBefore c cs _ h.0 (player_run-Capped props c.start_ms e es p)

-- With the cap that the view of a student gives to the player, no event of the player saves a position
-- past the start of a question that is not answered, so that the video resumes before each of them.
pub player_run-SavesBefore :
    (lesson : Props) (s : LessonState) (props : PlayerProps) (es : List PlayerEvent) (p : Player)
    → lesson.is_preview ≡ false
    → props.max_savable_position ≡ max_savable_position lesson s
    → All (SavesBefore (pending_checkpoints s)) (player_run props es p).1
unfolding max_savable_position next_gate
player_run-SavesBefore lesson s props es p h e =
    saves_before props es p (pending_checkpoints s) (pending_checkpoints-IsSorted s) (rw h at e)
