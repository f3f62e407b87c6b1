-- ===== src/Lesson/Playback/Watch.antt =====
-- How much of the video counts as watched: real playback, at most a second and a half for each update.
use bachelor_thesis.Prelude.{
  ℕ, ◌+◌, ◌-◌, ◌*◌, ◌≤◌, ◌≡◌, refl, inl, inr, ◌&&◌, ◌||◌, not, Option, none, some, List, [], ◌∷◌,
  arith, ltb, leb, Bool-cases, is_some, if-elim, length,
}
use bachelor_thesis.Interaction.Proto.{LessonInteraction}
use bachelor_thesis.Lesson.State.{Props, LessonState, max_watch_delta}
use bachelor_thesis.Lesson.Playback.{
  push_mark, accumulate, surface, crossed_gate, stop_at, hit_test, far_from, clear_initial_load,
  handle_time_update,
}

-- The count grows, by at most what one update may add, and the mark does not go back.
record IsForward (s t : LessonState) : Type 0 where
  grows : s.watched ≤ t.watched
  bounded : t.watched ≤ s.watched + 1500
  mark_grows : s.max_watched ≤ t.max_watched

still : (s t : LessonState) → t.watched ≡ s.watched → t.max_watched ≡ s.max_watched → IsForward s t
still s t w m = record { grows = omega arith; bounded = omega arith; mark_grows = omega arith }

push_mark-IsForward :
    (s : LessonState) (t : ℕ)
    → (s.prev_time ≤ t)
    → (t ≤ s.prev_time + 1500)
    → IsForward s (push_mark t (record s { watched = s.watched + (t - s.prev_time) }))
unfolding push_mark
push_mark-IsForward s t lo hi = elim (Bool-cases (ltb s.max_watched t)) [
  | inl h ↦ rw h (
      if-elim (IsForward s) (leb (s.last_max_watched_push + 1000) t)
        (record { grows = omega arith; bounded = omega arith; mark_grows = ground arith })
        (record { grows = omega arith; bounded = omega arith; mark_grows = ground arith }))
  | inr h ↦ rw h (record { grows = omega arith; bounded = omega arith; mark_grows = omega arith })
]

accumulate-IsForward : (t : ℕ) (s : LessonState) → IsForward s (accumulate t s)
unfolding accumulate
accumulate-IsForward t s =
    if-elim (IsForward s) (not (is_some s.active_id) && not s.submitted && not s.is_initial_load)
      (elim (Bool-cases (ltb s.prev_time t && leb (t - s.prev_time) max_watch_delta)) [
        | inl h ↦ rw h (push_mark-IsForward s t (ground arith) (ground arith))
        | inr h ↦ rw h (still s s refl refl)
      ])
      (still s s refl refl)

stop_at-IsForward :
    (s r : LessonState) (now : ℕ) (o : Option LessonInteraction)
    → IsForward s r
    → IsForward s (stop_at now o r)
unfolding surface
stop_at-IsForward s r now none k = k
stop_at-IsForward s r now (some c) k = record {
  grows = k.grows;
  bounded = k.bounded;
  mark_grows = k.mark_grows;
}

loaded-IsForward :
    (props : Props) (t : ℕ) (s r : LessonState)
    → IsForward s r
    → IsForward s (clear_initial_load props t r)
loaded-IsForward props t s r k =
    if-elim (IsForward s) (r.is_initial_load && far_from t props.initial_position)
      (record { grows = k.grows; bounded = k.bounded; mark_grows = k.mark_grows }) k

hit_test-IsForward :
    (now t : ℕ) (s r : LessonState) → IsForward s r → IsForward s (hit_test now t r)
unfolding hit_test
hit_test-IsForward now t s r k =
    stop_at-IsForward s (record r { prev_time = t }) now (crossed_gate r t)
      (record { grows = k.grows; bounded = k.bounded; mark_grows = k.mark_grows })

handle_time_update-IsForward :
    (props : Props) (now t : ℕ) (s : LessonState) → IsForward s (handle_time_update props now t s)
unfolding handle_time_update
handle_time_update-IsForward props now t s =
    let counted = accumulate-IsForward t s in
    let loaded = loaded-IsForward props t s (accumulate t s) counted in
    if-elim (IsForward s) (s.submitted || is_some s.active_id) counted (
      if-elim (IsForward s)
        ((clear_initial_load props t (accumulate t s)).is_initial_load || ltb t 500) loaded
        (hit_test-IsForward now t s (clear_initial_load props t (accumulate t s)) loaded))

-- A sequence of time updates, each with the clock and the video's time.
abbrev pub time_updates : Props → List (ℕ × ℕ) → LessonState → LessonState
time_updates props [] s = s
time_updates props ((now, t) ∷ ts) s = time_updates props ts (handle_time_update props now t s)

-- Over any sequence of time updates, whatever jumps it holds, the watched time never falls, grows by at
-- most a second and a half for each update, and the mark of the furthest watched time never goes back.
pub time_updates_bounded :
    (props : Props) (ticks : List (ℕ × ℕ)) (s : LessonState)
    → (s.watched ≤ (time_updates props ticks s).watched)
      × ((time_updates props ticks s).watched ≤ s.watched + 1500 * length ticks)
      × (s.max_watched ≤ (time_updates props ticks s).max_watched)
time_updates_bounded props [] s = (omega arith, omega arith, omega arith)
time_updates_bounded props ((now, t) ∷ ts) s =
    let k = handle_time_update-IsForward props now t s in
    let (lo, hi, m) = time_updates_bounded props ts (handle_time_update props now t s) in
    let a = k.grows in
    let b = k.bounded in let c = k.mark_grows in (omega arith, omega arith, omega arith)
