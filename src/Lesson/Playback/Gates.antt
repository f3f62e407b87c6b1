-- ===== src/Lesson/Playback/Gates.antt =====
-- No unanswered question is passed: playback stops at the first that it reaches (`handleTimeUpdate`).
use bachelor_thesis.Prelude.{
  ℕ, ◌+◌, ◌-◌, ◌≤◌, subst, ◌≡◌, refl, ◌∙◌, ◌⊎◌, inl, inr, true, false, ◌&&◌, not, none, some, arith,
  ltb, leb, Option-cases, is_some, if-elim, filter, find_sound, All, All-find, filter-All, IsSorted,
  All-sort_by, sort_by-IsSorted, find-least, find-none,
}
use bachelor_thesis.Interaction.Proto.{LessonInteraction}
use bachelor_thesis.Lesson.State.{
  Props, LessonState, max_watch_delta, starts_before, is_gate, pending_checkpoints,
}
use bachelor_thesis.Lesson.Playback.{
  pause_video, push_mark, accumulate, is_crossed, surface, crossed_gate, hit_test,
  handle_time_update,
}

starts_before_refl : (a : LessonInteraction) → starts_before a a ≡ true
starts_before_refl a = ground arith

starts_before_total :
    (a b : LessonInteraction) → starts_before a b ≡ false → starts_before b a ≡ true
starts_before_total a b h = ground arith

starts_before_trans :
    (a b c : LessonInteraction)
    → starts_before a b ≡ true
    → starts_before b c ≡ true
    → starts_before a c ≡ true
starts_before_trans a b c h k = ground arith

pub pending_checkpoints-IsSorted :
    (s : LessonState) → IsSorted starts_before (pending_checkpoints s)
unfolding pending_checkpoints
pending_checkpoints-IsSorted s =
    sort_by-IsSorted starts_before starts_before_total starts_before_trans
      (filter (is_gate s.passed_ids) s.lesson_interactions)

pub pending_checkpoints-is_gate :
    (s : LessonState) → All (λ c. is_gate s.passed_ids c ≡ true) (pending_checkpoints s)
unfolding pending_checkpoints
pending_checkpoints-is_gate s =
    All-sort_by starts_before _ _ (filter-All (is_gate s.passed_ids) s.lesson_interactions)

-- The video is being watched: no question is active, and the lesson is loaded and not submitted.
pub record IsWatching (s : LessonState) : Type 0 where
  pub open_attempt : s.submitted ≡ false
  pub no_question : s.active_id ≡ none
  pub loaded : s.is_initial_load ≡ false

-- Playback from the last position to `t` reaches none of the pending questions.
abbrev pub ReachesNone : LessonState → ℕ → Type 0
ReachesNone s t = All (λ c. is_crossed s.prev_time t c ≡ false) (pending_checkpoints s)

-- The question is pending, playback to `t` reaches it, and it starts no later than any other pending
-- question that playback reaches.
pub record IsReached (s : LessonState) (t : ℕ) (c : LessonInteraction) : Type 0 where
  pub crossed : is_crossed s.prev_time t c ≡ true
  pub pending : is_gate s.passed_ids c ≡ true
  pub first :
      All
        (λ d. is_crossed s.prev_time t d ≡ true → starts_before c d ≡ true)
        (pending_checkpoints s)

-- Playback stops at a question.
pub record StopsAt (s t : LessonState) (c : LessonInteraction) : Type 0 where
  pub active : t.active_id ≡ some c.id
  pub stopped : t.video ≡ pause_video s.video

-- Only what counts the watched time differs.
abbrev Counted : LessonState → LessonState → Type 0
Counted s t =
    (w : ℕ) × (m : ℕ) × (n : ℕ) × (l : ℕ) × (t
      ≡ record s { watched = w; max_watched = m; max_watched_shown = n; last_max_watched_push = l })

Counted-refl : (s : LessonState) → Counted s s
Counted-refl s = (_, _, _, _, refl)

push_mark-Counted : (t w : ℕ) (s : LessonState) → Counted s (push_mark t (record s { watched = w }))
unfolding push_mark
push_mark-Counted t w s =
    if-elim (Counted s) (ltb s.max_watched t)
      (if-elim (Counted s) (leb (s.last_max_watched_push + 1000) t) (_, _, _, _, refl)
        (_, _, _, _, refl))
      (_, _, _, _, refl)

accumulate-Counted : (t : ℕ) (s : LessonState) → Counted s (accumulate t s)
unfolding accumulate
accumulate-Counted t s =
    if-elim (Counted s) (not (is_some s.active_id) && not s.submitted && not s.is_initial_load)
      (if-elim (Counted s) (ltb s.prev_time t && leb (t - s.prev_time) max_watch_delta)
        (push_mark-Counted t _ s) (Counted-refl s))
      (Counted-refl s)

hit_test-none :
    (now t : ℕ) (s : LessonState)
    → crossed_gate s t ≡ none
    → hit_test now t s ≡ record s { prev_time = t }
unfolding hit_test
hit_test-none now t s e = rw e refl

hit_test-some :
    (now t : ℕ) (s : LessonState) (c : LessonInteraction)
    → crossed_gate s t ≡ some c
    → hit_test now t s ≡ surface now c (record s { prev_time = t })
unfolding hit_test
hit_test-some now t s c e = rw e refl

gates_free : (s : LessonState) (t : ℕ) → crossed_gate s t ≡ none → ReachesNone s t
unfolding crossed_gate
gates_free s t e = find-none (is_crossed s.prev_time t) (pending_checkpoints s) e

-- What playback reaches from a state in which no question is active.
crossed_gate-IsReached :
    (s : LessonState) (t : ℕ) (c : LessonInteraction) → crossed_gate s t ≡ some c → IsReached s t c
unfolding crossed_gate
crossed_gate-IsReached s t c e = record {
  crossed = find_sound (is_crossed s.prev_time t) (pending_checkpoints s) e;
  pending =
      All-find (λ d. is_gate s.passed_ids d ≡ true) (is_crossed s.prev_time t)
        (pending_checkpoints s) (pending_checkpoints-is_gate s) e;
  first =
      find-least starts_before (is_crossed s.prev_time t) (pending_checkpoints s) c
        starts_before_refl (pending_checkpoints-IsSorted s) e;
}

surface-StopsAt :
    (now t : ℕ) (c : LessonInteraction) (s : LessonState)
    → StopsAt s (surface now c (record s { prev_time = t })) c
unfolding surface
surface-StopsAt now t c s = record { active = refl; stopped = refl }

-- What a time update does to a video that is being watched.
abbrev pub Outcome : LessonState → ℕ → LessonState → Type 0
Outcome s t r =
    (ReachesNone s t × (r.active_id ≡ none))
    ⊎ ((c : LessonInteraction) × IsReached s t c × StopsAt s r c)

hit_test-Outcome :
    (now t : ℕ) (s : LessonState) → s.active_id ≡ none → Outcome s t (hit_test now t s)
hit_test-Outcome now t s n = elim (Option-cases (crossed_gate s t)) [
  | inl e ↦ rw (hit_test-none now t s e) (inl (gates_free s t e, n))
  | inr (c, e) ↦
      rw (hit_test-some now t s c e)
        (inr (c, crossed_gate-IsReached s t c e, surface-StopsAt now t c s))
]

late : (t : ℕ) → 500 ≤ t → ltb t 500 ≡ false
late t le = ground arith

counted_time_update :
    (props : Props) (now t : ℕ) (s : LessonState)
    → IsWatching s
    → 500 ≤ t
    → handle_time_update props now t s ≡ hit_test now t (accumulate t s)
unfolding handle_time_update
counted_time_update props now t s k le =
    let (w, m, n, l, e) = accumulate-Counted t s in
    rw (e, k.open_attempt, k.no_question, k.loaded, late t le) refl

before_count :
    (s : LessonState) (w m n l t : ℕ) (r : LessonState)
    → Outcome
        (record s {
          watched = w;
          max_watched = m;
          max_watched_shown = n;
          last_max_watched_push = l;
        })
        t
        r
    → Outcome s t r
unfolding pending_checkpoints
before_count s w m n l t r (inl o) = inl o
before_count s w m n l t r (inr (c, reached, stop)) = inr (
  c,
  record { crossed = reached.crossed; pending = reached.pending; first = reached.first },
  record { active = stop.active; stopped = stop.stopped },
)

Counted-Outcome :
    (s c : LessonState) (t : ℕ) (r : LessonState) → Counted s c → Outcome c t r → Outcome s t r
Counted-Outcome s c t r (w, m, n, l, e) o =
    before_count s w m n l t r (subst (λ x. Outcome x t r) e o)

Counted-active : (s c : LessonState) → Counted s c → c.active_id ≡ s.active_id
Counted-active s c (w, m, n, l, e) = rw e refl

-- While the video is watched and half a second or more of it has run, a time update stops playback at
-- the earliest unanswered question that it reaches, and lets it go on only where it reaches none.
pub handle_time_update-Outcome :
    (props : Props) (now t : ℕ) (s : LessonState)
    → IsWatching s
    → 500 ≤ t
    → Outcome s t (handle_time_update props now t s)
handle_time_update-Outcome props now t s k le = rw (counted_time_update props now t s k le) (
    Counted-Outcome s _ t _ (accumulate-Counted t s)
      (hit_test-Outcome now t _ (Counted-active s _ (accumulate-Counted t s) ∙ k.no_question)))
