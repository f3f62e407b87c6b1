-- ===== src/Lesson/Playback/Seeks.antt =====
-- A seek past an unanswered question goes back (`guardSeek`).
use bachelor_thesis.Prelude.{
  ℕ, ◌+◌, subst, ◌≡◌, refl, sym, inl, inr, true, false, ◌||◌, none, some, List, [], ◌∷◌, arith, ltb,
  leb, le→leb, Bool-cases, Option-cases, if-false, head, All, IsSorted,
}
use bachelor_thesis.Interaction.Proto.{LessonInteraction}
use bachelor_thesis.Lesson.State.{
  Video, LessonState, forward_seek_slack, starts_before, pending_checkpoints, next_gate,
}
use bachelor_thesis.Lesson.Playback.{clamp_to, guard_video, guard_seek}
use bachelor_thesis.Lesson.Playback.Gates.{pending_checkpoints-IsSorted}

-- Every pending question starts within a second before the position, or after it.
abbrev IsBehind : LessonState → ℕ → Type 0
IsBehind s position =
    All (λ c. leb position (c.start_ms + forward_seek_slack) ≡ true) (pending_checkpoints s)

IsBehind-All :
    (gate : LessonInteraction) (position : ℕ) (cs : List LessonInteraction)
    → leb position (gate.start_ms + forward_seek_slack) ≡ true
    → All (λ d. starts_before gate d ≡ true) cs
    → All (λ c. leb position (c.start_ms + forward_seek_slack) ≡ true) cs
IsBehind-All gate position [] h k = tt
IsBehind-All gate position (c ∷ cs) h k = (ground arith, IsBehind-All gate position cs h k.1)

behind_head :
    (position : ℕ) (cs : List LessonInteraction) (gate : LessonInteraction)
    → IsSorted starts_before cs
    → head cs ≡ some gate
    → leb position (gate.start_ms + forward_seek_slack) ≡ true
    → All (λ c. leb position (c.start_ms + forward_seek_slack) ≡ true) cs
behind_head position [] gate s e h = tt
behind_head position (c ∷ cs) gate s e h =
    let same : gate ≡ c = cc in
    let late : leb position (c.start_ms + forward_seek_slack) ≡ true =
      subst (λ g. leb position (g.start_ms + forward_seek_slack) ≡ true) same h in
    (late, IsBehind-All c position cs late s.0)

IsBehind-none : (s : LessonState) (position : ℕ) → next_gate s ≡ none → IsBehind s position
unfolding next_gate
IsBehind-none s position e = go (pending_checkpoints s) e
  where
    go :
        (cs : List LessonInteraction)
        → head cs ≡ none
        → All (λ c. leb position (c.start_ms + forward_seek_slack) ≡ true) cs
    go [] h = tt
    go (c ∷ cs) h = cc

IsBehind-some :
    (s : LessonState) (position : ℕ) (gate : LessonInteraction)
    → next_gate s ≡ some gate
    → leb position (gate.start_ms + forward_seek_slack) ≡ true
    → IsBehind s position
unfolding next_gate
IsBehind-some s position gate e h =
    behind_head position (pending_checkpoints s) gate (pending_checkpoints-IsSorted s) e h

-- What a seek leaves: a position that passes no pending question.
abbrev pub IsGuarded : LessonState → Type 0
IsGuarded t = (v : Video) × (t.video ≡ some v) × IsBehind t v.position

clamp_to-IsGuarded :
    (s : LessonState) (v : Video) (gate : LessonInteraction)
    → s.video ≡ some v
    → next_gate s ≡ some gate
    → IsGuarded (clamp_to gate v s)
unfolding pending_checkpoints
clamp_to-IsGuarded s v gate e g =
    elim (Bool-cases (ltb (gate.start_ms + forward_seek_slack) v.position)) [
      | inl far ↦ rw far (_, refl, IsBehind-some s gate.start_ms gate g (le→leb _ _ (omega arith)))
      | inr near ↦ rw near (v, e, IsBehind-some s v.position gate g (ground arith))
    ]

guard_video_lem :
    (s : LessonState) (v : Video) (gate : LessonInteraction)
    → s.video ≡ some v
    → s.clamping ≡ false
    → s.is_initial_load ≡ false
    → guard_video s.video gate s ≡ clamp_to gate v s
guard_video_lem s v gate e c l =
    subst (λ o. guard_video o gate s ≡ clamp_to gate v s) (sym e)
      (if-false (s.clamping || s.is_initial_load) _ _ (rw (c, l) refl))

-- A seek in a loaded video, after the initial load and while no correction of an earlier seek is under way,
-- leaves the position at most a second after the start of each
-- question that is not answered.
pub guard_seek-IsGuarded :
    (s : LessonState) (v : Video)
    → s.video ≡ some v
    → s.clamping ≡ false
    → s.is_initial_load ≡ false
    → IsGuarded (guard_seek s)
unfolding guard_seek
guard_seek-IsGuarded s v e c l = elim (Option-cases (next_gate s)) [
  | inl n ↦ rw n (v, e, IsBehind-none s v.position n)
  | inr (gate, g) ↦ rw (g, guard_video_lem s v gate e c l) (clamp_to-IsGuarded s v gate e g)
]
