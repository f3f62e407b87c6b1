-- ===== src/Analysis/Tracker/Paid.antt =====
-- Each load of the analysis, and each load that follows an end, is guarded by a set of ids.
use bachelor_thesis.Errors.{includes}
use bachelor_thesis.Prelude.{
  ℕ, ◌+◌, ◌≤◌, String, subst, ◌≡◌, refl, sym, inl, inr, Bool, true, false, ◌&&◌, not, List, [], ◌∷◌,
  ◌++◌, arith, str_eq, eq_iff, if◌then◌else◌, Bool-cases, is_empty, if-elim, if-false, Ids, has,
  add, has-add,
}
use bachelor_thesis.Analysis.Types.{TaskKind, LessonTask}
use bachelor_thesis.Analysis.Active.{
  Load, reload_chunks, load_transcript, sync_analysis, after_extract, after_chunk, after_generate,
  after_pipeline, TrackerState, track_extract, track_chunk, load_once, track_pipeline, track_active,
}
use bachelor_thesis.Analysis.Ended.{
  makes_transcript, is_succeeded, is_failed, sync_once, attribute_kind, attribute_once,
}

abbrev pub one_if : Bool → ℕ
one_if b = if b then 1 else 0

-- The loads of the whole analysis for a task, and those that follow its end.
abbrev pub is_sync : String → Load → Bool
is_sync id (sync_analysis j) = str_eq j id
is_sync id _ = false

abbrev pub is_end : String → Load → Bool
is_end id (after_extract j) = str_eq j id
is_end id (after_chunk j) = str_eq j id
is_end id (after_generate j) = str_eq j id
is_end id (after_pipeline j) = str_eq j id
is_end id _ = false

unfoldable pub count : (Load → Bool) → List Load → ℕ
count p [] = 0
count p (x ∷ xs) = one_if (p x) + count p xs

abbrev pub syncs : String → List Load → ℕ
syncs id = count (is_sync id)

abbrev pub ends : String → List Load → ℕ
ends id = count (is_end id)

pub count-append :
    (p : Load → Bool) (xs ys : List Load) → count p (xs ++ ys) ≡ count p xs + count p ys
unfolding count
count-append p [] ys = omega arith
count-append p (x ∷ xs) ys = omega (arith, count-append p xs ys)

-- Each load is paid for by the id's entry in the set that guards it.
pub record IsPaid (id : String) (s : TrackerState) (p : TrackerState × List Load) : Type 0 where
  pub synced :
      syncs id p.1 + one_if (has s.analysis_synced id) ≤ one_if (has p.0.analysis_synced id)
  pub ended : ends id p.1 + one_if (has s.completed id) ≤ one_if (has p.0.completed id)

-- A step that makes no such load and leaves the sets alone.
pub free :
    (id : String) (s t : TrackerState)
    → t.analysis_synced ≡ s.analysis_synced
    → t.completed ≡ s.completed
    → IsPaid id s (t, [])
unfolding count
free id s t a b = record { synced = rw a (omega arith); ended = rw b (omega arith) }

pub IsPaid-append :
    (id : String) (s t u : TrackerState) (xs ys : List Load)
    → IsPaid id s (t, xs)
    → IsPaid id t (u, ys)
    → IsPaid id s (u, xs ++ ys)
IsPaid-append id s t u xs ys h k = record {
  synced = omega (arith, count-append (is_sync id) xs ys, h.synced, k.synced);
  ended = omega (arith, count-append (is_end id) xs ys, h.ended, k.ended);
}

-- A new entry pays for one load.
pub pay :
    (s : Ids) (k id : String)
    → has s k ≡ false
    → one_if (str_eq k id) + 0 + one_if (has s id) ≤ one_if (has (add s k) id)
pay s k id h = rw (has-add s k id) (elim (Bool-cases (str_eq k id)) [
  | inl e ↦
      let same : k ≡ id = (eq_iff k id).0 e in
      let fresh : has s id ≡ false = subst (λ x. has s x ≡ false) same h in
      rw (e, fresh) (omega arith)
  | inr e ↦ rw e (omega arith)
])

never : (a b c : Bool) → c ≡ true → (a && b && not c) ≡ false
never a b c h = ground arith

pub sync_once-IsPaid :
    (id : String) (task : LessonTask) (s : TrackerState) → IsPaid id s (sync_once task s)
unfolding sync_once count
sync_once-IsPaid id task s = elim (Bool-cases (has s.analysis_synced task.id)) [
  | inl h ↦
      subst (IsPaid id s)
        (sym (if-false _ _ _ (never (is_succeeded task.status) (makes_transcript task.kind) _ h)))
        (free id s s refl refl)
  | inr h ↦
      if-elim (IsPaid id s)
        (is_succeeded task.status
          && makes_transcript task.kind
          && not (has s.analysis_synced task.id))
        (record { synced = pay s.analysis_synced task.id id h; ended = omega arith })
        (free id s s refl refl)
]

pub attribute_kind-free :
    (id : String) (k : TaskKind) (task : LessonTask) (s t : TrackerState)
    → IsPaid id s (t, [])
    → IsPaid id s (attribute_kind k task t, [])
unfolding attribute_kind
attribute_kind-free id TaskKind.extract_transcript task s t h = record {
  synced = h.synced;
  ended = h.ended;
}
attribute_kind-free id TaskKind.chunk_transcript task s t h = record {
  synced = h.synced;
  ended = h.ended;
}
attribute_kind-free id TaskKind.run_pipeline task s t h =
    if-elim (λ u. IsPaid id s (u, [])) (includes task.progress_step "CHUNKING")
      (record { synced = h.synced; ended = h.ended })
      (if-elim (λ u. IsPaid id s (u, [])) (includes task.progress_step "GENERATING") h
        (record { synced = h.synced; ended = h.ended }))
attribute_kind-free id TaskKind.generate_interactions task s t h = h
attribute_kind-free id TaskKind.unspecified task s t h = h

pub attribute_once-free :
    (id : String) (task : LessonTask) (s : TrackerState) → IsPaid id s (attribute_once task s, [])
unfolding attribute_once
attribute_once-free id task s =
    if-elim (λ u. IsPaid id s (u, []))
      (is_failed task.status && not (has s.failed_attributed task.id))
      (attribute_kind-free id task.kind task s _ (free id s _ refl refl)) (free id s s refl refl)

pipeline_loads :
    (id : String) (seen : Ids) (j : String)
    → (syncs id (load_once seen j (load_transcript j)) ≡ 0)
      × (ends id (load_once seen j (load_transcript j)) ≡ 0)
unfolding count
pipeline_loads id seen j =
    if-elim (λ xs. (syncs id xs ≡ 0) × (ends id xs ≡ 0)) (has seen j) (refl, refl)
      (omega arith, omega arith)

-- A list of loads of which none is counted.
pub loads-free :
    (id : String) (s t : TrackerState) (xs : List Load)
    → (syncs id xs ≡ 0) × (ends id xs ≡ 0)
    → t.analysis_synced ≡ s.analysis_synced
    → t.completed ≡ s.completed
    → IsPaid id s (t, xs)
loads-free id s t xs (a, b) e f = record {
  synced = rw (a, e) (omega arith);
  ended = rw (b, f) (omega arith);
}

chunk_loads :
    (id : String) (seen : Ids) (j : String)
    → (syncs id (load_once seen j (reload_chunks j)) ≡ 0)
      × (ends id (load_once seen j (reload_chunks j)) ≡ 0)
unfolding count
chunk_loads id seen j =
    if-elim (λ xs. (syncs id xs ≡ 0) × (ends id xs ≡ 0)) (has seen j) (refl, refl)
      (omega arith, omega arith)

none_in_both :
    (id : String) (xs ys : List Load)
    → (syncs id xs ≡ 0) × (ends id xs ≡ 0)
    → (syncs id ys ≡ 0) × (ends id ys ≡ 0)
    → (syncs id (xs ++ ys) ≡ 0) × (ends id (xs ++ ys) ≡ 0)
none_in_both id xs ys (a, b) (c, d) = (
  omega (arith, count-append (is_sync id) xs ys, a, c),
  omega (arith, count-append (is_end id) xs ys, b, d),
)

pub track_pipeline-IsPaid :
    (id : String) (task : LessonTask) (s : TrackerState) → IsPaid id s (track_pipeline task s)
unfolding track_pipeline
track_pipeline-IsPaid id task s =
    if-elim (IsPaid id s) (includes task.progress_step "GENERATING")
      (loads-free id s _ _
        (none_in_both id _ _ (chunk_loads id s.gen_chunks_loaded task.id)
          (pipeline_loads id s.transcript_loaded task.id))
        refl refl)
      (if-elim (IsPaid id s) (includes task.progress_step "CHUNKING")
        (loads-free id s _ _ (pipeline_loads id s.transcript_loaded task.id) refl refl)
        (free id s _ refl refl))

pub track_active-IsPaid :
    (id : String) (now : ℕ) (k : TaskKind) (task : LessonTask) (s : TrackerState)
    → IsPaid id s (track_active now k task s)
unfolding track_active track_extract track_chunk
track_active-IsPaid id now TaskKind.extract_transcript task s =
    if-elim (λ u. IsPaid id s (u, [])) (has s.extract_cleared task.id) (free id s _ refl refl)
      (free id s _ refl refl)
track_active-IsPaid id now TaskKind.chunk_transcript task s = free id s _ refl refl
track_active-IsPaid id now TaskKind.generate_interactions task s =
    if-elim (λ u. IsPaid id s (u, [])) (is_empty task.chunk_id) (free id s _ refl refl)
      (free id s s refl refl)
track_active-IsPaid id now TaskKind.run_pipeline task s = track_pipeline-IsPaid id task s
track_active-IsPaid id now TaskKind.unspecified task s = free id s s refl refl
