-- ===== src/ExerciseTab/Summary.antt =====
-- The summary of the chunks and the filters agree.
use bachelor_thesis.ExerciseTab.Listing.{
  has_exercises, matches, filtered_chunks, count_kind, count_by_kind, exercise_summary,
}
use bachelor_thesis.Prelude.{
  ℕ, ◌+◌, String, ◌≡◌, refl, Bool, not, List, [], ◌∷◌, arith, is_some, length, filter,
}
use bachelor_thesis.Interaction.Proto.{InteractionKind, LessonInteraction}
use bachelor_thesis.Chunks.{TranscriptChunk}
use bachelor_thesis.ExerciseTab.{ChunkFilter, TabState}

length-filter-not {ℓ} :
    {A : Type ℓ} (p : A → Bool) (xs : List A)
    → length (filter p xs) + length (filter (λ x. not (p x)) xs) ≡ length xs
unfolding filter
length-filter-not p [] = refl
length-filter-not p (x ∷ xs) = ground (arith, length-filter-not p xs)

-- How many exercises the counts of the kinds hold together.
abbrev pub counted : List (InteractionKind × ℕ) → ℕ
counted [] = 0
counted ((k, n) ∷ m) = n + counted m

counted-count_kind :
    (m : List (InteractionKind × ℕ)) (k : InteractionKind)
    → counted (count_kind m k) ≡ counted m + 1
unfolding count_kind
counted-count_kind [] k = refl
counted-count_kind ((j, n) ∷ m) k = ground (arith, counted-count_kind m k)

counted-count_by_kind :
    (m : List (InteractionKind × ℕ)) (its : List LessonInteraction)
    → counted (count_by_kind m its) ≡ counted m + length its
unfolding count_by_kind
counted-count_by_kind m [] = omega arith
counted-count_by_kind m (it ∷ its) =
    omega (arith, counted-count_by_kind (count_kind m it.kind) its, counted-count_kind m it.kind)

-- How many chunks the list shows under a filter, where nothing is searched for.
abbrev pub shown : (String → String) → ChunkFilter → TabState → ℕ
shown lower f s = length (filtered_chunks lower (record s { search_query = ""; chunk_filter = f }))

-- The summary counts each exercise under one kind, and as many chunks with and without exercises as the
-- filters for them show, which together, as those for the two kinds of configuration, show every chunk.
pub exercise_summary-shown :
    (lower : String → String) (s : TabState)
    → (counted (exercise_summary s).by_kind ≡ length s.interactions)
      × (shown lower ChunkFilter.with_exercises s ≡ (exercise_summary s).chunks_with_exercises)
      × (shown lower ChunkFilter.empty_chunks s ≡ (exercise_summary s).chunks_without_exercises)
      × (shown lower ChunkFilter.with_exercises s + shown lower ChunkFilter.empty_chunks s
          ≡ length s.local_chunks)
      × (shown lower ChunkFilter.custom_cfg s + shown lower ChunkFilter.default_cfg s
          ≡ length s.local_chunks)
unfolding exercise_summary filtered_chunks matches
exercise_summary-shown lower s =
    let parts = length-filter-not (has_exercises s.interactions) s.local_chunks in
    (
      omega (arith, counted-count_by_kind [] s.interactions),
      refl,
      omega (arith, parts),
      parts,
      length-filter-not (λ (c : TranscriptChunk). is_some c.interaction_config) s.local_chunks,
    )
