-- ===== src/ExerciseTab/Listing.antt =====
-- The list of the chunks with its filters, and the summary above it (lessons/[lessonId]/tab-exercises.tsx).
use bachelor_thesis.Prelude.{
  ℕ, ◌+◌, ◌-◌, String, Bool, true, ◌&&◌, ◌||◌, not, List, [], ◌∷◌, if◌then◌else◌, is_some, is_empty,
  length, filter, any,
}
use bachelor_thesis.Errors.{includes}
use bachelor_thesis.Chunks.{TranscriptChunk}
use bachelor_thesis.Interaction.Proto.{InteractionKind, LessonInteraction}
use bachelor_thesis.Interaction.Quantity.{same_kind}
use bachelor_thesis.ExerciseTab.{
  ChunkFilter, all_chunks, empty_chunks, with_exercises, default_cfg, custom_cfg, TabState,
  is_of_chunk,
}

unfoldable pub has_exercises : List LessonInteraction → TranscriptChunk → Bool
unfolding any
has_exercises its c = any (is_of_chunk c.id) its

abbrev pub passes_filter : ChunkFilter → Bool → TranscriptChunk → Bool
passes_filter all_chunks filled c = true
passes_filter empty_chunks filled c = not filled
passes_filter with_exercises filled c = filled
passes_filter default_cfg filled c = not (is_some c.interaction_config)
passes_filter custom_cfg filled c = is_some c.interaction_config

-- `lower` is `toLowerCase`.
unfoldable pub matches : (String → String) → String → TranscriptChunk → Bool
unfolding includes
matches lower query c = is_empty query || includes (lower c.summary) (lower query)

unfoldable pub filtered_chunks : (String → String) → TabState → List TranscriptChunk
unfolding filter has_exercises matches
filtered_chunks lower s =
    filter
      (λ c.
        matches lower s.search_query c
        && passes_filter s.chunk_filter (has_exercises s.interactions c) c)
      s.local_chunks

pub record ExerciseSummary : Type 0 where
  pub by_kind : List (InteractionKind × ℕ)
  pub chunks_with_exercises : ℕ
  pub chunks_without_exercises : ℕ

unfoldable pub count_kind :
    List (InteractionKind × ℕ) → InteractionKind → List (InteractionKind × ℕ)
count_kind [] k = (k, 1) ∷ []
count_kind ((j, n) ∷ m) k =
    let rest = count_kind m k in if same_kind j k then (j, n + 1) ∷ m else (j, n) ∷ rest

unfoldable pub count_by_kind :
    List (InteractionKind × ℕ) → List LessonInteraction → List (InteractionKind × ℕ)
unfolding count_kind
count_by_kind m [] = m
count_by_kind m (it ∷ its) = count_by_kind (count_kind m it.kind) its

unfoldable pub exercise_summary : TabState → ExerciseSummary
unfolding filter has_exercises count_by_kind
exercise_summary s =
    let filled = length (filter (has_exercises s.interactions) s.local_chunks) in
    record {
      by_kind = count_by_kind [] s.interactions;
      chunks_with_exercises = filled;
      chunks_without_exercises = length s.local_chunks - filled;
    }
