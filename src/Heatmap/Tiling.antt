-- ===== src/Heatmap/Tiling.antt =====
-- Where the cells of a heatmap stand.
use bachelor_thesis.Prelude.{
  ℕ, ◌+◌, ◌*◌, ◌≤◌, ◌<◌, String, ◌≡◌, refl, ◌∙◌, inl, inr, Bool, true, false, ◌&&◌, ◌||◌, not, List,
  [], ◌∷◌, map, arith, Bool-cases, if-elim, filter, any, All,
}
use bachelor_thesis.Heatmap.{
  ChunkScoreCell, ChunkStudentBreakdown, QuestionStat, HeatCell, question_cells, duration_of,
  segment_cell, segment_cells, HeatmapView, row, is_answered, is_asked, is_nil, question_view,
  lesson_heatmap, centers,
}

-- The width of a row.
abbrev pub row_width : List HeatCell → ℕ
row_width [] = 0
row_width (c ∷ cs) = c.width + row_width cs

abbrev pub IsWide : HeatCell → Type 0
IsWide c = 1 ≤ c.width

-- Points that rise, all after `from` and before `to`.
abbrev pub RisesWithin : ℕ → ℕ → List ℕ → Type 0
RisesWithin from to [] = Unit
RisesWithin from to (x ∷ xs) = (from < x) × (x < to) × RisesWithin x to xs

-- Cells that are each wide stand beside each other: their centres rise within the row.
centers-RisesWithin :
    (acc from to : ℕ) (cs : List HeatCell)
    → All IsWide cs
    → from ≤ 2 * acc
    → 2 * (acc + row_width cs) ≡ to
    → RisesWithin from to (centers acc cs)
unfolding centers
centers-RisesWithin acc from to [] h k e = tt
centers-RisesWithin acc from to (c ∷ cs) (w, h) k e = (
  omega arith,
  omega arith,
  centers-RisesWithin (acc + c.width) (2 * acc + c.width) to cs h (omega arith) (omega arith),
)

duration_of_pos : (c : ChunkScoreCell) → 1 ≤ duration_of c
duration_of_pos c = ground arith

segment_cell-IsWide :
    (text : ℕ → String) (breakdowns : List ChunkStudentBreakdown) (cs : List ChunkScoreCell)
    → All IsWide (map (segment_cell text breakdowns) cs)
unfolding segment_cell
segment_cell-IsWide text breakdowns [] = tt
segment_cell-IsWide text breakdowns (c ∷ cs) =
    (duration_of_pos c, segment_cell-IsWide text breakdowns cs)

question_cells-IsWide : (i : ℕ) (qs : List QuestionStat) → All IsWide (question_cells i qs)
unfolding question_cells
question_cells-IsWide i [] = tt
question_cells-IsWide i (q ∷ qs) = (omega arith, question_cells-IsWide (i + 1) qs)

-- Cells that are each wide, and whose centres rise within the row.
abbrev pub IsTiled : HeatmapView → Type 0
IsTiled (row cells) = All IsWide cells × RisesWithin 0 (2 * row_width cells) (centers 0 cells)
IsTiled _ = Unit

wide-IsTiled : (cells : List HeatCell) → All IsWide cells → IsTiled (row cells)
wide-IsTiled cells h = (h, centers-RisesWithin 0 0 _ cells h (omega arith) (omega arith))

question_view-IsTiled :
    (cells : List ChunkScoreCell) (asked : List QuestionStat) → IsTiled (question_view cells asked)
unfolding question_view
question_view-IsTiled [] [] = tt
question_view-IsTiled (c ∷ cs) [] = tt
question_view-IsTiled cells (q ∷ qs) = wide-IsTiled _ (question_cells-IsWide 0 (q ∷ qs))

-- Whatever the service answers, with segments of no length or that end before they start too, the cells of
-- a row each have a width, and their centres rise from left to right within the row.
pub lesson_heatmap-IsTiled :
    (text : ℕ → String) (failed : Bool) (cells : List ChunkScoreCell)
    (breakdowns : List ChunkStudentBreakdown) (questions : List QuestionStat)
    → IsTiled (lesson_heatmap text failed cells breakdowns questions)
unfolding lesson_heatmap segment_cells
lesson_heatmap-IsTiled text true cells breakdowns questions = tt
lesson_heatmap-IsTiled text false cells breakdowns questions =
    if-elim IsTiled (any is_answered cells) (wide-IsTiled _ (segment_cell-IsWide text breakdowns _))
      (question_view-IsTiled cells _)

abbrev is_row : HeatmapView → Bool
is_row (row cells) = true
is_row _ = false

is_nil-filter : {A : Type 0} (p : A → Bool) (xs : List A) → not (is_nil (filter p xs)) ≡ any p xs
unfolding filter any
is_nil-filter p [] = refl
is_nil-filter p (x ∷ xs) = elim (Bool-cases (p x)) [
  | inl e ↦ rw e refl
  | inr e ↦ rw e (is_nil-filter p xs)
]

question_view_shown :
    (cells : List ChunkScoreCell) (asked : List QuestionStat)
    → is_row (question_view cells asked) ≡ not (is_nil asked)
unfolding question_view
question_view_shown [] [] = refl
question_view_shown (c ∷ cs) [] = refl
question_view_shown cells (q ∷ qs) = refl

-- A row is shown exactly where the heatmap was loaded and a segment or a question has an answer.
pub lesson_heatmap_shown :
    (text : ℕ → String) (failed : Bool) (cells : List ChunkScoreCell)
    (breakdowns : List ChunkStudentBreakdown) (questions : List QuestionStat)
    → is_row (lesson_heatmap text failed cells breakdowns questions)
      ≡ (not failed && (any is_answered cells || any is_asked questions))
unfolding lesson_heatmap
lesson_heatmap_shown text true cells breakdowns questions = refl
lesson_heatmap_shown text false cells breakdowns questions =
    elim (Bool-cases (any is_answered cells)) [
      | inl e ↦ rw e refl
      | inr e ↦
          rw e (
            question_view_shown cells (filter is_asked questions)
            ∙ is_nil-filter is_asked questions)
    ]
