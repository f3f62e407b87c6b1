-- ===== src/Heatmap.antt =====
-- The heatmap of a lesson's scores (lesson-heatmap.tsx of app/dashboard/organizations/[slug]/courses/
-- [courseId]/lessons/[lessonId]/). Times are in milliseconds and shares in thousandths; the width of a cell
-- is its part of the sum of the row's widths. `text` prints a number.
pub mod Tiling
pub mod Colours
use bachelor_thesis.Prelude.{
  ℕ, ◌+◌, ◌-◌, ◌*◌, ◌/◌, ◌%◌, String, Bool, true, false, not, Option, none, some, List, [], ◌∷◌,
  map, str_eq, ltb, leb, ◌==◌, if◌then◌else◌, is_some, get_or, is_empty, or_text, get_elem?, filter,
  any, insert_by, sort_by,
}
use bachelor_thesis.Results.{round_div}

pub record ChunkScoreCell : Type 0 where
  pub chunk_id : String
  pub chunk_index : ℕ
  pub start_seconds : ℕ
  pub end_seconds : ℕ
  pub summary : String
  pub avg_score : ℕ
  pub response_count : ℕ
  pub student_count : ℕ
  pub is_gap : Bool

pub record ChunkStudentScore : Type 0 where
  pub user_id : String
  pub display_name : String
  pub email : String
  pub score_frac : ℕ
  pub answered : ℕ

pub record ChunkStudentBreakdown : Type 0 where
  pub chunk_id : String
  pub students : List ChunkStudentScore

-- The fields of a question's statistics that the heatmap reads.
pub record QuestionStat : Type 0 where
  pub interaction_id : String
  pub prompt : String
  pub response_count : ℕ
  pub accuracy : ℕ

-- Minutes and seconds.
abbrev pub MmSs : Type 0
MmSs = ℕ × ℕ

unfoldable pub format_mm_ss : ℕ → MmSs
format_mm_ss time = let total = round_div time 1000 in (total / 60, total % 60)

-- The name of a cell: a question by its number, or a segment by its number and its times.
pub data CellTitle : Type 0 where
  question : ℕ → CellTitle
  segment : ℕ → MmSs → MmSs → CellTitle

pub data CellLabel : Type 0 where
  question : ℕ → CellLabel
  time : MmSs → CellLabel

-- A row of the tooltip; an average is missing where nobody has answered.
pub data TipRow : Type 0 where
  accuracy responses students : ℕ → TipRow
  average : Option ℕ → TipRow

pub record HeatCell : Type 0 where
  pub key : String
  pub width : ℕ
  pub pct : ℕ
  pub has_data : Bool
  pub is_gap : Bool
  pub bottom : CellLabel
  pub title : CellTitle
  pub tip_rows : List TipRow
  pub note : Option String
  pub students : Option (List ChunkStudentScore)

pub data HeatBand : Type 0 where
  muted emerald amber red : HeatBand

unfoldable pub cell_bg : HeatCell → HeatBand
cell_bg c =
    if not c.has_data
    then muted
    else if leb 80 c.pct
    then emerald
    else if leb 50 c.pct
    then amber
    else red

unfoldable pub frac_text : ℕ → HeatBand
frac_text frac = if leb 800 frac then emerald else if leb 500 frac then amber else red

abbrev noted : String → Option String
noted note = if is_empty note then none else some note

abbrev pub question_cell : ℕ → QuestionStat → HeatCell
question_cell i q = record {
  key = q.interaction_id;
  width = 1;
  pct = round_div (q.accuracy * 100) 1000;
  has_data = true;
  is_gap = ltb q.accuracy 600;
  bottom = CellLabel.question (i + 1);
  title = CellTitle.question (i + 1);
  tip_rows = TipRow.accuracy (round_div (q.accuracy * 100) 1000) ∷ responses q.response_count ∷ [];
  note = noted q.prompt;
  students = none;
}

-- The cells of the questions, from the number `i` on; they are equally wide.
pub question_cells : ℕ → List QuestionStat → List HeatCell
question_cells i [] = []
question_cells i (q ∷ qs) = question_cell i q ∷ question_cells (i + 1) qs

-- The last breakdown of a chunk, as a `Map` keeps it.
students_of : String → List ChunkStudentBreakdown → Option (List ChunkStudentScore)
students_of id [] = none
students_of id (b ∷ bs) =
    let rest = students_of id bs in
    if is_some rest then rest else if str_eq b.chunk_id id then some b.students else none

-- The duration of a segment, at least a millisecond.
abbrev pub duration_of : ChunkScoreCell → ℕ
duration_of c =
    if ltb (c.end_seconds - c.start_seconds) 1 then 1 else c.end_seconds - c.start_seconds

abbrev pub score_pct : ChunkScoreCell → ℕ
score_pct c = if ltb 0 c.response_count then round_div (c.avg_score * 100) 1000 else 0

unfoldable pub segment_cell : (ℕ → String) → List ChunkStudentBreakdown → ChunkScoreCell → HeatCell
unfolding format_mm_ss students_of
segment_cell text breakdowns c = record {
  key = or_text c.chunk_id (text c.chunk_index);
  width = duration_of c;
  pct = score_pct c;
  has_data = ltb 0 c.response_count;
  is_gap = c.is_gap;
  bottom = time (format_mm_ss c.start_seconds);
  title = segment (c.chunk_index + 1) (format_mm_ss c.start_seconds) (format_mm_ss c.end_seconds);
  tip_rows =
      average (if ltb 0 c.response_count then some (score_pct c) else none)
      ∷ responses c.response_count
      ∷ TipRow.students c.student_count
      ∷ [];
  note = noted c.summary;
  students = some (get_or (students_of c.chunk_id breakdowns) []);
}

abbrev pub chunk_order : ChunkScoreCell → ChunkScoreCell → Bool
chunk_order a b = leb a.chunk_index b.chunk_index

unfoldable pub segment_cells :
    (ℕ → String) → List ChunkStudentBreakdown → List ChunkScoreCell → List HeatCell
unfolding sort_by insert_by segment_cell
segment_cells text breakdowns cells = map (segment_cell text breakdowns) (sort_by chunk_order cells)

-- What is shown: a row of cells, or one of three remarks.
pub data HeatmapView : Type 0 where
  not_loaded no_answers no_scores : HeatmapView
  row : List HeatCell → HeatmapView

abbrev pub is_answered : ChunkScoreCell → Bool
is_answered c = ltb 0 c.response_count

abbrev pub is_asked : QuestionStat → Bool
is_asked q = ltb 0 q.response_count

abbrev pub is_nil {ℓ} : {A : Type ℓ} → List A → Bool
is_nil [] = true
is_nil (x ∷ xs) = false

-- The row of the questions that were answered, or why there is none.
question_view : List ChunkScoreCell → List QuestionStat → HeatmapView
unfolding question_cells
question_view cells asked =
    if not (is_nil asked)
    then row (question_cells 0 asked)
    else if is_nil cells
    then no_answers
    else no_scores

-- `LessonHeatmap`: breakdowns and questions that are missing are empty lists.
unfoldable pub lesson_heatmap :
    (ℕ → String)
    → Bool
    → List ChunkScoreCell
    → List ChunkStudentBreakdown
    → List QuestionStat
    → HeatmapView
unfolding question_view segment_cells any filter
lesson_heatmap text failed cells breakdowns questions =
    if failed
    then not_loaded
    else if any is_answered cells
    then row (segment_cells text breakdowns cells)
    else question_view cells (filter is_asked questions)

-- The centres of the cells of a row, doubled, behind cells of the width `acc`.
unfoldable pub centers : ℕ → List HeatCell → List ℕ
centers acc [] = []
centers acc (c ∷ cs) = (2 * acc + c.width) ∷ centers (acc + c.width) cs

-- A click on the cell at `i` opens its students, and closes them where they are open.
unfoldable pub click_cell : ℕ → HeatCell → Option ℕ → Option ℕ
click_cell i c none = if is_some c.students then some i else none
click_cell i c (some j) = if is_some c.students then if j == i then none else some i else some j

abbrev weakest_first : ChunkStudentScore → ChunkStudentScore → Bool
weakest_first a b = leb a.score_frac b.score_frac

abbrev students_at : Option HeatCell → Option (List ChunkStudentScore)
students_at none = none
students_at (some c) = c.students

abbrev in_order : Option (List ChunkStudentScore) → Option (List ChunkStudentScore)
unfolding sort_by insert_by
in_order none = none
in_order (some scores) = some (sort_by weakest_first scores)

-- The students that are listed under the row.
unfoldable pub drill_down : Option ℕ → List HeatCell → Option (List ChunkStudentScore)
unfolding sort_by insert_by
drill_down none cells = none
drill_down (some i) cells = in_order (students_at (get_elem? cells i))
