-- ===== src/Interaction/Grading.antt =====
-- The graders of the renderers (typescript/heino/src/interactions/*/index.ts), which score a preview
-- in the browser. One point is 1000 thousandths. `none` stands for a kind with no local grader and
-- for a grader that throws; the caller treats both alike.
pub mod Bounds
pub mod Choice
pub mod Unanswered
use bachelor_thesis.Prelude.{
  trim, ℕ, ◌+◌, ◌*◌, String, Bool, true, false, ◌&&◌, ◌||◌, Option, none, some, List, [], ◌∷◌,
  str_eq, ◌==◌, if◌then◌else◌, get_or, length, get_elem?, any, ℤ, minus_one, eqb, is_nonneg,
}
use bachelor_thesis.Interaction.Proto.{InteractionKind}
use bachelor_thesis.Interaction.Types.{
  McqConfig, McqResponse, Blank, FillBlankConfig, ListeningConfig, Config, Response, Grade,
}

abbrev pub point : ℕ
point = 1000

abbrev pub marks : ℕ → ℕ → Grade
marks score max_score = record { score = score; max_score = max_score; feedback = none }

abbrev pub test_point : Bool → ℕ
test_point true = point
test_point false = 0

unfoldable pub grade_single : McqConfig → McqResponse → Grade
grade_single cfg resp =
    marks (test_point (is_nonneg cfg.correct_answer && eqb resp.selected cfg.correct_answer)) point

unfoldable pub includes_index : List ℤ → ℤ → Bool
includes_index [] a = false
includes_index (x ∷ xs) a = eqb x a || includes_index xs a

pub includes_all : List ℤ → List ℤ → Bool
includes_all selected [] = true
includes_all selected (a ∷ correct) = includes_index selected a && includes_all selected correct

unfoldable pub grade_multiple : McqConfig → McqResponse → Grade
grade_multiple cfg resp =
    let correct = get_or cfg.correct_answers [] in
    let selected = get_or resp.selected_indexes [] in
    if length correct == 0
    then marks 0 point
    else marks (test_point (length correct == length selected && includes_all selected correct))
        point

-- The answer at a question's index, -1 where it is missing, against the right one.
listening_from : List ℤ → ℕ → List McqConfig → ℕ
listening_from answers i [] = 0
listening_from answers i (q ∷ qs) =
    test_point (eqb (get_or (get_elem? answers i) minus_one) q.correct_answer)
    + listening_from answers (i + 1) qs

unfoldable pub grade_listening : ListeningConfig → List ℤ → Grade
unfolding listening_from
grade_listening cfg answers =
    let total = length cfg.comprehension_questions in
    marks (listening_from answers 0 cfg.comprehension_questions)
      ((if total == 0 then 1 else total) * point)

abbrev listening_case : ListeningConfig → Response → Option Grade
listening_case cfg (Response.listening answers) = some (grade_listening cfg answers)
listening_case cfg _ =
    if length cfg.comprehension_questions == 0 then some (marks 0 point) else none

abbrev single_case : McqConfig → Response → Grade
single_case cfg (Response.mcq r) = grade_single cfg r
single_case cfg _ = marks 0 point

abbrev multiple_case : McqConfig → Response → Grade
multiple_case cfg (Response.mcq r) = grade_multiple cfg r
multiple_case cfg _ = marks 0 point

-- `lower` is the language's `toLowerCase`.
module _ (lower : String → String) where
  unfoldable pub accepts : Blank → String → Bool
  accepts b got =
      any
        (λ want.
          if b.case_sensitive
          then str_eq got want
          else str_eq (lower (trim got)) (lower (trim want)))
        b.accepted

  fill_from : List String → ℕ → List Blank → ℕ
  fill_from answers i [] = 0
  fill_from answers i (b ∷ bs) =
      (if accepts b (get_or (get_elem? answers i) "") then 1 else 0) + fill_from answers (i + 1) bs

  unfoldable pub grade_fill_blank : FillBlankConfig → List String → Grade
  unfolding fill_from accepts
  grade_fill_blank cfg answers =
      marks (fill_from answers 0 cfg.blanks * point) (length cfg.blanks * point)

  abbrev fill_case : FillBlankConfig → Response → Option Grade
  fill_case cfg (Response.fill_blank answers) = some (grade_fill_blank cfg answers)
  fill_case cfg _ = if length cfg.blanks == 0 then some (marks 0 0) else none

  -- `getRenderer(kind).gradeLocal` on a configuration and an answer of any shape: a field that the
  -- value lacks is `undefined`, so a choice is wrong and a list of answers throws.
  pub grade_local : InteractionKind → Config → Response → Option Grade
  grade_local InteractionKind.single_choice (Config.mcq cfg) r = some (single_case cfg r)
  grade_local InteractionKind.single_choice _ r = some (marks 0 point)
  grade_local InteractionKind.multiple_choice (Config.mcq cfg) r = some (multiple_case cfg r)
  grade_local InteractionKind.multiple_choice _ r = some (marks 0 point)
  grade_local InteractionKind.fill_blank (Config.fill_blank cfg) r = fill_case cfg r
  grade_local InteractionKind.listening (Config.listening cfg) r = listening_case cfg r
  grade_local _ _ r = none
