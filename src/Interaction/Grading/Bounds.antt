-- ===== src/Interaction/Grading/Bounds.antt =====
-- No grader gives more than the highest score of its exercise.
use bachelor_thesis.Prelude.{
  ℕ, ◌+◌, ◌*◌, ◌≤◌, String, Option, none, some, List, [], ◌∷◌, arith, length, ℤ,
}
use bachelor_thesis.Interaction.Proto.{InteractionKind}
use bachelor_thesis.Interaction.Types.{
  McqConfig, Blank, FillBlankConfig, ListeningConfig, Config, Response, Grade,
}
use bachelor_thesis.Interaction.Grading.{
  point, grade_single, grade_multiple, listening_from, grade_listening, listening_case, single_case,
  multiple_case, fill_from, grade_fill_blank, fill_case, grade_local,
}

listening_from-le :
    (answers : List ℤ) (i : ℕ) (qs : List McqConfig)
    → listening_from answers i qs ≤ length qs * point
unfolding listening_from
listening_from-le answers i [] = omega arith
listening_from-le answers i (q ∷ qs) = ground (arith, listening_from-le answers (i + 1) qs)

fill_from-le :
    (lower : String → String) (answers : List String) (i : ℕ) (bs : List Blank)
    → fill_from lower answers i bs ≤ length bs
unfolding fill_from
fill_from-le lower answers i [] = omega arith
fill_from-le lower answers i (b ∷ bs) = ground (arith, fill_from-le lower answers (i + 1) bs)

-- A grade that was given lies within its highest score.
abbrev pub IsBounded : Option Grade → Type 0
IsBounded none = Unit
IsBounded (some g) = g.score ≤ g.max_score

listening-IsBounded :
    (cfg : ListeningConfig) (answers : List ℤ) → IsBounded (some (grade_listening cfg answers))
unfolding grade_listening
listening-IsBounded cfg answers =
    ground (arith, listening_from-le answers 0 cfg.comprehension_questions)

fill_blank-IsBounded :
    (lower : String → String) (cfg : FillBlankConfig) (answers : List String)
    → IsBounded (some (grade_fill_blank lower cfg answers))
unfolding grade_fill_blank
fill_blank-IsBounded lower cfg answers = omega (arith, fill_from-le lower answers 0 cfg.blanks)

single-IsBounded : (cfg : McqConfig) (r : Response) → IsBounded (some (single_case cfg r))
unfolding grade_single
single-IsBounded cfg (Response.mcq r) = ground arith
single-IsBounded cfg _ = omega arith

multiple-IsBounded : (cfg : McqConfig) (r : Response) → IsBounded (some (multiple_case cfg r))
unfolding grade_multiple
multiple-IsBounded cfg (Response.mcq r) = ground arith
multiple-IsBounded cfg _ = omega arith

fill_case-IsBounded :
    (lower : String → String) (cfg : FillBlankConfig) (r : Response)
    → IsBounded (fill_case lower cfg r)
fill_case-IsBounded lower cfg (Response.fill_blank a) = fill_blank-IsBounded lower cfg a
fill_case-IsBounded lower cfg _ = ground arith

listening_case-IsBounded : (cfg : ListeningConfig) (r : Response) → IsBounded (listening_case cfg r)
listening_case-IsBounded cfg (Response.listening a) = listening-IsBounded cfg a
listening_case-IsBounded cfg _ = ground arith

-- Whatever the kind, the exercise and the answer, a grade that is given does not pass the highest
-- score that it states.
pub grade_local-IsBounded :
    (lower : String → String) (kind : InteractionKind) (cfg : Config) (r : Response)
    → IsBounded (grade_local lower kind cfg r)
unfolding grade_local
grade_local-IsBounded lower InteractionKind.single_choice (Config.mcq cfg) r =
    single-IsBounded cfg r
grade_local-IsBounded lower InteractionKind.single_choice _ r = omega arith
grade_local-IsBounded lower InteractionKind.multiple_choice (Config.mcq cfg) r =
    multiple-IsBounded cfg r
grade_local-IsBounded lower InteractionKind.multiple_choice _ r = omega arith
grade_local-IsBounded lower InteractionKind.fill_blank (Config.fill_blank cfg) r =
    fill_case-IsBounded lower cfg r
grade_local-IsBounded lower InteractionKind.listening (Config.listening cfg) r =
    listening_case-IsBounded cfg r
grade_local-IsBounded lower _ _ r = tt
