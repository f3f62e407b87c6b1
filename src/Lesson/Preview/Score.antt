-- ===== src/Lesson/Preview/Score.antt =====
-- The score that a preview shows.
use bachelor_thesis.Lesson.Preview.{
  is_reading, no_grade, called, graded_by, local_grade, preview_grade, preview_responses,
  total_score, total_max_score, preview_result,
}
use bachelor_thesis.Interaction.Registry.{extract_config}
use bachelor_thesis.Prelude.{
  ◌≤◌, String, ◌&&◌, Option, none, some, List, [], ◌∷◌, arith, str_eq, is_some, get_or, if-elim,
  All, get,
}
use bachelor_thesis.Interaction.Proto.{InteractionKind, LessonInteraction}
use bachelor_thesis.Interaction.Types.{Config, Response, Grade}
use bachelor_thesis.Interaction.Grading.Bounds.{IsBounded, grade_local-IsBounded}
use bachelor_thesis.Interaction.Grading.{grade_local}
use bachelor_thesis.Lesson.State.{Flight}

abbrev IsFair : Grade → Type 0
IsFair g = g.score ≤ g.max_score

-- Each grade of the table is at most its maximum.
abbrev pub AreFair : List (String × Grade) → Type 0
AreFair = All (λ p. IsFair p.1)

get-IsBounded : (m : List (String × Grade)) (k : String) → AreFair m → IsBounded (get m k)
unfolding get
get-IsBounded [] k h = tt
get-IsBounded ((j, g) ∷ m) k (h, hs) = if-elim IsBounded (str_eq j k) h (get-IsBounded m k hs)

get_or-IsFair : (o : Option Grade) (d : Grade) → IsBounded o → IsFair d → IsFair (get_or o d)
get_or-IsFair none d h k = k
get_or-IsFair (some g) d h k = h

called-IsFair : (o : Option Grade) → IsBounded o → IsFair (called o)
called-IsFair none h = omega arith
called-IsFair (some g) h = h

graded_by-IsFair :
    (lower : String → String) (kind : InteractionKind) (cfg : Option Config) (r : Response)
    → IsFair (graded_by lower kind cfg r)
unfolding graded_by
graded_by-IsFair lower kind none r = omega arith
graded_by-IsFair lower kind (some cfg) r =
    get_or-IsFair (grade_local lower kind cfg r) (no_grade none)
      (grade_local-IsBounded lower kind cfg r) (omega arith)

local_grade-IsFair :
    (lower : String → String) (it : LessonInteraction) (r : Option Response)
    → IsFair (local_grade lower it r)
unfolding local_grade
local_grade-IsFair lower it none = omega arith
local_grade-IsFair lower it (some r) = graded_by-IsFair lower it.kind (extract_config it) r

preview_grade-IsFair :
    (lower : String → String) (calls : List (String × Grade)) (f : Flight) (it : LessonInteraction)
    → AreFair calls
    → AreFair f.draft_grades
    → IsFair (preview_grade lower calls f it)
unfolding preview_grade
preview_grade-IsFair lower calls f it h k =
    get_or-IsFair (get f.draft_grades it.id) _ (get-IsBounded f.draft_grades it.id k) (
      if-elim IsFair (is_reading it.kind && is_some (get f.responses it.id))
        (called-IsFair (get calls it.id) (get-IsBounded calls it.id h))
        (local_grade-IsFair lower it (get f.responses it.id)))

-- Where the grades that the service gave are at most their maxima, the total of a preview is at most
-- its maximum, whatever was answered.
pub preview_result-bounded :
    (lower : String → String) (calls : List (String × Grade)) (f : Flight)
    → AreFair calls
    → AreFair f.draft_grades
    → (preview_result lower calls f).total_score ≤ (preview_result lower calls f).max_score
unfolding preview_result
preview_result-bounded lower calls f h k = go f.interactions
  where
    go :
        (its : List LessonInteraction)
        → total_score (preview_responses lower calls f its)
          ≤ total_max_score (preview_responses lower calls f its)
    go [] = omega arith
    go (it ∷ its) = omega (arith, go its, preview_grade-IsFair lower calls f it h k)
