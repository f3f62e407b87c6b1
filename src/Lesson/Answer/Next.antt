-- ===== src/Lesson/Answer/Next.antt =====
-- Going on after an answer: the question is passed, and the next of its checkpoint is shown.
use bachelor_thesis.Prelude.{String, ◌≡◌, ◌⊎◌, true, Option, none, some, find}
use bachelor_thesis.Interaction.Proto.{LessonInteraction}
use bachelor_thesis.Lesson.State.{LessonState}
use bachelor_thesis.Lesson.Answer.{has_id, is_next}

-- The question is pending, is not the current one, and starts no later than it.
abbrev pub IsNext : LessonState → String → LessonInteraction → Type 0
IsNext s id n =
    (current : LessonInteraction) × (find (has_id id) s.lesson_interactions ≡ some current)
    × (is_next current s.passed_ids n ≡ true)

-- What follows an answer: nothing more to answer here, or the next question of the checkpoint.
abbrev pub Shown : LessonState → String → Option String → Type 0
Shown s id active =
    (active ≡ none) ⊎ ((n : LessonInteraction) × (active ≡ some n.id) × IsNext s id n)
