-- ===== src/Lesson/Submit/Attempt.antt =====
-- What an attempt sends: one answer for each interaction, with what the student chose.
use bachelor_thesis.Prelude.{String, ◌≡◌, refl, ap, List, [], ◌∷◌, map}
use bachelor_thesis.Interaction.Proto.{LessonInteraction}
use bachelor_thesis.Interaction.Types.{Response}
use bachelor_thesis.Interaction.Attempt.{build_attempt_response_input}
use bachelor_thesis.Lesson.State.{LessonState}
use bachelor_thesis.Lesson.Submit.{attempt_inputs}

-- A student's attempt answers every interaction of the lesson once, in the lesson's order, whatever was
-- answered before.
pub attempt_inputs-ids :
    (s : LessonState) (answers : List (String × Response)) (its : List LessonInteraction)
    → map (λ i. i.interaction_id) (attempt_inputs s answers its) ≡ map (λ it. it.id) its
unfolding attempt_inputs build_attempt_response_input
attempt_inputs-ids s answers [] = refl
attempt_inputs-ids s answers (it ∷ its) = ap (λ r. it.id ∷ r) (attempt_inputs-ids s answers its)
