-- ===== src/Interaction/Grading/Unanswered.antt =====
-- What an exercise scores that was left unanswered.
use bachelor_thesis.Prelude.{
  ℕ, ◌+◌, ◌*◌, ◌<◌, String, ◌≡◌, refl, inl, inr, true, false, Option, none, some, List, [], ◌∷◌,
  map, arith, Option-cases, length, All, minus_one, is_nonneg, eqb_iff,
}
use bachelor_thesis.Interaction.Proto.{InteractionKind, ConfigMessage, LessonInteraction}
use bachelor_thesis.Interaction.Types.{McqConfig, Blank, ListeningConfig, Config, Response, Grade}
use bachelor_thesis.Interaction.Registry.{
  mcq_of_message, blank_of_message, config_of_message, extract_config, extract_local_response,
}
use bachelor_thesis.Interaction.Attempt.{response_by_kind, build_attempt_response_input}
use bachelor_thesis.Interaction.Grading.{
  point, grade_single, grade_multiple, listening_from, grade_listening, accepts, fill_from,
  grade_fill_blank, grade_local,
}

-- The exercise counts no missing answer as right: no blank accepts an empty text, and every listening
-- question states the index of its right option (the service sends -1 where it hides it).
abbrev pub IsFair : (String → String) → Config → Type 0
IsFair lower (Config.fill_blank cfg) = All (λ b. accepts lower b "" ≡ false) cfg.blanks
IsFair lower (Config.listening cfg) =
    All (λ q. is_nonneg q.correct_answer ≡ true) cfg.comprehension_questions
IsFair lower _ = Unit

abbrev pub IsZero : Option Grade → Type 0
IsZero none = Unit
IsZero (some g) = g.score ≡ 0

-- The answer that reaches the grader for a question with no local answer.
abbrev pub unanswered : LessonInteraction → Option Response
unanswered it = extract_local_response (some (build_attempt_response_input it none none).response)

abbrev pub grade_of :
    (String → String) → InteractionKind → Option Config → Option Response → Option Grade
grade_of lower kind none r = none
grade_of lower kind (some cfg) none = none
grade_of lower kind (some cfg) (some r) = grade_local lower kind cfg r

fill_from_nil :
    (lower : String → String) (i : ℕ) (bs : List Blank)
    → All (λ b. accepts lower b "" ≡ false) bs
    → fill_from lower [] i bs ≡ 0
unfolding fill_from
fill_from_nil lower i [] h = refl
fill_from_nil lower i (b ∷ bs) h = ground (arith, fill_from_nil lower (i + 1) bs)

listening_from_nil :
    (i : ℕ) (qs : List McqConfig)
    → All (λ q. is_nonneg q.correct_answer ≡ true) qs
    → listening_from [] i qs ≡ 0
unfolding listening_from
listening_from_nil i [] h = refl
listening_from_nil i (q ∷ qs) h = ground (arith, listening_from_nil (i + 1) qs)

abbrev IsFair? : (String → String) → Option Config → Type 0
IsFair? lower none = Unit
IsFair? lower (some cfg) = IsFair lower cfg

unanswered_message-IsZero :
    (lower : String → String) (kind : InteractionKind) (m : ConfigMessage)
    → IsFair lower (config_of_message m)
    → IsZero (
        grade_of lower kind
          (some (config_of_message m))
          (extract_local_response (some (response_by_kind kind (some m) none))))
unfolding config_of_message response_by_kind extract_local_response grade_local grade_single
    grade_multiple grade_fill_blank grade_listening
unanswered_message-IsZero lower InteractionKind.single_choice (ConfigMessage.mcq v) fair =
    ground arith
unanswered_message-IsZero lower InteractionKind.multiple_choice (ConfigMessage.mcq v) fair =
    ground arith
unanswered_message-IsZero lower InteractionKind.fill_blank (ConfigMessage.fill_blank v) fair =
    ground (arith, fill_from_nil lower 0 (map blank_of_message v.blanks) fair)
unanswered_message-IsZero lower InteractionKind.listening (ConfigMessage.listening v) fair =
    listening_from_nil 0 (map mcq_of_message v.comprehension_questions) fair
unanswered_message-IsZero lower _ _ fair = ground arith

module _ (lower : String → String) (it : LessonInteraction) where
  -- A question left unanswered scores nothing in a preview, whatever its kind and its configuration,
  -- where the exercise is fair.
  pub unanswered-IsZero :
      IsFair? lower (extract_config it)
      → IsZero (grade_of lower it.kind (extract_config it) (unanswered it))
  unfolding extract_config build_attempt_response_input
  unanswered-IsZero fair = elim (Option-cases it.config) [
    | inl e ↦ rw e tt
    | inr (m, e) ↦ rw e (unanswered_message-IsZero lower it.kind m (rw e at fair))
  ]

listening_from_hidden :
    (i : ℕ) (qs : List McqConfig)
    → All (λ q. q.correct_answer ≡ minus_one) qs
    → listening_from [] i qs ≡ length qs * point
unfolding listening_from
listening_from_hidden i [] h = refl
listening_from_hidden i (q ∷ qs) h =
    ground (arith, eqb_iff minus_one q.correct_answer, listening_from_hidden (i + 1) qs)

-- Where a listening exercise has a question and the service hides its right options, that is, sends -1
-- for each of its questions, an answer that chooses nothing gets the full score.
pub listening_hidden_full :
    (cfg : ListeningConfig)
    → All (λ q. q.correct_answer ≡ minus_one) cfg.comprehension_questions
    → 0 < length cfg.comprehension_questions
    → (grade_listening cfg []).score ≡ (grade_listening cfg []).max_score
unfolding grade_listening
listening_hidden_full cfg h n = ground (arith, listening_from_hidden 0 cfg.comprehension_questions)
