-- ===== src/Interaction/Form/Saving.antt =====
-- Opening an exercise in the form and saving it.
use bachelor_thesis.Prelude.{◌≡◌, refl, ap, ◌≢◌, true, some, List, [], ◌∷◌, map, arith, All}
use bachelor_thesis.Interaction.Types.{Config}
use bachelor_thesis.Interaction.Proto.{
  InteractionKind, ReadingMode, McqMessage, BlankMessage, ConfigMessage, LessonInteraction,
}
use bachelor_thesis.Interaction.Registry.{
  mcq_of_message, blank_of_message, config_of_message, extract_config,
}
use bachelor_thesis.Interaction.Form.{
  InteractionFormData, form_from_interaction, saveable_config, is_saveable, blank_message,
  question_message, choice_message, config_message, build_proto_config,
}

-- The configuration is one of the interaction's kind, a reading states its mode, and a listening
-- question marks one right option by its index alone.
abbrev pub IsOfKind : InteractionKind → ConfigMessage → Type 0
IsOfKind InteractionKind.fill_blank (ConfigMessage.fill_blank v) = Unit
IsOfKind InteractionKind.listening (ConfigMessage.listening v) =
    All (λ q. q.correct_answers ≡ []) v.comprehension_questions
IsOfKind InteractionKind.reading (ConfigMessage.reading v) = v.mode ≢ ReadingMode.unspecified
IsOfKind InteractionKind.writing (ConfigMessage.writing v) = Unit
IsOfKind InteractionKind.single_choice (ConfigMessage.mcq v) = Unit
IsOfKind InteractionKind.multiple_choice (ConfigMessage.mcq v) = Unit
IsOfKind _ _ = ⊥

blanks_back : (bs : List BlankMessage) → map blank_message (map blank_of_message bs) ≡ bs
blanks_back [] = refl
blanks_back (b ∷ bs) = ap (λ r. b ∷ r) (blanks_back bs)

question_back : (q : McqMessage) → q.correct_answers ≡ [] → question_message (mcq_of_message q) ≡ q
unfolding mcq_of_message
question_back q h = ground arith

questions_back :
    (qs : List McqMessage)
    → All (λ q. q.correct_answers ≡ []) qs
    → map question_message (map mcq_of_message qs) ≡ qs
questions_back [] h = refl
questions_back (q ∷ qs) h = cc (question_back q h.0, questions_back qs h.1)

choice_back : (q : McqMessage) → choice_message (mcq_of_message q) ≡ q
unfolding mcq_of_message
choice_back q = ground arith

config_back :
    (k : InteractionKind) (m : ConfigMessage)
    → IsOfKind k m
    → config_message k (config_of_message m) ≡ some m
unfolding config_message config_of_message
config_back InteractionKind.fill_blank (ConfigMessage.fill_blank v) h =
    ground (arith, blanks_back v.blanks)
config_back InteractionKind.listening (ConfigMessage.listening v) h =
    ground (arith, questions_back v.comprehension_questions h)
config_back InteractionKind.reading (ConfigMessage.reading v) h = ground arith
config_back InteractionKind.writing (ConfigMessage.writing v) h = refl
config_back InteractionKind.single_choice (ConfigMessage.mcq v) h =
    ap (λ q. some (ConfigMessage.mcq q)) (choice_back v)
config_back InteractionKind.multiple_choice (ConfigMessage.mcq v) h =
    ap (λ q. some (ConfigMessage.mcq q)) (choice_back v)
config_back _ _ h = absurd h

-- Opening an interaction in the form and saving it unchanged sends back the configuration that it has, where
-- this is a configuration of the interaction's kind, says how a passage is read, and gives no list of
-- correct answers for a question of a listening exercise.
pub build_proto_config-form_from_interaction :
    (it : LessonInteraction) (m : ConfigMessage)
    → it.config ≡ some m
    → IsOfKind it.kind m
    → build_proto_config (form_from_interaction it) ≡ some m
unfolding build_proto_config form_from_interaction extract_config
build_proto_config-form_from_interaction it m e h = rw e (config_back it.kind m h)

saveable_config-message :
    (k : InteractionKind) (c : Config)
    → saveable_config k c ≡ some true
    → (m : ConfigMessage) × (config_message k c ≡ some m)
unfolding saveable_config config_message
saveable_config-message InteractionKind.fill_blank (Config.fill_blank c) h = (_, refl)
saveable_config-message InteractionKind.listening (Config.listening c) h = (_, refl)
saveable_config-message InteractionKind.reading (Config.reading c) h = (_, refl)
saveable_config-message InteractionKind.writing (Config.writing c) h = (_, refl)
saveable_config-message InteractionKind.single_choice (Config.mcq c) h = (_, refl)
saveable_config-message InteractionKind.multiple_choice (Config.mcq c) h = (_, refl)
saveable_config-message _ _ h = cc

-- A form that may be saved has a configuration of its kind, so that saving it sends a message.
pub is_saveable-build_proto_config :
    (form : InteractionFormData)
    → is_saveable form ≡ some true
    → (m : ConfigMessage) × (build_proto_config form ≡ some m)
unfolding is_saveable build_proto_config
is_saveable-build_proto_config form h = saveable_config-message form.kind form.config (ground arith)
