-- ===== src/Analysis/Cards.antt =====
-- The cards of the extraction and of the division into chunks: the state that their hero shows, their
-- buttons and the elapsed time (lessons/[lessonId]/analysis-progress-card.tsx, and the hero of
-- analysis-workflow-ui.tsx). A retry is always given, as the workflow shell does.
pub mod Buttons
use bachelor_thesis.Prelude.{
  Bool, true, false, ◌&&◌, ◌||◌, not, Option, none, some, List, [], ◌∷◌, ◌++◌, if◌then◌else◌,
}
use bachelor_thesis.Analysis.Types.{StreamRunState}

pub data HeroState : Type 0 where
  starting syncing running stale error done : HeroState

unfoldable pub hero_state : StreamRunState → Option HeroState
hero_state StreamRunState.idle = none
hero_state StreamRunState.starting = some starting
hero_state StreamRunState.syncing = some syncing
hero_state (StreamRunState.running at coarse) = some running
hero_state (StreamRunState.stale at) = some stale
hero_state StreamRunState.done = some done
hero_state (StreamRunState.error at message) = some error

-- A button of a card.
pub data CardButton : Type 0 where
  start confirm_start keep_content cancel retry : CardButton

abbrev cancel_button : Bool → List CardButton
cancel_button has_task = if has_task then cancel ∷ [] else []

-- The buttons of the hero; a cancel is given where the card has an active task.
unfoldable pub hero_buttons : Bool → Option HeroState → List CardButton
hero_buttons has_task (some running) = cancel_button has_task
hero_buttons has_task (some syncing) = cancel_button has_task
hero_buttons has_task (some stale) = retry ∷ cancel_button has_task
hero_buttons has_task (some error) = retry ∷ []
hero_buttons has_task _ = []

abbrev extract_cta : StreamRunState → Bool
extract_cta StreamRunState.idle = true
extract_cta StreamRunState.done = true
extract_cta _ = false

-- The buttons of the card of the extraction; `confirming` is whether it asks to confirm.
unfoldable pub extract_buttons : Bool → Bool → StreamRunState → List CardButton
unfolding hero_buttons hero_state
extract_buttons confirming has_task run =
    (if extract_cta run && not confirming then start ∷ [] else [])
    ++ (if confirming then confirm_start ∷ keep_content ∷ [] else [])
    ++ hero_buttons has_task (hero_state run)

abbrev chunk_cta : StreamRunState → Bool
chunk_cta StreamRunState.idle = true
chunk_cta StreamRunState.done = true
chunk_cta (StreamRunState.error at message) = true
chunk_cta _ = false

-- The buttons of the card of the chunks.
unfoldable pub chunk_buttons : Bool → Bool → StreamRunState → List CardButton
unfolding hero_buttons hero_state
chunk_buttons has_chunks has_task run =
    (if chunk_cta run && has_chunks then start ∷ [] else [])
    ++ hero_buttons has_task (hero_state run)

pub data PipelineStepStatus : Type 0 where
  locked available active done error : PipelineStepStatus

abbrev card_status : Bool → Option HeroState → PipelineStepStatus
card_status has_content none =
    if has_content then PipelineStepStatus.done else PipelineStepStatus.available
card_status has_content (some error) = PipelineStepStatus.error
card_status has_content (some done) =
    if has_content then PipelineStepStatus.done else PipelineStepStatus.available
card_status has_content (some _) = active

abbrev is_done : StreamRunState → Bool
is_done StreamRunState.done = true
is_done _ = false

unfoldable pub extract_status : Bool → StreamRunState → PipelineStepStatus
unfolding hero_state
extract_status has_transcript run = card_status (is_done run || has_transcript) (hero_state run)

unfoldable pub chunk_card_status : Bool → StreamRunState → PipelineStepStatus
unfolding hero_state
chunk_card_status has_chunks run = card_status has_chunks (hero_state run)

-- Whether the hero shows the elapsed time.
abbrev pub shows_elapsed : Option HeroState → Bool
shows_elapsed (some running) = true
shows_elapsed (some stale) = true
shows_elapsed (some syncing) = true
shows_elapsed _ = false

-- Whether the hero shows the strip of steps.
unfoldable pub shows_strip : StreamRunState → Bool
shows_strip (StreamRunState.running at coarse) = not coarse
shows_strip (StreamRunState.stale at) = true
shows_strip (StreamRunState.error at message) = true
shows_strip _ = false
