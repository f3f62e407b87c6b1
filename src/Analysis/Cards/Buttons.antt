-- ===== src/Analysis/Cards/Buttons.antt =====
-- Which buttons the cards offer together.
use bachelor_thesis.Prelude.{◌≤◌, ◌≡◌, refl, Bool, true, false, ◌&&◌, arith, ◌==◌, length, filter}
use bachelor_thesis.Analysis.Types.{StreamRunState}
use bachelor_thesis.Analysis.Cards.{
  hero_state, CardButton, start, confirm_start, keep_content, cancel, retry, hero_buttons,
  extract_buttons, chunk_buttons,
}

-- A button that starts the task at once.
abbrev pub starts : CardButton → Bool
starts start = true
starts confirm_start = true
starts retry = true
starts keep_content = false
starts cancel = false

abbrev has_failed : StreamRunState → Bool
has_failed (StreamRunState.error at message) = true
has_failed _ = false

-- The card of the extraction has one button at most that starts it, while it asks nothing.
pub extract_buttons_once :
    (has_task : Bool) (run : StreamRunState)
    → length (filter starts (extract_buttons false has_task run)) ≤ 1
unfolding extract_buttons hero_buttons hero_state filter
extract_buttons_once has_task StreamRunState.idle = omega arith
extract_buttons_once has_task StreamRunState.starting = omega arith
extract_buttons_once true StreamRunState.syncing = omega arith
extract_buttons_once false StreamRunState.syncing = omega arith
extract_buttons_once true (StreamRunState.running at coarse) = omega arith
extract_buttons_once false (StreamRunState.running at coarse) = omega arith
extract_buttons_once true (StreamRunState.stale at) = omega arith
extract_buttons_once false (StreamRunState.stale at) = omega arith
extract_buttons_once has_task StreamRunState.done = omega arith
extract_buttons_once has_task (StreamRunState.error at message) = omega arith

-- The card of the chunks has two such buttons exactly where the task has failed and there are chunks.
pub chunk_buttons_twice :
    (has_chunks has_task : Bool) (run : StreamRunState)
    → (length (filter starts (chunk_buttons has_chunks has_task run)) == 2)
      ≡ (has_failed run && has_chunks)
unfolding chunk_buttons hero_buttons hero_state filter
chunk_buttons_twice true has_task StreamRunState.idle = refl
chunk_buttons_twice false has_task StreamRunState.idle = refl
chunk_buttons_twice has_chunks has_task StreamRunState.starting = refl
chunk_buttons_twice has_chunks true StreamRunState.syncing = refl
chunk_buttons_twice has_chunks false StreamRunState.syncing = refl
chunk_buttons_twice has_chunks true (StreamRunState.running at coarse) = refl
chunk_buttons_twice has_chunks false (StreamRunState.running at coarse) = refl
chunk_buttons_twice has_chunks true (StreamRunState.stale at) = refl
chunk_buttons_twice has_chunks false (StreamRunState.stale at) = refl
chunk_buttons_twice true has_task StreamRunState.done = refl
chunk_buttons_twice false has_task StreamRunState.done = refl
chunk_buttons_twice true has_task (StreamRunState.error at message) = refl
chunk_buttons_twice false has_task (StreamRunState.error at message) = refl
