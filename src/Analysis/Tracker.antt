-- ===== src/Analysis/Tracker.antt =====
-- The effect that follows the polled tasks (`useAnalysisTaskTracker`): one call of `handle_task` for each
-- task of a poll. What it asks the service for is a list of loads, in order.
pub mod Paid
pub mod Once
pub mod Stage
use bachelor_thesis.Prelude.{ℕ, List, [], ◌∷◌, ◌++◌, if◌then◌else◌, get, set}
use bachelor_thesis.Analysis.Types.{LessonTask, is_active}
use bachelor_thesis.Analysis.Active.{Load, TrackerState, track_active}
use bachelor_thesis.Analysis.Ended.{track_ended}

-- The body of the loop over the tasks.
unfoldable pub handle_task : ℕ → LessonTask → TrackerState → TrackerState × List Load
unfolding track_active track_ended get set
handle_task now task s =
    let previous = get s.status_by_id task.id in
    let noted = record s { status_by_id = set s.status_by_id task.id task.status } in
    if is_active task.status
    then track_active now task.kind task noted
    else track_ended now previous task noted

-- A poll, and a sequence of polls, each with the clock.
unfoldable pub handle_tasks : ℕ → List LessonTask → TrackerState → TrackerState × List Load
unfolding handle_task
handle_tasks now [] s = (s, [])
handle_tasks now (task ∷ tasks) s =
    let (t, loads) = handle_task now task s in
    let (u, rest) = handle_tasks now tasks t in (u, loads ++ rest)

unfoldable pub handle_polls : List (ℕ × List LessonTask) → TrackerState → TrackerState × List Load
unfolding handle_tasks
handle_polls [] s = (s, [])
handle_polls ((now, tasks) ∷ polls) s =
    let (t, loads) = handle_tasks now tasks s in
    let (u, rest) = handle_polls polls t in (u, loads ++ rest)
