-- ===== src/Analysis/Starting/Busy.antt =====
-- What keeps a chunk's generation from being started.
use bachelor_thesis.Prelude.{
  String, ◌≡◌, refl, Bool, ◌||◌, Option, List, [], ◌∷◌, arith, filter, any,
}
use bachelor_thesis.Analysis.Types.{LessonTask}
use bachelor_thesis.Analysis.Active.{TrackerState}
use bachelor_thesis.Analysis.Starting.{
  some_task, is_busy, is_chunk_generation, active_blocking_tasks, chunk_generate_busy,
}

some_task-blocking :
    (active_tasks : List LessonTask)
    → some_task active_tasks
      ≡ (some_task (active_blocking_tasks active_tasks) || any is_chunk_generation active_tasks)
unfolding active_blocking_tasks filter any
some_task-blocking [] = refl
some_task-blocking (t ∷ ts) = ground (arith, some_task-blocking ts)

-- The workflow is busy exactly where a generation for a chunk has to wait, or a chunk's exercises are being
-- generated, which does not keep those of other chunks from being generated.
pub is_busy-chunk_generate_busy :
    (reloading : Bool) (mutating : Option String) (active_tasks : List LessonTask)
    (t : TrackerState)
    → is_busy reloading mutating active_tasks t ≡ (
        chunk_generate_busy reloading mutating active_tasks t
        || any is_chunk_generation active_tasks)
unfolding is_busy chunk_generate_busy
is_busy-chunk_generate_busy reloading mutating active_tasks t =
    ground (arith, some_task-blocking active_tasks)
