-- ===== src/Analysis/Panel/Shown.antt =====
-- Which tasks the panel shows.
use bachelor_thesis.Prelude.{
  ℕ, String, ◌≡◌, refl, Bool, ◌&&◌, not, List, [], ◌∷◌, arith, str_eq, filter, Ids, has-add,
}
use bachelor_thesis.Analysis.Types.{LessonTask}
use bachelor_thesis.Analysis.Panel.{
  PanelStep, should_keep_task, is_elsewhere, display_tasks, dismiss,
}

filter-narrowed {ℓ} :
    {A : Type ℓ} (e k n narrow : A → Bool)
    → ((x : A) → narrow x ≡ (k x && n x))
    → (xs : List A) → filter e (filter narrow xs) ≡ filter n (filter e (filter k xs))
unfolding filter
filter-narrowed e k n narrow h [] = refl
filter-narrowed e k n narrow h (x ∷ xs) = ground (arith, h x, filter-narrowed e k n narrow h xs)

should_keep_task-dismiss :
    (dismissed : Ids) (id : String) (now : ℕ) (task : LessonTask)
    → should_keep_task (dismiss dismissed id) now task
      ≡ (should_keep_task dismissed now task && not (str_eq id task.id))
unfolding should_keep_task dismiss
should_keep_task-dismiss dismissed id now task = ground (arith, has-add dismissed id task.id)

-- Dismissing a task takes that task off the panel and leaves the others, in their order.
pub display_tasks-dismiss :
    (dismissed : Ids) (id : String) (now : ℕ) (step : PanelStep) (hide : Bool)
    (tasks : List LessonTask)
    → display_tasks (dismiss dismissed id) now step hide tasks
      ≡ filter (λ t. not (str_eq id t.id)) (display_tasks dismissed now step hide tasks)
unfolding display_tasks
display_tasks-dismiss dismissed id now step hide tasks =
    filter-narrowed (is_elsewhere step hide) (should_keep_task dismissed now)
      (λ t. not (str_eq id t.id)) (should_keep_task (dismiss dismissed id) now)
      (should_keep_task-dismiss dismissed id now) tasks
