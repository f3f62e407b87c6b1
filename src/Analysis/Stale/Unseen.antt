-- ===== src/Analysis/Stale/Unseen.antt =====
-- With messages that are plain objects, no task is ever found to be stale.
use bachelor_thesis.Prelude.{
  ℕ, ◌+◌, ◌≡◌, refl, ap, ◌∙◌, Bool, false, ◌&&◌, Option, none, some, List, [], ◌∷◌, arith, ltb,
  if-false,
}
use bachelor_thesis.Analysis.Types.{TaskStatus, Timestamp, LessonTask}
use bachelor_thesis.Analysis.Active.{TrackerState}
use bachelor_thesis.Analysis.Stale.{
  AnalysisConfig, get_ms, or_else, last_seen, is_stale, detect_stale,
}

module _ (to_date : Timestamp → Option ℕ) (plain : (t : Timestamp) → to_date t ≡ none) where
  get_ms-now : (now : ℕ) (o : Option Timestamp) → get_ms to_date now o ≡ now
  unfolding get_ms
  get_ms-now now none = refl
  get_ms-now now (some t) = rw (plain t) refl

  or_else-same : (n : ℕ) → or_else to_date n (or_else to_date n n) ≡ n
  or_else-same n = ground arith

  last_seen-now : (now : ℕ) (task : LessonTask) → last_seen to_date now task ≡ now
  unfolding last_seen
  last_seen-now now task =
      rw
        (
          get_ms-now now task.last_heartbeat,
          get_ms-now now task.updated_at,
          get_ms-now now task.created_at,
        )
        (or_else-same now)

  never_older : (b : Bool) (now limit seen : ℕ) → seen ≡ now → (b && ltb (seen + limit) now) ≡ false
  never_older b now limit seen h = ground arith

  is_stale-false :
      (config : AnalysisConfig) (now : ℕ) (task : LessonTask) (st : TaskStatus)
      → is_stale to_date config now task st ≡ false
  unfolding is_stale
  is_stale-false config now task TaskStatus.running = never_older _ now _ _ (last_seen-now now task)
  is_stale-false config now task TaskStatus.queued =
      never_older _ now _ _ (get_ms-now now task.created_at)
  is_stale-false config now task TaskStatus.unspecified = refl
  is_stale-false config now task TaskStatus.succeeded = refl
  is_stale-false config now task TaskStatus.failed = refl
  is_stale-false config now task TaskStatus.canceled = refl

  -- Where no timestamp has a method `toDate`, the check never finds a task stale, however long ago it
  -- last reported, and leaves every run as it is.
  pub detect_stale-unchanged :
      (config : AnalysisConfig) (now : ℕ) (tasks : List LessonTask) (s : TrackerState)
      → detect_stale to_date config now tasks s ≡ s
  unfolding detect_stale
  detect_stale-unchanged config now [] s = refl
  detect_stale-unchanged config now (task ∷ tasks) s =
      ap (detect_stale to_date config now tasks)
        (if-false _ _ _ (is_stale-false config now task task.status))
      ∙ detect_stale-unchanged config now tasks s
