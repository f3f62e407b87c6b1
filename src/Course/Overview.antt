-- ===== src/Course/Overview.antt =====
-- What a course's page computes from the lessons and from the student's attempts
-- (courses/[courseId]/page.tsx).
use bachelor_thesis.Prelude.{
  ℕ, ◌+◌, String, Bool, not, Option, none, some, List, [], ◌∷◌, ◌++◌, map, ltb, leb, if◌then◌else◌,
  get_or, length, find, filter, Ids, has, add, get, set, insert_by, sort_by, Double, divide,
  percent,
}
use bachelor_thesis.Results.{round_div}
use bachelor_thesis.Course.{CourseModule, Lesson}

-- `lessonsByModule`.
unfoldable pub group_lessons :
    List (String × List Lesson) → List Lesson → List (String × List Lesson)
unfolding get set
group_lessons groups [] = groups
group_lessons groups (l ∷ ls) =
    group_lessons (set groups l.module_id (get_or (get groups l.module_id) [] ++ l ∷ [])) ls

pub record ModuleWithLessons : Type 0 where
  pub id : String
  pub title : String
  pub lessons : List Lesson

abbrev pub with_lessons : List (String × List Lesson) → CourseModule → ModuleWithLessons
unfolding get
with_lessons groups m = record { id = m.id; title = m.title; lessons = get_or (get groups m.id) [] }

unfoldable pub modules_with_lessons : List CourseModule → List Lesson → List ModuleWithLessons
unfolding group_lessons with_lessons
modules_with_lessons modules lessons = map (with_lessons (group_lessons [] lessons)) modules

pub record Attempt : Type 0 where
  pub total_score : ℕ
  pub max_score : ℕ
  pub submitted_at : Option ℕ

-- A scored attempt of the trend, less the titles and the number that the page shows with it.
pub record TrendPoint : Type 0 where
  pub lesson_id : String
  pub frac : Double
  pub when : ℕ

pub record Totals : Type 0 where
  pub completed : Ids
  pub score_sum : ℕ
  pub max_sum : ℕ
  pub module_score : List (String × (ℕ × ℕ))
  pub trend : List TrendPoint

abbrev pub no_totals : Totals
no_totals = record { completed = []; score_sum = 0; max_sum = 0; module_score = []; trend = [] }

unfoldable pub add_score : Lesson → Attempt → Totals → Totals
unfolding get set divide
add_score l a t =
    let before = get_or (get t.module_score l.module_id) (0, 0) in
    record t {
      score_sum = t.score_sum + a.total_score;
      max_sum = t.max_sum + a.max_score;
      module_score =
          set t.module_score l.module_id (before.0 + a.total_score, before.1 + a.max_score);
      trend =
          t.trend
          ++ record {
            lesson_id = l.id;
            frac = divide a.total_score a.max_score;
            when = get_or a.submitted_at 0;
          }
            ∷ [];
    }

-- The answer to one lesson's call: no attempt, or a call that failed, is `none`.
unfoldable pub add_attempt : Lesson → Option Attempt → Totals → Totals
unfolding add_score add
add_attempt l none t = t
add_attempt l (some a) t =
    let done = record t { completed = add t.completed l.id } in
    if ltb 0 a.max_score then add_score l a done else done

-- The answers in the order that they come in.
unfoldable pub collect : List (Lesson × Option Attempt) → Totals → Totals
unfolding add_attempt
collect [] t = t
collect ((l, a) ∷ answers) t = collect answers (add_attempt l a t)

unfoldable pub total_lessons : List ModuleWithLessons → ℕ
total_lessons [] = 0
total_lessons (m ∷ ms) = length m.lessons + total_lessons ms

abbrev pub video_seconds : List Lesson → ℕ
video_seconds [] = 0
video_seconds (l ∷ ls) = l.duration_seconds + video_seconds ls

abbrev all_seconds : List ModuleWithLessons → ℕ
all_seconds [] = 0
all_seconds (m ∷ ms) = video_seconds m.lessons + all_seconds ms

unfoldable pub total_video_minutes : List ModuleWithLessons → ℕ
total_video_minutes ms = round_div (all_seconds ms) 60

-- The share of the lessons that the student has attempted, and of the points.
unfoldable pub my_progress_pct : List ModuleWithLessons → Totals → ℕ
unfolding total_lessons percent
my_progress_pct ms t =
    let total = total_lessons ms in if ltb 0 total then percent (length t.completed) total else 0

unfoldable pub my_avg_score_pct : Totals → Option ℕ
unfolding percent
my_avg_score_pct t = if ltb 0 t.max_sum then some (percent t.score_sum t.max_sum) else none

abbrev pub all_lessons : List ModuleWithLessons → List Lesson
all_lessons [] = []
all_lessons (m ∷ ms) = m.lessons ++ all_lessons ms

-- The first lesson without an attempt.
unfoldable pub next_lesson : List ModuleWithLessons → Totals → Option Lesson
unfolding find has
next_lesson ms t = find (λ l. not (has t.completed l.id)) (all_lessons ms)

pub record ModuleStats : Type 0 where
  pub id : String
  pub lesson_count : ℕ
  pub completed : ℕ
  pub with_video : ℕ
  pub duration_min : ℕ
  pub score : Option (ℕ × ℕ)

abbrev scored : Option (ℕ × ℕ) → Option (ℕ × ℕ)
scored none = none
scored (some ms) = if ltb 0 ms.1 then some ms else none

unfoldable pub module_stats : Totals → ModuleWithLessons → ModuleStats
unfolding filter has get
module_stats t m = record {
  id = m.id;
  lesson_count = length m.lessons;
  completed = length (filter (λ l. has t.completed l.id) m.lessons);
  with_video = length (filter (λ l. ltb 0 l.duration_seconds) m.lessons);
  duration_min = round_div (video_seconds m.lessons) 60;
  score = scored (get t.module_score m.id);
}

abbrev earlier : TrendPoint → TrendPoint → Bool
earlier a b = leb a.when b.when

unfoldable pub score_trend : Totals → List TrendPoint
unfolding sort_by insert_by
score_trend t = sort_by earlier t.trend
