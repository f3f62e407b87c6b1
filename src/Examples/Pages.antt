-- ===== src/Examples/Pages.antt =====
-- The pages of a course and of a lesson, at concrete inputs.
use bachelor_thesis.Prelude.{
  ℕ, ◌≤◌, String, ◌≡◌, refl, true, false, ◌&&◌, not, Option, none, some, List, [], ◌∷◌, map,
  if◌then◌else◌, round_even, scale_from, times, math_round,
}
use bachelor_thesis.Session.Access.{OrganizationRole}
use bachelor_thesis.Course.{
  CourseRole, Visitor, can_manage_via_org, can_request_manager, can_manage_course,
  can_manage_lesson, render_as_manager, is_preview, effective_can_manage, TeacherTab, normalize_tab,
  CourseModule, Lesson, next_lesson_after,
}
use bachelor_thesis.Course.Overview.{
  modules_with_lessons, Attempt, no_totals, collect, total_lessons, total_video_minutes,
  my_progress_pct, my_avg_score_pct, next_lesson, module_stats, score_trend,
}
use bachelor_thesis.Course.Access.{
  is_org_teacher, manages_by_course, differ, can_manage_course-differ,
}
use bachelor_thesis.Course.Scores.{IsBalanced, collect-IsBalanced}
use bachelor_thesis.Course.Progress.{my_progress_pct_bounded}

abbrev owner_student : Visitor
owner_student = record {
  user_id = "u1";
  org_role = OrganizationRole.student;
  owner_id = "u1";
  membership = some (record { is_member = true; role = CourseRole.teacher });
}

can_manage_course-differ_example :
    differ (can_manage_course owner_student) (can_manage_lesson owner_student) ≡ (
      if is_org_teacher OrganizationRole.student
      then not (manages_by_course owner_student)
      else not (can_manage_via_org owner_student) && manages_by_course owner_student)
can_manage_course-differ_example = can_manage_course-differ owner_student

-- The owner of a course who is a student of the organization is not shown the manager's view of its lessons.
owner_is_learner :
    (can_manage_course owner_student ≡ true)
    × (can_manage_lesson owner_student ≡ false)
    × (can_request_manager owner_student ≡ false)
unfolding can_manage_course can_manage_lesson can_request_manager
owner_is_learner = (refl, refl, refl)

abbrev two_modules : List CourseModule
two_modules =
    record { id = "m1"; title = "One"; order_index = 1 }
    ∷ record { id = "m0"; title = "Zero"; order_index = 0 }
    ∷ []

abbrev lesson_of : String → String → ℕ → Lesson
lesson_of id m i = record {
  id = id;
  module_id = m;
  title = id;
  duration_seconds = 90;
  order_index = i;
}

abbrev three_lessons : List Lesson
three_lessons = lesson_of "a" "m1" 1 ∷ lesson_of "b" "m0" 0 ∷ lesson_of "c" "m1" 0 ∷ []

abbrev three_answers : List (Lesson × Option Attempt)
three_answers =
    (
      lesson_of "c" "m1" 0,
      some (record { total_score = 3000; max_score = 4000; submitted_at = some 9 }),
    )
    ∷ (lesson_of "b" "m0" 0, none)
    ∷ (
      lesson_of "a" "m1" 1,
      some (record { total_score = 1000; max_score = 4000; submitted_at = some 2 }),
    )
    ∷ []

collect-IsBalanced_example :
    IsBalanced "m1" three_answers no_totals (collect three_answers no_totals)
collect-IsBalanced_example = collect-IsBalanced "m1" three_answers no_totals

my_progress_pct_bounded_example :
    (total_lessons (modules_with_lessons two_modules three_lessons) ≡ 3)
    × (my_progress_pct
          (modules_with_lessons two_modules three_lessons)
          (collect three_answers no_totals)
        ≤ 100)
my_progress_pct_bounded_example =
    my_progress_pct_bounded two_modules three_lessons three_answers (refl, (refl, (refl, tt))) refl

-- Two of three lessons are attempted, with half of the points; the lesson of the other module comes next.
overview :
    (my_progress_pct
        (modules_with_lessons two_modules three_lessons)
        (collect three_answers no_totals)
      ≡ 67)
    × (my_avg_score_pct (collect three_answers no_totals) ≡ some 50)
    × (next_lesson
          (modules_with_lessons two_modules three_lessons)
          (collect three_answers no_totals)
        ≡ some (lesson_of "b" "m0" 0))
    × (total_video_minutes (modules_with_lessons two_modules three_lessons) ≡ 5)
    × (map (λ p. p.lesson_id) (score_trend (collect three_answers no_totals)) ≡ "a" ∷ "c" ∷ [])
    × (map
          (λ m. (module_stats (collect three_answers no_totals) m).completed)
          (modules_with_lessons two_modules three_lessons)
        ≡ 2 ∷ 0 ∷ [])
unfolding my_progress_pct my_avg_score_pct next_lesson total_video_minutes score_trend module_stats
    collect modules_with_lessons math_round times round_even scale_from
overview = (refl, refl, refl, refl, refl, refl)

-- The lessons follow each other by the order of the modules, and then by their own.
follows :
    (next_lesson_after "b" two_modules three_lessons ≡ some (lesson_of "c" "m1" 0))
    × (next_lesson_after "a" two_modules three_lessons ≡ none)
unfolding next_lesson_after
follows = (refl, refl)

-- A manager who learns is neither shown the manager's view nor a preview.
modes :
    (effective_can_manage true (some "learn") (some "1") ≡ false)
    × (is_preview true (some "learn") (some "1") ≡ false)
    × (is_preview true none (some "1") ≡ true)
    × (render_as_manager true none ≡ true)
    × (normalize_tab (some "exercises") ≡ TeacherTab.processing)
unfolding effective_can_manage is_preview render_as_manager normalize_tab
modes = (refl, refl, refl, refl, refl)
