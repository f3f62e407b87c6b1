-- ===== src/Examples/Courses.antt =====
-- The results of a course, at concrete inputs.
use bachelor_thesis.Results.Risk.{AtRiskRow, reasons}
use bachelor_thesis.Prelude.{
  ℕ, String, ◌≡◌, refl, true, false, some, List, [], ◌∷◌, map, length, filter,
}
use bachelor_thesis.Results.Groups.{IsGrouping, scatter_groups-IsGrouping}
use bachelor_thesis.Results.{
  ResultRow, attempted, class_score_pct, scatter_groups, hours, fmt_duration,
}

abbrev row : String → ℕ → ℕ → ResultRow
row id score engagement = record {
  user_id = id;
  display_name = id;
  email = "";
  lessons_completed = 1;
  lessons_total = 2;
  avg_score_pct = score;
  response_rate_pct = 100;
  watch_pct = 100;
  engagement_score = engagement;
  last_active = some 1;
  has_attempt = true;
  flagged = false;
  total_score = score;
  total_max_score = 100;
  total_responses = 4;
  total_interactions = 4;
  total_time_ms = 90000;
}

abbrev three_rows : List ResultRow
three_rows = row "a" 20 39600 ∷ row "b" 100 80000 ∷ row "c" 20 40400 ∷ []

scatter_groups-IsGrouping_example :
    IsGrouping (filter attempted three_rows) (scatter_groups three_rows)
scatter_groups-IsGrouping_example = scatter_groups-IsGrouping three_rows

-- Two students with the same rounded values share a group.
one_group : map (λ g. length g.members) (scatter_groups three_rows) ≡ 2 ∷ 1 ∷ []
unfolding scatter_groups
one_group = refl

abbrev weak : String → ℕ → AtRiskRow
weak id n = record { user_id = id; label = id; low_streak = (id, n) ∷ [] }

-- The average of the class, and why a student is at risk.
class_average : class_score_pct three_rows ≡ some 47
unfolding class_score_pct
class_average = refl

why_at_risk :
    reasons (λ n. "weak") (record { student = weak "a" 2; row = some (row "a" 20 39600) })
    ≡ "tương tác thấp" ∷ "điểm dưới 50%" ∷ []
unfolding reasons
why_at_risk = refl

long_lesson : fmt_duration 3725000 ≡ hours 1 2
unfolding fmt_duration
long_lesson = refl
