-- ===== src/Results.antt =====
-- The results of a course: the rows, the summary, the bands of scores, and the groups of the scatter
-- chart (courses/[courseId]/course-results.tsx, course-results-view.tsx and
-- course-results-charts.tsx). Engagement and points are in thousandths, shares in thousandths of one.
pub mod Bands
pub mod Groups
pub mod Risk
pub mod Ranking
use bachelor_thesis.Prelude.{
  ℕ, ◌+◌, ◌-◌, ◌*◌, ◌/◌, ◌%◌, String, Bool, ◌&&◌, ◌||◌, Option, none, some, List, [], ◌∷◌, ◌++◌,
  ltb, leb, ◌==◌, if◌then◌else◌, is_some, length, filter, Ids, has,
}

-- The message of a student's results.
pub record StudentSummary : Type 0 where
  pub user_id : String
  pub display_name : String
  pub email : String
  pub lessons_completed : ℕ
  pub lessons_total : ℕ
  pub avg_score : ℕ
  pub response_rate : ℕ
  pub avg_video_watch_fraction : ℕ
  pub engagement_score : ℕ
  pub last_active : Option ℕ
  pub total_score : ℕ
  pub total_max_score : ℕ
  pub total_responses : ℕ
  pub total_interactions : ℕ
  pub total_time_ms : ℕ

-- A row of the table. The date of the last activity is kept as it came, and printed elsewhere.
pub record ResultRow : Type 0 where
  pub user_id : String
  pub display_name : String
  pub email : String
  pub lessons_completed : ℕ
  pub lessons_total : ℕ
  pub avg_score_pct : ℕ
  pub response_rate_pct : ℕ
  pub watch_pct : ℕ
  pub engagement_score : ℕ
  pub last_active : Option ℕ
  pub has_attempt : Bool
  pub flagged : Bool
  pub total_score : ℕ
  pub total_max_score : ℕ
  pub total_responses : ℕ
  pub total_interactions : ℕ
  pub total_time_ms : ℕ

-- `Math.round(x / n)`.
abbrev pub round_div : ℕ → ℕ → ℕ
round_div x n = (2 * x + n) / (2 * n)

abbrev pub page_limit : ℕ
page_limit = 20

-- Where the page starts, and whether another follows.
unfoldable pub page_offset : ℕ → ℕ
page_offset page = ((if ltb page 1 then 1 else page) - 1) * page_limit

unfoldable pub has_next : List StudentSummary → Bool
has_next students = length students == page_limit

unfoldable pub row_of : Ids → StudentSummary → ResultRow
unfolding has
row_of at_risk s = record {
  user_id = s.user_id;
  display_name = s.display_name;
  email = s.email;
  lessons_completed = s.lessons_completed;
  lessons_total = s.lessons_total;
  avg_score_pct = round_div (s.avg_score * 100) 1000;
  response_rate_pct = round_div (s.response_rate * 100) 1000;
  watch_pct = round_div (s.avg_video_watch_fraction * 100) 1000;
  engagement_score = s.engagement_score;
  last_active = s.last_active;
  has_attempt = is_some s.last_active;
  flagged = has at_risk s.user_id;
  total_score = s.total_score;
  total_max_score = s.total_max_score;
  total_responses = s.total_responses;
  total_interactions = s.total_interactions;
  total_time_ms = s.total_time_ms;
}

abbrev pub attempted : ResultRow → Bool
attempted r = r.has_attempt

abbrev sum_of : (ResultRow → ℕ) → List ResultRow → ℕ
sum_of f [] = 0
sum_of f (r ∷ rs) = f r + sum_of f rs

-- The average score of the students who have answered, where there are any.
unfoldable pub class_score_pct : List ResultRow → Option ℕ
unfolding filter
class_score_pct rows =
    let scored = filter attempted rows in
    if ltb 0 (length scored)
    then some (round_div (sum_of (λ r. r.avg_score_pct) scored) (length scored))
    else none

-- A band of scores, from `lo` to below `hi`, with its students.
pub record Band : Type 0 where
  pub lo : ℕ
  pub hi : ℕ
  pub members : List ResultRow

abbrev pub in_band : ℕ → ℕ → ResultRow → Bool
in_band lo hi r = leb lo r.avg_score_pct && ltb r.avg_score_pct hi

abbrev pub band : List ResultRow → ℕ → ℕ → Band
band scored lo hi = record { lo = lo; hi = hi; members = filter (in_band lo hi) scored }

unfoldable pub hist_bins : List ResultRow → List Band
unfolding filter
hist_bins rows =
    let scored = filter attempted rows in
    band scored 0 20
    ∷ band scored 20 40
    ∷ band scored 40 60
    ∷ band scored 60 80
    ∷ band scored 80 101
    ∷ []

-- A group of the scatter chart: students with the same rounded engagement and score.
pub record Group : Type 0 where
  pub engagement : ℕ
  pub score : ℕ
  pub members : List ResultRow
  pub flagged : Bool

abbrev clamp_pct : ℕ → ℕ
clamp_pct n = if ltb 100 n then 100 else n

abbrev pub engagement_of : ResultRow → ℕ
engagement_of r = clamp_pct (round_div r.engagement_score 1000)

abbrev pub score_of : ResultRow → ℕ
score_of r = clamp_pct r.avg_score_pct

abbrev pub same_group : ResultRow → Group → Bool
same_group r g = engagement_of r == g.engagement && score_of r == g.score

abbrev new_group : ResultRow → Group
new_group r = record {
  engagement = engagement_of r;
  score = score_of r;
  members = r ∷ [];
  flagged = r.flagged;
}

abbrev with_member : ResultRow → Group → Group
with_member r g = record g { members = g.members ++ r ∷ []; flagged = g.flagged || r.flagged }

unfoldable pub add_to_group : ResultRow → List Group → List Group
add_to_group r [] = new_group r ∷ []
add_to_group r (g ∷ gs) =
    let rest = add_to_group r gs in if same_group r g then with_member r g ∷ gs else g ∷ rest

add_points : List Group → List ResultRow → List Group
unfolding add_to_group
add_points gs [] = gs
add_points gs (r ∷ rs) = add_points (add_to_group r gs) rs

unfoldable pub scatter_groups : List ResultRow → List Group
unfolding add_points filter
scatter_groups rows = add_points [] (filter attempted rows)

-- `fmtDuration`: hours and minutes, minutes, seconds, or a dash.
pub data Duration : Type 0 where
  hours : ℕ → ℕ → Duration
  minutes seconds : ℕ → Duration
  dash : Duration

unfoldable pub fmt_duration : ℕ → Duration
fmt_duration ms =
    let total = round_div ms 1000 in
    let h = total / 3600 in
    let m = (total % 3600) / 60 in
    if total == 0
    then dash
    else if ltb 0 h
    then hours h m
    else if ltb 0 m
    then minutes m
    else seconds total
