-- ===== src/Results/Risk.antt =====
-- The ranking of the students at risk, and its reasons (courses/[courseId]/course-results-view.tsx).
use bachelor_thesis.Prelude.{
  ℕ, String, Bool, ◌&&◌, not, Option, none, some, List, [], ◌∷◌, ◌++◌, map, str_eq, ltb, leb, ◌==◌,
  if◌then◌else◌, is_some, length, insert_by, sort_by,
}
use bachelor_thesis.Results.{ResultRow}

-- A student at risk, with the titles and the engagement of the lessons of the streak.
pub record AtRiskRow : Type 0 where
  pub user_id : String
  pub label : String
  pub low_streak : List (String × ℕ)

-- A student at risk with the row of the page, where the page has one.
pub record Ranked : Type 0 where
  pub student : AtRiskRow
  pub row : Option ResultRow

-- The last row of a user, as a `Map` keeps it.
pub row_by_id : String → List ResultRow → Option ResultRow
row_by_id id [] = none
row_by_id id (r ∷ rs) =
    let rest = row_by_id id rs in
    if is_some rest then rest else if str_eq r.user_id id then some r else none

abbrev pub engagement_rank : Option ResultRow → ℕ
engagement_rank none = 0
engagement_rank (some r) = r.engagement_score

abbrev pub score_rank : Option ResultRow → ℕ
score_rank none = 0
score_rank (some r) = if r.has_attempt then r.avg_score_pct else 0

-- The comparison of the ranking: engagement, then score, then the longer streak first.
abbrev pub ranks_before : Ranked → Ranked → Bool
ranks_before a b =
    let ea = engagement_rank a.row in
    let eb = engagement_rank b.row in
    let sa = score_rank a.row in
    let sb = score_rank b.row in
    if not (ea == eb)
    then ltb ea eb
    else if not (sa == sb)
    then ltb sa sb
    else leb (length b.student.low_streak) (length a.student.low_streak)

abbrev pub joined : List ResultRow → AtRiskRow → Ranked
joined rows s = record { student = s; row = row_by_id s.user_id rows }

unfoldable pub ranked_at_risk : List ResultRow → List AtRiskRow → List Ranked
unfolding sort_by insert_by row_by_id
ranked_at_risk rows at_risk = sort_by ranks_before (map (joined rows) at_risk)

abbrev low_engagement : ResultRow → List String
low_engagement r = if ltb r.engagement_score 40000 then "tương tác thấp" ∷ [] else []

abbrev low_score : ResultRow → List String
low_score r = if r.has_attempt && ltb r.avg_score_pct 50 then "điểm dưới 50%" ∷ [] else []

abbrev no_attempt : ResultRow → List String
no_attempt r = if r.has_attempt then [] else "chưa làm bài" ∷ []

abbrev row_reasons : Option ResultRow → List String
row_reasons none = []
row_reasons (some r) = low_engagement r ++ low_score r ++ no_attempt r

-- Why a student is at risk; `weak` writes the length of the streak.
unfoldable pub reasons : (ℕ → String) → Ranked → List String
reasons weak s =
    let n = length s.student.low_streak in
    row_reasons s.row ++ (if leb 2 n then weak n ∷ [] else [])
