-- ===== src/Results/Ranking.antt =====
-- The ranking of the students at risk.
use bachelor_thesis.Results.Risk.{AtRiskRow, Ranked, ranks_before, joined, ranked_at_risk}
use bachelor_thesis.Prelude.{
  ◌≡◌, Bool, true, false, List, map, arith, length, filter, IsSorted, length-filter-sort_by,
  sort_by-IsSorted,
}
use bachelor_thesis.Results.{ResultRow}

ranks_before_total : (a b : Ranked) → ranks_before a b ≡ false → ranks_before b a ≡ true
ranks_before_total a b h = ground arith

ranks_before_trans :
    (a b c : Ranked) → ranks_before a b ≡ true → ranks_before b c ≡ true → ranks_before a c ≡ true
ranks_before_trans a b c h k = ground arith

-- The ranking is in order, the worst first, and holds the students at risk: as many of them pass any test
-- in the ranking as in the list.
pub ranked_at_risk-IsSorted :
    (rows : List ResultRow) (at_risk : List AtRiskRow) (p : Ranked → Bool)
    → IsSorted ranks_before (ranked_at_risk rows at_risk)
      × (length (filter p (ranked_at_risk rows at_risk))
          ≡ length (filter p (map (joined rows) at_risk)))
unfolding ranked_at_risk
ranked_at_risk-IsSorted rows at_risk p = (
  sort_by-IsSorted ranks_before ranks_before_total ranks_before_trans (map (joined rows) at_risk),
  length-filter-sort_by ranks_before p (map (joined rows) at_risk),
)
