-- ===== src/Results/Bands.antt =====
-- The bands of scores divide the students who have answered.
use bachelor_thesis.Prelude.{
  ℕ, suc, ◌+◌, ◌≤◌, ◌≡◌, true, List, [], ◌∷◌, arith, length, filter, All, All-filter, filter-All,
}
use bachelor_thesis.Results.{ResultRow, attempted, Band, in_band, hist_bins}

-- How many students the bands hold together.
abbrev pub held : List Band → ℕ
held [] = 0
held (b ∷ bs) = length b.members + held bs

abbrev pub OutOfHundred : List ResultRow → Type 0
OutOfHundred = All (λ r. r.avg_score_pct ≤ 100)

one_band :
    (r : ResultRow) (rs : List ResultRow)
    → r.avg_score_pct ≤ 100
    → length (filter (in_band 0 20) rs)
        + (length (filter (in_band 20 40) rs)
            + (length (filter (in_band 40 60) rs)
                + (length (filter (in_band 60 80) rs) + length (filter (in_band 80 101) rs))))
      ≡ length rs
    → length (filter (in_band 0 20) (r ∷ rs))
        + (length (filter (in_band 20 40) (r ∷ rs))
            + (length (filter (in_band 40 60) (r ∷ rs))
                + (length (filter (in_band 60 80) (r ∷ rs))
                    + length (filter (in_band 80 101) (r ∷ rs)))))
      ≡ suc (length rs)
unfolding filter
one_band r rs h k = ground arith

all_bands :
    (rs : List ResultRow)
    → OutOfHundred rs
    → length (filter (in_band 0 20) rs)
        + (length (filter (in_band 20 40) rs)
            + (length (filter (in_band 40 60) rs)
                + (length (filter (in_band 60 80) rs) + length (filter (in_band 80 101) rs))))
      ≡ length rs
unfolding filter
all_bands [] h = omega arith
all_bands (r ∷ rs) h = one_band r rs h.0 (all_bands rs h.1)

-- Where no score is over a hundred, each student who has answered is in one of the five bands and in one
-- only: the bands hold as many as have answered, and each of their students has a score of the band.
pub hist_bins-held :
    (rows : List ResultRow)
    → OutOfHundred rows
    → (held (hist_bins rows) ≡ length (filter attempted rows))
      × All (λ b. All (λ r. in_band b.lo b.hi r ≡ true) b.members) (hist_bins rows)
unfolding hist_bins
hist_bins-held rows h =
    let scored = filter attempted rows in
    (
      omega (arith, all_bands scored (All-filter (λ r. r.avg_score_pct ≤ 100) attempted rows h)),
      (
        filter-All (in_band 0 20) scored,
        (
          filter-All (in_band 20 40) scored,
          (
            filter-All (in_band 40 60) scored,
            (filter-All (in_band 60 80) scored, (filter-All (in_band 80 101) scored, tt)),
          ),
        ),
      ),
    )
