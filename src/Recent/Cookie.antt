-- ===== src/Recent/Cookie.antt =====
-- The text of the cookie, which is kept below a size (`serializeRecentAccess`).
use bachelor_thesis.Prelude.{
  ℕ, zero, suc, ◌≤◌, ◌<◌, String, subst, ◌≡◌, refl, ◌⊎◌, inl, inr, false, List, [], arith, leb,
  if◌then◌else◌, leb→le, Bool-cases, length, take,
}
use bachelor_thesis.Recent.{RecentAccessEntry, recent_access_limit}

-- The loop of `serializeRecentAccess`: `encode` is the text of the cookie for some entries, and `size` its
-- length.
module _ (encode : List RecentAccessEntry → String) (size : String → ℕ) where
  unfoldable pub shrink : List RecentAccessEntry → ℕ → String
  shrink entries zero = encode []
  shrink entries (suc n) =
      let rest = shrink entries n in
      if leb (size (encode (take (suc n) entries))) 3800
      then encode (take (suc n) entries)
      else rest

  unfoldable pub serialize_recent_access : List RecentAccessEntry → String
  unfolding shrink
  serialize_recent_access entries =
      let kept = take recent_access_limit entries in shrink kept (length kept)

  past : (m : ℕ) → leb m 3800 ≡ false → 3800 < m
  past m h = ground arith

  last_one : (j n : ℕ) → leb j n ≡ false → j ≤ suc n → suc n ≡ j
  last_one j n g b = ground arith

  -- The text is that of the first `k` entries, it is short enough where `k` is not zero, and with any more
  -- of the first `n` entries it would not be.
  abbrev pub IsLongest : List RecentAccessEntry → ℕ → String → Type 0
  IsLongest entries n t =
      (k : ℕ) × (k ≤ n)
      × (t ≡ encode (take k entries))
      × ((k ≡ 0) ⊎ (size t ≤ 3800))
      × ((j : ℕ) → k < j → j ≤ n → 3800 < size (encode (take j entries)))

  shrink-IsLongest :
      (entries : List RecentAccessEntry) (n : ℕ) → IsLongest entries n (shrink entries n)
  unfolding shrink
  shrink-IsLongest entries zero = (0, omega arith, refl, inl refl, λ j a b. absurd (omega arith))
  shrink-IsLongest entries (suc n) =
      elim (Bool-cases (leb (size (encode (take (suc n) entries))) 3800)) [
        | inl h ↦ rw h (suc n, omega arith, refl, inr (leb→le _ _ h), λ j a b. absurd (omega arith))
        | inr h ↦
            let (k, le, e, small, more) = shrink-IsLongest entries n in
            rw h (
              k,
              omega arith,
              e,
              small,
              λ j a b. elim (Bool-cases (leb j n)) [
                | inl g ↦ more j a (leb→le j n g)
                | inr g ↦
                    subst (λ x. 3800 < size (encode (take x entries))) (last_one j n g b) (past _ h)
              ],
            )
      ]

  -- The cookie holds the first of the entries, twenty at most and as many as fit: its text is at most 3800
  -- units long unless it holds none, and with any more of them it would be longer.
  pub serialize_recent_access-IsLongest :
      (entries : List RecentAccessEntry)
      → IsLongest
          (take recent_access_limit entries)
          (length (take recent_access_limit entries))
          (serialize_recent_access entries)
  unfolding serialize_recent_access
  serialize_recent_access-IsLongest entries =
      shrink-IsLongest (take recent_access_limit entries)
        (length (take recent_access_limit entries))
