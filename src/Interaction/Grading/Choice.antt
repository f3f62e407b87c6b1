-- ===== src/Interaction/Grading/Choice.antt =====
-- A multiple choice is right exactly when the right options are chosen.
use bachelor_thesis.Prelude.{
  suc, ◌≤◌, ◌<◌, ◌≡◌, refl, sym, ◌∙◌, ◌↔◌, Bool, true, false, some, List, [], ◌∷◌, arith,
  if◌then◌else◌, length, ℤ, eqb, eqb_iff,
}
use bachelor_thesis.Interaction.Types.{McqConfig, McqResponse}
use bachelor_thesis.Interaction.Grading.{point, includes_index, includes_all, grade_multiple}

-- No option stands twice.
abbrev pub IsDistinct : List ℤ → Type 0
IsDistinct [] = Unit
IsDistinct (a ∷ xs) = (includes_index xs a ≡ false) × IsDistinct xs

-- The list without the first occurrence of an option.
erase : List ℤ → ℤ → List ℤ
erase [] a = []
erase (x ∷ xs) a = if eqb x a then xs else x ∷ erase xs a

length-erase :
    (xs : List ℤ) (a : ℤ) → includes_index xs a ≡ true → suc (length (erase xs a)) ≡ length xs
unfolding includes_index erase
length-erase [] a h = cc
length-erase (x ∷ xs) a h = ground (arith, length-erase xs a)

includes-erase_ne :
    (xs : List ℤ) (a b : ℤ) → eqb a b ≡ false → includes_index (erase xs a) b ≡ includes_index xs b
unfolding includes_index erase
includes-erase_ne [] a b h = refl
includes-erase_ne (x ∷ xs) a b h =
    ground (arith, eqb_iff x a, eqb_iff x b, eqb_iff a b, includes-erase_ne xs a b)

includes_all-erase :
    (xs ys : List ℤ) (a : ℤ)
    → includes_index xs a ≡ false
    → includes_all ys xs ≡ true
    → includes_all (erase ys a) xs ≡ true
unfolding includes_index includes_all
includes_all-erase [] ys a h k = refl
includes_all-erase (x ∷ xs) ys a h k =
    ground (arith, includes_all-erase xs ys a, includes-erase_ne ys a x, eqb_iff a x, eqb_iff x a)

-- A list of distinct options that a list no longer holds in full is the whole of it.
includes_all_converse :
    (xs ys : List ℤ) (b : ℤ)
    → IsDistinct xs
    → includes_all ys xs ≡ true
    → length xs ≡ length ys
    → includes_index ys b ≡ true
    → includes_index xs b ≡ true
unfolding includes_index includes_all
includes_all_converse [] [] b d h e k = k
includes_all_converse [] (y ∷ ys) b d h e k = absurd (omega arith)
includes_all_converse (x ∷ xs) ys b d h e k = ground (
  arith,
  includes_all_converse xs (erase ys x) b d.1,
  includes_all-erase xs ys x,
  length-erase ys x,
  includes-erase_ne ys x b,
)

includes_all_of :
    (xs ys : List ℤ)
    → ((b : ℤ) → includes_index xs b ≡ true → includes_index ys b ≡ true)
    → includes_all ys xs ≡ true
unfolding includes_index includes_all
includes_all_of [] ys h = refl
includes_all_of (x ∷ xs) ys h =
    ground (arith, h x, eqb_iff x x, includes_all_of xs ys (λ b k. h b (ground arith)))

includes_all_at :
    (xs ys : List ℤ) (b : ℤ)
    → includes_all ys xs ≡ true
    → includes_index xs b ≡ true
    → includes_index ys b ≡ true
unfolding includes_index includes_all
includes_all_at [] ys b h k = cc
includes_all_at (x ∷ xs) ys b h k = ground (arith, eqb_iff x b, includes_all_at xs ys b)

length-le_of : (xs ys : List ℤ) → IsDistinct xs → includes_all ys xs ≡ true → length xs ≤ length ys
unfolding includes_all
length-le_of [] ys d h = omega arith
length-le_of (x ∷ xs) ys d h =
    ground (arith, length-le_of xs (erase ys x) d.1, includes_all-erase xs ys x, length-erase ys x)

-- The two lists hold the same options.
abbrev pub SameOptions : List ℤ → List ℤ → Type 0
SameOptions xs ys = (b : ℤ) → includes_index xs b ≡ includes_index ys b

Bool-eq_of : (b c : Bool) → (b ≡ true → c ≡ true) → (c ≡ true → b ≡ true) → b ≡ c
Bool-eq_of b c h k = ground arith

includes_all-SameOptions :
    (xs ys : List ℤ)
    → IsDistinct xs
    → length xs ≡ length ys
    → includes_all ys xs ≡ true
    → SameOptions xs ys
includes_all-SameOptions xs ys d e h b =
    Bool-eq_of (includes_index xs b) (includes_index ys b) (includes_all_at xs ys b h)
      (includes_all_converse xs ys b d h e)

SameOptions-includes_all : (xs ys : List ℤ) → SameOptions xs ys → includes_all ys xs ≡ true
SameOptions-includes_all xs ys s = includes_all_of xs ys (λ b k. sym (s b) ∙ k)

SameOptions-length :
    (xs ys : List ℤ) → IsDistinct xs → IsDistinct ys → SameOptions xs ys → length xs ≡ length ys
SameOptions-length xs ys d e s = omega (
  arith,
  length-le_of xs ys d (SameOptions-includes_all xs ys s),
  length-le_of ys xs e (SameOptions-includes_all ys xs (λ b. sym (s b))),
)

module _ (cfg : McqConfig) (r : McqResponse) (correct selected : List ℤ) where
  full_points-test :
      cfg.correct_answers ≡ some correct
      → r.selected_indexes ≡ some selected
      → 0 < length correct
      → ((grade_multiple cfg r).score ≡ point)
        ↔ ((length correct ≡ length selected) × (includes_all selected correct ≡ true))
  unfolding grade_multiple
  full_points-test p q n = ground arith

  -- Where the exercise marks at least one right option, and neither the right options nor the chosen
  -- ones repeat, the answer gets the point exactly when it holds the same options, in any order.
  pub grade_multiple_iff :
      cfg.correct_answers ≡ some correct
      → r.selected_indexes ≡ some selected
      → 0 < length correct
      → IsDistinct correct
      → IsDistinct selected
      → ((grade_multiple cfg r).score ≡ point) ↔ SameOptions correct selected
  grade_multiple_iff p q n d e =
      let (to, from) = full_points-test p q n in
      (
        λ h. includes_all-SameOptions correct selected d (to h).0 (to h).1,
        λ s. from (
          SameOptions-length correct selected d e s,
          SameOptions-includes_all correct selected s,
        ),
      )
