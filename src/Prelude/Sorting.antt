-- ===== src/Prelude/Sorting.antt =====
-- The stable sort of the source's `Array.prototype.sort`, by a Boolean order.
use Prim.Native.Nat.{suc}
use mathlib.Core.Path.{subst, ◌≡◌, refl, ap, ◌∙◌}
use mathlib.Core.Bool.{Bool, true, false}
use mathlib.Core.Logic.{inl, inr}
use mathlib.Core.Option.{none, some}
use mathlib.Core.List.{List, [], ◌∷◌}
use native.Mathlib.Omega.{arith}
use bachelor_thesis.Prelude.Tests.{if◌then◌else◌, Bool-cases}
use bachelor_thesis.Prelude.Lists.{length, find, filter, All}

module _ {ℓ} {A : Type ℓ} (le : A → A → Bool) where
  unfoldable pub insert_by : A → List A → List A
  insert_by x [] = x ∷ []
  insert_by x (y ∷ ys) = let rest = insert_by x ys in if le x y then x ∷ y ∷ ys else y ∷ rest

  unfoldable pub sort_by : List A → List A
  sort_by [] = []
  sort_by (x ∷ xs) = insert_by x (sort_by xs)

  -- Each item is in order with all that stand behind it.
  abbrev pub IsSorted : List A → Type ℓ
  IsSorted [] = Unit
  IsSorted (x ∷ xs) = All (λ y. le x y ≡ true) xs × IsSorted xs

  pub All-insert_by {κ} :
      (P : A → Type κ) (x : A) (ys : List A) → P x → All P ys → All P (insert_by x ys)
  unfolding insert_by
  All-insert_by P x [] p h = (p, tt)
  All-insert_by P x (y ∷ ys) p h =
      elim (le x y) as (λ b. All P (if b then x ∷ y ∷ ys else y ∷ insert_by x ys)) [
        | true ↦ (p, h)
        | false ↦ (h.0, All-insert_by P x ys p h.1)
      ]

  pub All-sort_by {κ} : (P : A → Type κ) (xs : List A) → All P xs → All P (sort_by xs)
  unfolding sort_by
  All-sort_by P [] h = tt
  All-sort_by P (x ∷ xs) h = All-insert_by P x (sort_by xs) h.0 (All-sort_by P xs h.1)

  pub length-insert_by : (x : A) (ys : List A) → length (insert_by x ys) ≡ suc (length ys)
  unfolding insert_by
  length-insert_by x [] = refl
  length-insert_by x (y ∷ ys) = ground (arith, length-insert_by x ys)

  pub length-sort_by : (xs : List A) → length (sort_by xs) ≡ length xs
  unfolding sort_by
  length-sort_by [] = refl
  length-sort_by (x ∷ xs) = length-insert_by x (sort_by xs) ∙ ap suc (length-sort_by xs)

  length-filter-insert_by :
      (p : A → Bool) (x : A) (ys : List A)
      → length (filter p (insert_by x ys)) ≡ length (filter p (x ∷ ys))
  unfolding insert_by filter
  length-filter-insert_by p x [] = refl
  length-filter-insert_by p x (y ∷ ys) = ground (arith, length-filter-insert_by p x ys)

  -- Sorting keeps how many items pass a test.
  pub length-filter-sort_by :
      (p : A → Bool) (xs : List A) → length (filter p (sort_by xs)) ≡ length (filter p xs)
  unfolding sort_by filter
  length-filter-sort_by p [] = refl
  length-filter-sort_by p (x ∷ xs) =
      length-filter-insert_by p x (sort_by xs) ∙ ground (arith, length-filter-sort_by p xs)

  module _ (total : (x y : A) → le x y ≡ false → le y x ≡ true)
      (trans : (x y z : A) → le x y ≡ true → le y z ≡ true → le x z ≡ true) where
    All-le_trans :
        (x y : A) (ys : List A)
        → le x y ≡ true
        → All (λ z. le y z ≡ true) ys
        → All (λ z. le x z ≡ true) ys
    All-le_trans x y [] h k = tt
    All-le_trans x y (z ∷ ys) h k = (trans x y z h k.0, All-le_trans x y ys h k.1)

    insert_by-IsSorted : (x : A) (ys : List A) → IsSorted ys → IsSorted (insert_by x ys)
    unfolding insert_by
    insert_by-IsSorted x [] s = (tt, tt)
    insert_by-IsSorted x (y ∷ ys) s = elim (Bool-cases (le x y)) [
      | inl h ↦ rw h ((h, All-le_trans x y ys h s.0), s)
      | inr h ↦
          rw h
            (All-insert_by (λ z. le y z ≡ true) x ys (total x y h) s.0, insert_by-IsSorted x ys s.1)
    ]

    -- Sorting puts the items in order.
    pub sort_by-IsSorted : (xs : List A) → IsSorted (sort_by xs)
    unfolding sort_by
    sort_by-IsSorted [] = tt
    sort_by-IsSorted (x ∷ xs) = insert_by-IsSorted x (sort_by xs) (sort_by-IsSorted xs)

-- What a search from the front finds in a sorted list stands in order with all others that pass the
-- test.
pub find-least {ℓ} :
    {A : Type ℓ} (le : A → A → Bool) (p : A → Bool) (xs : List A) (x : A)
    → ((y : A) → le y y ≡ true)
    → IsSorted le xs
    → find p xs ≡ some x
    → All (λ y. p y ≡ true → le x y ≡ true) xs
unfolding find
find-least le p [] x r s e = tt
find-least le p (y ∷ ys) x r s e = elim (Bool-cases (p y)) [
  | inl h ↦
      let same : y ≡ x = ground arith in
      subst (λ z. All (λ w. p w ≡ true → le z w ≡ true) (y ∷ ys)) same (λ _. r y, All-of y ys s.0)
  | inr h ↦ (λ k. cc, find-least le p ys x r s.1 (rw h at e))
]
  where
    All-of :
        (z : _) (zs : List _)
        → All (λ w. le z w ≡ true) zs
        → All (λ w. p w ≡ true → le z w ≡ true) zs
    All-of z [] k = tt
    All-of z (w ∷ zs) k = (λ _. k.0, All-of z zs k.1)

pub find-none {ℓ} :
    {A : Type ℓ} (p : A → Bool) (xs : List A) → find p xs ≡ none → All (λ y. p y ≡ false) xs
unfolding find
find-none p [] e = tt
find-none p (y ∷ ys) e = elim (Bool-cases (p y)) [
  | inl h ↦ absurd (not-some (rw h at e))
  | inr h ↦ (h, find-none p ys (rw h at e))
]
  where
    not-some : some y ≡ none → ⊥
    not-some k = cc
