-- ===== src/Interaction/Quantity/Spread.antt =====
-- A configuration whose kinds do not add up to its count is spread evenly over its kinds.
use native.Mathlib.Nat.{mul_comm}
use bachelor_thesis.Prelude.{
  ℕ, zero, suc, ◌+◌, ◌-◌, ◌*◌, ◌/◌, ◌%◌, ◌≤◌, ◌<◌, ◌≡◌, refl, inl, inr, true, false, ◌||◌, some,
  List, [], ◌∷◌, ◌++◌, arith, ltb, ◌==◌, if◌then◌else◌, ==_iff, Bool-cases, length, filter, any,
  length-append, All, filter-All,
}
use bachelor_thesis.Interaction.Proto.{InteractionKind}
use bachelor_thesis.Interaction.Quantity.{
  KindQuantities, ChunkInteractionConfig, empty_quantities, is_known, quantity, assign, same_kind,
  count_kinds, has_kind, distinct_kinds, spread_from, total_quantity, redistribute, from_config,
}

-- How many more exercises `spread_from` gives to `n` kinds from index `i` on.
extra : ℕ → ℕ → ℕ → ℕ
extra rem i zero = 0
extra rem i (suc n) = (if ltb i rem then 1 else 0) + extra rem (i + 1) n

extra_past : (rem i n : ℕ) → rem ≤ i → extra rem i n ≡ 0
unfolding extra
extra_past rem i zero h = refl
extra_past rem i (suc n) h = ground (arith, extra_past rem (i + 1) n)

extra_within : (rem i n : ℕ) → i ≤ rem → rem ≤ i + n → extra rem i n ≡ rem - i
unfolding extra
extra_within rem i zero h k = omega arith
extra_within rem i (suc n) h k =
    ground (arith, extra_within rem (i + 1) n, extra_past rem (i + 1) n)

-- The kinds are known, and none stands twice.
abbrev IsSelection : List InteractionKind → Type 0
IsSelection [] = Unit
IsSelection (k ∷ ks) = (is_known k ≡ true) × (has_kind ks k ≡ false) × IsSelection ks

abbrev IsUnset : KindQuantities → List InteractionKind → Type 0
IsUnset q = All (λ k. quantity q k ≡ 0)

total-assign :
    (q : KindQuantities) (k : InteractionKind) (n : ℕ)
    → is_known k ≡ true
    → quantity q k ≡ 0
    → total_quantity (assign q k n) ≡ total_quantity q + n
unfolding total_quantity
total-assign q k n h z = ground arith

quantity-assign_ne :
    (q : KindQuantities) (k j : InteractionKind) (n : ℕ)
    → same_kind k j ≡ false
    → quantity q j ≡ 0
    → quantity (assign q k n) j ≡ 0
quantity-assign_ne q k j n h z = ground arith

IsUnset-assign :
    (q : KindQuantities) (k : InteractionKind) (n : ℕ) (ks : List InteractionKind)
    → has_kind ks k ≡ false
    → IsUnset q ks
    → IsUnset (assign q k n) ks
unfolding has_kind any
IsUnset-assign q k n [] h u = tt
IsUnset-assign q k n (j ∷ ks) h u =
    (quantity-assign_ne q k j n (ground arith) u.0, IsUnset-assign q k n ks (ground arith) u.1)

total-spread_from :
    (per rem i : ℕ) (q : KindQuantities) (ks : List InteractionKind)
    → IsSelection ks
    → IsUnset q ks
    → total_quantity (spread_from per rem i q ks)
      ≡ total_quantity q + length ks * per + extra rem i (length ks)
unfolding spread_from extra
total-spread_from per rem i q [] s u = omega arith
total-spread_from per rem i q (k ∷ ks) s u =
    let n = per + (if ltb i rem then 1 else 0) in
    omega (
      arith,
      total-spread_from per rem (i + 1) (assign q k n) ks s.2 (IsUnset-assign q k n ks s.1 u.1),
      total-assign q k n s.0 u.0,
    )

has_kind-append :
    (ks : List InteractionKind) (k j : InteractionKind)
    → has_kind (ks ++ k ∷ []) j ≡ (has_kind ks j || same_kind j k)
unfolding has_kind any
has_kind-append [] k j = ground arith
has_kind-append (i ∷ ks) k j = ground (arith, has_kind-append ks k j)

IsSelection-append :
    (ks : List InteractionKind) (k : InteractionKind)
    → IsSelection ks
    → has_kind ks k ≡ false
    → is_known k ≡ true
    → IsSelection (ks ++ k ∷ [])
unfolding has_kind any
IsSelection-append [] k s h g = (g, refl, tt)
IsSelection-append (j ∷ ks) k s h g =
    (s.0, ground (arith, has_kind-append ks k j), IsSelection-append ks k s.2 (ground arith) g)

distinct_kinds-IsSelection :
    (seen ks : List InteractionKind)
    → IsSelection seen
    → All (λ k. is_known k ≡ true) ks
    → IsSelection (distinct_kinds seen ks)
unfolding distinct_kinds
distinct_kinds-IsSelection seen [] s h = s
distinct_kinds-IsSelection seen (k ∷ ks) s h = elim (Bool-cases (has_kind seen k)) [
  | inl old ↦ rw old (distinct_kinds-IsSelection seen ks s h.1)
  | inr new ↦
      rw new
        (distinct_kinds-IsSelection (seen ++ k ∷ []) ks (IsSelection-append seen k s new h.0) h.1)
]

length-distinct_kinds :
    (seen ks : List InteractionKind) → length seen ≤ length (distinct_kinds seen ks)
unfolding distinct_kinds
length-distinct_kinds seen [] = omega arith
length-distinct_kinds seen (k ∷ ks) = elim (Bool-cases (has_kind seen k)) [
  | inl old ↦ rw old (length-distinct_kinds seen ks)
  | inr new ↦
      rw new (omega (arith, length-distinct_kinds (seen ++ k ∷ []) ks, length-append seen (k ∷ [])))
]

distinct_kinds_pos : (ks : List InteractionKind) → 0 < length ks → 0 < length (distinct_kinds [] ks)
unfolding distinct_kinds has_kind any
distinct_kinds_pos [] h = h
distinct_kinds_pos (k ∷ ks) h = omega (arith, length-distinct_kinds (k ∷ []) ks)

IsUnset-empty : (ks : List InteractionKind) → IsUnset empty_quantities ks
unfolding empty_quantities
IsUnset-empty [] = tt
IsUnset-empty (k ∷ ks) = (ground arith, IsUnset-empty ks)

share_out : (count n : ℕ) → 0 < n → n * (count / n) + extra (count % n) 0 n ≡ count
share_out count n h =
    let below : count % n < n = grind arith in
    rw (extra_within (count % n) 0 n (omega arith) (omega arith)) (grind arith)

total-empty : total_quantity empty_quantities ≡ 0
unfolding total_quantity empty_quantities
total-empty = refl

total-redistribute :
    (count : ℕ) (ks : List InteractionKind)
    → IsSelection ks
    → 0 < length ks
    → total_quantity (redistribute count ks) ≡ count
unfolding redistribute
total-redistribute count ks s h = ground (
  arith,
  total-spread_from (count / length ks) (count % length ks) 0 empty_quantities ks s
      (IsUnset-empty ks),
  share_out count (length ks) h,
  total-empty,
  mul_comm (length ks) (count / length ks),
)

-- A configuration that names at least one kind that the dialog offers opens with quantities that add
-- up to its count, whether its kinds are repeated as often as they are wanted or listed once.
pub total-from_config :
    (cfg : ChunkInteractionConfig)
    → 0 < length (filter is_known cfg.kinds)
    → total_quantity (from_config (some cfg)) ≡ cfg.count
unfolding from_config
total-from_config cfg h =
    let valid = filter is_known cfg.kinds in
    let counted = total_quantity (count_kinds empty_quantities valid) in
    elim (Bool-cases (counted == cfg.count)) [
      | inl same ↦ rw same ((==_iff counted cfg.count).0 same)
      | inr other ↦ rw other (
          total-redistribute cfg.count (distinct_kinds [] valid)
            (distinct_kinds-IsSelection [] valid tt (filter-All is_known cfg.kinds))
            (distinct_kinds_pos valid h))
    ]
