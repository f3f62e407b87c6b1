-- ===== src/Interaction/Quantity/Saved.antt =====
-- Saving quantities and reading them back, and configurations of the older form.
use bachelor_thesis.Prelude.{
  ℕ, zero, suc, ◌+◌, ◌≡◌, refl, sym, ap, ◌∙◌, true, some, List, ◌∷◌, arith, ==_iff, filter,
}
use bachelor_thesis.Interaction.Proto.{InteractionKind}
use bachelor_thesis.Interaction.Quantity.{
  KindQuantities, ChunkInteractionConfig, empty_quantities, is_known, quantity, assign, count_kinds,
  total_quantity, from_config, repeat, to_kinds_list,
}

filter-repeat :
    (n : ℕ) (k : InteractionKind) (rest : List InteractionKind)
    → is_known k ≡ true
    → filter is_known (repeat n k rest) ≡ repeat n k (filter is_known rest)
unfolding filter repeat
filter-repeat zero k rest h = refl
filter-repeat (suc n) k rest h = rw h (ap (λ r. k ∷ r) (filter-repeat n k rest h))

filter-to_kinds_list : (q : KindQuantities) → filter is_known (to_kinds_list q) ≡ to_kinds_list q
unfolding to_kinds_list filter
filter-to_kinds_list q = rw (filter-repeat q.single_choice _ _ refl) (
    rw (filter-repeat q.multiple_choice _ _ refl) (
      rw (filter-repeat q.fill_blank _ _ refl)
        (rw (filter-repeat q.reading _ _ refl) (rw (filter-repeat q.listening _ _ refl)))))

assign_same : (q : KindQuantities) (k : InteractionKind) → assign q k (quantity q k + 0) ≡ q
assign_same q k = ground arith

assign_again :
    (q : KindQuantities) (k : InteractionKind) (n : ℕ)
    → is_known k ≡ true
    → assign (assign q k (quantity q k + 1)) k (quantity (assign q k (quantity q k + 1)) k + n)
      ≡ assign q k (quantity q k + suc n)
assign_again q k n h = ground arith

count_kinds-repeat :
    (n : ℕ) (k : InteractionKind) (rest : List InteractionKind) (q : KindQuantities)
    → is_known k ≡ true
    → count_kinds q (repeat n k rest) ≡ count_kinds (assign q k (quantity q k + n)) rest
unfolding count_kinds repeat
count_kinds-repeat zero k rest q h = ap (λ r. count_kinds r rest) (sym (assign_same q k))
count_kinds-repeat (suc n) k rest q h =
    count_kinds-repeat n k rest (assign q k (quantity q k + 1)) h
    ∙ ap (λ r. count_kinds r rest) (assign_again q k n h)

count_kinds-to_kinds_list :
    (q : KindQuantities) → count_kinds empty_quantities (to_kinds_list q) ≡ q
unfolding to_kinds_list empty_quantities
count_kinds-to_kinds_list q = rw (count_kinds-repeat q.single_choice _ _ _ refl) (
    rw (count_kinds-repeat q.multiple_choice _ _ _ refl) (
      rw (count_kinds-repeat q.fill_blank _ _ _ refl) (
        rw (count_kinds-repeat q.reading _ _ _ refl)
          (rw (count_kinds-repeat q.listening _ _ _ refl) (unfold count_kinds in ground arith)))))

-- The configuration that the dialog saves.
abbrev pub saved_config : KindQuantities → ChunkInteractionConfig
saved_config q = record { count = total_quantity q; kinds = to_kinds_list q }

-- Quantities that are saved come back as they were when the dialog is opened again.
pub from_config-saved_config : (q : KindQuantities) → from_config (some (saved_config q)) ≡ q
unfolding from_config
from_config-saved_config q =
    rw (filter-to_kinds_list q)
      (rw (count_kinds-to_kinds_list q) (rw ((==_iff (total_quantity q) _).1 refl)))
