-- ===== src/Interaction/Quantity.antt =====
-- How many exercises of each kind to generate (lessons/[lessonId]/kind-quantity-grid.tsx).
pub mod Saved
pub mod Spread
use bachelor_thesis.Prelude.{
  ℕ, zero, suc, ◌+◌, ◌/◌, ◌%◌, Bool, true, false, Option, none, some, List, [], ◌∷◌, ◌++◌, ltb,
  ◌==◌, if◌then◌else◌, length, filter, any,
}
use bachelor_thesis.Interaction.Proto.{InteractionKind}

pub record KindQuantities : Type 0 where
  pub single_choice : ℕ
  pub multiple_choice : ℕ
  pub fill_blank : ℕ
  pub reading : ℕ
  pub listening : ℕ

-- A chunk's saved configuration (proto/richter/v1/ai.proto).
pub record ChunkInteractionConfig : Type 0 where
  pub count : ℕ
  pub kinds : List InteractionKind

unfoldable pub empty_quantities : KindQuantities
empty_quantities = record {
  single_choice = 0;
  multiple_choice = 0;
  fill_blank = 0;
  reading = 0;
  listening = 0;
}

abbrev is_known : InteractionKind → Bool
is_known InteractionKind.unspecified = false
is_known InteractionKind.writing = false
is_known _ = true

-- `result[k]`, for a known kind.
abbrev quantity : KindQuantities → InteractionKind → ℕ
quantity q InteractionKind.single_choice = q.single_choice
quantity q InteractionKind.multiple_choice = q.multiple_choice
quantity q InteractionKind.fill_blank = q.fill_blank
quantity q InteractionKind.reading = q.reading
quantity q InteractionKind.listening = q.listening
quantity q _ = 0

abbrev assign : KindQuantities → InteractionKind → ℕ → KindQuantities
assign q InteractionKind.single_choice n = record q { single_choice = n }
assign q InteractionKind.multiple_choice n = record q { multiple_choice = n }
assign q InteractionKind.fill_blank n = record q { fill_blank = n }
assign q InteractionKind.reading n = record q { reading = n }
assign q InteractionKind.listening n = record q { listening = n }
assign q _ n = q

-- The number of a kind in the messages.
abbrev kind_number : InteractionKind → ℕ
kind_number InteractionKind.unspecified = 0
kind_number InteractionKind.single_choice = 1
kind_number InteractionKind.fill_blank = 2
kind_number InteractionKind.listening = 3
kind_number InteractionKind.reading = 4
kind_number InteractionKind.multiple_choice = 5
kind_number InteractionKind.writing = 6

abbrev pub same_kind : InteractionKind → InteractionKind → Bool
same_kind a b = kind_number a == kind_number b

-- `for (const k of validKinds) result[k] += 1`.
count_kinds : KindQuantities → List InteractionKind → KindQuantities
count_kinds q [] = q
count_kinds q (k ∷ ks) = count_kinds (assign q k (quantity q k + 1)) ks

-- `new Set(validKinds)`: the first occurrence of each kind, in order.
has_kind : List InteractionKind → InteractionKind → Bool
has_kind ks k = any (same_kind k) ks

distinct_kinds : List InteractionKind → List InteractionKind → List InteractionKind
distinct_kinds seen [] = seen
distinct_kinds seen (k ∷ ks) = distinct_kinds (if has_kind seen k then seen else seen ++ k ∷ []) ks

-- `uniqueKinds.forEach((k, i) => { result[k] = per + (i < rem ? 1 : 0); })`.
spread_from : ℕ → ℕ → ℕ → KindQuantities → List InteractionKind → KindQuantities
spread_from per rem i q [] = q
spread_from per rem i q (k ∷ ks) =
    spread_from per rem (i + 1) (assign q k (per + (if ltb i rem then 1 else 0))) ks

unfoldable pub total_quantity : KindQuantities → ℕ
total_quantity q = q.single_choice + q.multiple_choice + q.fill_blank + q.reading + q.listening

redistribute : ℕ → List InteractionKind → KindQuantities
unfolding spread_from empty_quantities
redistribute count unique =
    if length unique == 0
    then empty_quantities
    else spread_from (count / length unique) (count % length unique) 0 empty_quantities unique

unfoldable pub from_config : Option ChunkInteractionConfig → KindQuantities
unfolding count_kinds distinct_kinds has_kind redistribute total_quantity empty_quantities filter
    any
from_config none = empty_quantities
from_config (some cfg) =
    let valid = filter is_known cfg.kinds in
    let counted = count_kinds empty_quantities valid in
    if total_quantity counted == cfg.count
    then counted
    else redistribute cfg.count (distinct_kinds [] valid)

repeat : ℕ → InteractionKind → List InteractionKind → List InteractionKind
repeat zero k rest = rest
repeat (suc n) k rest = k ∷ repeat n k rest

-- The kinds in the order of KIND_OPTIONS, each as often as its quantity says.
unfoldable pub to_kinds_list : KindQuantities → List InteractionKind
unfolding repeat
to_kinds_list q = repeat q.single_choice InteractionKind.single_choice (
    repeat q.multiple_choice InteractionKind.multiple_choice (
      repeat q.fill_blank InteractionKind.fill_blank (
        repeat q.reading InteractionKind.reading
          (repeat q.listening InteractionKind.listening []))))

-- `clampQuantity`, on whole numbers.
unfoldable pub clamp_quantity : ℕ → ℕ → ℕ → ℕ
clamp_quantity value low high =
    let least = if ltb value low then low else value in if ltb high least then high else least
