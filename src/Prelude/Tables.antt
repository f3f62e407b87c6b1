-- ===== src/Prelude/Tables.antt =====
-- Sets and maps keyed by texts, as the source's `Set<string>` and `Map<string, T>`: insertion order is
-- kept, and a key stands at most once.
use Prim.Native.Nat.{◌≤◌}
use Prim.Native.String.{String}
use mathlib.Core.Path.{◌≡◌, refl}
use mathlib.Core.Bool.{Bool, false, ◌||◌}
use mathlib.Core.Option.{Option, none, some}
use mathlib.Core.List.{List, [], ◌∷◌}
use native.Mathlib.Omega.{arith}
use text.Mathlib.Text.{◌==◌}
use text.Mathlib.TextEquality.{eq_iff}
use bachelor_thesis.Prelude.Tests.{if◌then◌else◌}
use bachelor_thesis.Prelude.Lists.{length}

abbrev pub Ids : Type 0
Ids = List String

unfoldable pub has : Ids → String → Bool
has [] k = false
has (j ∷ s) k = j == k || has s k

unfoldable pub add : Ids → String → Ids
add [] k = k ∷ []
add (j ∷ s) k = if j == k then j ∷ s else j ∷ add s k

unfoldable pub add_all : Ids → List String → Ids
add_all s [] = s
add_all s (k ∷ ks) = add_all (add s k) ks

unfoldable pub delete : Ids → String → Ids
delete [] k = []
delete (j ∷ s) k = if j == k then delete s k else j ∷ delete s k

pub has-add : (s : Ids) (k j : String) → has (add s k) j ≡ ((k == j) || has s j)
unfolding has add
has-add [] k j = refl
has-add (i ∷ s) k j = ground (arith, eq_iff i k, eq_iff i j, eq_iff k j, has-add s k j)

pub has-delete_self : (s : Ids) (k : String) → has (delete s k) k ≡ false
unfolding has delete
has-delete_self [] k = refl
has-delete_self (i ∷ s) k = ground (arith, has-delete_self s k)

pub length-add : (s : Ids) (k : String) → length s ≤ length (add s k)
unfolding add
length-add [] k = omega arith
length-add (i ∷ s) k = ground (arith, length-add s k)

module _ {ℓ} {V : Type ℓ} where
  unfoldable pub get : List (String × V) → String → Option V
  get [] k = none
  get ((j, v) ∷ m) k = if j == k then some v else get m k

  unfoldable pub set : List (String × V) → String → V → List (String × V)
  set [] k v = (k, v) ∷ []
  set ((j, w) ∷ m) k v = if j == k then (k, v) ∷ m else (j, w) ∷ set m k v

  pub get-set :
      (m : List (String × V)) (k j : String) (v : V)
      → get (set m k v) j ≡ (if k == j then some v else get m j)
  unfolding get set
  get-set [] k j v = refl
  get-set ((i, w) ∷ m) k j v = ground (arith, eq_iff k j, eq_iff i k, eq_iff i j, get-set m k j v)
