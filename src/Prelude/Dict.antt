-- ===== src/Prelude/Dict.antt =====
-- Go maps as association lists. A key occurs at most once where a map is built by `insert`; the
-- order of the entries is the order in which `range` visits them, which Go leaves open.
use Prim.Native.String.{String}
use mathlib.Core.Path.{◌≡◌}
use mathlib.Core.Logic.{◌↔◌}
use mathlib.Core.Bool.{Bool, true}
use mathlib.Core.Option.{Option, none, some}
use mathlib.Core.List.{List, [], ◌∷◌}
use native.Mathlib.Omega.{arith}
use text.Mathlib.Text.{◌==◌}
use text.Mathlib.TextEquality.{eq_iff}
use go_rkvstcommon.Prelude.Tests.{if◌then◌else◌}
use go_rkvstcommon.Prelude.Int.{ℤ, int_eq, int_eq_iff}

-- Keys that Go can compare.
pub record Key {ℓ} (K : Type ℓ) : Type ℓ where
  pub same : K → K → Bool
  pub same_iff : (a b : K) → (same a b ≡ true) ↔ (a ≡ b)

instance abbrev pub string_key : Key String
string_key = record { same = ◌==◌; same_iff = eq_iff }

instance abbrev pub label_key : Key ℤ
label_key = record { same = int_eq; same_iff = int_eq_iff }

abbrev pub Dict {ℓ κ} : Type ℓ → Type κ → Type (ℓ ⊔ κ)
Dict K V = List (K × V)

module _ {ℓ κ} {K : Type ℓ} {V : Type κ} ⦃key : Key K⦄ where
  -- m[k], with the test of `v, ok := m[k]`
  unfoldable pub lookup : K → Dict K V → Option V
  lookup k [] = none
  lookup k ((j, v) ∷ m) = if key.same j k then some v else lookup k m

  -- delete(m, k)
  unfoldable pub remove : K → Dict K V → Dict K V
  remove k [] = []
  remove k ((j, v) ∷ m) = let rest = remove k m in if key.same j k then rest else (j, v) ∷ rest

  -- m[k] = v
  unfoldable pub insert : K → V → Dict K V → Dict K V
  unfolding remove
  insert k v m = (k, v) ∷ remove k m

  pub lookup-remove :
      (k j : K) (m : Dict K V) → lookup j (remove k m) ≡ (if key.same k j then none else lookup j m)
  unfolding lookup remove
  lookup-remove k j [] = ground arith
  lookup-remove k j ((i, v) ∷ m) =
      ground (arith, lookup-remove k j m, key.same_iff i k, key.same_iff i j, key.same_iff k j)

  pub lookup-insert :
      (k j : K) (v : V) (m : Dict K V)
      → lookup j (insert k v m) ≡ (if key.same k j then some v else lookup j m)
  unfolding lookup insert
  lookup-insert k j v m = ground (arith, lookup-remove k j m)
