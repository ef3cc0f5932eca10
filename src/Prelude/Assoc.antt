-- ===== src/Prelude/Assoc.antt =====
-- `std::collections::HashMap` as an association list; the program never depends on its order.
use mathlib.Core.Path.{◌≡◌}
use mathlib.Core.Option.{Option, none, some}
use mathlib.Core.List.{List, [], ◌∷◌}
use native.Mathlib.Omega.{arith}
use spa_device.Prelude.Tests.{if◌then◌else◌}
use spa_device.Prelude.Eq.{PartialEq}

abbrev pub HashMap {ℓ} : Type ℓ → Type ℓ → Type ℓ
HashMap K V = List (K × V)

module _ {ℓ} {K V : Type ℓ} ⦃e : PartialEq K⦄ where
  unfoldable pub lookup : HashMap K V → K → Option V
  lookup [] k = none
  lookup ((j, v) ∷ m) k = if e.eq j k then some v else lookup m k

  unfoldable pub remove : HashMap K V → K → HashMap K V
  remove [] k = []
  remove ((j, v) ∷ m) k = let rest = remove m k in if e.eq j k then rest else (j, v) ∷ rest

  unfoldable pub insert : HashMap K V → K → V → HashMap K V
  unfolding remove
  insert m k v = (k, v) ∷ remove m k

  pub lookup-remove :
      (m : HashMap K V) (k j : K) → lookup (remove m k) j ≡ (if e.eq k j then none else lookup m j)
  unfolding lookup remove
  lookup-remove [] k j = ground arith
  lookup-remove ((i, v) ∷ m) k j =
      ground (arith, lookup-remove m k j, e.eq_iff i k, e.eq_iff i j, e.eq_iff k j)

  pub lookup-insert :
      (m : HashMap K V) (k : K) (v : V) (j : K)
      → lookup (insert m k v) j ≡ (if e.eq k j then some v else lookup m j)
  unfolding lookup insert
  lookup-insert m k v j = ground (arith, lookup-remove m k j)
