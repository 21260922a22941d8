-- ===== src/Base/JsMap.antt =====
-- `Map` with numeric keys, as the program uses it: `set` and `get`.
use Prim.Native.Nat.{ℕ}
use mathlib.Core.List.{List, [], ◌∷◌}
use mathlib.Core.Option.{Option, none, some}
use mathlib.Core.Path.{◌≡◌}
use native.Mathlib.Omega.{arith}
use kan_pad.Base.Tests.{◌==◌, if◌then◌else◌}

module _ {V : Type 0} where
  unfoldable pub map_get : List (ℕ × V) → ℕ → Option V
  map_get [] k = none
  map_get ((j, v) ∷ m) k = if j == k then some v else map_get m k

  unfoldable pub map_set : ℕ → V → List (ℕ × V) → List (ℕ × V)
  map_set k v [] = (k, v) ∷ []
  map_set k v ((j, w) ∷ m) = if j == k then (k, v) ∷ m else (j, w) ∷ map_set k v m

  pub map_get-set :
      (k j : ℕ) (v : V) (m : List (ℕ × V))
      → map_get (map_set k v m) j ≡ (if k == j then some v else map_get m j)
  unfolding map_get map_set
  map_get-set k j v [] = ground arith
  map_get-set k j v ((i, w) ∷ m) = ground (arith, map_get-set k j v m)
