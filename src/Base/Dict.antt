-- ===== src/Base/Dict.antt =====
-- A Python dict keyed by numbers, in insertion order.
use Prim.Native.Nat.{ℕ, ◌+◌}
use mathlib.Core.Path.{◌≡◌}
use mathlib.Core.List.{List, [], ◌∷◌}
use mathlib.Core.Option.{Option, none, some}
use native.Mathlib.Omega.{arith}
use adk_poker.Base.Tests.{◌==◌, if◌then◌else◌}

abbrev pub Dict {ℓ} : Type ℓ → Type ℓ
Dict V = List (ℕ × V)

module _ {ℓ} {V : Type ℓ} where
  -- `d.get(k)`
  abbrev pub lookup : ℕ → Dict V → Option V
  lookup k [] = none
  lookup k ((j, v) ∷ d) = let rest = lookup k d in if j == k then some v else rest

  -- `d[k] = v`
  abbrev pub insert : ℕ → V → Dict V → Dict V
  insert k v [] = (k, v) ∷ []
  insert k v ((j, w) ∷ d) = let rest = insert k v d in if j == k then (j, v) ∷ d else (j, w) ∷ rest

  abbrev pub keys : Dict V → List ℕ
  keys [] = []
  keys ((k, _) ∷ d) = k ∷ keys d

  abbrev pub values : Dict V → List V
  values [] = []
  values ((_, v) ∷ d) = v ∷ values d

-- The sum of the values.
abbrev pub total : Dict ℕ → ℕ
total [] = 0
total ((_, v) ∷ d) = v + total d

-- `d.get(k, 0)`
abbrev pub get_or_zero : ℕ → Dict ℕ → ℕ
get_or_zero k [] = 0
get_or_zero k ((j, v) ∷ d) = let rest = get_or_zero k d in if j == k then v else rest

-- `d[k] = d.get(k, 0) + v` adds `v` to the sum of the values.
pub total-insert_add :
    (k v : ℕ) (d : Dict ℕ) → total (insert k (get_or_zero k d + v) d) ≡ total d + v
total-insert_add k v [] = omega arith
total-insert_add k v ((j, w) ∷ d) = ground (arith, total-insert_add k v d)
