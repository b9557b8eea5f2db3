-- ===== src/Common/Dict.antt =====
-- A `HashMap` or `HashSet` keyed by numbers (ids), as an association list: `get`, `contains_key`,
-- `insert`, and the `entry(k).or_insert(0) += d` idiom.
use Prim.Native.Nat.{ℕ}
use mathlib.Core.Path.{◌≡◌}
use mathlib.Core.Bool.{Bool, true, false}
use mathlib.Core.Option.{Option, none, some}
use mathlib.Core.List.{List, [], ◌∷◌}
use native.Mathlib.Omega.{arith}
use vector_ledger.Common.Tests.{◌==◌, if◌then◌else◌, is_some, unwrap_or}
use vector_ledger.Common.Int.{ℤ, pos, ◌+ℤ◌}

abbrev pub Dict {ℓ} : Type ℓ → Type ℓ
Dict V = List (ℕ × V)

module _ {ℓ} {V : Type ℓ} where
  unfoldable pub lookup : ℕ → Dict V → Option V
  lookup k [] = none
  lookup k ((j, v) ∷ d) = if k == j then some v else lookup k d

  unfoldable pub insert : ℕ → V → Dict V → Dict V
  insert k v [] = (k, v) ∷ []
  insert k v ((j, w) ∷ d) = if k == j then (k, v) ∷ d else (j, w) ∷ insert k v d

  -- `HashMap::remove`: every pair of the key goes; `insert` keeps at most one.
  unfoldable pub remove : ℕ → Dict V → Dict V
  remove k [] = []
  remove k ((j, v) ∷ d) = let rest = remove k d in if k == j then rest else (j, v) ∷ rest

  -- `entry(k).or_default()`, the default given.
  unfoldable pub or_default : V → ℕ → Dict V → Dict V
  unfolding lookup insert
  or_default v k d = if is_some (lookup k d) then d else insert k v d

  abbrev pub contains_key : ℕ → Dict V → Bool
  contains_key k d = is_some (lookup k d)

  pub lookup-insert :
      (k j : ℕ) (v : V) (d : Dict V)
      → lookup j (insert k v d) ≡ (if j == k then some v else lookup j d)
  unfolding lookup insert
  lookup-insert k j v [] = ground arith
  lookup-insert k j v ((i, w) ∷ d) = ground (arith, lookup-insert k j v d)

module _ {ℓ} {V : Type ℓ} where
  pub lookup-remove :
      (k j : ℕ) (d : Dict V) → lookup j (remove k d) ≡ (if j == k then none else lookup j d)
  unfolding lookup remove
  lookup-remove k j [] = ground arith
  lookup-remove k j ((i, w) ∷ d) = ground (arith, lookup-remove k j d)

  pub lookup-or_default :
      (v : V) (k j : ℕ) (d : Dict V)
      → lookup j (or_default v k d)
        ≡ (if j == k then some (unwrap_or (lookup k d) v) else lookup j d)
  unfolding or_default
  lookup-or_default v k j d = ground (arith, lookup-insert k j v d)

-- `*d.entry(k).or_insert(0) += x`.
unfoldable pub add_at : ℕ → ℤ → Dict ℤ → Dict ℤ
unfolding lookup insert
add_at k x d = insert k (unwrap_or (lookup k d) (pos 0) +ℤ x) d

-- `d.get(k).copied().unwrap_or(0)`.
unfoldable pub value_at : ℕ → Dict ℤ → ℤ
unfolding lookup
value_at k d = unwrap_or (lookup k d) (pos 0)

pub value_at-add_at :
    (k j : ℕ) (x : ℤ) (d : Dict ℤ)
    → value_at j (add_at k x d) ≡ (if j == k then value_at j d +ℤ x else value_at j d)
unfolding value_at add_at
value_at-add_at k j x d = ground (arith, lookup-insert k j (unwrap_or (lookup k d) (pos 0) +ℤ x) d)

-- A `HashSet` of ids.
unfoldable pub member : ℕ → List ℕ → Bool
member k [] = false
member k (j ∷ s) = if k == j then true else member k s

abbrev pub set_insert : ℕ → List ℕ → List ℕ
set_insert k s = if member k s then s else k ∷ s

unfoldable pub set_remove : ℕ → List ℕ → List ℕ
set_remove k [] = []
set_remove k (j ∷ s) = let rest = set_remove k s in if k == j then rest else j ∷ rest

pub member-set_insert :
    (k j : ℕ) (s : List ℕ) → member j (set_insert k s) ≡ (if j == k then true else member j s)
unfolding member
member-set_insert k j s = ground (arith, member_of_eq)
  where
    member_of_eq : j ≡ k → member k s ≡ true → member j s ≡ true
    member_of_eq e h = ground arith

pub member-set_remove :
    (k j : ℕ) (s : List ℕ) → member j (set_remove k s) ≡ (if j == k then false else member j s)
unfolding member set_remove
member-set_remove k j [] = ground arith
member-set_remove k j (i ∷ s) = ground (arith, member-set_remove k j s)
