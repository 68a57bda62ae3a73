-- ===== src/Prelude/Dict.antt =====
-- Python's `dict` with text keys, in insertion order.
use Prim.Native.Nat.{ℕ, ◌+◌, ◌≤◌}
use Prim.Native.String.{String}
use mathlib.Core.Path.{◌≡◌, refl}
use mathlib.Core.Bool.{Bool, true}
use mathlib.Core.Option.{Option, none, some}
use mathlib.Core.List.{List, [], ◌∷◌}
use native.Mathlib.Omega.{arith}
use text.Mathlib.Text.{◌==◌}
use text.Mathlib.TextEquality.{eq_iff}
use unify_llm.Prelude.Tests.{if◌then◌else◌, is_some}
use unify_llm.Prelude.Lists.{length}

abbrev pub Dict {ℓ} : Type ℓ → Type ℓ
Dict V = List (String × V)

module _ {ℓ} {V : Type ℓ} where
  -- `d.get(k)`
  unfoldable pub lookup : String → Dict V → Option V
  lookup k [] = none
  lookup k ((j, v) ∷ d) = if j == k then some v else lookup k d

  -- `d[k] = v`: a key keeps its place, a new one goes to the end.
  unfoldable pub insert : String → V → Dict V → Dict V
  insert k v [] = (k, v) ∷ []
  insert k v ((j, w) ∷ d) = if j == k then (j, v) ∷ d else (j, w) ∷ insert k v d

  -- `del d[k]`, `d.pop(k, None)`; the keys of a dict are distinct.
  unfoldable pub erase : String → Dict V → Dict V
  erase k [] = []
  erase k ((j, w) ∷ d) = let rest = erase k d in if j == k then rest else (j, w) ∷ rest

  -- `k in d`
  abbrev pub contains : String → Dict V → Bool
  contains k d = is_some (lookup k d)

  -- No key is listed twice.
  abbrev pub IsDict : Dict V → Type ℓ
  IsDict [] = Unit
  IsDict ((k, v) ∷ d) = (lookup k d ≡ none) × IsDict d

  pub lookup-insert :
      (k j : String) (v : V) (d : Dict V)
      → lookup j (insert k v d) ≡ (if k == j then some v else lookup j d)
  unfolding lookup insert
  lookup-insert k j v [] = refl
  lookup-insert k j v ((i, w) ∷ d) =
      ground (arith, eq_iff k j, eq_iff i k, eq_iff i j, lookup-insert k j v d)

  pub lookup-erase :
      (k j : String) (d : Dict V) → lookup j (erase k d) ≡ (if k == j then none else lookup j d)
  unfolding lookup erase
  lookup-erase k j [] = ground arith
  lookup-erase k j ((i, w) ∷ d) =
      ground (arith, eq_iff k j, eq_iff i k, eq_iff i j, lookup-erase k j d)

  pub insert-IsDict : (k : String) (v : V) (d : Dict V) → IsDict d → IsDict (insert k v d)
  unfolding lookup insert
  insert-IsDict k v [] h = (refl, tt)
  insert-IsDict k v ((i, w) ∷ d) h =
      ground (arith, eq_iff k i, eq_iff i k, insert-IsDict k v d h.1, lookup-insert k i v d)

  pub erase-IsDict : (k : String) (d : Dict V) → IsDict d → IsDict (erase k d)
  unfolding lookup erase
  erase-IsDict k [] h = tt
  erase-IsDict k ((i, w) ∷ d) h =
      ground (arith, eq_iff k i, eq_iff i k, erase-IsDict k d h.1, lookup-erase k i d)

  pub length-insert : (k : String) (v : V) (d : Dict V) → length (insert k v d) ≤ length d + 1
  unfolding insert
  length-insert k v [] = omega arith
  length-insert k v ((i, w) ∷ d) = ground (arith, length-insert k v d)

  pub length-erase_le : (k : String) (d : Dict V) → length (erase k d) ≤ length d
  unfolding erase
  length-erase_le k [] = omega arith
  length-erase_le k ((i, w) ∷ d) = ground (arith, length-erase_le k d)

  -- A key that is not there is not erased.
  pub erase-absent : (k : String) (d : Dict V) → lookup k d ≡ none → erase k d ≡ d
  unfolding lookup erase
  erase-absent k [] h = refl
  erase-absent k ((i, w) ∷ d) h = ground (arith, erase-absent k d)

  pub length-erase :
      (k : String) (d : Dict V) → IsDict d → contains k d ≡ true → length (erase k d) + 1 ≡ length d
  unfolding lookup erase
  length-erase k [] h c = cc
  length-erase k ((i, w) ∷ d) h c =
      ground (arith, eq_iff i k, erase-absent k d, length-erase k d h.1)

  pub length-insert_known :
      (k : String) (v : V) (d : Dict V) → contains k d ≡ true → length (insert k v d) ≡ length d
  unfolding lookup insert
  length-insert_known k v [] h = cc
  length-insert_known k v ((i, w) ∷ d) h = ground (arith, length-insert_known k v d)

  -- The sum of a number over the values.
  abbrev pub sum_by : (V → ℕ) → Dict V → ℕ
  sum_by f [] = 0
  sum_by f ((k, v) ∷ d) = f v + sum_by f d

  abbrev pub of_value : (V → ℕ) → Option V → ℕ
  of_value f none = 0
  of_value f (some v) = f v

  pub sum_by-insert :
      (f : V → ℕ) (k : String) (v : V) (d : Dict V)
      → sum_by f (insert k v d) + of_value f (lookup k d) ≡ sum_by f d + f v
  unfolding lookup insert
  sum_by-insert f k v [] = omega arith
  sum_by-insert f k v ((i, w) ∷ d) = ground (arith, sum_by-insert f k v d)

  pub sum_by-lookup : (f : V → ℕ) (k : String) (d : Dict V) → of_value f (lookup k d) ≤ sum_by f d
  unfolding lookup
  sum_by-lookup f k [] = omega arith
  sum_by-lookup f k ((i, w) ∷ d) = ground (arith, sum_by-lookup f k d)

module _ {ℓ κ} {V : Type ℓ} (P : V → Type κ) where
  -- Every value is as asked.
  abbrev pub AllValues : Dict V → Type κ
  AllValues [] = Unit
  AllValues ((k, v) ∷ d) = P v × AllValues d

  pub AllValues-lookup : (k : String) (d : Dict V) (v : V) → AllValues d → lookup k d ≡ some v → P v
  unfolding lookup
  AllValues-lookup k [] v h e = cc
  AllValues-lookup k ((i, w) ∷ d) v h e = ground (arith, AllValues-lookup k d v h.1)

  pub AllValues-insert :
      (k : String) (v : V) (d : Dict V) → P v → AllValues d → AllValues (insert k v d)
  unfolding insert
  AllValues-insert k v [] p h = (p, tt)
  AllValues-insert k v ((i, w) ∷ d) p h = ground (arith, AllValues-insert k v d p h.1)
