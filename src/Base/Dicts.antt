-- ===== src/Base/Dicts.antt =====
-- Python dictionaries with numbers as keys, in the order of insertion.
use Prim.Native.Nat.{ℕ, ◌+◌, ◌≤◌, ◌<◌}
use mathlib.Core.Path.{◌≡◌, refl}
use mathlib.Core.Bool.{true, false}
use mathlib.Core.List.{List, [], ◌∷◌}
use mathlib.Core.Option.{Option, none, some}
use native.Mathlib.Omega.{arith}
use mathlib.Core.Logic.{inl, inr}
use complete_gen_project.Base.Tests.{◌==◌, if◌then◌else◌, Bool-cases}
use complete_gen_project.Base.Lists.{length}

-- An entry is a key with its value.
abbrev pub Dict {ℓ} : Type ℓ → Type ℓ
Dict A = List (ℕ × A)

module _ {ℓ} {A : Type ℓ} where
  abbrev pub count_some : Option A → ℕ
  count_some none = 0
  count_some (some v) = 1

  -- `d.pop(k, None)`, without its result.
  unfoldable pub remove : ℕ → Dict A → Dict A
  remove k [] = []
  remove k ((j, v) ∷ d) = let rest = remove k d in if j == k then rest else (j, v) ∷ rest

  unfoldable pub lookup : ℕ → Dict A → Option A
  lookup k [] = none
  lookup k ((j, v) ∷ d) = if j == k then some v else lookup k d

  -- `d[k] = v`
  unfoldable pub insert : ℕ → A → Dict A → Dict A
  insert k v [] = (k, v) ∷ []
  insert k v ((j, w) ∷ d) = let rest = insert k v d in if j == k then (k, v) ∷ d else (j, w) ∷ rest

  pub lookup-remove :
      (k j : ℕ) (d : Dict A) → lookup j (remove k d) ≡ (if k == j then none else lookup j d)
  unfolding lookup remove
  lookup-remove k j [] = ground arith
  lookup-remove k j ((i, v) ∷ d) = ground (arith, lookup-remove k j d)

  pub lookup-insert :
      (k j : ℕ) (v : A) (d : Dict A)
      → lookup j (insert k v d) ≡ (if k == j then some v else lookup j d)
  unfolding lookup insert
  lookup-insert k j v [] = ground arith
  lookup-insert k j v ((i, w) ∷ d) = ground (arith, lookup-insert k j v d)

  pub length-remove : (k : ℕ) (d : Dict A) → length (remove k d) ≤ length d
  unfolding remove
  length-remove k [] = omega arith
  length-remove k ((i, v) ∷ d) = ground (arith, length-remove k d)

  pub length-remove_lt :
      (k : ℕ) (d : Dict A) (v : A) → lookup k d ≡ some v → length (remove k d) < length d
  unfolding lookup remove
  length-remove_lt k [] v h = cc
  length-remove_lt k ((i, w) ∷ d) v h = ground (arith, length-remove k d, length-remove_lt k d v)

  -- No key stands twice.
  abbrev pub IsUnique : Dict A → Type ℓ
  IsUnique [] = Unit
  IsUnique ((k, v) ∷ d) = (lookup k d ≡ none) × IsUnique d

  lookup-remove-none : (k j : ℕ) (d : Dict A) → lookup j d ≡ none → lookup j (remove k d) ≡ none
  lookup-remove-none k j d h = ground (arith, lookup-remove k j d)

  pub IsUnique-remove : (k : ℕ) (d : Dict A) → IsUnique d → IsUnique (remove k d)
  unfolding remove
  IsUnique-remove k [] h = tt
  IsUnique-remove k ((j, v) ∷ d) h =
      elim (j == k) as (λ b. IsUnique (if b then remove k d else (j, v) ∷ remove k d)) [
        | true ↦ IsUnique-remove k d h.1
        | false ↦ (lookup-remove-none k j d h.0, IsUnique-remove k d h.1)
      ]

  lookup-insert-none :
      (k j : ℕ) (v : A) (d : Dict A)
      → (j == k) ≡ false
      → lookup j d ≡ none
      → lookup j (insert k v d) ≡ none
  lookup-insert-none k j v d ne h = ground (arith, lookup-insert k j v d)

  pub IsUnique-insert : (k : ℕ) (v : A) (d : Dict A) → IsUnique d → IsUnique (insert k v d)
  unfolding insert lookup
  IsUnique-insert k v [] h = (refl, tt)
  IsUnique-insert k v ((j, w) ∷ d) h = elim (Bool-cases (j == k)) [
    | inl same ↦ rw same (same_key same, h.1)
    | inr other ↦ rw other (lookup-insert-none k j v d other h.0, IsUnique-insert k v d h.1)
  ]
    where
      same_key : (j == k) ≡ true → lookup k d ≡ none
      same_key same = ground (arith, h.0)

  pub length-insert : (k : ℕ) (v : A) (d : Dict A) → length (insert k v d) ≤ length d + 1
  unfolding insert
  length-insert k v [] = omega arith
  length-insert k v ((i, w) ∷ d) = ground (arith, length-insert k v d)

  -- 1 where the key is there.
  abbrev pub presence : ℕ → Dict A → ℕ
  presence k d = count_some (lookup k d)

  pub presence-remove-le : (k j : ℕ) (d : Dict A) → presence j (remove k d) ≤ presence j d
  presence-remove-le k j d = ground (arith, lookup-remove k j d)

  pub presence-insert-le :
      (k j : ℕ) (v : A) (d : Dict A)
      → presence j (insert k v d) ≤ presence j d + (if k == j then 1 else 0)
  presence-insert-le k j v d = ground (arith, lookup-insert k j v d)
