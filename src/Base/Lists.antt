-- ===== src/Base/Lists.antt =====
-- Lists measured and indexed by native numbers, under the library's names.
use Prim.Native.Nat.{ℕ, zero, suc, ◌+◌, ◌≤◌}
use mathlib.Core.Path.{◌≡◌, refl}
use mathlib.Core.Bool.{Bool, true, false}
use mathlib.Core.List.{List, [], ◌∷◌, ◌++◌}
use mathlib.Core.Option.{Option, none, some}
use native.Mathlib.Omega.{arith}

module _ {ℓ} {A : Type ℓ} where
  abbrev pub length : List A → ℕ
  length [] = 0
  length (x ∷ xs) = suc (length xs)

  abbrev pub get_elem? : List A → ℕ → Option A
  get_elem? [] i = none
  get_elem? (x ∷ xs) zero = some x
  get_elem? (x ∷ xs) (suc i) = get_elem? xs i

  abbrev pub get_or : List A → ℕ → A → A
  get_or [] i d = d
  get_or (x ∷ xs) zero d = x
  get_or (x ∷ xs) (suc i) d = get_or xs i d

  abbrev pub take : ℕ → List A → List A
  take zero xs = []
  take (suc n) [] = []
  take (suc n) (x ∷ xs) = x ∷ take n xs

  abbrev pub replicate : ℕ → A → List A
  replicate zero a = []
  replicate (suc n) a = a ∷ replicate n a

  pub length-append : (xs ys : List A) → length (xs ++ ys) ≡ length xs + length ys
  length-append [] ys = omega arith
  length-append (x ∷ xs) ys = omega (arith, length-append xs ys)

module _ {ℓ κ} {A : Type ℓ} where
  -- A predicate that holds of every element, by recursion so that it computes.
  abbrev pub All : (A → Type κ) → List A → Type κ
  All P [] = Unit
  All P (x ∷ xs) = P x × All P xs

module _ {ℓ} {A : Type ℓ} where
  -- Python's list comprehension with a test.
  abbrev pub keep : (A → Bool) → List A → List A
  keep p [] = []
  keep p (x ∷ xs) = let rest = keep p xs in elim (p x) [ true ↦ x ∷ rest | false ↦ rest ]

module _ {ℓ} {A : Type ℓ} (p : A → Bool) where
  pub keep-append : (xs ys : List A) → keep p (xs ++ ys) ≡ keep p xs ++ keep p ys
  keep-append [] ys = refl
  keep-append (x ∷ xs) ys = ground (arith, keep-append xs ys)

module _ {ℓ} {A : Type ℓ} where
  -- Keeping by a stricter test after a weaker one is keeping by the stricter.
  pub keep-keep :
      (p q : A → Bool)
      → ((x : A) → q x ≡ true → p x ≡ true)
      → (xs : List A) → keep q (keep p xs) ≡ keep q xs
  keep-keep p q sub [] = refl
  keep-keep p q sub (x ∷ xs) = ground (arith, keep-keep p q sub xs, sub x)

module _ {ℓ κ} {A : Type ℓ} (P : A → Type κ) where
  pub All-append : (xs ys : List A) → All P xs → All P ys → All P (xs ++ ys)
  All-append [] ys h k = k
  All-append (x ∷ xs) ys h k = (h.0, All-append xs ys h.1 k)

  pub All-append_split : (xs ys : List A) → All P (xs ++ ys) → All P xs × All P ys
  All-append_split [] ys h = (tt, h)
  All-append_split (x ∷ xs) ys h = let rest = All-append_split xs ys h.1 in ((h.0, rest.0), rest.1)

  pub All-keep : (p : A → Bool) (xs : List A) → All P xs → All P (keep p xs)
  All-keep p [] h = tt
  All-keep p (x ∷ xs) h =
      elim (p x) as (λ b. All P (elim b [ true ↦ x ∷ keep p xs | false ↦ keep p xs ])) [
        | true ↦ (h.0, All-keep p xs h.1)
        | false ↦ All-keep p xs h.1
      ]

-- Numbers in an order that never falls.
abbrev pub IsSorted : List ℕ → Type 0
IsSorted [] = Unit
IsSorted (x ∷ xs) = All (λ y. x ≤ y) xs × IsSorted xs

pub IsSorted-append_split :
    (xs ys : List ℕ)
    → IsSorted (xs ++ ys)
    → IsSorted xs × IsSorted ys × All (λ x. All (λ y. x ≤ y) ys) xs
IsSorted-append_split [] ys h = (tt, h, tt)
IsSorted-append_split (x ∷ xs) ys h =
    let rest = IsSorted-append_split xs ys h.1 in
    let bounds = All-append_split (λ y. x ≤ y) xs ys h.0 in
    ((bounds.0, rest.0), rest.1, (bounds.1, rest.2))

pub IsSorted-append :
    (xs ys : List ℕ)
    → IsSorted xs
    → IsSorted ys
    → All (λ x. All (λ y. x ≤ y) ys) xs
    → IsSorted (xs ++ ys)
IsSorted-append [] ys h k b = k
IsSorted-append (x ∷ xs) ys h k b =
    (All-append (λ y. x ≤ y) xs ys h.0 b.0, IsSorted-append xs ys h.1 k b.1)

pub IsSorted-keep : (p : ℕ → Bool) (xs : List ℕ) → IsSorted xs → IsSorted (keep p xs)
IsSorted-keep p [] h = tt
IsSorted-keep p (x ∷ xs) h =
    elim (p x) as (λ b. IsSorted (elim b [ true ↦ x ∷ keep p xs | false ↦ keep p xs ])) [
      | true ↦ (All-keep (λ y. x ≤ y) p xs h.0, IsSorted-keep p xs h.1)
      | false ↦ IsSorted-keep p xs h.1
    ]
