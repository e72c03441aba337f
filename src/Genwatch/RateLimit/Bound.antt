-- ===== src/Genwatch/RateLimit/Bound.antt =====
-- How many attempts a bucket lets through (`check` of GenWatch-main/backend/genwatch/services/ratelimit.py).
use complete_gen_project.Base.{
  ℕ, ◌+◌, ◌-◌, ◌*◌, ◌≡◌, ◌≤◌, refl, ap, sym, ◌∙◌, true, false, Bool-cases, inl, inr, Option, none,
  some, List, [], ◌∷◌, ◌==◌, int_of_bool, arith,
}
use native.Mathlib.Nat.{add-mul, zero-mul, one-mul, mul-le-mul_right, zero-add}
use complete_gen_project.Genwatch.RateLimit.{
  Bucket, RateLimiter, Buckets, check_bucket, check, allowed_for,
}

-- The attempts come in the order of time, from `t0` to `t1`.
abbrev pub Within : ℕ → ℕ → List (ℕ × ℕ) → Type 0
Within t0 t1 [] = t0 ≤ t1
Within t0 t1 ((now, k) ∷ es) = (t0 ≤ now) × Within now t1 es

ends : (t0 t1 : ℕ) (es : List (ℕ × ℕ)) → Within t0 t1 es → t0 ≤ t1
ends t0 t1 [] h = h
ends t0 t1 ((now, k) ∷ es) h = omega (arith, ends now t1 es h.1)

module _ (l : RateLimiter) where
  spend_lem :
      (now : ℕ) (b : Bucket)
      → let r = check_bucket l now (some b) in
        (int_of_bool r.0 * l.unit + r.1.tokens ≤ b.tokens + (now - b.last) * l.refill)
        × (r.1.last ≡ now)
  unfolding check_bucket
  spend_lem now b = ground arith

  first_lem :
      (now : ℕ)
      → some (check_bucket l now none).1
        ≡ some (record { tokens = l.capacity - l.unit; last = now })
  unfolding check_bucket
  first_lem now = refl

  granted : (now : ℕ) → (check_bucket l now none).0 ≡ true
  unfolding check_bucket
  granted now = refl

  later : (t0 now t1 : ℕ) → t0 ≤ now → (t1 - now) * l.refill ≤ (t1 - t0) * l.refill
  later t0 now t1 h = mul-le-mul_right l.refill (omega arith)

  refill_lem :
      (last now t1 : ℕ)
      → last ≤ now
      → now ≤ t1
      → (now - last) * l.refill + (t1 - now) * l.refill ≡ (t1 - last) * l.refill
  refill_lem last now t1 h k =
      sym (add-mul (now - last) (t1 - now) l.refill) ∙ ap (λ (d : ℕ). d * l.refill) span
    where
      span : (now - last) + (t1 - now) ≡ t1 - last
      span = omega arith

  equal : (k key : ℕ) → (k == key) ≡ true → k ≡ key
  equal k key same = ground arith

  -- The bucket of a key after an attempt on this key, and after one on another.
  same_key :
      (now k key : ℕ) (bs : Buckets) (o : Option Bucket)
      → (k == key) ≡ true
      → bs key ≡ o
      → (check l now k bs).1 key ≡ some (check_bucket l now o).1
  unfolding check
  same_key now k key bs o same e = ground (arith, ap bs (equal k key same))

  same_verdict :
      (now k key : ℕ) (bs : Buckets) (o : Option Bucket)
      → (k == key) ≡ true
      → bs key ≡ o
      → (check l now k bs).0 ≡ (check_bucket l now o).0
  unfolding check
  same_verdict now k key bs o same e =
      ap (λ o. (check_bucket l now o).0) (ap bs (equal k key same) ∙ e)

  other_key :
      (now k key : ℕ) (bs : Buckets) → (k == key) ≡ false → (check l now k bs).1 key ≡ bs key
  unfolding check
  other_key now k key bs other = ground arith

  allowed-some :
      (key t0 t1 : ℕ) (es : List (ℕ × ℕ)) (bs : Buckets) (b : Bucket)
      → bs key ≡ some b
      → b.last ≤ t0
      → Within t0 t1 es
      → allowed_for l key es bs * l.unit ≤ b.tokens + (t1 - b.last) * l.refill
  unfolding allowed_for
  allowed-some key t0 t1 [] bs b e old h = omega (arith, zero-mul l.unit)
  allowed-some key t0 t1 ((now, k) ∷ es) bs b e old h = elim (Bool-cases (k == key)) [
    | inl same ↦
        let after = check_bucket l now (some b) in
        let rest = allowed_for l key es (check l now k bs).1 in
        let (spent, at) = spend_lem now b in
        let bound =
          allowed-some key now t1 es (check l now k bs).1 after.1
            (same_key now k key bs (some b) same e) (omega arith) h.1 in
        rw (same, same_verdict now k key bs (some b) same e)
          (omega (
            arith,
            bound,
            ap (λ (t : ℕ). (t1 - t) * l.refill) at,
            refill_lem b.last now t1 (omega arith) (ends now t1 es h.1),
            add-mul (int_of_bool after.0) rest l.unit,
          ))
    | inr other ↦
        rw (other, zero-add _)
          (allowed-some key now t1 es (check l now k bs).1 b (other_key now k key bs other ∙ e)
            (omega arith) h.1)
  ]

  -- From a state without a bucket for the key (a fresh limiter, or after its reset), in any sequence
  -- of attempts on any keys between two times, a limiter whose capacity is at least a token lets
  -- through for the key at most its capacity and what comes in between the two times.
  pub allowed_for-bound :
      (key t0 t1 : ℕ) (es : List (ℕ × ℕ)) (bs : Buckets)
      → l.unit ≤ l.capacity
      → bs key ≡ none
      → Within t0 t1 es
      → allowed_for l key es bs * l.unit ≤ l.capacity + (t1 - t0) * l.refill
  unfolding allowed_for
  allowed_for-bound key t0 t1 [] bs cap e h = omega (arith, zero-mul l.unit)
  allowed_for-bound key t0 t1 ((now, k) ∷ es) bs cap e h = elim (Bool-cases (k == key)) [
    | inl same ↦
        let rest = allowed_for l key es (check l now k bs).1 in
        let bound =
          allowed-some key now t1 es (check l now k bs).1
            (record { tokens = l.capacity - l.unit; last = now })
            (same_key now k key bs none same e ∙ first_lem now) (omega arith) h.1 in
        rw (same, same_verdict now k key bs none same e, granted now)
          (omega (arith, bound, later t0 now t1 h.0, add-mul 1 rest l.unit, one-mul l.unit))
    | inr other ↦
        rw (other, zero-add _)
          (omega (
            arith,
            later t0 now t1 h.0,
            allowed_for-bound key now t1 es (check l now k bs).1 cap
                (other_key now k key bs other ∙ e) h.1,
          ))
  ]
