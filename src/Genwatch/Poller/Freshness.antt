-- ===== src/Genwatch/Poller/Freshness.antt =====
-- What a reading holds after a poll (`_poll_tier` and `_fallback_singles` of
-- GenWatch-main/backend/genwatch/modbus/poller.py).
use complete_gen_project.Base.{
  ℕ, zero, suc, ◌+◌, ◌-◌, ◌*◌, ◌<◌, ◌≡◌, refl, Bool, true, false, not, Option, none, some, List, [],
  ◌∷◌, ◌==◌, if◌then◌else◌, arith, All, Bool-cases, inl, inr, get_elem?, subst,
}
use complete_gen_project.Base.Dicts.{Dict, lookup, lookup-insert, lookup-remove}
use complete_gen_project.Genwatch.Alarms.{is_member}
use complete_gen_project.Genwatch.Registers.{Value}
use complete_gen_project.Genwatch.Poller.Health.{CommsHealth}
use complete_gen_project.Genwatch.Poller.Tier.{
  TierRegister, Answer, next_answer, single_word, FanOut, add_single, fallback_loop, BatchResult,
  Reading, store_value, decode_register, decode_tier, is_too_old, evict_register, evict_tier,
  TierMap, read_batches, poll_tier,
}

abbrev pub is_present {ℓ} : {A : Type ℓ} → Option A → Bool
is_present none = false
is_present (some a) = true

-- Every value has the time of its decoding, and the reverse.
abbrev pub IsStamped : Reading → Type 0
IsStamped d = (n : ℕ) → is_present (lookup n d.values) ≡ is_present (lookup n d.value_ages)

store_value-IsStamped :
    (name now : ℕ) (o : Option Value) (d : Reading)
    → IsStamped d
    → IsStamped (store_value name now o d)
store_value-IsStamped name now none d h = h
store_value-IsStamped name now (some v) d h =
    λ n. ground (arith, h n, lookup-insert name n v d.values, lookup-insert name n now d.value_ages)

decode_tier-IsStamped :
    (now : ℕ) (results : List BatchResult) (rs : List TierRegister) (d : Reading)
    → IsStamped d
    → IsStamped (decode_tier now results rs d)
unfolding decode_tier
decode_tier-IsStamped now results [] d h = h
decode_tier-IsStamped now results (r ∷ rs) d h =
    decode_tier-IsStamped now results rs _
      (store_value-IsStamped r.name now (decode_register r.reg results) d h)

-- Not decoded, or decoded less than the threshold ago.
abbrev pub IsYoung : ℕ → ℕ → Option ℕ → Type 0
IsYoung now threshold none = Unit
IsYoung now threshold (some age) = now - age < threshold

same_name : (name : ℕ) → (name == name) ≡ true
same_name name = ground arith

module _ (now threshold : ℕ) where
  evict_register-IsStamped :
      (name : ℕ) (d : Reading) → IsStamped d → IsStamped (evict_register now threshold name d)
  unfolding evict_register
  evict_register-IsStamped name d h n =
      elim (Bool-cases (is_too_old now threshold (lookup name d.value_ages))) [
        | inl old ↦
            rw old (
              ground (arith, h n, lookup-remove name n d.values, lookup-remove name n d.value_ages))
        | inr young ↦ rw young (h n)
      ]

  young_lem : (o : Option ℕ) → is_too_old now threshold o ≡ false → IsYoung now threshold o
  young_lem none h = tt
  young_lem (some age) h = ground arith

  removed-IsYoung :
      (name n : ℕ) (ages : Dict ℕ)
      → IsYoung now threshold (lookup n ages)
      → IsYoung now threshold (if name == n then none else lookup n ages)
  removed-IsYoung name n ages h = elim (Bool-cases (name == n)) [
    | inl same ↦ rw same tt
    | inr other ↦ rw other h
  ]

  evict_register-IsYoung :
      (name n : ℕ) (d : Reading)
      → IsYoung now threshold (lookup n d.value_ages)
      → IsYoung now threshold (lookup n (evict_register now threshold name d).value_ages)
  unfolding evict_register
  evict_register-IsYoung name n d h =
      elim (Bool-cases (is_too_old now threshold (lookup name d.value_ages))) [
        | inl old ↦
            rw old (rw (lookup-remove name n d.value_ages) (removed-IsYoung name n d.value_ages h))
        | inr young ↦ rw young h
      ]

  evicted-IsYoung :
      (name : ℕ) (d : Reading)
      → IsYoung now threshold (lookup name (evict_register now threshold name d).value_ages)
  unfolding evict_register
  evicted-IsYoung name d = elim (Bool-cases (is_too_old now threshold (lookup name d.value_ages))) [
    | inl old ↦ rw old (rw (lookup-remove name name d.value_ages) (gone (lookup name d.value_ages)))
    | inr young ↦ rw young (young_lem (lookup name d.value_ages) young)
  ]
    where
      gone : (o : Option ℕ) → IsYoung now threshold (if name == name then none else o)
      gone o = rw (same_name name) tt

  evict_tier-IsYoung :
      (rs : List TierRegister) (n : ℕ) (d : Reading)
      → IsYoung now threshold (lookup n d.value_ages)
      → IsYoung now threshold (lookup n (evict_tier now threshold rs d).value_ages)
  unfolding evict_tier
  evict_tier-IsYoung [] n d h = h
  evict_tier-IsYoung (r ∷ rs) n d h =
      evict_tier-IsYoung rs n _ (evict_register-IsYoung r.name n d h)

  evict_tier-All :
      (rs : List TierRegister) (d : Reading)
      → All
          (λ r. IsYoung now threshold (lookup r.name (evict_tier now threshold rs d).value_ages))
          rs
  unfolding evict_tier
  evict_tier-All [] d = tt
  evict_tier-All (r ∷ rs) d =
      (evict_tier-IsYoung rs r.name _ (evicted-IsYoung r.name d), evict_tier-All rs _)

  evict_tier-IsStamped :
      (rs : List TierRegister) (d : Reading)
      → IsStamped d
      → IsStamped (evict_tier now threshold rs d)
  unfolding evict_tier
  evict_tier-IsStamped [] d h = h
  evict_tier-IsStamped (r ∷ rs) d h =
      evict_tier-IsStamped rs _ (evict_register-IsStamped r.name d h)

-- Whatever the reads of a poll answer, the reading after it has a time for each value, and no value of a
-- register of the tier that was decoded three cadences ago or more.
pub poll_tier-IsYoung :
    (m : TierMap) (b : ℕ × ℕ) (bs : List (ℕ × ℕ)) (now : ℕ) (answers : List Answer)
    (h : CommsHealth) (d : Reading)
    → IsStamped d
    → let d' = (poll_tier m (b ∷ bs) now answers h d).reading in
      IsStamped d'
      × All (λ r. IsYoung now (m.cadence_ms * 3) (lookup r.name d'.value_ages)) m.registers
unfolding poll_tier
poll_tier-IsYoung m b bs now answers h d stamped =
    let run = read_batches now (b ∷ bs) answers h in
    let decoded = decode_tier now run.results m.registers d in
    (
      evict_tier-IsStamped now (m.cadence_ms * 3) m.registers decoded
          (decode_tier-IsStamped now run.results m.registers d stamped),
      evict_tier-All now (m.cadence_ms * 3) m.registers decoded,
    )

-- The answer to the read at an offset; there is none once the client has no more.
abbrev pub answer_at : ℕ → List Answer → Option ℕ
answer_at i [] = none
answer_at zero (a ∷ rest) = single_word a
answer_at (suc i) (a ∷ rest) = answer_at i rest

first_answer : (answers : List Answer) → answer_at 0 answers ≡ single_word (next_answer answers).0
first_answer [] = refl
first_answer (a ∷ rest) = refl

later_answer :
    (i : ℕ) (answers : List Answer)
    → answer_at (suc i) answers ≡ answer_at i (next_answer answers).1
later_answer i [] = nothing i
  where
    nothing : (i : ℕ) → none ≡ answer_at i []
    nothing i = refl
later_answer i (a ∷ rest) = refl

add_single-below :
    (offset k : ℕ) (o : Option ℕ) (f : FanOut)
    → k < offset
    → is_member k f.failed ≡ false
    → is_member k (add_single offset o f).failed ≡ false
add_single-below offset k none f h e = ground arith
add_single-below offset k (some w) f h e = e

fallback_loop-below :
    (count offset k : ℕ) (answers : List Answer)
    → k < offset
    → is_member k (fallback_loop count offset answers).failed ≡ false
unfolding fallback_loop
fallback_loop-below zero offset k answers h = refl
fallback_loop-below (suc count) offset k answers h =
    add_single-below offset k _ _ h
      (fallback_loop-below count (offset + 1) k (next_answer answers).1 (omega arith))

-- What an offset of a fan-out has, for the answer of its read.
abbrev Fits : ℕ → ℕ → Option ℕ → FanOut → Type 0
Fits k i o f =
    (is_member k f.failed ≡ not (is_present o))
    × (is_member k f.failed ≡ false → get_elem? f.words i ≡ o)

here-Fits :
    (offset : ℕ) (o : Option ℕ) (f : FanOut)
    → is_member offset f.failed ≡ false
    → Fits offset 0 o (add_single offset o f)
here-Fits offset none f e = (ground arith, λ h. ground arith)
here-Fits offset (some w) f e = (e, λ h. refl)

there-Fits :
    (offset k i : ℕ) (o p : Option ℕ) (f : FanOut)
    → offset < k
    → Fits k i p f
    → Fits k (suc i) p (add_single offset o f)
there-Fits offset k i none p f h fits = (ground (arith, fits.0), λ e. fits.1 (ground arith))
there-Fits offset k i (some w) p f h fits = fits

fallback_loop-Fits :
    (count offset i : ℕ) (answers : List Answer)
    → i < count
    → Fits (offset + i) i (answer_at i answers) (fallback_loop count offset answers)
unfolding fallback_loop
fallback_loop-Fits zero offset i answers h = absurd (omega arith)
fallback_loop-Fits (suc count) offset zero answers h =
    rw (first_answer answers, at_offset offset)
      (here-Fits offset _ _
        (fallback_loop-below count (offset + 1) offset (next_answer answers).1 (omega arith)))
  where
    at_offset : (n : ℕ) → n + 0 ≡ n
    at_offset n = omega arith
fallback_loop-Fits (suc count) offset (suc i) answers h = rw (later_answer i answers) (
    there-Fits offset (offset + suc i) i (single_word (next_answer answers).0)
      (answer_at i (next_answer answers).1)
      (fallback_loop count (offset + 1) (next_answer answers).1) (omega arith)
      (rw (next_offset offset i)
        (fallback_loop-Fits count (offset + 1) i (next_answer answers).1 (omega arith))))
  where
    next_offset : (n i : ℕ) → n + suc i ≡ n + 1 + i
    next_offset n i = omega arith

-- Of the words of a fan-out, those that are not among the failed offsets are the words that were read, and
-- an offset is among them exactly if its read failed.
fallback_loop-answer_at :
    (count i : ℕ) (answers : List Answer)
    → i < count
    → let f = fallback_loop count 0 answers in
      (is_member i f.failed ≡ not (is_present (answer_at i answers)))
      × (is_member i f.failed ≡ false → get_elem? f.words i ≡ answer_at i answers)
fallback_loop-answer_at count i answers h =
    subst (λ (k : ℕ). Fits k i (answer_at i answers) (fallback_loop count 0 answers)) (from_zero i)
      (fallback_loop-Fits count 0 i answers h)
  where
    from_zero : (n : ℕ) → 0 + n ≡ n
    from_zero n = omega arith
