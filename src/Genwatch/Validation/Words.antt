-- ===== src/Genwatch/Validation/Words.antt =====
-- The words that the registers of a map occupy (`validate_register_map` of
-- GenWatch-main/backend/genwatch/modbus/registers.py).
use complete_gen_project.Base.{
  ℕ, zero, suc, ◌+◌, ◌≡◌, ◌≢◌, ◌≤◌, ◌<◌, ◌⊎◌, inl, inr, ◌∙◌, refl, ap, subst, Bool-cases, Option,
  none, some, List, [], ◌∷◌, ◌++◌, ◌==◌, arith, max, leb, leb→le,
}
use complete_gen_project.Genwatch.Validation.{MapError, Occupied, occupy, word_error, check_words}

pub append-nil_split : (xs ys : List MapError) → xs ++ ys ≡ [] → (xs ≡ []) × (ys ≡ [])
append-nil_split [] ys h = (refl, h)
append-nil_split (x ∷ xs) ys h = cc

-- The word is free, or has the name already.
abbrev pub IsFree : ℕ → Option ℕ → Type 0
IsFree n o = (o ≡ none) ⊎ (o ≡ some n)

word_error-IsFree : (n w : ℕ) (o : Option ℕ) → word_error n w o ≡ [] → IsFree n o
word_error-IsFree n w none h = inl refl
word_error-IsFree n w (some p) h = elim (Bool-cases (p == n)) [
  | inl same ↦ inr (ap some (ground arith))
  | inr other ↦ absurd (ground arith)
]

pub occupied-other :
    (k w n : ℕ) (occ : Occupied) (v : ℕ)
    → (v < w) ⊎ (w + k ≤ v)
    → (check_words k w n occ).1 v ≡ occ v
unfolding check_words
occupied-other zero w n occ v out = refl
occupied-other (suc k) w n occ v out =
    occupied-other k (w + 1) n (occupy w n occ) v (ground arith) ∙ ground arith

pub occupied-in :
    (k w n : ℕ) (occ : Occupied) (v : ℕ) → w ≤ v → v < w + k → (check_words k w n occ).1 v ≡ some n
unfolding check_words
occupied-in zero w n occ v lo hi = absurd (omega arith)
occupied-in (suc k) w n occ v lo hi = elim (Bool-cases (v == w)) [
  | inl same ↦ occupied-other k (w + 1) n (occupy w n occ) v (inl (ground arith)) ∙ ground arith
  | inr other ↦ occupied-in k (w + 1) n (occupy w n occ) v (ground arith) (omega arith)
]

pub clean-IsFree :
    (k w n : ℕ) (occ : Occupied)
    → (check_words k w n occ).0 ≡ []
    → (v : ℕ) → w ≤ v
    → v < w + k
    → IsFree n (occ v)
unfolding check_words
clean-IsFree zero w n occ h v lo hi = absurd (omega arith)
clean-IsFree (suc k) w n occ h v lo hi =
    let (here, later) = append-nil_split (word_error n w (occ w)) _ h in
    elim (Bool-cases (v == w)) [
      | inl same ↦
          let e : w ≡ v = ground arith in
          subst (λ (u : ℕ). IsFree n (occ u)) e (word_error-IsFree n w (occ w) here)
      | inr other ↦
          subst (IsFree n) (ground arith)
            (clean-IsFree k (w + 1) n (occupy w n occ) later v (ground arith) (omega arith))
    ]

-- Two ranges of words with different names do not meet, if the first has its words and the second is
-- free.
pub apart_lem :
    (occ : Occupied) (p r a k b l : ℕ)
    → p ≢ r
    → 1 ≤ k
    → 1 ≤ l
    → ((v : ℕ) → a ≤ v → v < a + k → occ v ≡ some p)
    → ((v : ℕ) → b ≤ v → v < b + l → IsFree r (occ v))
    → (a + k ≤ b) ⊎ (b + l ≤ a)
apart_lem occ p r a k b l ne pk pl held free = elim (Bool-cases (leb (a + k) b)) [
  | inl before ↦ inl (leb→le (a + k) b before)
  | inr over ↦ elim (Bool-cases (leb (b + l) a)) [
    | inl behind ↦ inr (leb→le (b + l) a behind)
    | inr under ↦ absurd (meet (ground arith) (ground arith))
  ]
]
  where
    clash : (o : Option ℕ) → o ≡ some p → IsFree r o → ⊥
    clash o h (inl e) = cc
    clash o h (inr e) = ground arith

    meet : b < a + k → a < b + l → ⊥
    meet h j =
        clash (occ (max a b)) (held (max a b) (omega arith) (omega arith))
          (free (max a b) (omega arith) (omega arith))
