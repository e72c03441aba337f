-- ===== src/Companion/Adam/Debounce/Channel.antt =====
-- When a debounced channel changes (`_Debouncer.update` of ats-pi-companion-main/src/atspi/io_adam.py).
use mathlib.Core.List.{append_assoc}
use complete_gen_project.Base.{
  ℕ, zero, suc, ◌+◌, ◌≤◌, ◌<◌, ◌≡◌, ◌⊎◌, refl, ap, sym, ◌∙◌, Bool, true, false, not, List, [], ◌∷◌,
  ◌++◌, arith, replicate, leb, Bool-cases, inl, inr,
}
use complete_gen_project.Companion.Adam.Debounce.{update_channel}

-- A channel over the readings of several cycles.
unfoldable pub run_channel : ℕ → List Bool → Bool × ℕ → Bool × ℕ
run_channel samples [] c = c
run_channel samples (level ∷ levels) c = run_channel samples levels (update_channel samples level c)

same_level : (samples n : ℕ) (v : Bool) → update_channel samples v (v, n) ≡ (v, 0)
unfolding update_channel
same_level samples n v = ground arith

contrary_low :
    (samples n : ℕ) (v : Bool)
    → n + 1 < samples
    → update_channel samples (not v) (v, n) ≡ (v, suc n)
unfolding update_channel
contrary_low samples n v h = ground arith

contrary_last :
    (samples n : ℕ) (v : Bool)
    → samples ≤ n + 1
    → update_channel samples (not v) (v, n) ≡ (not v, 0)
unfolding update_channel
contrary_last samples n v h = ground arith

accept_from :
    (samples k n : ℕ) (v : Bool)
    → suc k + n ≡ samples
    → run_channel samples (replicate (suc k) (not v)) (v, n) ≡ (not v, 0)
unfolding run_channel
accept_from samples zero n v h = rw (contrary_last samples n v (omega arith))
accept_from samples (suc k) n v h =
    ap (run_channel samples (replicate (suc k) (not v))) (contrary_low samples n v (omega arith))
    ∙ accept_from samples k (suc n) v (omega arith)

-- On a settled channel, the other level is published once it is read on `samples` cycles in a row.
run_channel_accept :
    (samples : ℕ) (v : Bool)
    → 0 < samples
    → run_channel samples (replicate samples (not v)) (v, 0) ≡ (not v, 0)
run_channel_accept zero v h = absurd (omega arith)
run_channel_accept (suc k) v h = accept_from (suc k) k 0 v (omega arith)

replicate_snoc :
    (n : ℕ) (w : Bool) (xs : List Bool) → replicate (suc n) w ++ xs ≡ replicate n w ++ w ∷ xs
replicate_snoc zero w xs = refl
replicate_snoc (suc n) w xs = ap (λ l. w ∷ l) (replicate_snoc n w xs)

-- The list holds `samples` readings of `w` in a row.
abbrev pub HasBlock : ℕ → Bool → List Bool → Type 0
HasBlock samples w xs =
    (before : List Bool) × (after : List Bool) × (xs ≡ before ++ (replicate samples w ++ after))

HasBlock-append :
    (samples : ℕ) (w : Bool) (ys xs : List Bool)
    → HasBlock samples w xs
    → HasBlock samples w (ys ++ xs)
HasBlock-append samples w ys xs (before, after, e) =
    (ys ++ before, after, rw e (sym (append_assoc ys before (replicate samples w ++ after))))

not-ne : (v : Bool) → v ≡ not v → ⊥
not-ne true e = cc
not-ne false e = cc

level_cases : (x v : Bool) → (x ≡ v) ⊎ (x ≡ not v)
level_cases x v = ground arith

change_from :
    (samples n : ℕ) (v : Bool) (xs : List Bool)
    → n < samples
    → (run_channel samples xs (v, n)).0 ≡ not v
    → HasBlock samples (not v) (replicate n (not v) ++ xs)
unfolding run_channel
change_from samples n v [] h e = absurd (not-ne v e)
change_from samples n v (x ∷ xs) h e = elim (level_cases x v) [
  | inl same ↦ HasBlock-append samples (not v) (replicate n (not v)) (x ∷ xs) (
      HasBlock-append samples (not v) (x ∷ []) xs (
        change_from samples 0 v xs (omega arith)
          (continue_with (rw same (same_level samples n v)))))
  | inr contrary ↦ elim (Bool-cases (leb samples (n + 1))) [
    | inl last ↦
        let full : samples ≡ suc n = ground arith in
        ([], xs, rw (full, contrary) (sym (replicate_snoc n (not v) xs)))
    | inr more ↦
        let step : n + 1 < samples = ground arith in
        rw (contrary, ← replicate_snoc n (not v) xs)
          (change_from samples (suc n) v xs (omega arith)
            (continue_with (rw contrary (contrary_low samples n v step))))
  ]
]
  where
    continue_with :
        {c : Bool × ℕ} → update_channel samples x (v, n) ≡ c → (run_channel samples xs c).0 ≡ not v
    continue_with up = sym (ap (λ (c : Bool × ℕ). (run_channel samples xs c).0) up) ∙ e

-- The published level of a channel that starts settled changes only if, some time in the readings,
-- the new level was read on `samples` cycles in a row.
run_channel_change :
    (samples : ℕ) (v : Bool) (xs : List Bool)
    → 0 < samples
    → (run_channel samples xs (v, 0)).0 ≡ not v
    → HasBlock samples (not v) xs
run_channel_change samples v xs h e = change_from samples 0 v xs h e
