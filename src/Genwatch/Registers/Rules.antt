-- ===== src/Genwatch/Registers/Rules.antt =====
-- What the rules on the status bits answer (`derive_engine_state`, `derive_panel_mode` and
-- `derive_active_alarms` of GenWatch-main/backend/genwatch/modbus/registers.py).
use complete_gen_project.Base.{
  ℕ, ◌≡◌, ◌⊎◌, inl, inr, refl, ap, true, false, Bool-cases, Option, List, [], ◌∷◌, ◌++◌, All,
}
use complete_gen_project.Genwatch.Registers.{BitRule, is_set, first_set}

module _ {N S : Type 0} (values : N → Option ℕ) where
  -- The state is that of the first rule, in the order of the file, whose bits are all set in a register
  -- that has been polled, and "unknown" if there is none.
  first_set-first :
      (unknown : S) (rules : List (BitRule N S))
      → (All (λ r. is_set values r ≡ false) rules) × (first_set values unknown rules ≡ unknown)
        ⊎ (before : List (BitRule N S)) × (rule : BitRule N S) × (after : List (BitRule N S))
          × (rules ≡ before ++ rule ∷ after)
          × (All (λ r. is_set values r ≡ false) before)
          × (is_set values rule ≡ true)
          × (first_set values unknown rules ≡ rule.says)
  unfolding first_set
  first_set-first unknown [] = inl (tt, refl)
  first_set-first unknown (rule ∷ rules) = elim (Bool-cases (is_set values rule)) [
    | inl set ↦ inr ([], rule, rules, refl, tt, set, rw set refl)
    | inr unset ↦ elim (first_set-first unknown rules) [
      | inl (none_set, e) ↦ inl ((unset, none_set), rw unset e)
      | inr (before, r, after, split, unset_before, set, e) ↦ inr (
        rule ∷ before,
        r,
        after,
        ap (λ t. rule ∷ t) split,
        (unset, unset_before),
        set,
        rw unset e,
      )
    ]
  ]
