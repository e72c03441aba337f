-- ===== src/Genwatch/Ats/Authority.antt =====
-- When the companion is authoritative, by the polls so far (`is_authoritative` and `_update` of
-- GenWatch-main/backend/genwatch/services/ats.py).
use complete_gen_project.Base.{
  ℕ, ◌≡◌, ◌↔◌, ◌∙◌, refl, ap, Bool, true, false, ◌||◌, Option, List, [], ◌∷◌, ◌++◌, arith,
}
use complete_gen_project.Genwatch.Tokens.{CommsState, healthy}
use complete_gen_project.Genwatch.Alarms.{is_member}
use complete_gen_project.Genwatch.Ats.Model.{
  AtsRegister, icd_major_reg, unit_id_reg, fault_summary_reg, FaultRule, AtsService, Severity,
  AtsEvent, fault_input_code, fault_calibration_code, number_or, decode_fault_bits, is_expected,
  is_authoritative, new_service,
}
use complete_gen_project.Genwatch.Ats.Update.{AtsPoll, decode_snapshot, update, run_updates}
use complete_gen_project.Genwatch.Ats.Faults.{is_reported, is_member-decode_fault_bits}

-- The last value that the polls have of a register.
abbrev pub latest : AtsRegister → ℕ → List AtsPoll → ℕ
latest r n [] = n
latest r n (p ∷ ps) = latest r (number_or (p.values r) n) ps

abbrev pub any_base : Bool → List AtsPoll → Bool
any_base b [] = b
any_base b (p ∷ ps) = any_base (b || p.is_base) ps

-- What the gate reads of the state, but for the link and the faults.
record Kept (ps : List AtsPoll) (s s' : AtsService) : Type 0 where
  rules : s'.fault_rules ≡ s.fault_rules
  expected : s'.expected_unit_id ≡ s.expected_unit_id
  base : s'.snap.base_poll_completed ≡ any_base s.snap.base_poll_completed ps
  major : s'.snap.icd_major ≡ latest icd_major_reg s.snap.icd_major ps
  unit : s'.snap.ats_pi_unit_id ≡ latest unit_id_reg s.snap.ats_pi_unit_id ps

run_updates-Kept : (ps : List AtsPoll) (s : AtsService) → Kept ps s (run_updates ps s)
unfolding run_updates update decode_snapshot
run_updates-Kept [] s = record {
  rules = refl;
  expected = refl;
  base = refl;
  major = refl;
  unit = refl;
}
run_updates-Kept (p ∷ ps) s =
    let rest = run_updates-Kept ps (update p s) in
    record {
      rules = rest.rules;
      expected = rest.expected;
      base = rest.base;
      major = rest.major;
      unit = rest.unit;
    }

run_updates-append :
    (ps : List AtsPoll) (p : AtsPoll) (s : AtsService)
    → run_updates (ps ++ p ∷ []) s ≡ update p (run_updates ps s)
unfolding run_updates
run_updates-append [] p s = refl
run_updates-append (q ∷ ps) p s = run_updates-append ps p (update q s)

-- The link and the faults are those of the last poll.
last_lem :
    (p : AtsPoll) (s : AtsService)
    → ((update p s).snap.comms ≡ p.comms)
      × ((update p s).snap.fault_codes
          ≡ decode_fault_bits (number_or (p.values fault_summary_reg) 0) s.fault_rules)
unfolding update decode_snapshot
last_lem p s = (refl, refl)

-- The gate, by what its parts are.
gate_lem :
    (s : AtsService) (comms : CommsState) (base : Bool) (major unit : ℕ) (expected : Option ℕ)
    (input calibration : Bool)
    → s.snap.comms ≡ comms
    → s.snap.base_poll_completed ≡ base
    → s.snap.icd_major ≡ major
    → s.expected_unit_id ≡ expected
    → s.snap.ats_pi_unit_id ≡ unit
    → is_member fault_input_code s.snap.fault_codes ≡ input
    → is_member fault_calibration_code s.snap.fault_codes ≡ calibration
    → (is_authoritative s ≡ true) ↔ (
        (comms ≡ healthy)
        × (base ≡ true)
        × (major ≡ 1)
        × (is_expected expected unit ≡ true)
        × (input ≡ false)
        × (calibration ≡ false))
unfolding is_authoritative
gate_lem s comms base major unit expected input calibration e1 e2 e3 e4 e5 e6 e7 = (
  (λ h. (ground arith, ground arith, ground arith, ground arith, ground arith, ground arith)),
  λ h. ground arith,
)

module _ (rules : List FaultRule) (unit : Option ℕ) (rows : ℕ → Bool)
    (events : List (Severity × AtsEvent)) where
  -- After polls from the start, the companion is authoritative exactly if the link of the last poll is
  -- healthy, some poll was of the base tier, the last version that was read has major number 1, the last
  -- unit that was read is the expected one, if one is configured, and the fault register of the last
  -- poll, read as 0 where it is missing, reports neither an input fault nor a calibration fault.
  pub run_updates-is_authoritative :
      (ps : List AtsPoll) (p : AtsPoll)
      → let raw = number_or (p.values fault_summary_reg) 0 in
        (is_authoritative (run_updates (ps ++ p ∷ []) (new_service rules unit rows events)) ≡ true)
        ↔ ((p.comms ≡ healthy)
            × (any_base false (ps ++ p ∷ []) ≡ true)
            × (latest icd_major_reg 0 (ps ++ p ∷ []) ≡ 1)
            × (is_expected unit (latest unit_id_reg 0 (ps ++ p ∷ [])) ≡ true)
            × (is_reported fault_input_code raw rules ≡ false)
            × (is_reported fault_calibration_code raw rules ≡ false))
  run_updates-is_authoritative ps p =
      gate_lem s _ _ _ _ _ _ _ comms kept.base kept.major kept.expected kept.unit
        (fault fault_input_code) (fault fault_calibration_code)
    where
      start : AtsService
      start = new_service rules unit rows events

      s : AtsService
      s = run_updates (ps ++ p ∷ []) start

      kept : Kept (ps ++ p ∷ []) start s
      kept = run_updates-Kept (ps ++ p ∷ []) start

      comms : s.snap.comms ≡ p.comms
      comms = rw (run_updates-append ps p start) (last_lem p (run_updates ps start)).0

      fault :
          (c : ℕ)
          → is_member c s.snap.fault_codes
            ≡ is_reported c (number_or (p.values fault_summary_reg) 0) rules
      fault c =
          ap (λ (t : AtsService). is_member c t.snap.fault_codes) (run_updates-append ps p start)
          ∙ ap (is_member c) (last_lem p (run_updates ps start)).1
          ∙ is_member-decode_fault_bits c _ (run_updates ps start).fault_rules
          ∙ ap (is_reported c (number_or (p.values fault_summary_reg) 0))
              (run_updates-Kept ps start).rules
