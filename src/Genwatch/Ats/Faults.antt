-- ===== src/Genwatch/Ats/Faults.antt =====
-- The faults that the companion reports, and their rows in the database (`_update` and
-- `_decode_fault_bits` of GenWatch-main/backend/genwatch/services/ats.py).
use Prim.Native.Nat.{bit_and-bitwise}
use complete_gen_project.Base.{
  ℕ, ◌<◌, ◌≡◌, ◌∙◌, refl, ap, Bool, true, false, not, ◌&&◌, ◌||◌, none, List, [], ◌∷◌, ◌==◌,
  if◌then◌else◌, bit_and, arith, All, Bool-cases, inl, inr,
}
use complete_gen_project.Genwatch.Tokens.{healthy}
use complete_gen_project.Genwatch.Alarms.{is_member, set_row}
use complete_gen_project.Genwatch.Ats.Model.{
  FaultRule, AtsService, fault_summary_reg, time_skew_code, add_code, decode_fault_bits,
  expected_icd_major, is_expected, is_authoritative,
}
use complete_gen_project.Genwatch.Ats.Update.{
  AtsPoll, minus_codes, set_rows, fault_rows, skew_rows, decode_snapshot, update, run_updates,
}

-- Some rule on `fault_summary` whose mask is set has the code.
unfoldable pub is_reported : ℕ → ℕ → List FaultRule → Bool
is_reported c raw [] = false
is_reported c raw (r ∷ rs) =
    ((r.is_fault_summary && bit_and raw r.mask == r.mask) && r.code == c) || is_reported c raw rs

is_member-add_code :
    (c d : ℕ) (ds : List ℕ) → is_member c (add_code d ds) ≡ (d == c || is_member c ds)
unfolding add_code
is_member-add_code c d [] = refl
is_member-add_code c d (e ∷ ds) = ground (arith, is_member-add_code c d ds)

-- The decoded set has the codes that are reported, and no other.
pub is_member-decode_fault_bits :
    (c raw : ℕ) (rules : List FaultRule)
    → is_member c (decode_fault_bits raw rules) ≡ is_reported c raw rules
unfolding decode_fault_bits is_reported
is_member-decode_fault_bits c raw [] = refl
is_member-decode_fault_bits c raw (r ∷ rs) = ground (
  arith,
  is_member-add_code c r.code (decode_fault_bits raw rs),
  is_member-decode_fault_bits c raw rs,
)

is_member-minus :
    (c : ℕ) (xs ys : List ℕ)
    → is_member c (minus_codes xs ys) ≡ (is_member c xs && not (is_member c ys))
is_member-minus c [] ys = refl
is_member-minus c (x ∷ xs) ys = elim (Bool-cases (x == c)) [
  | inl same ↦ ground (arith, is_member-minus c xs ys, ap (λ (d : ℕ). is_member d ys) (equal same))
  | inr other ↦ ground (arith, is_member-minus c xs ys)
]
  where
    equal : (x == c) ≡ true → x ≡ c
    equal same = ground arith

set_rows_lem :
    (b : Bool) (cs : List ℕ) (rows : ℕ → Bool) (c : ℕ)
    → set_rows b cs rows c ≡ (if is_member c cs then b else rows c)
set_rows_lem b [] rows c = refl
set_rows_lem b (d ∷ cs) rows c = ground (arith, set_rows_lem b cs (set_row d b rows) c)

fault_rows_lem :
    (old new : List ℕ) (rows : ℕ → Bool) (c : ℕ)
    → rows c ≡ is_member c old
    → fault_rows old new rows c ≡ is_member c new
unfolding fault_rows
fault_rows_lem old new rows c h = ground (
  arith,
  set_rows_lem false (minus_codes old new) (set_rows true (minus_codes new old) rows) c,
  set_rows_lem true (minus_codes new old) rows c,
  is_member-minus c old new,
  is_member-minus c new old,
)

skew_rows_other :
    (was is_now : Bool) (rows : ℕ → Bool) (c : ℕ)
    → (time_skew_code == c) ≡ false
    → skew_rows was is_now rows c ≡ rows c
unfolding skew_rows
skew_rows_other was is_now rows c other = ground arith

update-rows :
    (p : AtsPoll) (s : AtsService) (c : ℕ)
    → (time_skew_code == c) ≡ false
    → s.alarm_rows c ≡ is_member c s.snap.fault_codes
    → (update p s).alarm_rows c ≡ is_member c (update p s).snap.fault_codes
unfolding update
update-rows p s c other h =
    skew_rows_other _ _ _ c other ∙ fault_rows_lem s.snap.fault_codes _ s.alarm_rows c h

-- For a code other than that of the clock's alarm: if its row stands exactly where the snapshot has the
-- fault, as at a start on a database without its row, this holds after any polls too.
run_updates-rows :
    (ps : List AtsPoll) (s : AtsService) (c : ℕ)
    → (time_skew_code == c) ≡ false
    → s.alarm_rows c ≡ is_member c s.snap.fault_codes
    → (run_updates ps s).alarm_rows c ≡ is_member c (run_updates ps s).snap.fault_codes
unfolding run_updates
run_updates-rows [] s c other h = h
run_updates-rows (p ∷ ps) s c other h =
    run_updates-rows ps (update p s) c other (update-rows p s c other h)

zero_masked : (m : ℕ) → 0 < m → (bit_and 0 m == m) ≡ false
zero_masked m h = ground (arith, bit_and-bitwise 0 m)

no_faults :
    (rules : List FaultRule)
    → All (λ (r : FaultRule). 0 < r.mask) rules
    → decode_fault_bits 0 rules ≡ []
unfolding decode_fault_bits
no_faults [] h = refl
no_faults (r ∷ rs) h = elim (Bool-cases r.is_fault_summary) [
  | inl summary ↦ rw (summary, zero_masked r.mask h.0) (no_faults rs h.1)
  | inr other ↦ rw other (no_faults rs h.1)
]

update_codes :
    (p : AtsPoll) (s : AtsService)
    → p.values fault_summary_reg ≡ none
    → All (λ (r : FaultRule). 0 < r.mask) s.fault_rules
    → (update p s).snap.fault_codes ≡ []
unfolding update decode_snapshot
update_codes p s missing masks = rw missing (no_faults s.fault_rules masks)

authoritative_lem :
    (p : AtsPoll) (s : AtsService)
    → (update p s).snap.fault_codes ≡ []
    → p.comms ≡ healthy
    → (s.snap.base_poll_completed || p.is_base) ≡ true
    → (update p s).snap.icd_major ≡ expected_icd_major
    → is_expected (update p s).expected_unit_id (update p s).snap.ats_pi_unit_id ≡ true
    → is_authoritative (update p s) ≡ true
unfolding update decode_snapshot is_authoritative
authoritative_lem p s e comms base icd unit = rw (e, comms, base, icd, unit) refl

-- A reading without the fault register is read as one without faults: whatever faults were active, the
-- set is empty after the poll and their rows are gone, and where the rest of the gate holds the link is
-- authoritative, although nothing was read about the faults. The masks of the rules are not empty.
pub update-faults_lost :
    (p : AtsPoll) (s : AtsService)
    → p.values fault_summary_reg ≡ none
    → All (λ (r : FaultRule). 0 < r.mask) s.fault_rules
    → ((c : ℕ) → (time_skew_code == c) ≡ false → s.alarm_rows c ≡ is_member c s.snap.fault_codes)
    → let s' = update p s in
      (s'.snap.fault_codes ≡ [])
      × ((c : ℕ) → (time_skew_code == c) ≡ false → s'.alarm_rows c ≡ false)
      × (p.comms ≡ healthy
          → (s.snap.base_poll_completed || p.is_base) ≡ true
          → s'.snap.icd_major ≡ expected_icd_major
          → is_expected s'.expected_unit_id s'.snap.ats_pi_unit_id ≡ true
          → is_authoritative s' ≡ true)
update-faults_lost p s missing masks rows =
    (gone, λ c other. update-rows p s c other (rows c other) ∙ ap (is_member c) gone, trusted gone)
  where
    gone : (update p s).snap.fault_codes ≡ []
    gone = update_codes p s missing masks

    trusted :
        (update p s).snap.fault_codes ≡ []
        → p.comms ≡ healthy
        → (s.snap.base_poll_completed || p.is_base) ≡ true
        → (update p s).snap.icd_major ≡ expected_icd_major
        → is_expected (update p s).expected_unit_id (update p s).snap.ats_pi_unit_id ≡ true
        → is_authoritative (update p s) ≡ true
    trusted e comms base icd unit = authoritative_lem p s e comms base icd unit
