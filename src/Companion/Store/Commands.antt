-- ===== src/Companion/Store/Commands.antt =====
-- The command registers (`can_write` and `write_register` of
-- ats-pi-companion-main/src/atspi/state.py) against the command table of the ICD.
use complete_gen_project.Base.{ℕ, ◌≡◌, ◌⊎◌, true, false, some, arith, ◌==◌, if◌then◌else◌}
use complete_gen_project.Companion.IoDriver.{AtsMode, auto, manual, DriveRequest}
use complete_gen_project.Companion.Store.Model.{RegisterStore}
use complete_gen_project.Companion.Store.Modbus.{
  can_write, write_register, intent_for, no_request, fault_summary,
}
use complete_gen_project.Companion.Store.Faults.{summary_lem, input_bit}

-- The rows of the command table: register, value, and the request that they stand for.
pub data Row : Type 0 where
  pulse_test assert_inhibit release_inhibit assert_force release_force pulse_bypass : Row

abbrev pub row_addr : Row → ℕ
row_addr pulse_test = 0x0100
row_addr assert_inhibit = 0x0101
row_addr release_inhibit = 0x0101
row_addr assert_force = 0x0102
row_addr release_force = 0x0102
row_addr pulse_bypass = 0x0103

abbrev pub row_value : Row → ℕ
row_value release_inhibit = 0
row_value release_force = 0
row_value _ = 1

abbrev pub row_request : Row → DriveRequest
row_request pulse_test = record no_request { test_pulse_ms = some 750 }
row_request assert_inhibit = record no_request { inhibit = some true }
row_request release_inhibit = record no_request { inhibit = some false }
row_request assert_force = record no_request { force_transfer = some true }
row_request release_force = record no_request { force_transfer = some false }
row_request pulse_bypass = record no_request { bypass_delay_pulse_ms = some 750 }

-- The inhibit works in automatic and manual mode, all else in automatic mode only.
abbrev pub Permits : AtsMode → Row → Type 0
Permits m assert_inhibit = (m ≡ auto) ⊎ (m ≡ manual)
Permits m release_inhibit = (m ≡ auto) ⊎ (m ≡ manual)
Permits m _ = m ≡ auto

-- Every row of the table, in a mode that permits it, is carried out: the write returns the row's
-- request, and afterwards the latch of a rejected write is clear.
write_register-Row :
    (r : Row) (s : RegisterStore)
    → Permits s.snap.ats_mode r
    → ((write_register (row_addr r) (row_value r) s).0 ≡ some (row_request r))
      × ((write_register (row_addr r) (row_value r) s).1.snap.mode_reject_active ≡ false)
unfolding write_register
write_register-Row r s h = ground arith

row_of : ℕ → ℕ → Row
row_of addr value =
    if addr == 0x0100
    then pulse_test
    else if addr == 0x0101
    then (if value == 1 then assert_inhibit else release_inhibit)
    else if addr == 0x0102
    then (if value == 1 then assert_force else release_force)
    else pulse_bypass

-- A write that returns a request is a row of the table in a mode that permits it.
pub Row-write_register :
    (addr value : ℕ) (s : RegisterStore) (i : DriveRequest)
    → (write_register addr value s).0 ≡ some i
    → (r : Row) × (row_addr r ≡ addr)
      × (row_value r ≡ value)
      × (row_request r ≡ i)
      × Permits s.snap.ats_mode r
unfolding write_register row_of
Row-write_register addr value s i h =
    (row_of addr value, ground arith, ground arith, ground arith, ground arith)

-- A write that validation admits changes nothing by being validated, and is not refused for its mode
-- afterwards: what it returns depends on the address and the value alone.
pub write_register-can_write :
    (addr value : ℕ) (s : RegisterStore)
    → (can_write addr s).0 ≡ true
    → ((can_write addr s).1 ≡ s) × ((write_register addr value s).0 ≡ intent_for addr value)
unfolding can_write write_register
write_register-can_write addr value s h = ground arith

-- A command register is refused only in a mode that does not permit it; the refusal shows as the
-- input fault in `fault_summary` and touches nothing but the latch.
can_write_refusal :
    (r : Row) (s : RegisterStore)
    → (can_write (row_addr r) s).0 ≡ false
    → (input_bit (fault_summary (can_write (row_addr r) s).1.snap) ≡ 1)
      × ((can_write (row_addr r) s).1
          ≡ record s { snap = record (s.snap) { mode_reject_active = true } })
      × ¬ Permits s.snap.ats_mode r
unfolding can_write
can_write_refusal r s h =
    (ground (arith, summary_lem (can_write (row_addr r) s).1.snap), ground arith, ground arith)
