-- ===== src/Companion/Store/Faults.antt =====
-- Who owns which bit of `fault_summary` (`apply_input_snapshot`, `set_input_fault`, `set_output_fault`
-- and `read_register` of ats-pi-companion-main/src/atspi/state.py).
use complete_gen_project.Base.{
  ℕ, ◌+◌, ◌-◌, ◌*◌, ◌/◌, ◌%◌, ◌<◌, ◌≡◌, Bool, arith, bit_and, bit_or, and_not, bit_and-one,
  bit_and-two, bit_and-three, bit_and-fifteen, bit_and-word, bit_or-one, bit_or-two, bit_or_low_two,
  int_of_bool, max, if◌then◌else◌,
}
use complete_gen_project.Companion.IoDriver.{InputSnapshot}
use complete_gen_project.Companion.Store.Model.{StateSnapshot, RegisterStore, Disk}
use complete_gen_project.Companion.Store.Writers.{
  merge_fault_bits, apply_input_snapshot, set_input_fault, set_output_fault,
}
use complete_gen_project.Companion.Store.Modbus.{fault_summary}

-- The merge, as arithmetic: the low two bits of the one and the others of the other, 16 in all.
merge_lem : (p b : ℕ) → merge_fault_bits p b ≡ (p % 4 + b / 4 * 4) % 65536
unfolding merge_fault_bits
merge_lem p b =
    rw
      (
        bit_and-three p,
        bit_and-three b,
        bit_or_low_two (p % 4) (b - b % 4) (omega arith) (omega arith),
        bit_and-word,
      )
      (omega arith)

pub summary_lem :
    (v : StateSnapshot)
    → fault_summary v
      ≡ (if v.mode_reject_active then v.fault_bits / 2 * 2 + 1 else v.fault_bits) % 16
unfolding fault_summary
summary_lem v = rw (bit_or-one v.fault_bits, bit_and-fifteen)

on_one : (n : ℕ) → bit_and (bit_or n 1) 0xFFFF ≡ (n / 2 * 2 + 1) % 65536
on_one n = rw (bit_or-one, bit_and-word)

off_one : (n : ℕ) → bit_and (and_not n 1) 0xFFFF ≡ (n - n % 2) % 65536
off_one n = rw (bit_and-one, bit_and-word)

on_two : (n : ℕ) → bit_and (bit_or n 2) 0xFFFF ≡ (n + 2 - n / 2 % 2 * 2) % 65536
on_two n = rw (bit_or-two, bit_and-word)

off_two : (n : ℕ) → bit_and (and_not n 2) 0xFFFF ≡ (n - n / 2 % 2 * 2) % 65536
off_two n = rw (bit_and-two, bit_and-word)

-- The four defined bits of a fault word, the lowest first.
abbrev pub input_bit : ℕ → ℕ
input_bit w = w % 2

abbrev pub output_bit : ℕ → ℕ
output_bit w = w / 2 % 2

abbrev pub driver_bits : ℕ → ℕ
driver_bits w = w / 4 % 4

-- Whatever the stored bits are, the register shows no reserved bit.
pub fault_summary-lt : (v : StateSnapshot) → fault_summary v < 16
fault_summary-lt v = omega (arith, summary_lem v)

-- After a sample, `fault_summary` has the output bit as it was, the input bit as it was or set by the
-- latch of a rejected write, and the mode and calibration bits that the driver reports.
pub fault_summary-apply_input_snapshot :
    (d : Disk) (now : ℕ) (i : InputSnapshot) (s : RegisterStore)
    → let w = fault_summary (apply_input_snapshot d now i s).snap in
      (input_bit w ≡ max (input_bit s.snap.fault_bits) (int_of_bool s.snap.mode_reject_active))
      × (output_bit w ≡ output_bit s.snap.fault_bits)
      × (driver_bits w ≡ driver_bits i.fault_bits)
      × (w < 16)
unfolding apply_input_snapshot
fault_summary-apply_input_snapshot d now i s = ground (
  arith,
  summary_lem (apply_input_snapshot d now i s).snap,
  merge_lem s.snap.fault_bits i.fault_bits,
)

-- Setting or clearing the input fault changes the input bit of `fault_summary`, where the latch of a
-- rejected write does not hold it at 1, and no other bit.
pub fault_summary-set_input_fault :
    (on : Bool) (s : RegisterStore)
    → let w = fault_summary (set_input_fault on s).snap in
      let old = fault_summary s.snap in
      (input_bit w ≡ max (int_of_bool on) (int_of_bool s.snap.mode_reject_active))
      × (w / 2 ≡ old / 2)
unfolding set_input_fault
fault_summary-set_input_fault on s = ground (
  arith,
  summary_lem (set_input_fault on s).snap,
  summary_lem s.snap,
  on_one s.snap.fault_bits,
  off_one s.snap.fault_bits,
)

-- Setting or clearing the output fault changes the output bit of `fault_summary` and no other bit.
pub fault_summary-set_output_fault :
    (on : Bool) (s : RegisterStore)
    → let w = fault_summary (set_output_fault on s).snap in
      let old = fault_summary s.snap in
      (output_bit w ≡ int_of_bool on) × (input_bit w ≡ input_bit old) × (w / 4 ≡ old / 4)
unfolding set_output_fault
fault_summary-set_output_fault on s = ground (
  arith,
  summary_lem (set_output_fault on s).snap,
  summary_lem s.snap,
  on_two s.snap.fault_bits,
  off_two s.snap.fault_bits,
)
