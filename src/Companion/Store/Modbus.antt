-- ===== src/Companion/Store/Modbus.antt =====
-- The Modbus side of the register store (`read_register`, `can_write` and `write_register` of
-- ats-pi-companion-main/src/atspi/state.py).
use complete_gen_project.Base.{
  ℕ, ◌+◌, ◌-◌, ◌/◌, ◌^◌, Bool, true, false, ◌&&◌, ◌||◌, Option, none, some, bit_and, bit_or, ◌==◌,
  if◌then◌else◌, int_of_bool,
}
use complete_gen_project.Companion.IoDriver.{
  Position, utility, generator, transferring, unknown, AtsMode, auto, manual, test, mode_unknown,
  DriveRequest, fault_input,
}
use complete_gen_project.Companion.Store.Model.{StateSnapshot, RegisterStore, fault_defined_mask}
use complete_gen_project.Companion.Store.Writers.{set_snap}

abbrev pub addr_cmd_test : ℕ
addr_cmd_test = 0x0100

abbrev pub addr_cmd_inhibit : ℕ
addr_cmd_inhibit = 0x0101

abbrev pub addr_cmd_force_transfer : ℕ
addr_cmd_force_transfer = 0x0102

abbrev pub addr_cmd_bypass_delay : ℕ
addr_cmd_bypass_delay = 0x0103

abbrev pub default_pulse_ms : ℕ
default_pulse_ms = 750

abbrev pub position_to_value : Position → ℕ
position_to_value utility = 0
position_to_value generator = 1
position_to_value transferring = 2
position_to_value unknown = 3

abbrev pub mode_to_value : AtsMode → ℕ
mode_to_value auto = 0
mode_to_value manual = 1
mode_to_value test = 2
mode_to_value mode_unknown = 3

abbrev pub only_auto : AtsMode → Bool
only_auto auto = true
only_auto _ = false

abbrev pub auto_or_manual : AtsMode → Bool
auto_or_manual auto = true
auto_or_manual manual = true
auto_or_manual _ = false

-- `_ALLOWED_MODES_FOR_ADDR.get(addr)`, each set of modes as its test.
unfoldable pub allowed_modes_for_addr : ℕ → Option (AtsMode → Bool)
allowed_modes_for_addr addr =
    if addr == addr_cmd_test
    then some only_auto
    else if addr == addr_cmd_inhibit
    then some auto_or_manual
    else if addr == addr_cmd_force_transfer
    then some only_auto
    else if addr == addr_cmd_bypass_delay
    then some only_auto
    else none

-- `(v >> 16) & 0xFFFF` and `v & 0xFFFF`
abbrev pub high_word : ℕ → ℕ
high_word v = bit_and (v / 2 ^ 16) 0xFFFF

abbrev pub low_word : ℕ → ℕ
low_word v = bit_and v 0xFFFF

-- `fault_summary` as it is read: the latch of a rejected write shows as FAULT_INPUT.
unfoldable pub fault_summary : StateSnapshot → ℕ
fault_summary v =
    bit_and (if v.mode_reject_active then bit_or v.fault_bits fault_input else v.fault_bits)
      fault_defined_mask

-- The branches of `read_register` from `ADDR_POSITION` to `ADDR_FAULT_SUMMARY`, `rest` being the others.
unfoldable pub core_register : StateSnapshot → ℕ → ℕ → ℕ
core_register v addr rest =
    if addr == 0x0000
    then position_to_value v.position
    else if addr == 0x0001
    then int_of_bool v.normal_available
    else if addr == 0x0002
    then int_of_bool v.emergency_available
    else if addr == 0x0003
    then int_of_bool v.engine_start_calling
    else if addr == 0x0004
    then mode_to_value v.ats_mode
    else if addr == 0x0005
    then fault_summary v
    else rest

-- A u32 field, its high word at the lower address.
abbrev pub pair_at : ℕ → ℕ → ℕ → ℕ → ℕ
pair_at base value addr rest =
    if addr == base then high_word value else if addr == base + 1 then low_word value else rest

-- The u32 fields; `up` is `int(now_mono - self._boot_mono)`.
unfoldable pub wide_register : StateSnapshot → ℕ → ℕ → ℕ → ℕ → ℕ
wide_register v up now_wall addr rest = pair_at 0x0010 v.last_transfer_to_gen_ts addr (
    pair_at 0x0012 v.last_retransfer_to_util_ts addr (
      pair_at 0x0014 up addr (
        pair_at 0x0016 now_wall addr (
          pair_at 0x0020 v.transfer_count_lifetime addr
            (pair_at 0x0022 v.transfer_count_24h addr rest)))))

unfoldable pub identity_register : RegisterStore → ℕ → ℕ → ℕ
identity_register s addr rest =
    if addr == 0x0030
    then s.icd_major
    else if addr == 0x0031
    then s.icd_minor
    else if addr == 0x0032
    then s.fw_version.major
    else if addr == 0x0033
    then s.fw_version.minor
    else if addr == 0x0034
    then s.fw_version.patch
    else if addr == 0x0035
    then s.unit_id
    else rest

-- The command read-backs, and 0 at every address that is reserved or unknown.
unfoldable pub read_back_register : StateSnapshot → ℕ → ℕ
read_back_register v addr =
    if addr == 0x0040
    then int_of_bool v.cmd_test_active
    else if addr == 0x0041
    then int_of_bool v.cmd_inhibit_active
    else if addr == 0x0042
    then int_of_bool v.cmd_force_transfer_active
    else if addr == 0x0043
    then int_of_bool v.cmd_bypass_delay_active
    else 0

-- `read_register`, with the two times pinned by the caller.
unfoldable pub read_register : ℕ → ℕ → RegisterStore → ℕ → ℕ
unfolding core_register wide_register identity_register read_back_register
read_register now_mono now_wall s addr = core_register s.snap addr (
    wide_register s.snap ((now_mono - s.boot_mono) / 1000) now_wall addr
      (identity_register s addr (read_back_register s.snap addr)))

latch_reject : RegisterStore → RegisterStore
latch_reject s = set_snap s (record (s.snap) { mode_reject_active = true })

clear_reject : RegisterStore → RegisterStore
clear_reject s = set_snap s (record (s.snap) { mode_reject_active = false })

-- `can_write`: the answer, and the store with the latch set where the mode forbids the write.
unfoldable pub can_write : ℕ → RegisterStore → Bool × RegisterStore
unfolding allowed_modes_for_addr latch_reject
can_write addr s = elim (allowed_modes_for_addr addr) [
  | none ↦ (false, s)
  | some allowed ↦ if allowed s.snap.ats_mode then (true, s) else (false, latch_reject s)
]

abbrev pub no_request : DriveRequest
no_request = record {
  test_pulse_ms = none;
  inhibit = none;
  force_transfer = none;
  bypass_delay_pulse_ms = none;
}

-- Step 3 of `write_register`: the `CommandIntent`, which has the fields of a `DriveRequest`.
unfoldable pub intent_for : ℕ → ℕ → Option DriveRequest
intent_for addr value =
    if addr == addr_cmd_test && value == 1
    then some (record no_request { test_pulse_ms = some default_pulse_ms })
    else if addr == addr_cmd_inhibit && (value == 0 || value == 1)
    then some (record no_request { inhibit = some (value == 1) })
    else if addr == addr_cmd_force_transfer && (value == 0 || value == 1)
    then some (record no_request { force_transfer = some (value == 1) })
    else if addr == addr_cmd_bypass_delay && value == 1
    then some (record no_request { bypass_delay_pulse_ms = some default_pulse_ms })
    else none

-- An accepted command clears the latch.
settle_intent : Option DriveRequest → RegisterStore → Option DriveRequest × RegisterStore
unfolding clear_reject
settle_intent none s = (none, s)
settle_intent (some i) s = (some i, if s.snap.mode_reject_active then clear_reject s else s)

unfoldable pub write_register : ℕ → ℕ → RegisterStore → Option DriveRequest × RegisterStore
unfolding allowed_modes_for_addr latch_reject intent_for settle_intent
write_register addr value s = elim (allowed_modes_for_addr addr) [
  | none ↦ (none, s)
  | some allowed ↦
      if allowed s.snap.ats_mode
      then settle_intent (intent_for addr value) s
      else (none, latch_reject s)
]
