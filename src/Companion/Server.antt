-- ===== src/Companion/Server.antt =====
-- The Modbus server's hooks (`_GuardedSlaveContext` and `LiveDataBlock` of
-- ats-pi-companion-main/src/atspi/server.py). pymodbus calls `validate` with the address of the request
-- and the data block with that address plus one. The default validation, for function codes that the
-- companion does not handle, is pymodbus's: a parameter. Conversions of a write's value by `int()` are
-- the identity.
pub mod Writes
use complete_gen_project.Base.{
  ℕ, zero, suc, ◌+◌, ◌-◌, Bool, true, false, ◌||◌, Option, none, some, List, [], ◌∷◌, ◌==◌,
  if◌then◌else◌,
}
use complete_gen_project.Companion.IoDriver.{DriveRequest}
use complete_gen_project.Companion.Store.Model.{RegisterStore}
use complete_gen_project.Companion.Store.Modbus.{
  addr_cmd_test, addr_cmd_inhibit, addr_cmd_force_transfer, addr_cmd_bypass_delay, read_register,
  can_write, write_register,
}

-- `_ALLOWED_HOLDING_WRITE_ADDRESSES`
unfoldable pub is_command_addr : ℕ → Bool
is_command_addr a =
    a == addr_cmd_test
    || (a == addr_cmd_inhibit || (a == addr_cmd_force_transfer || a == addr_cmd_bypass_delay))

abbrev pub is_coil_write : ℕ → Bool
is_coil_write fc = fc == 0x05 || fc == 0x0F

abbrev pub is_unsupported_write : ℕ → Bool
is_unsupported_write fc = fc == 0x17

abbrev pub is_holding_write : ℕ → Bool
is_holding_write fc = fc == 0x06 || fc == 0x10

abbrev pub is_holding_read : ℕ → Bool
is_holding_read fc = fc == 0x03 || fc == 0x04

-- The loop over the addresses of a write, `count` of them from `target`.
unfoldable pub validate_writes : ℕ → ℕ → RegisterStore → Bool × RegisterStore
validate_writes zero target s = (true, s)
validate_writes (suc count) target s =
    let (ok, s') = can_write target s in
    let rest = validate_writes count (target + 1) s' in
    if is_command_addr target then (if ok then rest else (false, s')) else (false, s)

module _ (default_validate : ℕ → ℕ → ℕ → Bool) where
  unfoldable pub validate : ℕ → ℕ → ℕ → RegisterStore → Bool × RegisterStore
  validate fc address count s =
      if is_coil_write fc || is_unsupported_write fc
      then (false, s)
      else if is_holding_write fc
      then validate_writes count address s
      else if is_holding_read fc
      then (true, s)
      else (default_validate fc address count, s)

-- `getValues`, with the times that it pins for the whole read.
unfoldable pub get_values_from : ℕ → ℕ → RegisterStore → ℕ → ℕ → List ℕ
get_values_from now_mono now_wall s addr zero = []
get_values_from now_mono now_wall s addr (suc count) =
    read_register now_mono now_wall s addr ∷ get_values_from now_mono now_wall s (addr + 1) count

unfoldable pub get_values : ℕ → ℕ → RegisterStore → ℕ → ℕ → List ℕ
get_values now_mono now_wall s address count =
    get_values_from now_mono now_wall s (address - 1) count

unfoldable pub add_intent : Option DriveRequest → List DriveRequest → List DriveRequest
add_intent none is = is
add_intent (some i) is = i ∷ is

-- `setValues`: the intents handed to `on_command`, in order.
unfoldable pub set_values_from : ℕ → List ℕ → RegisterStore → List DriveRequest × RegisterStore
unfolding add_intent
set_values_from addr [] s = ([], s)
set_values_from addr (v ∷ vs) s =
    let (intent, s') = write_register addr v s in
    let (intents, s'') = set_values_from (addr + 1) vs s' in (add_intent intent intents, s'')

unfoldable pub set_values : ℕ → List ℕ → RegisterStore → List DriveRequest × RegisterStore
set_values address values s = set_values_from (address - 1) values s
