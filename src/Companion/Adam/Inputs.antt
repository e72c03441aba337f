-- ===== src/Companion/Adam/Inputs.antt =====
-- The contacts and the read-back of the relays (`read_inputs`, `read_output_state` and `_read_bits` of
-- ats-pi-companion-main/src/atspi/io_adam.py), and the driver as the service sees it. Which function
-- code reads the inputs (`di_read`) makes no difference to what the client answers here.
pub mod Contacts
use complete_gen_project.Base.{
  ℕ, ◌-◌, Bool, true, false, not, ◌&&◌, Option, none, some, List, [], ◌∷◌, ltb, if◌then◌else◌,
  get_or,
}
use complete_gen_project.Companion.IoDriver.{
  Position, utility, generator, transferring, unknown, InputSnapshot, OutputState, DriveRequest,
  IoDriver, fault_calibration,
}
use complete_gen_project.Companion.Adam.Debounce.{update}
use complete_gen_project.Companion.Adam.Device.{
  Adam, Action, Answer, bits, raised, pure, ◌>>=◌, ◌>>◌, ask, ensure_connected,
}
use complete_gen_project.Companion.Adam.Outputs.{
  drive_outputs, release_all_outputs, check_output_consistency,
}

abbrev pub transferring_hold_ms : ℕ
transferring_hold_ms = 2000

unfoldable pub answer_bits : Answer → Action (List Bool)
answer_bits (bits b0 b1 b2 b3 b4 b5) a = (some (b0 ∷ b1 ∷ b2 ∷ b3 ∷ b4 ∷ b5 ∷ []), a)
answer_bits (raised acted) a = (none, record a { connected = false })
answer_bits _ a = (none, a)

unfoldable pub ask_bits : Action (List Bool)
ask_bits a = let (answer, a') = ask a in answer_bits answer a'

unfoldable pub read_bits : Action (List Bool)
read_bits = do ensure_connected; ask_bits

-- `_bit_pulse` over `TRANSFERRING_HOLD_S`
unfoldable pub bit_pulse : Option ℕ → ℕ → Bool
bit_pulse none now = false
bit_pulse (some seen) now = ltb (now - seen) transferring_hold_ms

unfoldable pub position_of : Bool → Bool → Bool → Position
position_of transferring_now on_normal on_emerg =
    if transferring_now
    then transferring
    else if on_normal && not on_emerg
    then utility
    else if on_emerg && not on_normal
    then generator
    else unknown

-- `read_inputs` once the six raw levels are there.
unfoldable pub sense : ℕ → List Bool → Adam → InputSnapshot × Adam
sense now raw a =
    let seen = if get_or raw 0 false then some now else a.load_disconnect_seen in
    let (levels, debounce) = update raw a.debounce in
    let on_normal = get_or levels 1 false in
    let on_emerg = get_or levels 2 false in
    (
      record {
        position = position_of (bit_pulse seen now) on_normal on_emerg;
        normal_available = get_or levels 3 false;
        emergency_available = get_or levels 4 false;
        engine_start_calling = get_or levels 5 false;
        ats_mode = a.assumed_mode;
        fault_bits = if on_normal && on_emerg then fault_calibration else 0;
      },
      record a { load_disconnect_seen = seen; debounce = debounce },
    )

unfoldable pub pure_sense : ℕ → List Bool → Action InputSnapshot
pure_sense now raw a = let (inputs, a') = sense now raw a in (some inputs, a')

unfoldable pub read_inputs : ℕ → Action InputSnapshot
read_inputs now = do raw ← read_bits; pure_sense now raw

-- DO 0 test, DO 1 force-transfer, DO 2 inhibit, DO 3 bypass.
unfoldable pub output_state_of : List Bool → OutputState
output_state_of levels = record {
  test_active = get_or levels 0 false;
  inhibit_active = get_or levels 2 false;
  force_transfer_active = get_or levels 1 false;
  bypass_delay_active = get_or levels 3 false;
}

unfoldable pub read_output_state : Action OutputState
read_output_state = do levels ← read_bits; pure (output_state_of levels)

abbrev pub returned : {A : Type 0} → Option A → Bool
returned none = false
returned (some x) = true

-- `IOAdamDriver` as an `IODriver`.
unfoldable pub adam_driver : IoDriver Adam
adam_driver = record {
  read_inputs = λ now a. read_inputs now a;
  read_output_state = λ now a. read_output_state a;
  drive_outputs = λ now r a. let (r', a') = drive_outputs now r a in (returned r', a');
  release_all_outputs = λ now a. let (r', a') = release_all_outputs now a in (returned r', a');
  check_output_consistency = check_output_consistency;
  hw_watchdog_ok = λ a. a.hw_ok;
}
