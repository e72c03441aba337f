-- ===== src/Genwatch/Ats/Model.antt =====
-- The state of the link to the companion, its decoding and its authority (`AtsSnapshot`, `AtsService`,
-- `is_authoritative`, `note_command_write` and the decoding helpers of
-- GenWatch-main/backend/genwatch/services/ats.py).
-- Fault codes are numbers in the order of their texts, and a set of codes is a list in that order. The
-- wall clock and the monotonic clock are in milliseconds, registers with a time in seconds. The texts
-- of events and the success rate in them are left out.
use complete_gen_project.Base.{
  ℕ, Bool, true, false, not, ◌&&◌, ◌||◌, Option, none, some, List, [], ◌∷◌, ltb, ◌==◌,
  if◌then◌else◌, bit_and,
}
use complete_gen_project.Companion.IoDriver.{
  Position, utility, generator, transferring, unknown, AtsMode, auto, manual, test, mode_unknown,
}
use complete_gen_project.Genwatch.Tokens.{CommsState, healthy}
use complete_gen_project.Genwatch.Alarms.{is_member}

-- The registers of the map that the service reads by name.
pub data AtsRegister : Type 0 where
  position_reg normal_available_reg emergency_available_reg engine_start_calling_reg : AtsRegister
  ats_mode_reg fault_summary_reg last_transfer_reg last_retransfer_reg uptime_reg : AtsRegister
  wallclock_reg count_lifetime_reg count_24h_reg icd_major_reg icd_minor_reg : AtsRegister
  fw_major_reg fw_minor_reg fw_patch_reg unit_id_reg : AtsRegister
  cmd_test_reg cmd_inhibit_reg cmd_force_reg cmd_bypass_reg : AtsRegister

-- `reading.values`
abbrev pub Values : Type 0
Values = AtsRegister → Option ℕ

pub record FaultRule : Type 0 where
  pub is_fault_summary : Bool
  pub mask : ℕ
  pub code : ℕ

abbrev pub fault_calibration_code : ℕ
fault_calibration_code = 100

abbrev pub fault_input_code : ℕ
fault_input_code = 200

abbrev pub fault_mode_unknown_code : ℕ
fault_mode_unknown_code = 300

abbrev pub fault_output_code : ℕ
fault_output_code = 400

abbrev pub time_skew_code : ℕ
time_skew_code = 500

pub record AtsSnapshot : Type 0 where
  pub position : Position
  pub normal_available : Option Bool
  pub emergency_available : Option Bool
  pub engine_start_calling : Option Bool
  pub ats_mode : AtsMode
  pub fault_codes : List ℕ
  pub last_transfer_to_gen_ts : Option ℕ
  pub last_retransfer_to_util_ts : Option ℕ
  pub ats_pi_uptime_s : ℕ
  pub ats_pi_wallclock : Option ℕ
  pub transfer_count_lifetime : ℕ
  pub transfer_count_24h : ℕ
  pub icd_major : ℕ
  pub icd_minor : ℕ
  pub ats_pi_fw : ℕ × ℕ × ℕ
  pub ats_pi_unit_id : ℕ
  pub cmd_test_active : Bool
  pub cmd_inhibit_active : Bool
  pub cmd_force_transfer_active : Bool
  pub cmd_bypass_delay_active : Bool
  pub last_reading_ts : ℕ
  pub comms_object : Option ℕ
  pub comms : CommsState
  pub base_poll_completed : Bool

pub data Severity : Type 0 where
  info ok warn : Severity

pub data MaintainedCommand : Type 0 where
  inhibit_command force_command : MaintainedCommand

pub data Compatibility : Type 0 where
  major_mismatch minor_ahead minor_behind : Compatibility

pub data AtsEvent : Type 0 where
  position_changed : Position → Position → AtsEvent
  normal_changed emergency_changed : Bool → AtsEvent
  mode_changed : AtsMode → AtsMode → AtsEvent
  fault_raised fault_cleared : ℕ → AtsEvent
  command_external : MaintainedCommand → Bool → AtsEvent
  rebooted : ℕ → ℕ → AtsEvent
  comms_changed : CommsState → CommsState → AtsEvent
  icd_checked : Compatibility → AtsEvent

-- The service, the rows of its alarms in the database, the rows of its events there, with their severity,
-- and what it published on the bus, in order.
pub record AtsService : Type 0 where
  pub fault_rules : List FaultRule
  pub expected_unit_id : Option ℕ
  pub snap : AtsSnapshot
  pub prev_uptime_s : ℕ
  pub time_skew_alarm_active : Bool
  pub icd_version_validated : Bool
  pub cmd_write_monotonic : MaintainedCommand → Bool → Option ℕ
  pub alarm_rows : ℕ → Bool
  pub event_rows : List (Severity × AtsEvent)
  pub published : List AtsEvent

abbrev pub initial_snapshot : AtsSnapshot
initial_snapshot = record {
  position = unknown;
  normal_available = none;
  emergency_available = none;
  engine_start_calling = none;
  ats_mode = mode_unknown;
  fault_codes = [];
  last_transfer_to_gen_ts = none;
  last_retransfer_to_util_ts = none;
  ats_pi_uptime_s = 0;
  ats_pi_wallclock = none;
  transfer_count_lifetime = 0;
  transfer_count_24h = 0;
  icd_major = 0;
  icd_minor = 0;
  ats_pi_fw = (0, 0, 0);
  ats_pi_unit_id = 0;
  cmd_test_active = false;
  cmd_inhibit_active = false;
  cmd_force_transfer_active = false;
  cmd_bypass_delay_active = false;
  last_reading_ts = 0;
  comms_object = none;
  comms = healthy;
  base_poll_completed = false;
}

-- `__init__`, on a database that may have rows already.
abbrev pub new_service :
    List FaultRule → Option ℕ → (ℕ → Bool) → List (Severity × AtsEvent) → AtsService
new_service rules unit rows events = record {
  fault_rules = rules;
  expected_unit_id = unit;
  snap = initial_snapshot;
  prev_uptime_s = 0;
  time_skew_alarm_active = false;
  icd_version_validated = false;
  cmd_write_monotonic = λ command asserted. none;
  alarm_rows = rows;
  event_rows = events;
  published = [];
}

abbrev pub expected_icd_major : ℕ
expected_icd_major = 1

abbrev pub expected_icd_minor : ℕ
expected_icd_minor = 0

abbrev pub is_link_healthy : CommsState → Bool
is_link_healthy healthy = true
is_link_healthy _ = false

-- The expected unit, if one is configured.
abbrev pub is_expected : Option ℕ → ℕ → Bool
is_expected none unit = true
is_expected (some expected) unit = unit == expected

-- `_POSITION_FAULTS`
abbrev pub has_position_fault : List ℕ → Bool
has_position_fault codes =
    is_member fault_input_code codes || is_member fault_calibration_code codes

unfoldable pub is_authoritative : AtsService → Bool
is_authoritative s =
    is_link_healthy s.snap.comms
    && (s.snap.base_poll_completed
        && (s.snap.icd_major == expected_icd_major
            && (is_expected s.expected_unit_id s.snap.ats_pi_unit_id
                && not (has_position_fault s.snap.fault_codes))))

abbrev pub is_same_command : MaintainedCommand → MaintainedCommand → Bool
is_same_command inhibit_command inhibit_command = true
is_same_command force_command force_command = true
is_same_command _ _ = false

unfoldable pub position_by_value : ℕ → Position
position_by_value n =
    if n == 0
    then utility
    else if n == 1
    then generator
    else if n == 2
    then transferring
    else unknown

unfoldable pub invert_position : Position → ℕ
invert_position utility = 0
invert_position generator = 1
invert_position transferring = 2
invert_position unknown = 3

unfoldable pub mode_by_value : ℕ → AtsMode
mode_by_value n =
    if n == 0 then auto else if n == 1 then manual else if n == 2 then test else mode_unknown

unfoldable pub invert_mode : AtsMode → ℕ
invert_mode auto = 0
invert_mode manual = 1
invert_mode test = 2
invert_mode mode_unknown = 3

-- `_u16`
unfoldable pub u16_or : Option ℕ → ℕ → ℕ
u16_or none prev = prev
u16_or (some n) prev = bit_and n 0xFFFF

-- `_bool`
abbrev pub bool_or : Option ℕ → Bool → Bool
bool_or none d = d
bool_or (some n) d = not (n == 0)

-- `_bool_or_none`
abbrev pub bool_or_none : Option ℕ → Option Bool
bool_or_none none = none
bool_or_none (some n) = some (not (n == 0))

-- `_epoch_or_none`
abbrev pub epoch_or_none : Option ℕ → Option ℕ
epoch_or_none none = none
epoch_or_none (some n) = if ltb 0 n then some n else none

abbrev pub number_or : Option ℕ → ℕ → ℕ
number_or none d = d
number_or (some n) d = n

-- A set in which a code stands once, in order.
unfoldable pub add_code : ℕ → List ℕ → List ℕ
add_code c [] = c ∷ []
add_code c (d ∷ ds) =
    let rest = add_code c ds in if c == d then d ∷ ds else if ltb c d then c ∷ d ∷ ds else d ∷ rest

-- `_decode_fault_bits`, from the last rule to the first.
unfoldable pub decode_fault_bits : ℕ → List FaultRule → List ℕ
unfolding add_code
decode_fault_bits raw [] = []
decode_fault_bits raw (r ∷ rs) =
    let rest = decode_fault_bits raw rs in
    if r.is_fault_summary && bit_and raw r.mask == r.mask then add_code r.code rest else rest

unfoldable pub note_command_write : MaintainedCommand → Bool → ℕ → AtsService → AtsService
note_command_write command asserted now s = record s {
  cmd_write_monotonic = λ k v.
      if is_same_command k command && (if asserted then v else not v)
      then some now
      else s.cmd_write_monotonic k v;
}
