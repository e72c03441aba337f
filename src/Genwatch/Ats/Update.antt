-- ===== src/Genwatch/Ats/Update.antt =====
-- A poll of the companion (`on_poll`, `_update` and the helpers that emit events, of
-- GenWatch-main/backend/genwatch/services/ats.py). A call of the database that fails is left out. What
-- Slack and MQTT are told is a function of the events.
use complete_gen_project.Base.{
  ℕ, ◌-◌, ◌*◌, Bool, true, false, not, ◌&&◌, ◌||◌, Option, none, some, List, [], ◌∷◌, ◌++◌, ltb,
  leb, ◌==◌, if◌then◌else◌, bool_eq, keep, map,
}
use complete_gen_project.Companion.IoDriver.{
  Position, utility, generator, transferring, unknown, AtsMode, auto, mode_unknown,
}
use complete_gen_project.Genwatch.Tokens.{CommsState, healthy, degraded, lost}
use complete_gen_project.Genwatch.Alarms.{is_member, set_row}
use complete_gen_project.Genwatch.Ats.Model.{
  Values, position_reg, normal_available_reg, emergency_available_reg, engine_start_calling_reg,
  ats_mode_reg, fault_summary_reg, last_transfer_reg, last_retransfer_reg, uptime_reg,
  wallclock_reg, count_lifetime_reg, count_24h_reg, icd_major_reg, icd_minor_reg, fw_major_reg,
  fw_minor_reg, fw_patch_reg, unit_id_reg, cmd_test_reg, cmd_inhibit_reg, cmd_force_reg,
  cmd_bypass_reg, FaultRule, AtsSnapshot, Severity, info, ok, warn, MaintainedCommand,
  inhibit_command, force_command, major_mismatch, minor_ahead, minor_behind, AtsEvent,
  position_changed, normal_changed, emergency_changed, mode_changed, fault_raised, fault_cleared,
  command_external, rebooted, comms_changed, icd_checked, AtsService, time_skew_code,
  expected_icd_major, expected_icd_minor, position_by_value, invert_position, mode_by_value,
  invert_mode, u16_or, bool_or, bool_or_none, epoch_or_none, number_or, decode_fault_bits,
}

-- The arguments of `on_poll`, and the two clocks. The health of the link is an object: `comms_object`
-- says which, `comms` what its state is now.
pub record AtsPoll : Type 0 where
  pub is_base : Bool
  pub values : Values
  pub comms_object : ℕ
  pub comms : CommsState
  pub now : ℕ
  pub mono : ℕ

-- The rows and events of one poll, in order.
abbrev pub Emitted : Type 0
Emitted = List (Severity × AtsEvent)

abbrev pub first_some {ℓ} : {A : Type ℓ} → Option A → Option A → Option A
first_some none o = o
first_some (some a) o = some a

-- The snapshot after a poll.
unfoldable pub decode_snapshot : List FaultRule → AtsPoll → AtsSnapshot → AtsSnapshot
decode_snapshot rules p prev =
    let v = p.values in
    let (fw_major, fw_minor, fw_patch) = prev.ats_pi_fw in
    record {
      position = position_by_value (u16_or (v position_reg) (invert_position prev.position));
      normal_available = first_some (bool_or_none (v normal_available_reg)) prev.normal_available;
      emergency_available =
          first_some (bool_or_none (v emergency_available_reg)) prev.emergency_available;
      engine_start_calling =
          first_some (bool_or_none (v engine_start_calling_reg)) prev.engine_start_calling;
      ats_mode = mode_by_value (u16_or (v ats_mode_reg) (invert_mode prev.ats_mode));
      fault_codes = decode_fault_bits (number_or (v fault_summary_reg) 0) rules;
      last_transfer_to_gen_ts =
          first_some (epoch_or_none (v last_transfer_reg)) prev.last_transfer_to_gen_ts;
      last_retransfer_to_util_ts =
          first_some (epoch_or_none (v last_retransfer_reg)) prev.last_retransfer_to_util_ts;
      ats_pi_uptime_s = number_or (v uptime_reg) prev.ats_pi_uptime_s;
      ats_pi_wallclock = first_some (epoch_or_none (v wallclock_reg)) prev.ats_pi_wallclock;
      transfer_count_lifetime = number_or (v count_lifetime_reg) prev.transfer_count_lifetime;
      transfer_count_24h = number_or (v count_24h_reg) prev.transfer_count_24h;
      icd_major = number_or (v icd_major_reg) prev.icd_major;
      icd_minor = number_or (v icd_minor_reg) prev.icd_minor;
      ats_pi_fw = (
        number_or (v fw_major_reg) fw_major,
        number_or (v fw_minor_reg) fw_minor,
        number_or (v fw_patch_reg) fw_patch,
      );
      ats_pi_unit_id = number_or (v unit_id_reg) prev.ats_pi_unit_id;
      cmd_test_active = bool_or (v cmd_test_reg) prev.cmd_test_active;
      cmd_inhibit_active = bool_or (v cmd_inhibit_reg) prev.cmd_inhibit_active;
      cmd_force_transfer_active = bool_or (v cmd_force_reg) prev.cmd_force_transfer_active;
      cmd_bypass_delay_active = bool_or (v cmd_bypass_reg) prev.cmd_bypass_delay_active;
      last_reading_ts = p.now;
      comms_object = some p.comms_object;
      comms = p.comms;
      base_poll_completed = prev.base_poll_completed || p.is_base;
    }

abbrev pub when : Bool → Severity → AtsEvent → Emitted
when true sev e = (sev, e) ∷ []
when false sev e = []

abbrev pub position_eq : Position → Position → Bool
position_eq p q = invert_position p == invert_position q

abbrev pub mode_eq : AtsMode → AtsMode → Bool
mode_eq m n = invert_mode m == invert_mode n

unfoldable pub position_severity : Position → Severity
position_severity transferring = info
position_severity generator = warn
position_severity _ = ok

-- `_emit_position`: the transition at boot is not an event.
unfoldable pub emit_position : Position → Position → Emitted
unfolding position_severity
emit_position unknown utility = []
emit_position old new = (position_severity new, position_changed old new) ∷ []

unfoldable pub position_events : Position → Position → Emitted
unfolding emit_position invert_position
position_events old new = if position_eq old new then [] else emit_position old new

-- `_emit_source`, where the availability was known and has changed.
unfoldable pub source_events : (Bool → AtsEvent) → Option Bool → Option Bool → Emitted
source_events e (some new) (some old) =
    when (not (bool_eq old new)) (if new then ok else warn) (e new)
source_events e _ _ = []

abbrev pub is_auto_mode : AtsMode → Bool
is_auto_mode auto = true
is_auto_mode _ = false

abbrev pub is_known_mode : AtsMode → Bool
is_known_mode mode_unknown = false
is_known_mode _ = true

unfoldable pub mode_events : AtsMode → AtsMode → Emitted
unfolding invert_mode
mode_events old new =
    when (not (mode_eq old new) && is_known_mode old) (if is_auto_mode new then info else warn)
      (mode_changed old new)

abbrev pub minus_codes : List ℕ → List ℕ → List ℕ
minus_codes xs ys = keep (λ c. not (is_member c ys)) xs

abbrev pub raise_all : List ℕ → Emitted
raise_all [] = []
raise_all (c ∷ cs) = (warn, fault_raised c) ∷ raise_all cs

abbrev pub clear_all : List ℕ → Emitted
clear_all [] = []
clear_all (c ∷ cs) = (ok, fault_cleared c) ∷ clear_all cs

unfoldable pub fault_events : List ℕ → List ℕ → Emitted
fault_events old new = raise_all (minus_codes new old) ++ clear_all (minus_codes old new)

abbrev pub set_rows : Bool → List ℕ → (ℕ → Bool) → ℕ → Bool
set_rows b [] rows = rows
set_rows b (c ∷ cs) rows = set_rows b cs (set_row c b rows)

unfoldable pub fault_rows : List ℕ → List ℕ → (ℕ → Bool) → ℕ → Bool
fault_rows old new rows =
    set_rows false (minus_codes old new) (set_rows true (minus_codes new old) rows)

abbrev pub cmd_echo_window_ms : ℕ
cmd_echo_window_ms = 10000

abbrev pub is_echo : ℕ → Option ℕ → Bool
is_echo mono none = false
is_echo mono (some wrote) = leb (mono - wrote) cmd_echo_window_ms

-- One round of the loop of `_check_maintained_cmd_edges`.
unfoldable pub command_edge : AtsService → ℕ → MaintainedCommand → Bool → Bool → Emitted
command_edge s mono command was is_now =
    when (not (bool_eq was is_now) && not (is_echo mono (s.cmd_write_monotonic command is_now)))
      warn (command_external command is_now)

unfoldable pub check_maintained_cmd_edges : AtsService → ℕ → AtsSnapshot → Emitted
unfolding command_edge
check_maintained_cmd_edges s mono next =
    if s.snap.last_reading_ts == 0
    then []
    else (command_edge s mono inhibit_command s.snap.cmd_inhibit_active next.cmd_inhibit_active
        ++ command_edge s mono force_command s.snap.cmd_force_transfer_active
            next.cmd_force_transfer_active)

unfoldable pub reboot_events : ℕ → ℕ → Emitted
reboot_events prev uptime = when (ltb 0 prev && ltb uptime prev) info (rebooted prev uptime)

unfoldable pub comms_events : CommsState → CommsState → Emitted
comms_events healthy healthy = []
comms_events degraded degraded = []
comms_events lost lost = []
comms_events old healthy = (ok, comms_changed old healthy) ∷ []
comms_events old new = (warn, comms_changed old new) ∷ []

-- `_validate_icd_version`
unfoldable pub validate_icd_version : ℕ → ℕ → Emitted
validate_icd_version major minor =
    if not (major == expected_icd_major)
    then (warn, icd_checked major_mismatch) ∷ []
    else if ltb expected_icd_minor minor
    then (info, icd_checked minor_ahead) ∷ []
    else if ltb minor expected_icd_minor
    then (warn, icd_checked minor_behind) ∷ []
    else []

abbrev pub is_same_object : Option ℕ → ℕ → Bool
is_same_object none object = false
is_same_object (some held) object = held == object

-- The poller writes its object in place, and a snapshot that holds it has the new state.
unfoldable pub assign_comms : ℕ → CommsState → AtsSnapshot → AtsSnapshot
assign_comms object state snap = record snap {
  comms = if is_same_object snap.comms_object object then state else snap.comms;
}

abbrev pub validates : AtsService → AtsSnapshot → Bool
validates s next = not s.icd_version_validated && ltb 0 next.icd_major

unfoldable pub icd_events : AtsService → AtsSnapshot → Emitted
unfolding validate_icd_version
icd_events s next =
    if validates s next then validate_icd_version next.icd_major next.icd_minor else []

-- The difference of the clocks is more than the threshold.
abbrev pub is_skewed : ℕ → ℕ → Bool
is_skewed now wallclock = ltb 5000 (wallclock * 1000 - now) || ltb 5000 (now - wallclock * 1000)

-- The alarm on the clock: whether it is active after the poll, and its row.
unfoldable pub time_skew : ℕ → Option ℕ → Bool → Bool
time_skew now none active = active
time_skew now (some wallclock) active = is_skewed now wallclock

unfoldable pub skew_rows : Bool → Bool → (ℕ → Bool) → ℕ → Bool
skew_rows was is_now rows = if bool_eq was is_now then rows else set_row time_skew_code is_now rows

unfoldable pub poll_events : AtsPoll → AtsSnapshot → AtsService → Emitted
poll_events p next s =
    position_events s.snap.position next.position
    ++ source_events normal_changed (bool_or_none (p.values normal_available_reg))
        s.snap.normal_available
    ++ source_events emergency_changed (bool_or_none (p.values emergency_available_reg))
        s.snap.emergency_available
    ++ mode_events s.snap.ats_mode next.ats_mode
    ++ fault_events s.snap.fault_codes next.fault_codes
    ++ check_maintained_cmd_edges s p.mono next
    ++ reboot_events s.prev_uptime_s next.ats_pi_uptime_s
    ++ comms_events (assign_comms p.comms_object p.comms s.snap).comms next.comms
    ++ icd_events s next

abbrev pub event_of : Severity × AtsEvent → AtsEvent
event_of row = row.1

-- `_update`
unfoldable pub update : AtsPoll → AtsService → AtsService
update p s =
    let next = decode_snapshot s.fault_rules p s.snap in
    let emitted = poll_events p next s in
    let skewed =
      time_skew p.now (epoch_or_none (p.values wallclock_reg)) s.time_skew_alarm_active in
    record s {
      snap = next;
      prev_uptime_s = next.ats_pi_uptime_s;
      time_skew_alarm_active = skewed;
      icd_version_validated = s.icd_version_validated || validates s next;
      alarm_rows =
          skew_rows s.time_skew_alarm_active skewed
            (fault_rows s.snap.fault_codes next.fault_codes s.alarm_rows);
      event_rows = s.event_rows ++ emitted;
      published = s.published ++ map event_of emitted;
    }

unfoldable pub run_updates : List AtsPoll → AtsService → AtsService
run_updates [] s = s
run_updates (p ∷ ps) s = run_updates ps (update p s)

-- What `_forward_to_slack` alerts, if anything.
pub data SlackAlert : Type 0 where
  load_source_alert : Position → Position → SlackAlert
  comms_alert : CommsState → CommsState → SlackAlert
  alarm_alert alarm_cleared_alert : ℕ → SlackAlert

unfoldable pub forward_to_slack : Bool → AtsEvent → Option SlackAlert
forward_to_slack false e = none
forward_to_slack true (position_changed old utility) = some (load_source_alert old utility)
forward_to_slack true (position_changed old generator) = some (load_source_alert old generator)
forward_to_slack true (comms_changed old new) = some (comms_alert old new)
forward_to_slack true (fault_raised c) = some (alarm_alert c)
forward_to_slack true (fault_cleared c) = some (alarm_cleared_alert c)
forward_to_slack true _ = none

-- The status that `_forward_to_mqtt` publishes, if any.
unfoldable pub forward_to_mqtt : Bool → AtsEvent → Option Bool
forward_to_mqtt true (position_changed old generator) = some true
forward_to_mqtt true (position_changed old utility) = some false
forward_to_mqtt _ _ = none
