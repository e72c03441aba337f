-- ===== src/Genwatch/AtsControl.antt =====
-- The commands to the switch (GenWatch-main/backend/genwatch/services/ats_control.py), over the link to
-- the companion and the confirm tokens. The writes of momentary commands are not noted in the link, which
-- never looks them up.
pub mod Gates
pub mod Release
pub mod Echo
use complete_gen_project.Base.{
  ℕ, Bool, true, false, not, ◌&&◌, ◌||◌, Option, none, some, List, [], ◌∷◌, leb, ◌==◌,
  if◌then◌else◌,
}
use complete_gen_project.Genwatch.Alarms.{is_member}
use complete_gen_project.Genwatch.Validation.{ControlDef}
use complete_gen_project.Genwatch.Tokens.{
  Verb, test, inhibit, force_transfer, bypass_delay, CommsState, lost, bad_role, no_register,
  not_authoritative, blocking_fault, no_override, bad_comms, denied, failed, forbidden,
  unknown_command, ats_comms_lost, ats_not_authoritative, ats_fault, override_required,
  ats_modbus_failed, Control, Step, Result, done, refused, ◌>>=◌, ◌>>◌, raise, require,
  consume_token,
}
use complete_gen_project.Genwatch.Control.{
  Role, viewer, operator, admin, other_role, ControlName, ats_test, ats_inhibit_assert,
  ats_inhibit_release, ats_force_assert, ats_force_release, ats_bypass_delay, ControlMap, Instants,
  Request, need, no_control, to_write, report,
}
use complete_gen_project.Genwatch.Ats.Model.{
  AtsService, MaintainedCommand, inhibit_command, force_command, fault_input_code,
  fault_calibration_code, fault_output_code, fault_mode_unknown_code, is_authoritative,
  note_command_write,
}

abbrev pub role_rank : Role → ℕ
role_rank viewer = 0
role_rank operator = 1
role_rank admin = 2
role_rank other_role = 0

-- A role that is not in the table is required by no command.
abbrev pub role_satisfies : Role → Role → Bool
role_satisfies role required = leb (role_rank required) (role_rank role)

pub record AtsCommandSpec : Type 0 where
  pub is_maintained : Bool
  pub assert_control : ControlName
  pub release_control : Option ControlName
  pub role : Role

-- `ATS_COMMAND_SPECS`
unfoldable pub ats_command_spec : Verb → Option AtsCommandSpec
ats_command_spec test = some (record {
  is_maintained = false;
  assert_control = ats_test;
  release_control = none;
  role = operator;
})
ats_command_spec inhibit = some (record {
  is_maintained = true;
  assert_control = ats_inhibit_assert;
  release_control = some ats_inhibit_release;
  role = operator;
})
ats_command_spec force_transfer = some (record {
  is_maintained = true;
  assert_control = ats_force_assert;
  release_control = some ats_force_release;
  role = admin;
})
ats_command_spec bypass_delay = some (record {
  is_maintained = false;
  assert_control = ats_bypass_delay;
  release_control = none;
  role = operator;
})
ats_command_spec _ = none

-- `_ASSERT_BLOCKING_FAULTS`
abbrev pub is_blocked : List ℕ → Bool
is_blocked codes =
    is_member fault_input_code codes
    || (is_member fault_calibration_code codes
        || (is_member fault_output_code codes || is_member fault_mode_unknown_code codes))

abbrev pub is_lost : CommsState → Bool
is_lost lost = true
is_lost _ = false

abbrev pub is_available : Option Bool → Bool
is_available (some true) = true
is_available _ = false

abbrev pub is_force : Verb → Bool
is_force force_transfer = true
is_force _ = false

-- What the request asks for.
pub record Command : Type 0 where
  pub verb : Verb
  pub asserts : Bool
  pub override : Bool

unfoldable pub control_name : AtsCommandSpec → Bool → Option ControlName
control_name spec asserts =
    if spec.is_maintained
    then (if asserts then some spec.assert_control else spec.release_control)
    else some spec.assert_control

abbrev pub is_assert : AtsCommandSpec → Bool → Bool
is_assert spec asserts = not spec.is_maintained || asserts

abbrev pub and_then : {A B : Type 0} → Option A → (A → Option B) → Option B
and_then none f = none
and_then (some a) f = f a

unfoldable pub client_write_ats : ControlDef → Step (Unit {0})
client_write_ats ctl c = (done tt, record c { sent_ats = to_write ctl ∷ c.sent_ats })

-- Whether a force transfer takes the load off a healthy utility without an override.
abbrev pub drops_utility : Command → AtsService → Bool
drops_utility k s = is_force k.verb && (not k.override && is_available s.snap.normal_available)

unfoldable pub execute_command :
    ControlMap → AtsService → Command → Request → Instants → Bool → Step ControlDef
execute_command m s k q at answer = do
  spec ← need (ats_command_spec k.verb) (raise unknown_command 400)
  require (role_satisfies q.role spec.role) q.who bad_role q.token denied forbidden 403
  require (not (is_lost s.snap.comms)) q.who (bad_comms lost) q.token denied ats_comms_lost 502
  require (not (is_assert spec k.asserts) || is_authoritative s) q.who not_authoritative q.token
      denied ats_not_authoritative 409
  require (not (is_assert spec k.asserts) || not (is_blocked s.snap.fault_codes)) q.who
      blocking_fault q.token denied ats_fault 409
  require (not (is_assert spec k.asserts) || not (drops_utility k s)) q.who no_override q.token
      denied override_required 409
  ctl ← need (and_then (control_name spec k.asserts) m.controls) (no_control q.who q.token)
  consume_token q.token q.who (some k.verb) at.evicted at.consumed
  client_write_ats ctl
  report answer q.who q.token ats_modbus_failed ctl

abbrev pub noted_command : Verb → Option MaintainedCommand
noted_command inhibit = some inhibit_command
noted_command force_transfer = some force_command
noted_command _ = none

abbrev pub note_if : Option MaintainedCommand → Bool → ℕ → AtsService → AtsService
note_if none asserted mono s = s
note_if (some command) asserted mono s = note_command_write command asserted mono s

-- After a write that was confirmed.
unfoldable pub note_result : Result ControlDef → Command → ℕ → AtsService → AtsService
note_result (done ctl) k mono s = note_if (noted_command k.verb) k.asserts mono s
note_result (refused e) k mono s = s

-- `execute`, with the clock at the note.
unfoldable pub execute :
    ControlMap
    → Command
    → Request
    → Instants
    → Bool
    → ℕ
    → AtsService
    → Control
    → Result ControlDef × Control × AtsService
execute m k q at answer mono s c =
    let (r, c') = execute_command m s k q at answer c in (r, c', note_result r k mono s)
