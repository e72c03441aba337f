-- ===== src/Genwatch/Control.antt =====
-- The commands to the generator (`execute` and `_stale_control_registers` of
-- GenWatch-main/backend/genwatch/services/control.py). The alert to Slack, which repeats the command
-- event, and the order of the stale registers in the ledger are left out. A register is a number; times
-- are in milliseconds.
pub mod Gates
use complete_gen_project.Base.{
  ℕ, ◌-◌, ◌*◌, ◌≡◌, refl, Bool, true, false, not, ◌&&◌, ◌||◌, Option, none, some, List, [], ◌∷◌,
  ltb, ◌==◌, if◌then◌else◌, max, length, keep,
}
use complete_gen_project.Genwatch.LoadSource.{
  EngineState, stopped, cranking, running, cooling, exercising, alarm,
}
use complete_gen_project.Genwatch.Validation.{ControlDef, write_values}
use complete_gen_project.Genwatch.Tokens.{
  Verb, start, stop, exercise, transfer, CommsState, healthy, PanelMode, panel_auto, bad_role,
  no_register as no_register_row, stale_registers, write_failed, written, bad_comms, bad_panel,
  bad_state, succeeded, denied, failed, Outcome, forbidden, unknown_verb, ErrorCode, no_register,
  comms_lost, stale_data, panel_mode_locked, invalid_state, modbus_failed, Write, write_single,
  write_multiple, Control, Step, Result, ◌>>=◌, ◌>>◌, pure, raise, write_audit, require, refusal,
  consume_token,
}

pub data Role : Type 0 where
  viewer operator admin other_role : Role

-- The names of the controls that the services write: those of the generator, and those of the switch.
pub data ControlName : Type 0 where
  remote_start remote_stop exercise_control transfer_control : ControlName
  ats_test ats_inhibit_assert ats_inhibit_release : ControlName
  ats_force_assert ats_force_release ats_bypass_delay : ControlName

-- What the services read of a register map: the registers of the rules on the engine state and on the
-- panel, and the controls.
pub record ControlMap : Type 0 where
  pub prime_poll_ms : ℕ
  pub state_registers : List ℕ
  pub controls : ControlName → Option ControlDef

-- What the state machine has of the generator, with the age stamps of the last reading.
pub record GeneratorView : Type 0 where
  pub comms : CommsState
  pub engine_state : EngineState
  pub panel_mode : PanelMode
  pub value_ages : ℕ → Option ℕ

-- The clock at the three places that read it.
pub record Instants : Type 0 where
  pub checked : ℕ
  pub evicted : ℕ
  pub consumed : ℕ

pub record Request : Type 0 where
  pub token : ℕ
  pub who : ℕ
  pub role : Role

abbrev pub may_operate : Role → Bool
may_operate operator = true
may_operate admin = true
may_operate _ = false

-- `VERB_TO_CONTROL`
unfoldable pub verb_to_control : Verb → Option ControlName
verb_to_control start = some remote_start
verb_to_control stop = some remote_stop
verb_to_control exercise = some exercise_control
verb_to_control transfer = some transfer_control
verb_to_control _ = none

-- `ALLOWED`
unfoldable pub allowed : Verb → EngineState → Bool
allowed start stopped = true
allowed stop running = true
allowed stop exercising = true
allowed stop cranking = true
allowed stop cooling = true
allowed stop alarm = true
allowed exercise stopped = true
allowed transfer running = true
allowed _ _ = false

-- `PANEL_AUTO_REQUIRED`
unfoldable pub panel_auto_required : Verb → Bool
panel_auto_required start = true
panel_auto_required stop = true
panel_auto_required exercise = true
panel_auto_required transfer = true
panel_auto_required _ = false

abbrev pub is_healthy : CommsState → Bool
is_healthy healthy = true
is_healthy _ = false

abbrev pub is_auto : PanelMode → Bool
is_auto panel_auto = true
is_auto _ = false

-- Never decoded, or longer ago than two cadences.
unfoldable pub is_stale : ℕ → ℕ → Option ℕ → Bool
is_stale now limit none = true
is_stale now limit (some ts) = ltb limit (now - ts)

abbrev pub max_age_ms : ControlMap → ℕ
max_age_ms m = max m.prime_poll_ms 1 * 2

unfoldable pub stale_control_registers : ControlMap → GeneratorView → ℕ → List ℕ
unfolding is_stale
stale_control_registers m g now =
    keep (λ name. is_stale now (max_age_ms m) (g.value_ages name)) m.state_registers

abbrev pub is_nil : List ℕ → Bool
is_nil [] = true
is_nil _ = false

-- A value that has to be there: the error where it is not.
abbrev pub need : {A : Type 0} → Option A → Step A → Step A
need none missing = missing
need (some x) missing = pure x

unfoldable pub no_control : ℕ → ℕ → Step ControlDef
unfolding write_audit
no_control who token = do write_audit who no_register_row token failed; raise no_register 500

-- The call that a control makes on the link.
unfoldable pub to_write : ControlDef → Write
to_write ctl = elim (write_values ctl) [
  | [] ↦ write_multiple ctl.addr ctl.fc []
  | w ∷ ws ↦
      if length ws == 0 && ctl.fc == 6
      then write_single ctl.addr w
      else write_multiple ctl.addr ctl.fc (w ∷ ws)
]

unfoldable pub client_write : ControlDef → Step (Unit {0})
unfolding to_write
client_write ctl c = (Result.done tt, record c { sent = to_write ctl ∷ c.sent })

unfoldable pub write_event : Bool → Step (Unit {0})
write_event ok c = (Result.done tt, record c { command_events = ok ∷ c.command_events })

-- After the write, by what the link answered.
unfoldable pub report : Bool → ℕ → ℕ → ErrorCode → ControlDef → Step ControlDef
unfolding write_audit write_event
report true who token code ctl = do
  write_audit who written token succeeded
  write_event true
  pure ctl
report false who token code ctl = do
  write_audit who write_failed token failed
  write_event false
  raise code 502

unfoldable pub execute :
    ControlMap → GeneratorView → Verb → Request → Instants → Bool → Step ControlDef
execute m g verb q at answer = do
  require (may_operate q.role) q.who bad_role q.token denied forbidden 403
  name ← need (verb_to_control verb) (raise unknown_verb 400)
  ctl ← need (m.controls name) (no_control q.who q.token)
  require (is_healthy g.comms) q.who (bad_comms g.comms) q.token denied comms_lost 409
  require (is_nil (stale_control_registers m g at.checked)) q.who stale_registers q.token denied
      stale_data 409
  require (not (panel_auto_required verb) || is_auto g.panel_mode) q.who (bad_panel g.panel_mode)
      q.token denied panel_mode_locked 409
  require (allowed verb g.engine_state) q.who (bad_state g.engine_state) q.token denied
      invalid_state 409
  consume_token q.token q.who (some verb) at.evicted at.consumed
  client_write ctl
  report answer q.who q.token modbus_failed ctl
