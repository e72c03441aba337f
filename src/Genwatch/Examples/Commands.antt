-- ===== src/Genwatch/Examples/Commands.antt =====
-- The theorems on commands and tokens at concrete inputs.
use complete_gen_project.Base.{
  ℕ, ◌+◌, ◌-◌, ◌≤◌, ◌≡◌, ◌↔◌, refl, true, false, not, Option, none, some, List, [], ◌∷◌, ◌==◌, leb,
  ◌&&◌, ◌++◌, arith, if◌then◌else◌, bool_eq,
}
use complete_gen_project.Base.Dicts.{Dict, lookup, IsUnique, remove, presence}
use complete_gen_project.Genwatch.LoadSource.{stopped}
use complete_gen_project.Genwatch.Validation.{ControlDef}
use complete_gen_project.Genwatch.Tokens.{
  start, inhibit, ConfirmToken, degraded, healthy, panel_auto, ats_modbus_failed, Control, done,
  consume_token, evict_expired, evict_loop, evict_token, pop_token, check_token, require,
  write_audit, write_single,
}
use complete_gen_project.Genwatch.Tokens.Verdict.{IsSpendable, Accepts, live, consume_token_verdict}
use complete_gen_project.Genwatch.Control.{
  operator, admin, ControlName, remote_start, ats_inhibit_assert, ats_inhibit_release, ControlMap,
  GeneratorView, Instants, Request, to_write, verb_to_control, allowed, panel_auto_required,
  is_stale, stale_control_registers, client_write, write_event, report,
}
use complete_gen_project.Genwatch.Control as GeneratorControl
use complete_gen_project.Genwatch.Control.Gates.{reported, execute_outcome}
use complete_gen_project.Genwatch.Control.Gates as GeneratorGates
use complete_gen_project.Genwatch.Ats.Model.{
  AtsRegister, cmd_inhibit_reg, AtsService, new_service, fault_output_code, inhibit_command,
}
use complete_gen_project.Genwatch.Ats.Update.{AtsPoll, update}
use complete_gen_project.Genwatch.AtsControl.{
  AtsCommandSpec, ats_command_spec, Command, execute_command, execute,
}
use complete_gen_project.Genwatch.AtsControl.Gates as SwitchGates
use complete_gen_project.Genwatch.AtsControl.Gates.{execute_command_outcome}
use complete_gen_project.Genwatch.AtsControl.Release.{execute_command_release}
use complete_gen_project.Genwatch.AtsControl.Echo.{
  outside_changes, shown, reported_outside, polled, execute-update,
}
use complete_gen_project.Genwatch.Commands.{
  Operation, issue, command_generator, operate_all, issues, weight,
}
use complete_gen_project.Genwatch.Commands.Starts.{starts, givens, operate_all-starts}

-- Two tokens of one operator: 501 for a start, 502 for an inhibit; 503 of another has expired.
abbrev held : Dict ConfirmToken
held =
    (501, record { operator = 7; expires_monotonic = 90000; verb = some start })
    ∷ (502, record { operator = 7; expires_monotonic = 90000; verb = some inhibit })
    ∷ (503, record { operator = 8; expires_monotonic = 50000; verb = none })
    ∷ []

abbrev desk : Control
desk = record { tokens = held; ledger = []; sent = []; sent_ats = []; command_events = [] }

held-IsUnique : IsUnique held
unfolding lookup
held-IsUnique = (refl, (refl, (refl, tt)))

consume_token_verdict_example :
    let r = consume_token 501 7 (some start) 60000 60001 desk in
    (Accepts r.0 ↔ IsSpendable (lookup 501 desk.tokens) 7 (some start) 60001)
    × (lookup 501 r.1.tokens ≡ none)
    × ((t : ℕ) → (501 == t) ≡ false → lookup t r.1.tokens ≡ live 60000 (lookup t desk.tokens))
consume_token_verdict_example =
    consume_token_verdict 501 7 (some start) 60000 60001 desk held-IsUnique (omega arith)

-- Another operator spoils the token, and cannot use it.
spoiled_test : lookup 501 (consume_token 501 8 (some start) 60000 60001 desk).1.tokens ≡ none
unfolding consume_token evict_expired evict_loop evict_token pop_token check_token require
    write_audit lookup remove
spoiled_test = refl

abbrev start_control : ControlDef
start_control = record { name = 11; addr = 0x19C; fc = 6; value = 1; values = [] }

abbrev release_control : ControlDef
release_control = record { name = 12; addr = 0x102; fc = 6; value = 0; values = [] }

abbrev controls_of : ControlName → Option ControlDef
controls_of remote_start = some start_control
controls_of ats_inhibit_release = some release_control
controls_of _ = none

abbrev control_map : ControlMap
control_map = record { prime_poll_ms = 1500; state_registers = 1 ∷ 2 ∷ []; controls = controls_of }

abbrev ages : ℕ → Option ℕ
ages name = if name == 1 then some 59000 else if name == 2 then some 58500 else none

abbrev standing_by : GeneratorView
standing_by = record {
  comms = healthy;
  engine_state = stopped;
  panel_mode = panel_auto;
  value_ages = ages;
}

abbrev at_sixty : Instants
at_sixty = record { checked = 60000; evicted = 60000; consumed = 60001 }

abbrev start_request : Request
start_request = record { token = 501; who = 7; role = operator }

execute_outcome_example :
    GeneratorGates.Outcome control_map standing_by start start_request at_sixty true desk
      (GeneratorControl.execute control_map standing_by start start_request at_sixty true desk)
execute_outcome_example =
    execute_outcome control_map standing_by start start_request at_sixty true desk held-IsUnique
      (omega arith)

-- All gates hold here, and the start goes out.
start_test :
    (GeneratorControl.execute control_map standing_by start start_request at_sixty true desk).1.sent
    ≡ write_single 0x19C 1 ∷ []
unfolding GeneratorControl.execute require verb_to_control stale_control_registers is_stale
    panel_auto_required allowed consume_token evict_expired evict_loop evict_token pop_token
    check_token write_audit client_write to_write report write_event lookup remove
start_test = refl

-- A link on which an output is stuck.
abbrev stuck : AtsService
stuck =
    let s = new_service [] none (λ c. false) [] in
    record s {
      snap = record s.snap {
        comms = degraded;
        fault_codes = fault_output_code ∷ [];
        cmd_inhibit_active = true;
      };
    }

abbrev back_out : Command
back_out = record { verb = inhibit; asserts = false; override = false }

abbrev release_request : Request
release_request = record { token = 502; who = 7; role = operator }

execute_command_outcome_example :
    SwitchGates.Outcome control_map stuck back_out release_request at_sixty true desk
      (execute_command control_map stuck back_out release_request at_sixty true desk)
execute_command_outcome_example =
    execute_command_outcome control_map stuck back_out release_request at_sixty true desk
      held-IsUnique (omega arith)

abbrev inhibit_spec : AtsCommandSpec
inhibit_spec = record {
  is_maintained = true;
  assert_control = ats_inhibit_assert;
  release_control = some ats_inhibit_release;
  role = operator;
}

inhibit_known : ats_command_spec inhibit ≡ some inhibit_spec
unfolding ats_command_spec
inhibit_known = refl

release-IsSpendable : IsSpendable (lookup 502 held) 7 (some inhibit) 60001
unfolding lookup
release-IsSpendable = (omega arith, refl, refl)

execute_command_release_example :
    let r = execute_command control_map stuck back_out release_request at_sixty true desk in
    (r.0 ≡ reported true ats_modbus_failed release_control)
    × (r.1.sent_ats ≡ to_write release_control ∷ [])
execute_command_release_example =
    execute_command_release control_map stuck back_out release_request at_sixty true desk
      inhibit_spec release_control inhibit_known refl refl refl refl refl held-IsUnique
      (omega arith) release-IsSpendable

released :
    (execute control_map back_out release_request at_sixty true 60002 stuck desk).0
    ≡ done release_control
unfolding execute
released = execute_command_release_example.0

-- Polls that read the inhibit register as it is given.
abbrev read_inhibit : ℕ → AtsRegister → Option ℕ
read_inhibit n cmd_inhibit_reg = some n
read_inhibit n _ = none

abbrev inhibit_poll : ℕ → ℕ → AtsPoll
inhibit_poll n mono = record {
  is_base = true;
  values = read_inhibit n;
  comms_object = 1;
  comms = healthy;
  now = mono + 1000000;
  mono = mono;
}

abbrev first_polls : List AtsPoll
first_polls = inhibit_poll 1 60500 ∷ []

-- The link has been polled once since, and still read the inhibit as set.
execute-update_example :
    let before =
      polled control_map back_out release_request at_sixty true 60002 stuck desk first_polls in
    outside_changes inhibit_command (update (inhibit_poll 0 61500) before).published
    ≡ outside_changes inhibit_command before.published
      ++ (if before.snap.last_reading_ts == 0
          then []
          else reported_outside
              (not (bool_eq (shown inhibit_command before.snap) false)
                && not (leb (61500 - 60002) 10000))
              inhibit_command
              false)
execute-update_example =
    execute-update control_map back_out release_request at_sixty true 60002 stuck desk first_polls
      inhibit_command release_control (inhibit_poll 0 61500) refl released refl

-- A token for a start, used twice.
abbrev twice : List Operation
twice =
    issue 7 (some start) (501 ∷ 504 ∷ []) 60000 60000
    ∷ command_generator control_map standing_by start start_request at_sixty true
    ∷ command_generator control_map standing_by start start_request at_sixty true
    ∷ []

operate_all-starts_example :
    (weight (operate_all twice desk) ≤ weight desk + issues twice)
    × ((t : ℕ)
        → starts t twice desk + presence t (operate_all twice desk).tokens
          ≤ presence t desk.tokens + givens t twice desk)
operate_all-starts_example =
    operate_all-starts twice desk held-IsUnique (tt, (omega arith, (omega arith, tt)))
