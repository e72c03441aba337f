-- ===== src/Companion/Adam/FailSafe/Gate.antt =====
-- When the driver refuses to assert an output, and what the fail-safe check accepts (`drive_outputs`,
-- `_verify_hw_watchdog` and `_ensure_connected` of ats-pi-companion-main/src/atspi/io_adam.py).
use complete_gen_project.Base.{
  ℕ, ◌*◌, ◌≤◌, ◌≡◌, refl, Bool, true, false, ◌&&◌, Option, none, some, List, [], ◌∷◌, arith, All,
}
use complete_gen_project.Companion.IoDriver.{DriveRequest}
use complete_gen_project.Companion.Adam.Device.{
  Adam, accepted, idle, first_answer, rest_answers, HwWatchdogConfig, ask, ◌>>=◌, read_back,
  verify_config, verify_hw_watchdog, connect, ensure_connected, is_armed, all_zero, is_configured,
}
use complete_gen_project.Companion.Adam.Outputs.{
  Output, out_test, out_force, out_inhibit, out_bypass, get_relay, write_coil, send_write,
  answer_write, act, record_commanded, set_task, pulse, maintain, if_some, drive_outputs, drive_all,
  asserts,
}
use complete_gen_project.Companion.Store.Modbus.{no_request}

-- While the fail-safe is not verified, a request that would assert an output raises, and nothing is
-- written: relays, timers, records and connection stay as they were.
pub drive_outputs_refused :
    (now : ℕ) (r : DriveRequest) (a : Adam)
    → a.hw_ok ≡ false
    → asserts r ≡ true
    → drive_outputs now r a ≡ (none, a)
unfolding drive_outputs
drive_outputs_refused now r a bad h = rw (bad, h)

all_zero-All : (ws : List ℕ) → all_zero ws ≡ true → All (λ w. w ≡ 0) ws
unfolding all_zero
all_zero-All [] h = tt
all_zero-All (w ∷ ws) h = (ground arith, all_zero-All ws (ground arith))

-- The check passes only on a watchdog that is enabled, with its timeout in the band and every safety
-- value off.
pub is_armed_sound :
    (c : HwWatchdogConfig) (enable timeout : ℕ) (safety : List ℕ)
    → is_armed c enable timeout safety ≡ true
    → (enable ≡ c.enable_expected)
      × (c.timeout_min_ms ≤ timeout * c.timeout_scale_ms)
      × (timeout * c.timeout_scale_ms ≤ c.timeout_max_ms)
      × All (λ w. w ≡ 0) safety
unfolding is_armed
is_armed_sound c enable timeout safety h =
    (ground arith, ground arith, ground arith, all_zero-All safety (ground arith))

fails_closed :
    (o : Option HwWatchdogConfig) (a : Adam)
    → (verify_config o a).hw_ok ≡ true
    → (c : HwWatchdogConfig) × (o ≡ some c)
      × (is_configured c ≡ true)
      × ((read_back c a).0 ≡ some true)
unfolding verify_config
fails_closed none a h = cc
fails_closed (some c) a h = (c, refl, ground arith, ground arith)

-- A check that is not waived verifies the fail-safe only if its registers are configured and were all
-- read back, and what they held passes: anything else fails closed.
verify_fails_closed :
    (a : Adam)
    → a.require_hw_watchdog ≡ true
    → (verify_hw_watchdog a).hw_ok ≡ true
    → (c : HwWatchdogConfig) × (a.hw_config ≡ some c)
      × (is_configured c ≡ true)
      × ((read_back c a).0 ≡ some true)
unfolding verify_hw_watchdog
verify_fails_closed a required h = fails_closed a.hw_config a (simp required at h)

-- What asks for one output: a pulse, or a maintained command.
abbrev pub request_of : Output → ℕ → DriveRequest
request_of out_test ms = record no_request { test_pulse_ms = some ms }
request_of out_force ms = record no_request { force_transfer = some true }
request_of out_inhibit ms = record no_request { inhibit = some true }
request_of out_bypass ms = record no_request { bypass_delay_pulse_ms = some ms }

-- No pulse of the output is pending; a maintained output has none.
abbrev pub IsFree : Output → Adam → Type 0
IsFree out_test a = a.test_task ≡ idle
IsFree out_bypass a = a.bypass_task ≡ idle
IsFree _ a = Unit

-- The link has dropped, the module accepts a new connection, the fail-safe check of which fails, for
-- whatever reason, and it accepts the write that follows.
pub record Reconnects (a : Adam) : Type 0 where
  pub dropped : a.client ≡ some false
  pub opened : (connect a).0 ≡ true
  pub unarmed : (connect a).1.hw_ok ≡ false
  pub writes : first_answer (connect a).1.answers ≡ accepted

and-false : (b : Bool) → (b && false) ≡ false
and-false b = ground arith

-- A write over a link that has dropped goes out on the new connection.
write_coil_after_drop :
    (o : Output) (v : Bool) (a : Adam)
    → Reconnects a
    → write_coil o v a
      ≡ (some tt, act o v (record ((connect a).1) { answers = rest_answers (connect a).1.answers }))
unfolding write_coil send_write answer_write ensure_connected ask ◌>>=◌
write_coil_after_drop o v a r = simp (r.dropped, and-false, r.opened, r.writes) refl

-- The gate reads the verdict of the last connection. Where the link has dropped since, and the module
-- accepts a new connection, the fail-safe check of which fails, whatever the reason, the write that asks
-- for any one of the four outputs, a pulse if none of that output is pending, is still sent; where the
-- module accepts it, the call returns with the relay closed, although the fail-safe has just been found
-- unverified.
pub drive_outputs_after_drop :
    (o : Output) (now ms : ℕ) (a : Adam)
    → IsFree o a
    → Reconnects a
    → a.hw_ok ≡ true
    → let (done, a') = drive_outputs now (request_of o ms) a in
      (done ≡ some tt) × (get_relay o a'.relays ≡ true) × (a'.hw_ok ≡ false)
unfolding drive_outputs drive_all if_some maintain pulse record_commanded set_task act ◌>>=◌
drive_outputs_after_drop out_test now ms a free r ok =
    simp (ok, free, write_coil_after_drop out_test true a r) (refl, refl, r.unarmed)
drive_outputs_after_drop out_force now ms a free r ok =
    simp (ok, write_coil_after_drop out_force true a r) (refl, refl, r.unarmed)
drive_outputs_after_drop out_inhibit now ms a free r ok =
    simp (ok, write_coil_after_drop out_inhibit true a r) (refl, refl, r.unarmed)
drive_outputs_after_drop out_bypass now ms a free r ok =
    simp (ok, free, write_coil_after_drop out_bypass true a r) (refl, refl, r.unarmed)
