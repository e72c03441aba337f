-- ===== src/Companion/Examples/Relays.antt =====
-- The ADAM driver's gate, pulses and contacts.
use complete_gen_project.Base.{◌≡◌, refl, true, false, some, [], ◌∷◌}
use complete_gen_project.Companion.IoDriver.{release_request}
use complete_gen_project.Companion.Adam.Device.{
  Adam, accepted, raised, registers, idle, new_adam, connect, ask, ensure_connected,
  verify_hw_watchdog, verify_config, read_back, read_holding_registers, is_armed, is_configured,
  all_zero, ◌>>=◌,
}
use complete_gen_project.Companion.Adam.Outputs.{
  out_test, out_force, get_relay, asserts, drive_outputs, drive_all, if_some, maintain, write_coil,
  send_write, answer_write, act, record_commanded,
}
use complete_gen_project.Companion.Adam.FailSafe.Gate.{
  Reconnects, request_of, drive_outputs_after_drop,
}
use complete_gen_project.Companion.Adam.FailSafe.Unverified.{drive_outputs-unverified}
use complete_gen_project.Companion.Examples.{all_closed, all_open, connected}

-- A release that drops the inhibit, on a driver whose fail-safe is not verified; the force-transfer
-- stays closed where its write is lost.
abbrev half_released : Adam
unfolding connected
half_released = connected false all_closed (accepted ∷ raised false ∷ [])

force_closed :
    get_relay out_force (drive_outputs 1000 release_request half_released).1.relays ≡ true
unfolding half_released connected new_adam drive_outputs asserts drive_all if_some maintain
    write_coil send_write answer_write act record_commanded ask ensure_connected ◌>>=◌
force_closed = refl

unverified : half_released.hw_ok ≡ false
unfolding half_released connected
unverified = refl

drive_outputs-unverified_example : get_relay out_force half_released.relays ≡ true
drive_outputs-unverified_example =
    drive_outputs-unverified 1000 release_request half_released out_force unverified force_closed

-- A module that reads back an enabled watchdog of 2 s and four safety values off.
abbrev armed_module : Adam
unfolding connected
armed_module =
    connected false all_open (registers 1 [] ∷ registers 20 [] ∷ registers 0 (0 ∷ 0 ∷ 0 ∷ []) ∷ [])

armed : (verify_hw_watchdog armed_module).hw_ok ≡ true
unfolding armed_module connected new_adam verify_hw_watchdog verify_config read_back
    read_holding_registers is_armed is_configured all_zero ask ◌>>=◌
armed = refl

required : armed_module.require_hw_watchdog ≡ true
unfolding armed_module connected new_adam
required = refl

-- The link is down, and the module that answers again has its watchdog off.
abbrev dropped : Adam
unfolding connected
dropped =
    record (connected true all_open (
      accepted ∷ registers 0 [] ∷ registers 20 [] ∷ registers 0 (0 ∷ 0 ∷ 0 ∷ []) ∷ accepted ∷ [])) {
        client = some false;
      }

dropped-Reconnects : Reconnects dropped
unfolding dropped connected new_adam connect verify_hw_watchdog verify_config read_back
    read_holding_registers is_armed is_configured all_zero ask ◌>>=◌
dropped-Reconnects = record { dropped = refl; opened = refl; unarmed = refl; writes = refl }

test_free : dropped.test_task ≡ idle
unfolding dropped connected new_adam
test_free = refl

dropped_verified : dropped.hw_ok ≡ true
unfolding dropped connected
dropped_verified = refl

drive_outputs_after_drop_example :
    let (done, a') = drive_outputs 1000 (request_of out_test 750) dropped in
    (done ≡ some tt) × (get_relay out_test a'.relays ≡ true) × (a'.hw_ok ≡ false)
drive_outputs_after_drop_example =
    drive_outputs_after_drop out_test 1000 750 dropped test_free dropped-Reconnects dropped_verified
