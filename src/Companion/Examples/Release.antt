-- ===== src/Companion/Examples/Release.antt =====
-- The releases of the safety watchdog over the ADAM driver.
use complete_gen_project.Base.{◌≡◌, refl, true, false, some, List, [], ◌∷◌, All, arith}
use complete_gen_project.Companion.IoDriver.{release_request}
use complete_gen_project.Companion.Adam.Device.{
  Adam, Answer, accepted, new_adam, ask, ensure_connected, ◌>>=◌,
}
use complete_gen_project.Companion.Adam.Outputs.{
  asserts, drive_outputs, drive_all, if_some, maintain, write_coil, send_write, answer_write, act,
  record_commanded,
}
use complete_gen_project.Companion.Adam.Inputs.{adam_driver}
use complete_gen_project.Companion.Adam.FailSafe.{adam_driver-Releases}
use complete_gen_project.Companion.Safety.{
  Request, System, Timed, request, disconnect, wake, step, run, is_cmd_write,
}
use complete_gen_project.Companion.Safety.Tracker.{Foreign}
use complete_gen_project.Companion.Safety.Release.{
  IsReleased, silence_releases, disconnect_releases,
}
use complete_gen_project.Companion.Safety.Disconnect.{
  Poll, Prompt, IsUntouched, poll_events, polls_suppress_release,
}
use complete_gen_project.Companion.Examples.{all_closed, connected, started}

abbrev system : List Answer → System Adam
system answers = record {
  commander = some 7;
  service = record {
    watchdog = record { last_read_mono = 5000; released = false; commander_gone = false };
    store = started;
    device = connected true all_closed answers;
  };
}

abbrev read_request : Request
read_request = record { function_code = 3; address = some 0 }

-- Connection 8 reads while connection 7, the commander, is silent.
abbrev other_reads : List Timed
other_reads = record { at = 9000; event = request 8 read_request } ∷ []

other_reads-Foreign : All (λ e. Foreign 7 e.event) other_reads
unfolding is_cmd_write
other_reads-Foreign = ((refl, refl), tt)

release_lands :
    (adam_driver.drive_outputs 40000 release_request
      (connected true all_closed (accepted ∷ accepted ∷ []))).0
    ≡ true
unfolding connected new_adam adam_driver drive_outputs asserts drive_all if_some maintain write_coil
    send_write answer_write act record_commanded ask ensure_connected ◌>>=◌
release_lands = refl

silence_releases_example :
    IsReleased
      (λ a. a.relays)
      (step adam_driver 40000 wake
        (run adam_driver other_reads (system (accepted ∷ accepted ∷ [])))).service
silence_releases_example =
    silence_releases adam_driver-Releases 7 40000 other_reads (system (accepted ∷ accepted ∷ []))
      refl other_reads-Foreign refl (omega arith) release_lands

disconnect_releases_example :
    IsReleased
      (λ a. a.relays)
      (step adam_driver 40000 wake (
        run adam_driver
          (record { at = 39500; event = disconnect 8 } ∷ [])
          (step adam_driver 39000 (disconnect 7) (system (accepted ∷ accepted ∷ []))))).service
disconnect_releases_example =
    disconnect_releases adam_driver-Releases 7 39000 40000
      (record { at = 39500; event = disconnect 8 } ∷ []) (system (accepted ∷ accepted ∷ [])) refl
      refl (tt, tt) release_lands

-- Connection 8 polls every second, and the watchdog ticks half a second later.
abbrev polls : List Poll
polls =
    record { conn = 8; read = read_request; read_at = 10000; tick_at = 10500 }
    ∷ record { conn = 8; read = read_request; read_at = 11000; tick_at = 11500 }
    ∷ []

polls-Prompt : All Prompt polls
unfolding is_cmd_write
polls-Prompt = ((refl, omega arith), ((refl, omega arith), tt))

polls_suppress_release_example :
    IsUntouched
      (system [])
      (run adam_driver (poll_events polls) (step adam_driver 9000 (disconnect 7) (system [])))
polls_suppress_release_example =
    polls_suppress_release adam_driver 7 9000 polls (system []) refl refl polls-Prompt
