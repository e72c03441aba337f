-- ===== src/Companion/Safety.antt =====
-- The comms-loss watchdog (ats-pi-companion-main/src/atspi/safety.py) and the tracker that decides whose
-- requests keep it quiet (`ConnectionTracker` of ats-pi-companion-main/src/atspi/server.py). Times are
-- `time.monotonic()` in milliseconds; a connection is a number. A tick is one round of `run` after its
-- sleep, the driver call included.
pub mod Tracker
pub mod Release
pub mod Disconnect
use complete_gen_project.Base.{
  ℕ, ◌-◌, Bool, true, false, not, ◌&&◌, ◌||◌, Option, none, some, List, [], ◌∷◌, ltb, leb, ◌==◌,
  if◌then◌else◌,
}
use complete_gen_project.Companion.IoDriver.{IoDriver, release_request}
use complete_gen_project.Companion.Store.Model.{RegisterStore}
use complete_gen_project.Companion.Store.Writers.{release_maintained_commands}
use complete_gen_project.Companion.Store.Modbus.{addr_cmd_test, addr_cmd_bypass_delay}

abbrev pub timeout_ms : ℕ
timeout_ms = 30000

pub record Watchdog : Type 0 where
  pub last_read_mono : ℕ
  pub released : Bool
  pub commander_gone : Bool

-- `note_modbus_read`: the log line aside, a release that was latched is re-armed.
unfoldable pub note_modbus_read : ℕ → Watchdog → Watchdog
note_modbus_read now w = record { last_read_mono = now; released = false; commander_gone = false }

unfoldable pub note_commander_lost : Watchdog → Watchdog
note_commander_lost w = record w { commander_gone = true }

-- `snapshot`: the time since the last read, and whether the release is latched.
unfoldable pub snapshot : ℕ → Watchdog → ℕ × Bool
snapshot now w = (now - w.last_read_mono, w.released)

-- The condition of `run`.
unfoldable pub due : ℕ → Watchdog → Bool
due now w = (ltb timeout_ms (now - w.last_read_mono) || w.commander_gone) && not w.released

-- The service as the watchdog sees it, `D` being the driver's state.
pub record Service (D : Type 0) : Type 0 where
  pub watchdog : Watchdog
  pub store : RegisterStore
  pub device : D

module _ {D : Type 0} (drv : IoDriver D) where
  -- The release in the store, then on the hardware; it is latched only if the driver returned.
  fire : ℕ → Service D → Service D
  fire now s =
      let (landed, device) = drv.drive_outputs now release_request s.device in
      record {
        watchdog = record (s.watchdog) { released = if landed then true else s.watchdog.released };
        store = release_maintained_commands s.store;
        device = device;
      }

  unfoldable pub tick : ℕ → Service D → Service D
  unfolding fire
  tick now s = if due now s.watchdog then fire now s else s

-- The tracker and the watchdog that it drives.
pub record Link : Type 0 where
  pub commander : Option ℕ
  pub guard : Watchdog

-- A decoded request, as `note_request` is given it: the function code and the address, if any.
pub record Request : Type 0 where
  pub function_code : ℕ
  pub address : Option ℕ

abbrev in_command_band : Option ℕ → Bool
in_command_band none = false
in_command_band (some a) = leb addr_cmd_test a && leb a addr_cmd_bypass_delay

unfoldable pub is_cmd_write : Request → Bool
is_cmd_write r = (r.function_code == 0x06 || r.function_code == 0x10) && in_command_band r.address

-- `conn is self._commander`
abbrev pub is_commander : ℕ → Option ℕ → Bool
is_commander conn none = false
is_commander conn (some c) = conn == c

abbrev is_none : Option ℕ → Bool
is_none none = true
is_none (some c) = false

unfoldable pub note_request : ℕ → ℕ → Request → Link → Link
unfolding is_cmd_write note_modbus_read
note_request now conn r l =
    if is_cmd_write r
    then record { commander = some conn; guard = note_modbus_read now l.guard }
    else if is_none l.commander
    then record l { guard = note_modbus_read now l.guard }
    else if is_commander conn l.commander
    then record l { guard = note_modbus_read now l.guard }
    else l

unfoldable pub note_disconnect : ℕ → Link → Link
unfolding note_commander_lost
note_disconnect conn l =
    if is_commander conn l.commander
    then record { commander = none; guard = note_commander_lost l.guard }
    else l

-- The service with the connection that commands it, and what happens to it.
pub record System (D : Type 0) : Type 0 where
  pub commander : Option ℕ
  pub service : Service D

pub data Event : Type 0 where
  request : ℕ → Request → Event
  disconnect : ℕ → Event
  wake : Event

-- An event, with the time at which it happens.
pub record Timed : Type 0 where
  pub at : ℕ
  pub event : Event

module _ {D : Type 0} where
  abbrev pub link_of : System D → Link
  link_of s = record { commander = s.commander; guard = s.service.watchdog }

  abbrev pub with_link : System D → Link → System D
  with_link s l = record {
    commander = l.commander;
    service = record (s.service) { watchdog = l.guard };
  }

module _ {D : Type 0} (drv : IoDriver D) where
  unfoldable pub step : ℕ → Event → System D → System D
  step now (request conn r) s = with_link s (note_request now conn r (link_of s))
  step now (disconnect conn) s = with_link s (note_disconnect conn (link_of s))
  step now wake s = record s { service = tick drv now s.service }

  unfoldable pub run : List Timed → System D → System D
  unfolding step
  run [] s = s
  run (e ∷ es) s = run es (step e.at e.event s)
