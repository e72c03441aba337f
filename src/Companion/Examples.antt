-- ===== src/Companion/Examples.antt =====
-- The companion's theorems at concrete inputs.
pub mod Release
pub mod Relays
pub mod Registers
pub mod Loops
use complete_gen_project.Base.{ℕ, Bool, true, false, Option, none, some, List, [], ◌∷◌}
use complete_gen_project.Companion.IoDriver.{
  Position, utility, generator, auto, AtsMode, InputSnapshot, OutputState,
}
use complete_gen_project.Companion.Persistence.{zeros, no_file}
use complete_gen_project.Companion.Store.Model.{RegisterStore, StateFile, Disk, init_with}
use complete_gen_project.Companion.Store.Writers.{set_snap}
use complete_gen_project.Companion.Adam.Device.{Adam, Answer, accepted, HwWatchdogConfig, new_adam}

abbrev pub all_closed : OutputState
all_closed = record {
  test_active = true;
  inhibit_active = true;
  force_transfer_active = true;
  bypass_delay_active = true;
}

abbrev pub all_open : OutputState
all_open = record {
  test_active = false;
  inhibit_active = false;
  force_transfer_active = false;
  bypass_delay_active = false;
}

abbrev pub watchdog_config : HwWatchdogConfig
watchdog_config = record {
  enable_register = some 10;
  enable_expected = 1;
  timeout_register = some 11;
  timeout_scale_ms = 100;
  timeout_min_ms = 1000;
  timeout_max_ms = 60000;
  safety_value_register_base = some 20;
  safety_value_count = 4;
}

-- A driver that is connected to a module with these relays, which gives these answers.
abbrev pub connected : Bool → OutputState → List Answer → Adam
unfolding new_adam
connected verified relays answers =
    record (new_adam 3 auto true (some watchdog_config) relays answers) {
      client = some true;
      connected = true;
      hw_ok = verified;
    }

-- A store of unit 1 that has just started, at second 1000000 of the wall clock.
abbrev pub empty_file : StateFile
empty_file = record { contents = no_file; queued = [] }

abbrev pub started : RegisterStore
unfolding init_with
started = init_with 1 5000 1000000 (some empty_file) zeros

abbrev pub in_position : Position → AtsMode → RegisterStore
unfolding init_with
in_position p m = set_snap started (record (started.snap) { position = p; ats_mode = m })

abbrev pub reading : Position → InputSnapshot
reading p = record {
  position = p;
  normal_available = true;
  emergency_available = true;
  engine_start_calling = false;
  ats_mode = auto;
  fault_bits = 0;
}

abbrev pub working_disk : Disk
working_disk = record { loop_running = false; takes_write = true }
