-- ===== src/Companion/IoDriver.antt =====
-- The boundary to the hardware (ats-pi-companion-main/src/atspi/io_driver.py): what a driver reports
-- and what it is asked to drive. The position and mode strings are the four that the drivers use.
use complete_gen_project.Base.{ℕ, ◌≡◌, Bool, true, false, Option, none, some}

pub data Position : Type 0 where
  utility generator transferring unknown : Position

pub data AtsMode : Type 0 where
  auto manual test mode_unknown : AtsMode

-- Fault-summary bit masks (ICD 5.1.1).
abbrev pub fault_input : ℕ
fault_input = 0x0001

abbrev pub fault_output : ℕ
fault_output = 0x0002

abbrev pub fault_mode_unknown : ℕ
fault_mode_unknown = 0x0004

abbrev pub fault_calibration : ℕ
fault_calibration = 0x0008

pub record InputSnapshot : Type 0 where
  pub position : Position
  pub normal_available : Bool
  pub emergency_available : Bool
  pub engine_start_calling : Bool
  pub ats_mode : AtsMode
  pub fault_bits : ℕ

pub record OutputState : Type 0 where
  pub test_active : Bool
  pub inhibit_active : Bool
  pub force_transfer_active : Bool
  pub bypass_delay_active : Bool

-- The keyword arguments of `drive_outputs`; `none` leaves the output unchanged.
pub record DriveRequest : Type 0 where
  pub test_pulse_ms : Option ℕ
  pub inhibit : Option Bool
  pub force_transfer : Option Bool
  pub bypass_delay_pulse_ms : Option ℕ

-- The methods of the `IODriver` protocol over a driver's state. `now` is `time.monotonic()` in
-- milliseconds. A method that raises returns `false` or `none`, with the state that it leaves.
pub record IoDriver (D : Type 0) : Type 0 where
  pub read_inputs : ℕ → D → Option InputSnapshot × D
  pub read_output_state : ℕ → D → Option OutputState × D
  pub drive_outputs : ℕ → DriveRequest → D → Bool × D
  pub release_all_outputs : ℕ → D → Bool × D
  pub check_output_consistency : ℕ → OutputState → D → Bool
  pub hw_watchdog_ok : D → Bool

-- `drive_outputs(inhibit=False, force_transfer=False)`
abbrev pub release_request : DriveRequest
release_request = record {
  test_pulse_ms = none;
  inhibit = some false;
  force_transfer = some false;
  bypass_delay_pulse_ms = none;
}

-- What the safety rules rely on: `relays` are the command relays as they stand on the hardware. A
-- release that returns has dropped both maintained relays, and the reset has dropped all four.
pub record Releases {D : Type 0} (drv : IoDriver D) (relays : D → OutputState) : Type 0 where
  pub release_drops :
      (now : ℕ) (d : D)
      → (drv.drive_outputs now release_request d).0 ≡ true
      → ((relays (drv.drive_outputs now release_request d).1).inhibit_active ≡ false)
        × ((relays (drv.drive_outputs now release_request d).1).force_transfer_active ≡ false)
  pub reset_drops :
      (now : ℕ) (d : D)
      → (drv.release_all_outputs now d).0 ≡ true
      → relays (drv.release_all_outputs now d).1 ≡ record {
        test_active = false;
        inhibit_active = false;
        force_transfer_active = false;
        bypass_delay_active = false;
      }
