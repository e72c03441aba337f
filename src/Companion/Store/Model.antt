-- ===== src/Companion/Store/Model.antt =====
-- The state of the register store and its construction (`_StateSnapshot` and `RegisterStore.__init__`
-- of ats-pi-companion-main/src/atspi/state.py).
use complete_gen_project.Base.{
  ℕ, ◌-◌, ◌*◌, Bool, false, Option, none, some, List, [], ◌∷◌, bit_or, ltb, leb, if◌then◌else◌,
  length, keep,
}
use complete_gen_project.Companion.IoDriver.{
  Position, unknown, AtsMode, mode_unknown, fault_input, fault_output, fault_mode_unknown,
  fault_calibration,
}
use complete_gen_project.Companion.Persistence.{
  PersistedState, zeros, Contents, Loaded, loaded, attribute_error, overflow_error, load,
}

abbrev pub rolling_window_s : ℕ
rolling_window_s = 24 * 3600

-- `_FAULT_DEFINED_MASK` and `_LOCAL_FAULT_MASK`
abbrev pub fault_defined_mask : ℕ
fault_defined_mask =
    bit_or (bit_or (bit_or fault_input fault_output) fault_mode_unknown) fault_calibration

abbrev pub local_fault_mask : ℕ
local_fault_mask = bit_or fault_input fault_output

pub record StateSnapshot : Type 0 where
  pub position : Position
  pub normal_available : Bool
  pub emergency_available : Bool
  pub engine_start_calling : Bool
  pub ats_mode : AtsMode
  pub fault_bits : ℕ
  pub last_transfer_to_gen_ts : ℕ
  pub last_retransfer_to_util_ts : ℕ
  pub transfer_count_lifetime : ℕ
  pub transfer_count_24h : ℕ
  pub cmd_test_active : Bool
  pub cmd_inhibit_active : Bool
  pub cmd_force_transfer_active : Bool
  pub cmd_bypass_delay_active : Bool
  pub mode_reject_active : Bool

-- The state file: the document on disk, and the saves handed to the executor that have not finished.
pub record StateFile : Type 0 where
  pub contents : Contents
  pub queued : List PersistedState

pub record Version : Type 0 where
  pub major : ℕ
  pub minor : ℕ
  pub patch : ℕ

pub record RegisterStore : Type 0 where
  pub unit_id : ℕ
  pub fw_version : Version
  pub icd_major : ℕ
  pub icd_minor : ℕ
  pub boot_mono : ℕ
  pub transfer_timestamps : List ℕ
  pub snap : StateSnapshot
  pub state_file : Option StateFile

-- What the surroundings decide while an operation persists: is an event loop running, and does the
-- disk take a blocking save.
pub record Disk : Type 0 where
  pub loop_running : Bool
  pub takes_write : Bool

-- `__version__` and `ICD_VERSION` of the package.
abbrev pub package_version : Version
package_version = record { major = 0; minor = 1; patch = 0 }

-- `_evict_old_transfers`: entries leave from the front until one is young enough.
unfoldable pub evict_front : ℕ → List ℕ → List ℕ
evict_front cutoff [] = []
evict_front cutoff (ts ∷ rest) =
    let dropped = evict_front cutoff rest in if ltb ts cutoff then dropped else ts ∷ rest

unfoldable pub evict_old_transfers : ℕ → List ℕ → List ℕ
unfolding evict_front
evict_old_transfers now_wall stamps = evict_front (now_wall - rolling_window_s) stamps

unfoldable pub persisted_of : Loaded → Option PersistedState
persisted_of (loaded p) = some p
persisted_of attribute_error = none
persisted_of overflow_error = none

-- `state_file.load() if state_file else PersistedState()`; `none` is the AttributeError or
-- the OverflowError.
unfoldable pub load_persisted : Option StateFile → Option PersistedState
unfolding persisted_of load
load_persisted none = some zeros
load_persisted (some f) = persisted_of (load f.contents)

unfoldable pub init_with : ℕ → ℕ → ℕ → Option StateFile → PersistedState → RegisterStore
init_with unit_id boot_mono now_wall file persisted =
    let stamps =
      keep (λ ts. leb (now_wall - rolling_window_s) ts) persisted.recent_transfer_wallclocks in
    record {
      unit_id = unit_id;
      fw_version = package_version;
      icd_major = 1;
      icd_minor = 0;
      boot_mono = boot_mono;
      transfer_timestamps = stamps;
      snap = record {
        position = unknown;
        normal_available = false;
        emergency_available = false;
        engine_start_calling = false;
        ats_mode = mode_unknown;
        fault_bits = 0;
        last_transfer_to_gen_ts = persisted.last_transfer_to_gen_ts;
        last_retransfer_to_util_ts = persisted.last_retransfer_to_util_ts;
        transfer_count_lifetime = persisted.transfer_count_lifetime;
        transfer_count_24h = length stamps;
        cmd_test_active = false;
        cmd_inhibit_active = false;
        cmd_force_transfer_active = false;
        cmd_bypass_delay_active = false;
        mode_reject_active = false;
      };
      state_file = file;
    }

-- `RegisterStore(unit_id, state_file)`; `none` where loading the state file raises.
unfoldable pub init : ℕ → ℕ → ℕ → Option StateFile → Option RegisterStore
unfolding load_persisted init_with
init unit_id boot_mono now_wall file = elim (load_persisted file) [
  | none ↦ none
  | some p ↦ some (init_with unit_id boot_mono now_wall file p)
]
