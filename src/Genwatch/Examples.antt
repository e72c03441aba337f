-- ===== src/Genwatch/Examples.antt =====
-- GenWatch's theorems at concrete inputs.
pub mod Alarms
pub mod Commands
pub mod Links
pub mod Fuel
pub mod Sessions
pub mod Accounts
pub mod Ranges
use complete_gen_project.Base.{
  ℕ, ◌+◌, ◌-◌, ◌*◌, ◌/◌, ◌%◌, ◌^◌, ◌≤◌, ◌<◌, ◌≡◌, ◌↔◌, ◌⊎◌, refl, true, false, ◌==◌, Option, none,
  some, List, [], ◌∷◌, ◌++◌, All, arith, length, pos, negsuc, if◌then◌else◌, leb,
}
use complete_gen_project.Companion.IoDriver.{utility, generator, transferring}
use complete_gen_project.Companion.Persistence.{PersistedState}
use complete_gen_project.Companion.Store.Model.{RegisterStore, init_with}
use complete_gen_project.Companion.Store.Registers.{
  IsIdentified, lifetime_count, base_addr, field_value,
}
use complete_gen_project.Companion.Server.{get_values}
use complete_gen_project.Genwatch.Registers.{
  RegisterDef, u16, s16, u32, s32, BitRule, is_set, first_set, batch_reads, decode_int,
}
use complete_gen_project.Genwatch.Registers.Decode.{
  encode, decode_int-encode_s16, decode_int-encode_s32, decode_int-get_values,
}
use complete_gen_project.Genwatch.Validation.{
  MapRegister, MapRule, ControlDef, RegisterMap, word_overlap, validate_register_map,
  check_registers, check_words, check_references, check_masked, check_controls,
}
use complete_gen_project.Genwatch.Validation.Report.{IsSoundMap}
use complete_gen_project.Genwatch.Validation.Complete.{validate_register_map-IsSoundMap}
use complete_gen_project.Genwatch.Registers.Batches.{IsRead, IsBounded}
use complete_gen_project.Genwatch.LoadSource.{
  EngineState, running, Electrical, AtsView, Poll, derive_load_source_from_telemetry,
  derive_load_source, run_checks,
}
use complete_gen_project.Genwatch.LoadSource.Hysteresis.{derive_load_source-idempotent}
use complete_gen_project.Genwatch.LoadSource.CrossCheck.{streak, alternates}
use complete_gen_project.Genwatch.RateLimit.{RateLimiter, Buckets, allowed_for}
use complete_gen_project.Genwatch.RateLimit.Bound.{allowed_for-bound}

abbrev saved : PersistedState
saved = record {
  transfer_count_lifetime = 70000;
  last_transfer_to_gen_ts = 0;
  last_retransfer_to_util_ts = 0;
  recent_transfer_wallclocks = [];
}

abbrev store : RegisterStore
unfolding init_with
store = init_with 1 5000 1000000 none saved

store-IsIdentified : IsIdentified store
unfolding store init_with
store-IsIdentified = record {
  unit = omega arith;
  icd = (omega arith, omega arith);
  fw = (omega arith, omega arith, omega arith);
}

decode_int-get_values_example :
    decode_int u32 (get_values 9000 1000004 store (base_addr lifetime_count + 1) 2)
    ≡ some (pos (field_value 9000 1000004 store lifetime_count % 2 ^ 32))
decode_int-get_values_example =
    decode_int-get_values 9000 1000004 store lifetime_count store-IsIdentified

-- Out of order, and overlapping.
abbrev regs : List RegisterDef
regs =
    record { addr = 100; type = u32; has_scale = false }
    ∷ record { addr = 4; type = u16; has_scale = true }
    ∷ record { addr = 3; type = u32; has_scale = false }
    ∷ []

abbrev loaded : Electrical
loaded = record { avg_current = some 900; total_kw = some 600 }

derive_load_source-idempotent_example :
    derive_load_source none loaded running (derive_load_source none loaded running utility)
    ≡ derive_load_source none loaded running utility
derive_load_source-idempotent_example = derive_load_source-idempotent none loaded running utility

-- Three commands at once and one more each five seconds.
abbrev command_limiter : RateLimiter
command_limiter = record { capacity = 15000; refill = 1; unit = 5000 }

abbrev attempts : List (ℕ × ℕ)
attempts = (1000, 7) ∷ (1100, 8) ∷ (1200, 7) ∷ (1300, 7) ∷ (1400, 7) ∷ (6400, 7) ∷ []

abbrev no_buckets : Buckets
no_buckets key = none

allowed_for-bound_example :
    allowed_for command_limiter 7 attempts no_buckets * 5000 ≤ 15000 + (6400 - 1000) * 1
allowed_for-bound_example =
    allowed_for-bound command_limiter 7 1000 6400 attempts no_buckets (omega arith) refl
      (ground arith)

abbrev engine_map : RegisterMap
engine_map = record {
  slave = 100;
  read_fc = 3;
  registers =
      record {
        name = 1;
        fc = 3;
        has_tier = true;
        reg = record { addr = 8; type = u32; has_scale = false };
      }
      ∷ record {
        name = 2;
        fc = 3;
        has_tier = true;
        reg = record { addr = 10; type = u16; has_scale = true };
      }
      ∷ [];
  engine_state_bits = record { register = 2; mask = 0 } ∷ [];
  alarm_bits = record { register = 2; mask = 0x8000 } ∷ [];
  panel_mode_bits = [];
  controls =
      record { name = 3; addr = 10; fc = 6; value = 1; values = [] }
      ∷ record { name = 4; addr = 11; fc = 16; value = 1; values = 0 ∷ 5 ∷ [] }
      ∷ [];
}

engine_map_test : validate_register_map engine_map ≡ []
unfolding validate_register_map check_registers check_words check_references check_masked
    check_controls
engine_map_test = refl

validate_register_map-IsSoundMap_example :
    (validate_register_map engine_map ≡ []) ↔ IsSoundMap engine_map
validate_register_map-IsSoundMap_example = validate_register_map-IsSoundMap engine_map

-- A pair of words that runs into the next register is reported.
overlap_test :
    (validate_register_map (record {
      slave = 100;
      read_fc = 3;
      registers =
          record {
            name = 1;
            fc = 3;
            has_tier = true;
            reg = record { addr = 9; type = u32; has_scale = false };
          }
          ∷ record {
            name = 2;
            fc = 3;
            has_tier = true;
            reg = record { addr = 10; type = u16; has_scale = true };
          }
          ∷ [];
      engine_state_bits = [];
      alarm_bits = [];
      panel_mode_bits = [];
      controls = [];
    }))
    ≡ word_overlap 10 1 2 ∷ []
unfolding validate_register_map check_registers check_words check_references check_masked
    check_controls
overlap_test = refl
