-- ===== src/Companion/Examples/Registers.antt =====
-- The register store, its file and the server's writes.
use complete_gen_project.Base.{
  ℕ, ◌+◌, ◌-◌, ◌≡◌, ◌↔◌, refl, Bool, true, false, some, List, [], ◌∷◌, leb, keep, length, arith,
  IsSorted, ◌++◌,
}
use complete_gen_project.Companion.IoDriver.{Position, utility, generator, transferring, auto}
use complete_gen_project.Companion.Persistence.{PersistedState}
use complete_gen_project.Companion.Store.Model.{RegisterStore, init, init_with, rolling_window_s}
use complete_gen_project.Companion.Store.Writers.{
  apply_input_snapshot, publish_inputs, transferred_to_gen,
}
use complete_gen_project.Companion.Store.Modbus.{
  write_register, allowed_modes_for_addr, intent_for, no_request,
}
use complete_gen_project.Companion.Store.Commands.{
  Row, row_addr, row_value, row_request, Permits, Row-write_register,
}
use complete_gen_project.Companion.Store.Counters.{
  Sample, run_samples, entries, lifetime-run_samples,
}
use complete_gen_project.Companion.Store.Counters.Window.{
  stamps, times, in_window, last_time, count_24h-run_samples,
}
use complete_gen_project.Companion.Store.Activities.{
  Activity, sampled, register_written, input_fault_set, perform_all, AllWriteless,
}
use complete_gen_project.Companion.Store.Durability.{
  restart_after_transfer, late_save, late_save_loses_transfer,
}
use complete_gen_project.Companion.Server.{validate}
use complete_gen_project.Companion.Server.Writes.{AllWritable, validate-AllWritable}
use complete_gen_project.Companion.Examples.{
  started, in_position, reading, working_disk, empty_file,
}

abbrev sample_at : ℕ → Position → Sample
sample_at t p = record { disk = working_disk; now_wall = t; inputs = reading p }

-- An outage and its end: the utility, the stroke, the generator, and back.
abbrev outage : List Sample
outage =
    sample_at 1000001 transferring
    ∷ sample_at 1000002 generator
    ∷ sample_at 1000600 transferring
    ∷ sample_at 1000601 utility
    ∷ []

lifetime-run_samples_example :
    (run_samples
      (in_position utility auto)
      (sample_at 1000000 utility ∷ outage)).snap.transfer_count_lifetime
    ≡ (in_position utility auto).snap.transfer_count_lifetime
      + entries (in_position utility auto).snap.position (sample_at 1000000 utility ∷ outage)
lifetime-run_samples_example =
    lifetime-run_samples (in_position utility auto) (sample_at 1000000 utility ∷ outage)

in_order :
    IsSorted
      ((in_position utility auto).transfer_timestamps ++ times (sample_at 1000000 utility ∷ outage))
unfolding in_position started init_with
in_order = ground arith

count_24h-run_samples_example :
    (run_samples
      (in_position utility auto)
      (sample_at 1000000 utility ∷ outage)).snap.transfer_count_24h
    ≡ length (
        keep (in_window (last_time (sample_at 1000000 utility) outage)) (
          (in_position utility auto).transfer_timestamps
          ++ stamps (in_position utility auto).snap.position (sample_at 1000000 utility ∷ outage)))
count_24h-run_samples_example =
    count_24h-run_samples (in_position utility auto) (sample_at 1000000 utility) outage in_order

abbrev saved : PersistedState
saved = record {
  transfer_count_lifetime = 41;
  last_transfer_to_gen_ts = 999000;
  last_retransfer_to_util_ts = 998000;
  recent_transfer_wallclocks = 999000 ∷ [];
}

test_pulsed :
    (write_register 0x0100 1 (in_position utility auto)).0
    ≡ some (record no_request { test_pulse_ms = some 750 })
unfolding in_position write_register allowed_modes_for_addr intent_for
test_pulsed = refl

Row-write_register_example :
    (r : Row) × (row_addr r ≡ 0x0100)
    × (row_value r ≡ 1)
    × (row_request r ≡ record no_request { test_pulse_ms = some 750 })
    × Permits (in_position utility auto).snap.ats_mode r
Row-write_register_example =
    Row-write_register 0x0100 1 (in_position utility auto)
      (record no_request { test_pulse_ms = some 750 }) test_pulsed

file_known : (in_position utility auto).state_file ≡ some empty_file
unfolding in_position started init_with
file_known = refl

moved : transferred_to_gen (in_position utility auto).snap.position generator ≡ true
unfolding in_position transferred_to_gen
moved = refl

-- The load goes back to the utility, the save of which is queued, and a command is written.
abbrev afterwards : List Activity
afterwards =
    sampled (record working_disk { loop_running = true }) 1000050 (reading utility)
    ∷ register_written 0x0100 1
    ∷ input_fault_set true
    ∷ []

abbrev on_generator : RegisterStore
on_generator =
    apply_input_snapshot working_disk 1000002 (reading generator) (in_position utility auto)

afterwards-AllWriteless : AllWriteless afterwards on_generator
unfolding apply_input_snapshot publish_inputs transferred_to_gen
afterwards-AllWriteless = ((refl, refl), (tt, (tt, tt)))

restart_after_transfer_example :
    (s' : RegisterStore) × (init 1 9000 1000100 (perform_all afterwards on_generator).state_file
      ≡ some s')
    × (s'.snap.transfer_count_lifetime
        ≡ (in_position utility auto).snap.transfer_count_lifetime + 1)
    × (s'.snap.last_transfer_to_gen_ts ≡ 1000002)
    × (s'.transfer_timestamps
        ≡ keep
            (λ ts. leb (1000100 - rolling_window_s) ts)
            (apply_input_snapshot working_disk 1000002
              (reading generator)
              (in_position utility auto)).transfer_timestamps)
restart_after_transfer_example =
    restart_after_transfer working_disk 1000002 (reading generator) (in_position utility auto)
      empty_file file_known moved refl afterwards 1 9000 1000100 afterwards-AllWriteless

late_file_known : (in_position generator auto).state_file ≡ some empty_file
unfolding in_position started init_with
late_file_known = refl

late_position : (in_position generator auto).snap.position ≡ generator
unfolding in_position
late_position = refl

late_save_loses_transfer_example :
    (r : RegisterStore) × (init 1 9000 1000100
        (late_save 1000000 1000001 (in_position generator auto)).state_file
      ≡ some r)
    × ((late_save 1000000 1000001 (in_position generator auto)).snap.transfer_count_lifetime
        ≡ r.snap.transfer_count_lifetime + 1)
late_save_loses_transfer_example =
    late_save_loses_transfer 1000000 1000001 (in_position generator auto) empty_file late_file_known
      refl late_position 1 9000 1000100

-- pymodbus's validation of other function codes, which here lets nothing through.
abbrev refuse_all : ℕ → ℕ → ℕ → Bool
refuse_all fc address count = false

validate-AllWritable_example :
    ((validate refuse_all 16 0x0100 2 (in_position utility auto)).0 ≡ true)
    ↔ AllWritable (in_position utility auto).snap.ats_mode 2 0x0100
validate-AllWritable_example =
    validate-AllWritable refuse_all 16 0x0100 2 (in_position utility auto) refl
