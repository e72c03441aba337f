-- ===== src/Companion/Store/Writers.antt =====
-- The writers of the sampling loop, of the command dispatch and of the safety watchdog
-- (ats-pi-companion-main/src/atspi/state.py).
use complete_gen_project.Base.{
  ℕ, ◌+◌, Bool, true, false, ◌&&◌, Option, none, some, [], ◌∷◌, ◌++◌, bit_and, bit_or, and_not,
  if◌then◌else◌, length,
}
use complete_gen_project.Companion.IoDriver.{
  Position, utility, generator, transferring, InputSnapshot, OutputState, fault_input, fault_output,
}
use complete_gen_project.Companion.Store.Model.{
  StateSnapshot, StateFile, RegisterStore, Disk, local_fault_mask, evict_old_transfers,
}
use complete_gen_project.Companion.Store.Persist.{persist_sync, persist_async_safe}

abbrev pub precedes_generator : Position → Bool
precedes_generator utility = true
precedes_generator transferring = true
precedes_generator _ = false

abbrev pub precedes_utility : Position → Bool
precedes_utility generator = true
precedes_utility transferring = true
precedes_utility _ = false

abbrev pub is_generator : Position → Bool
is_generator generator = true
is_generator _ = false

abbrev pub is_utility : Position → Bool
is_utility utility = true
is_utility _ = false

unfoldable pub transferred_to_gen : Position → Position → Bool
transferred_to_gen prev next = precedes_generator prev && is_generator next

unfoldable pub retransferred_to_util : Position → Position → Bool
retransferred_to_util prev next = precedes_utility prev && is_utility next

-- `merged_fault_bits`: the two local bits from before, the others from the driver.
unfoldable pub merge_fault_bits : ℕ → ℕ → ℕ
merge_fault_bits prev bits =
    bit_and (bit_or (bit_and prev local_fault_mask) (and_not bits local_fault_mask)) 0xFFFF

-- The part of `apply_input_snapshot` under the lock.
unfoldable pub publish_inputs : ℕ → InputSnapshot → RegisterStore → RegisterStore
unfolding transferred_to_gen retransferred_to_util evict_old_transfers merge_fault_bits
publish_inputs now_wall inputs s =
    let prev = s.snap in
    let to_gen = transferred_to_gen prev.position inputs.position in
    let to_util = retransferred_to_util prev.position inputs.position in
    let stamped =
      if to_gen then s.transfer_timestamps ++ now_wall ∷ [] else s.transfer_timestamps in
    let stamps = evict_old_transfers now_wall stamped in
    record s {
      transfer_timestamps = stamps;
      snap = record {
        position = inputs.position;
        normal_available = inputs.normal_available;
        emergency_available = inputs.emergency_available;
        engine_start_calling = inputs.engine_start_calling;
        ats_mode = inputs.ats_mode;
        fault_bits = merge_fault_bits prev.fault_bits inputs.fault_bits;
        last_transfer_to_gen_ts = if to_gen then now_wall else prev.last_transfer_to_gen_ts;
        last_retransfer_to_util_ts =
            if to_gen
            then prev.last_retransfer_to_util_ts
            else if to_util
            then now_wall
            else prev.last_retransfer_to_util_ts;
        transfer_count_lifetime =
            if to_gen then prev.transfer_count_lifetime + 1 else prev.transfer_count_lifetime;
        transfer_count_24h = length stamps;
        cmd_test_active = prev.cmd_test_active;
        cmd_inhibit_active = prev.cmd_inhibit_active;
        cmd_force_transfer_active = prev.cmd_force_transfer_active;
        cmd_bypass_delay_active = prev.cmd_bypass_delay_active;
        mode_reject_active = prev.mode_reject_active;
      };
    }

-- The part after the lock: `critical` for a transfer, `persist` for either direction.
unfoldable pub persist_after :
    Disk → Bool → Bool → RegisterStore → Option StateFile → Option StateFile
unfolding persist_sync persist_async_safe
persist_after d to_gen to_util s none = none
persist_after d to_gen to_util s (some f) =
    if to_gen
    then some (persist_sync d s f)
    else if to_util
    then some (persist_async_safe d s f)
    else some f

unfoldable pub apply_input_snapshot : Disk → ℕ → InputSnapshot → RegisterStore → RegisterStore
unfolding persist_after publish_inputs transferred_to_gen retransferred_to_util
apply_input_snapshot d now_wall inputs s =
    let s' = publish_inputs now_wall inputs s in
    record s' {
      state_file =
          persist_after d (transferred_to_gen s.snap.position inputs.position)
            (retransferred_to_util s.snap.position inputs.position) s' s.state_file;
    }

abbrev pub set_snap : RegisterStore → StateSnapshot → RegisterStore
set_snap s v = record s { snap = v }

unfoldable pub apply_output_state : OutputState → RegisterStore → RegisterStore
apply_output_state outputs s = set_snap s (record (s.snap) {
  cmd_test_active = outputs.test_active;
  cmd_inhibit_active = outputs.inhibit_active;
  cmd_force_transfer_active = outputs.force_transfer_active;
  cmd_bypass_delay_active = outputs.bypass_delay_active;
})

unfoldable pub switch_bit : ℕ → Bool → ℕ → ℕ
switch_bit mask on bits = bit_and (if on then bit_or bits mask else and_not bits mask) 0xFFFF

unfoldable pub set_input_fault : Bool → RegisterStore → RegisterStore
unfolding switch_bit
set_input_fault on s =
    set_snap s (record (s.snap) { fault_bits = switch_bit fault_input on s.snap.fault_bits })

unfoldable pub set_output_fault : Bool → RegisterStore → RegisterStore
unfolding switch_bit
set_output_fault on s =
    set_snap s (record (s.snap) { fault_bits = switch_bit fault_output on s.snap.fault_bits })

unfoldable pub release_maintained_commands : RegisterStore → RegisterStore
release_maintained_commands s =
    set_snap s (record (s.snap) { cmd_inhibit_active = false; cmd_force_transfer_active = false })
