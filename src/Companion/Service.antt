-- ===== src/Companion/Service.antt =====
-- The loops of the service (`_sampling_loop` and `_dispatch_command` of
-- ats-pi-companion-main/src/atspi/__main__.py) over any driver. The log messages are left out; a cycle
-- is one turn of the loop without its sleep, and cancellation ends the loop.
pub mod Startup
pub mod Faults
use complete_gen_project.Base.{
  ℕ, zero, suc, ◌+◌, Bool, true, false, not, ◌||◌, Option, none, some, List, [], ◌∷◌, if◌then◌else◌,
}
use complete_gen_project.Companion.IoDriver.{InputSnapshot, OutputState, DriveRequest, IoDriver}
use complete_gen_project.Companion.Store.Model.{Disk, RegisterStore}
use complete_gen_project.Companion.Store.Writers.{
  apply_input_snapshot, apply_output_state, set_input_fault, set_output_fault,
}

-- The local variables of the loop, with the driver and the store.
pub record Loop (D : Type 0) : Type 0 where
  pub driver : D
  pub store : RegisterStore
  pub outputs_reset : Bool
  pub consecutive_failures : ℕ

-- The state in which the service enters the loop.
unfoldable pub start_loop : {D : Type 0} → D → RegisterStore → Loop D
start_loop device s = record {
  driver = device;
  store = s;
  outputs_reset = false;
  consecutive_failures = 0;
}

module _ {D : Type 0} (drv : IoDriver D) (disk : Disk) (now now_wall : ℕ) where
  -- The `except` clause of the loop.
  unfoldable pub fail_cycle : Loop D → Loop D
  fail_cycle l = record l {
    store = set_input_fault true l.store;
    consecutive_failures = l.consecutive_failures + 1;
  }

  -- The stuck-relay and fail-safe check at the end of a cycle.
  unfoldable pub check_outputs : OutputState → D → RegisterStore → RegisterStore
  check_outputs outputs device s =
      if not (drv.hw_watchdog_ok device) || not (drv.check_output_consistency now outputs device)
      then set_output_fault true s
      else s

  -- Both reads returned: the store is brought up to date.
  unfoldable pub publish : InputSnapshot → OutputState → D → Loop D → Loop D
  unfolding check_outputs
  publish inputs outputs device l =
      let sampled = apply_input_snapshot disk now_wall inputs l.store in
      let shown = set_input_fault false (apply_output_state outputs sampled) in
      record l {
        driver = device;
        store = check_outputs outputs device shown;
        consecutive_failures = 0;
      }

  unfoldable pub read_outputs : InputSnapshot → Loop D → Loop D
  unfolding publish fail_cycle
  read_outputs inputs l =
      let (outputs, device) = drv.read_output_state now l.driver in
      elim outputs [
        | none ↦ fail_cycle (record l { driver = device })
        | some o ↦ publish inputs o device l
      ]

  unfoldable pub sample : Loop D → Loop D
  unfolding read_outputs fail_cycle
  sample l =
      let (inputs, device) = drv.read_inputs now l.driver in
      elim inputs [
        | none ↦ fail_cycle (record l { driver = device })
        | some i ↦ read_outputs i (record l { driver = device })
      ]

  -- One turn of the loop: the outputs are reset first, until that has landed once.
  unfoldable pub cycle : Loop D → Loop D
  unfolding sample fail_cycle
  cycle l =
      let (landed, device) = drv.release_all_outputs now l.driver in
      if l.outputs_reset
      then sample l
      else if landed
      then sample (record l { driver = device; outputs_reset = true })
      else fail_cycle (record l { driver = device })

-- `_dispatch_command`.
module _ {D : Type 0} (drv : IoDriver D) where
  unfoldable pub dispatch_command : ℕ → DriveRequest → D × RegisterStore → D × RegisterStore
  dispatch_command now intent s =
      let (returned, device) = drv.drive_outputs now intent s.0 in
      (device, set_output_fault (not returned) s.1)

-- The turns of the loop, each with its monotonic and its wall clock.
module _ {D : Type 0} (drv : IoDriver D) (disk : Disk) where
  unfoldable pub run_cycles : List (ℕ × ℕ) → Loop D → Loop D
  unfolding cycle
  run_cycles [] l = l
  run_cycles ((now, now_wall) ∷ cs) l = run_cycles cs (cycle drv disk now now_wall l)
