-- ===== src/Companion/Service/Startup.antt =====
-- The reset of the outputs before the first sample (`_sampling_loop` of
-- ats-pi-companion-main/src/atspi/__main__.py).
use complete_gen_project.Base.{
  ℕ, ◌+◌, ◌≡◌, Bool-cases, ◌⊎◌, inl, inr, ◌∙◌, refl, true, false, arith, List, [], ◌∷◌, length,
}
use complete_gen_project.Companion.IoDriver.{IoDriver, OutputState, Releases}
use complete_gen_project.Companion.Store.Model.{Disk, RegisterStore, StateSnapshot}
use complete_gen_project.Companion.Store.Writers.{set_input_fault}
use complete_gen_project.Companion.Service.{
  Loop, cycle, sample, read_outputs, publish, fail_cycle, start_loop, run_cycles,
}

-- What a store shows apart from its fault bits, and the transfers that it counts.
abbrev pub shown : RegisterStore → StateSnapshot × List ℕ
shown s = (record (s.snap) { fault_bits = 0 }, s.transfer_timestamps)

module _ {D : Type 0} (drv : IoDriver D) (disk : Disk) (now now_wall : ℕ) where
  sample-reset : (l : Loop D) → (sample drv disk now now_wall l).outputs_reset ≡ l.outputs_reset
  unfolding sample read_outputs publish fail_cycle
  sample-reset l = ground arith

  -- Over a driver that keeps the contract of a release, while the outputs are not reset: the turn in
  -- which the reset lands samples only after it, with all four relays released; a turn in which it
  -- does not land reads nothing, counts as failed, and leaves the reset to the next turn.
  cycle_resets :
      {relays : D → OutputState} (law : Releases drv relays) (l : Loop D)
      → l.outputs_reset ≡ false
      → ((drv.release_all_outputs now l.driver).0 ≡ false)
          × (cycle drv disk now now_wall l
              ≡ fail_cycle drv disk now now_wall
                  (record l { driver = (drv.release_all_outputs now l.driver).1 }))
        ⊎ (relays (drv.release_all_outputs now l.driver).1 ≡ record {
          test_active = false;
          inhibit_active = false;
          force_transfer_active = false;
          bypass_delay_active = false;
        })
          × (cycle drv disk now now_wall l
              ≡ sample drv disk now now_wall (record l {
                driver = (drv.release_all_outputs now l.driver).1;
                outputs_reset = true;
              }))
  unfolding cycle
  cycle_resets law l fresh = elim (Bool-cases (drv.release_all_outputs now l.driver).0) [
    | inl landed ↦ inr (law.reset_drops now l.driver landed, rw (fresh, landed))
    | inr failed ↦ inl (failed, rw (fresh, failed))
  ]

  cycle-unreset :
      (l : Loop D)
      → (cycle drv disk now now_wall l).outputs_reset ≡ false
      → (l.outputs_reset ≡ false)
        × ((cycle drv disk now now_wall l).consecutive_failures ≡ l.consecutive_failures + 1)
        × (shown (cycle drv disk now now_wall l).store ≡ shown l.store)
  unfolding cycle fail_cycle set_input_fault
  cycle-unreset l h = ground (
    arith,
    sample-reset l,
    sample-reset
        (record l { driver = (drv.release_all_outputs now l.driver).1; outputs_reset = true }),
  )

module _ {D : Type 0} (drv : IoDriver D) (disk : Disk) where
  unreset :
      (cs : List (ℕ × ℕ)) (l : Loop D)
      → (run_cycles drv disk cs l).outputs_reset ≡ false
      → (shown (run_cycles drv disk cs l).store ≡ shown l.store)
        × ((run_cycles drv disk cs l).consecutive_failures ≡ l.consecutive_failures + length cs)
        × (l.outputs_reset ≡ false)
  unfolding run_cycles
  unreset [] l h = (refl, omega arith, h)
  unreset ((now, now_wall) ∷ cs) l h =
      let (view, count, reset) = unreset cs (cycle drv disk now now_wall l) h in
      let (fresh, count', view') = cycle-unreset drv disk now now_wall l reset in
      (view ∙ view', omega arith, fresh)

  -- However many turns pass before the reset lands, nothing is sampled: the store shows what it showed
  -- at the start, its fault bits aside, and every turn is counted as failed.
  run_cycles-unreset :
      (cs : List (ℕ × ℕ)) (device : D) (s : RegisterStore)
      → (run_cycles drv disk cs (start_loop device s)).outputs_reset ≡ false
      → (shown (run_cycles drv disk cs (start_loop device s)).store ≡ shown s)
        × ((run_cycles drv disk cs (start_loop device s)).consecutive_failures ≡ length cs)
  unfolding start_loop
  run_cycles-unreset cs device s h =
      let (view, count, fresh) = unreset cs (start_loop device s) h in (view, omega arith)
