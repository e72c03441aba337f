-- ===== src/Companion/Service/Faults.antt =====
-- The fault bits after a turn of the sampling loop and after a dispatched command (`_sampling_loop` and
-- `_dispatch_command` of ats-pi-companion-main/src/atspi/__main__.py).
use complete_gen_project.Base.{
  ℕ, ◌+◌, ◌/◌, ◌≡◌, Bool-cases, Option-cases, ◌∙◌, ap, inl, inr, refl, Option, none, some,
  if◌then◌else◌, Bool, true, false, not, ◌||◌, arith, max, int_of_bool,
}
use complete_gen_project.Companion.IoDriver.{IoDriver, InputSnapshot, OutputState, DriveRequest}
use complete_gen_project.Companion.Store.Model.{Disk, RegisterStore}
use complete_gen_project.Companion.Store.Writers.{
  publish_inputs, apply_input_snapshot, apply_output_state, set_input_fault,
}
use complete_gen_project.Companion.Store.Modbus.{fault_summary}
use complete_gen_project.Companion.Store.Faults.{
  input_bit, output_bit, driver_bits, fault_summary-apply_input_snapshot,
  fault_summary-set_input_fault, fault_summary-set_output_fault, summary_lem,
}
use complete_gen_project.Companion.Service.{
  Loop, cycle, sample, read_outputs, publish, fail_cycle, check_outputs, dispatch_command,
}

module _ {D : Type 0} (drv : IoDriver D) where
  -- A dispatched command sets the output fault if the driver raised and clears it if it returned; the
  -- other fault bits stay.
  fault_summary-dispatch_command :
      (now : ℕ) (intent : DriveRequest) (device : D) (s : RegisterStore)
      → let w = fault_summary (dispatch_command drv now intent (device, s)).1.snap in
        let old = fault_summary s.snap in
        (output_bit w ≡ int_of_bool (not (drv.drive_outputs now intent device).0))
        × (input_bit w ≡ input_bit old)
        × (w / 4 ≡ old / 4)
  unfolding dispatch_command
  fault_summary-dispatch_command now intent device s =
      fault_summary-set_output_fault (not (drv.drive_outputs now intent device).0) s

-- What a turn does to the fault bits: `l` before it and `l'` after it.
abbrev pub Failed : {D : Type 0} → Loop D → Loop D → Type 0
Failed l l' =
    (l'.consecutive_failures ≡ l.consecutive_failures + 1)
    × (input_bit (fault_summary l'.store.snap) ≡ 1)
    × (fault_summary l'.store.snap / 2 ≡ fault_summary l.store.snap / 2)

module _ {D : Type 0} (drv : IoDriver D) (now : ℕ) where
  abbrev pub mistrusts : OutputState → D → Bool
  mistrusts outputs device =
      not (drv.hw_watchdog_ok device) || not (drv.check_output_consistency now outputs device)

  -- The device once the outputs have been reset, where that is due.
  abbrev pub at_reset : Loop D → Bool × D
  at_reset l = if l.outputs_reset then (true, l.driver) else drv.release_all_outputs now l.driver

  -- What the driver gives in a turn: nothing where the reset or a read raises.
  abbrev both : InputSnapshot → Option OutputState → Option (InputSnapshot × OutputState)
  both i none = none
  both i (some o) = some (i, o)

  abbrev with_outputs : Option InputSnapshot → D → Option (InputSnapshot × OutputState)
  with_outputs none device = none
  with_outputs (some i) device = both i (drv.read_output_state now device).0

  abbrev both_reads : Bool → D → Option (InputSnapshot × OutputState)
  both_reads false device = none
  both_reads true device =
      with_outputs (drv.read_inputs now device).0 (drv.read_inputs now device).1

  abbrev pub turn_reads : Loop D → Option (InputSnapshot × OutputState)
  turn_reads l = both_reads (at_reset l).0 (at_reset l).1

  -- What a turn leaves where the driver gave `inputs` and `outputs`.
  abbrev pub Sampled : InputSnapshot → OutputState → Loop D → Loop D → Type 0
  Sampled inputs outputs l l' =
      (l'.consecutive_failures ≡ 0)
      × (input_bit (fault_summary l'.store.snap) ≡ int_of_bool l.store.snap.mode_reject_active)
      × (driver_bits (fault_summary l'.store.snap) ≡ driver_bits inputs.fault_bits)
      × (output_bit (fault_summary l'.store.snap)
          ≡ max (output_bit (fault_summary l.store.snap))
              (int_of_bool (mistrusts outputs l'.driver)))

module _ {D : Type 0} (drv : IoDriver D) (now : ℕ) where
  -- What a turn does, by what the driver gave in it.
  abbrev pub AsRead : Option (InputSnapshot × OutputState) → Loop D → Loop D → Type 0
  AsRead none l l' = Failed l l'
  AsRead (some (inputs, outputs)) l l' = Sampled drv now inputs outputs l l'

summary-apply_output_state :
    (o : OutputState) (s : RegisterStore)
    → fault_summary (apply_output_state o s).snap ≡ fault_summary s.snap
unfolding fault_summary apply_output_state
summary-apply_output_state o s = refl

latch-apply :
    (disk : Disk) (now_wall : ℕ) (i : InputSnapshot) (o : OutputState) (s : RegisterStore)
    → (apply_output_state o (apply_input_snapshot disk now_wall i s)).snap.mode_reject_active
      ≡ s.snap.mode_reject_active
unfolding apply_output_state apply_input_snapshot publish_inputs
latch-apply disk now_wall i o s = refl

module _ {D : Type 0} (drv : IoDriver D) (disk : Disk) (now now_wall : ℕ) where
  fail-Failed :
      (device : D) (reset : Bool) (l : Loop D)
      → Failed l
          (fail_cycle drv disk now now_wall (record l { driver = device; outputs_reset = reset }))
  unfolding fail_cycle
  fail-Failed device reset l =
      let (bit, rest) = fault_summary-set_input_fault true l.store in (refl, omega arith, rest)

  -- The store once a turn has read everything, before the check of the outputs.
  abbrev shown : InputSnapshot → OutputState → Loop D → RegisterStore
  shown i o l =
      set_input_fault false (apply_output_state o (apply_input_snapshot disk now_wall i l.store))

  shown_lem :
      (i : InputSnapshot) (o : OutputState) (l : Loop D)
      → (input_bit (fault_summary (shown i o l).snap) ≡ int_of_bool l.store.snap.mode_reject_active)
        × (output_bit (fault_summary (shown i o l).snap) ≡ output_bit (fault_summary l.store.snap))
        × (driver_bits (fault_summary (shown i o l).snap) ≡ driver_bits i.fault_bits)
  shown_lem i o l = ground (
    arith,
    fault_summary-set_input_fault false
        (apply_output_state o (apply_input_snapshot disk now_wall i l.store)),
    summary-apply_output_state o (apply_input_snapshot disk now_wall i l.store),
    latch-apply disk now_wall i o l.store,
    fault_summary-apply_input_snapshot disk now_wall i l.store,
    summary_lem l.store.snap,
  )

  checked_lem :
      (o : OutputState) (device : D) (s : RegisterStore)
      → let w = fault_summary (check_outputs drv disk now now_wall o device s).snap in
        (input_bit w ≡ input_bit (fault_summary s.snap))
        × (driver_bits w ≡ driver_bits (fault_summary s.snap))
        × (output_bit w
            ≡ max (output_bit (fault_summary s.snap)) (int_of_bool (mistrusts drv now o device)))
  unfolding check_outputs
  checked_lem o device s = ground (arith, fault_summary-set_output_fault true s)

  publish-Sampled :
      (i : InputSnapshot) (o : OutputState) (device : D) (l : Loop D)
      → Sampled drv now i o l (publish drv disk now now_wall i o device l)
  unfolding publish
  publish-Sampled i o device l =
      let (input, output, driver) = shown_lem i o l in
      let (input', driver', output') = checked_lem o device (shown i o l) in
      (
        refl,
        input' ∙ input,
        driver' ∙ driver,
        output' ∙ ap (λ b. max b (int_of_bool (mistrusts drv now o device))) output,
      )

  read_outputs-Sampled :
      (i : InputSnapshot) (device : D) (reset : Bool) (l : Loop D)
      → let l' =
          read_outputs drv disk now now_wall i
            (record l { driver = device; outputs_reset = reset }) in
        AsRead drv now (both drv now i (drv.read_output_state now device).0) l l'
  unfolding read_outputs
  read_outputs-Sampled i device reset l = elim (Option-cases (drv.read_output_state now device).0) [
    | inl e ↦ rw (read_outputs, e) (fail-Failed (drv.read_output_state now device).1 reset l)
    | inr (o, e) ↦
        (rw (read_outputs, e)
          (publish-Sampled i o (drv.read_output_state now device).1
            (record l { driver = (drv.read_output_state now device).1; outputs_reset = reset })))
  ]

  sample-Sampled :
      (device : D) (reset : Bool) (l : Loop D)
      → let l' =
          sample drv disk now now_wall (record l { driver = device; outputs_reset = reset }) in
        AsRead drv now (both_reads drv now true device) l l'
  unfolding sample
  sample-Sampled device reset l = elim (Option-cases (drv.read_inputs now device).0) [
    | inl e ↦ rw (sample, e) (fail-Failed (drv.read_inputs now device).1 reset l)
    | inr (i, e) ↦ rw (sample, e) (read_outputs-Sampled i (drv.read_inputs now device).1 reset l)
  ]

  -- A turn of the loop in which the reset of the outputs, where it is due, or a read of the driver raises
  -- sets the input fault and leaves the other fault bits. A turn in which both reads return clears the
  -- input fault (but for the latch of a rejected write), shows the fault bits of the very inputs that
  -- were read, and sets the output fault if the hardware fail-safe is unverified or a relay that was
  -- read disagrees with what was commanded of it: it never clears the output fault.
  pub fault_summary-cycle :
      (l : Loop D) → AsRead drv now (turn_reads drv now l) l (cycle drv disk now now_wall l)
  unfolding cycle
  fault_summary-cycle l = elim (Bool-cases l.outputs_reset) [
    | inl done ↦ rw done (sample-Sampled l.driver true (record l { outputs_reset = true }))
    | inr fresh ↦ elim (Bool-cases (drv.release_all_outputs now l.driver).0) [
      | inl e ↦
          rw (fresh, e)
            (sample-Sampled (drv.release_all_outputs now l.driver).1 true
              (record l { outputs_reset = false }))
      | inr e ↦
          rw (fresh, e)
            (fail-Failed (drv.release_all_outputs now l.driver).1 false
              (record l { outputs_reset = false }))
    ]
  ]
