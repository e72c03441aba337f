-- ===== src/Companion/Examples/Loops.antt =====
-- The sampling loop and the dispatch over the ADAM driver.
use complete_gen_project.Base.{true, false, [], ◌∷◌}
use complete_gen_project.Companion.Adam.Device.{Adam, accepted, bits}
use complete_gen_project.Companion.Adam.Inputs.{adam_driver}
use complete_gen_project.Companion.Service.{Loop, start_loop, cycle}
use complete_gen_project.Companion.Service.Faults.{AsRead, turn_reads, fault_summary-cycle}
use complete_gen_project.Companion.Examples.{all_closed, connected, started, working_disk}

-- A service that starts with relays left closed: the reset lands, and both reads answer.
abbrev fresh : Loop Adam
unfolding connected start_loop
fresh =
    start_loop
      (connected true all_closed (
        accepted
        ∷ accepted
        ∷ accepted
        ∷ accepted
        ∷ bits false false true true true true
        ∷ bits false false false false false false
        ∷ []))
      started

fault_summary-cycle_example :
    AsRead adam_driver 1000
      (turn_reads adam_driver 1000 fresh)
      fresh
      (cycle adam_driver working_disk 1000 1000000 fresh)
fault_summary-cycle_example = fault_summary-cycle adam_driver working_disk 1000 1000000 fresh
