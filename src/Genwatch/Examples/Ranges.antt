-- ===== src/Genwatch/Examples/Ranges.antt =====
-- The theorems on the range alarms at concrete inputs.
use complete_gen_project.Base.{ℕ, ◌≡◌, refl, false, some, List, [], ◌∷◌, leb, keep}
use complete_gen_project.Base.Dicts.{lookup}
use complete_gen_project.Genwatch.LoadSource.{running}
use complete_gen_project.Genwatch.Ranges.{
  warn_band, RangedRegister, RangePoll, RangeState, is_in, active_now, run_ranges,
}
use complete_gen_project.Genwatch.Ranges.Raised.{in_a_row, run_ranges-raised}
use complete_gen_project.Genwatch.Ranges.Severity.{is_about, run_ranges-severity}

-- A coolant temperature, warned of above 100 and alarmed above 110.
abbrev coolant : List RangedRegister
coolant = record { code = 1; alarm_range = some (0, 110); warn_range = some (0, 100) } ∷ []

abbrev at_temperature : ℕ → RangePoll
at_temperature t = record { engine = running; values = λ c. some t }

abbrev quiet_state : RangeState
quiet_state = record { poll_counts = λ c. 0; raised = []; rows = λ c. false; emitted = [] }

abbrev warm : List RangePoll
warm =
    at_temperature 103
    ∷ at_temperature 99
    ∷ at_temperature 104
    ∷ at_temperature 105
    ∷ at_temperature 106
    ∷ []

run_ranges-raised_example :
    is_in 1 (run_ranges coolant warm quiet_state).raised ≡ leb 3 (in_a_row coolant 1 0 warm)
unfolding is_in
run_ranges-raised_example = run_ranges-raised coolant warm quiet_state 1 refl

abbrev warned : RangeState
warned = record quiet_state { poll_counts = λ c. 3; raised = (1, warn_band) ∷ [] }

-- The coolant boils, and the alarm is a warning still.
run_ranges-severity_example :
    (lookup 1 (run_ranges coolant (at_temperature 120 ∷ at_temperature 130 ∷ []) warned).raised
      ≡ some warn_band)
    × (keep
          (is_about 1)
          (run_ranges coolant (at_temperature 120 ∷ at_temperature 130 ∷ []) warned).emitted
        ≡ [])
unfolding is_in active_now lookup
run_ranges-severity_example =
    run_ranges-severity coolant (at_temperature 120 ∷ at_temperature 130 ∷ []) warned 1 warn_band
      refl (refl, (refl, tt))
