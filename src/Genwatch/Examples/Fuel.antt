-- ===== src/Genwatch/Examples/Fuel.antt =====
-- The theorems on the fuel monitor at concrete inputs.
use complete_gen_project.Base.{ℕ, ◌≡◌, refl, true, false, Option, none, some, List, [], ◌∷◌, arith}
use complete_gen_project.Genwatch.LoadSource.{EngineState, stopped, running}
use complete_gen_project.Genwatch.Fuel.{
  warn, critical, FuelConfig, FuelMonitor, FuelPoll, new_monitor, is_low, is_burning, update, run,
}
use complete_gen_project.Genwatch.Fuel.Status.{latch, is_critical, run-latches}
use complete_gen_project.Genwatch.Fuel.Flapping.{alerts, constant, run-flaps}
use complete_gen_project.Genwatch.Fuel.Drops.{drop_times}
use complete_gen_project.Genwatch.Fuel.Burning.{StartsBelow, run-after_burning}
use complete_gen_project.Genwatch.Fuel.Reminders.{Noticed, update-Noticed}

-- In percent, with reminders every 12 hours and drops of 10 within an hour.
abbrev site : FuelConfig
site = record {
  enabled = true;
  warn_pct = 25;
  critical_pct = 10;
  hysteresis_pct = 3;
  renotify_ms = 43200000;
  min_valid_pct = 0;
  max_valid_pct = 100;
  drop_alert_pct = 10;
  drop_window_minutes = 60;
  drop_only_when_stopped = true;
}

abbrev poll : Option ℕ → ℕ → FuelPoll
poll reading now = record { reading = reading; engine = stopped; now = now }

-- A tank that sloshes on the warning threshold, with a reading that is missing and one that is invalid.
abbrev sloshing : List FuelPoll
sloshing =
    poll (some 25) 1000
    ∷ poll (some 27) 2500
    ∷ poll none 4000
    ∷ poll (some 400) 5500
    ∷ poll (some 26) 7000
    ∷ []

run-latches_example :
    (is_critical (run sloshing (new_monitor site false)).1.status
      ≡ latch 10 13 false (25 ∷ 27 ∷ 26 ∷ []))
    × (is_low (run sloshing (new_monitor site false)).1.status
        ≡ latch 25 28 false (25 ∷ 27 ∷ 26 ∷ []))
run-latches_example = run-latches sloshing (new_monitor site false) refl (omega arith)

abbrev no_hysteresis : FuelConfig
no_hysteresis = record site { hysteresis_pct = 0 }

abbrev critical_monitor : FuelMonitor
critical_monitor = record (new_monitor no_hysteresis false) { status = critical }

abbrev calls : List (EngineState × ℕ)
calls = (stopped, 1000) ∷ (stopped, 2500) ∷ (running, 4000) ∷ (stopped, 5500) ∷ []

run-flaps_example : alerts (run (constant 10 calls) critical_monitor).0 ≡ 2
run-flaps_example = run-flaps calls critical_monitor refl refl refl (omega arith) refl

-- A tank that falls by 20 in half a minute, and goes on falling.
abbrev leaking : List FuelPoll
leaking = poll (some 90) 1000 ∷ poll (some 70) 31000 ∷ poll (some 50) 61000 ∷ []

leak_test : drop_times leaking (new_monitor site false) ≡ 31000 ∷ []
unfolding run update
leak_test = refl

run-after_burning_example :
    StartsBelow 78
      (run
        (poll (some 77) 62000 ∷ poll (some 60) 92000 ∷ [])
        (update (some 78) running 60000 (new_monitor site false)).1).0
unfolding is_burning
run-after_burning_example =
    run-after_burning 78 running 60000 (new_monitor site false)
      (poll (some 77) 62000 ∷ poll (some 60) 92000 ∷ []) 78 refl refl refl refl refl (omega arith)
      (omega arith, (omega arith, tt))

-- The tank has been low for 12 hours.
abbrev low_monitor : FuelMonitor
low_monitor = record (new_monitor site false) { status = warn; notified_at = 1000 }

found_low : is_low (update (some 20) stopped 43201000 low_monitor).1.status ≡ true
unfolding update
found_low = refl

update-Noticed_example :
    Noticed 43201000 low_monitor (update (some 20) stopped 43201000 low_monitor)
update-Noticed_example =
    update-Noticed 20 stopped 43201000 low_monitor refl refl (omega arith) found_low
