-- ===== src/Genwatch/Examples/Links.antt =====
-- The theorems on the links and their polls at concrete inputs.
use complete_gen_project.Base.{
  ℕ, ◌+◌, ◌*◌, ◌≤◌, ◌<◌, ◌≡◌, ◌↔◌, ◌⊎◌, refl, Bool, true, false, ◌||◌, Option, none, some, List, [],
  ◌∷◌, ◌==◌, arith, All,
}
use complete_gen_project.Base.Dicts.{lookup}
use complete_gen_project.Genwatch.Alarms.{is_member}
use complete_gen_project.Genwatch.Registers.{u16, whole}
use complete_gen_project.Base.{pos}
use complete_gen_project.Genwatch.Tokens.{healthy, lost}
use complete_gen_project.Genwatch.Ats.Model.{
  AtsRegister, icd_major_reg, unit_id_reg, fault_summary_reg, position_reg, FaultRule, AtsService,
  new_service, fault_input_code, fault_calibration_code, time_skew_code, is_expected,
  expected_icd_major, is_authoritative,
}
use complete_gen_project.Genwatch.Ats.Update.{AtsPoll, update, run_updates}
use complete_gen_project.Genwatch.Ats.Comms.{comms_changes, run_updates-comms_changes}
use complete_gen_project.Genwatch.Ats.Authority.{latest, any_base, run_updates-is_authoritative}
use complete_gen_project.Genwatch.Ats.Faults.{is_reported, update-faults_lost}
use complete_gen_project.Genwatch.Poller.Health.{
  CommsHealth, new_health, push, recent_flaps, record_sample, watchdog, HealthEvent, sample,
  check_silence, prime_good, run_health,
}
use complete_gen_project.Genwatch.Poller.Recovery.{
  IsGoodWindow, run_health-lost, record_sample-healthy, watchdog-record_sample,
}
use complete_gen_project.Genwatch.Poller.Tier.{TierRegister, TierMap, Answer, Reading, poll_tier}
use complete_gen_project.Genwatch.Poller.Freshness.{IsStamped, IsYoung, poll_tier-IsYoung}

-- The fault rules of the companion's map, without the two on outputs and mode.
abbrev rules : List FaultRule
rules =
    record { is_fault_summary = true; mask = 1; code = fault_input_code }
    ∷ record { is_fault_summary = true; mask = 8; code = fault_calibration_code }
    ∷ []

abbrev full_values : AtsRegister → Option ℕ
full_values position_reg = some 0
full_values icd_major_reg = some 1
full_values unit_id_reg = some 3
full_values fault_summary_reg = some 1
full_values _ = none

abbrev partial_values : AtsRegister → Option ℕ
partial_values position_reg = some 0
partial_values _ = none

-- A base poll with an input fault, and one that lost the register of the faults.
abbrev base_poll : AtsPoll
base_poll = record {
  is_base = true;
  values = full_values;
  comms_object = 0;
  comms = healthy;
  now = 1000;
  mono = 1000;
}

abbrev partial_poll : AtsPoll
partial_poll = record {
  is_base = false;
  values = partial_values;
  comms_object = 0;
  comms = healthy;
  now = 2500;
  mono = 2500;
}

abbrev no_rows : ℕ → Bool
no_rows c = false

abbrev fresh : AtsService
fresh = new_service rules (some 3) no_rows []

run_updates-is_authoritative_example :
    (is_authoritative (run_updates (base_poll ∷ partial_poll ∷ []) fresh) ≡ true) ↔ (
      (healthy ≡ healthy)
      × (any_base false (base_poll ∷ partial_poll ∷ []) ≡ true)
      × (latest icd_major_reg 0 (base_poll ∷ partial_poll ∷ []) ≡ 1)
      × (is_expected (some 3) (latest unit_id_reg 0 (base_poll ∷ partial_poll ∷ [])) ≡ true)
      × (is_reported fault_input_code 0 rules ≡ false)
      × (is_reported fault_calibration_code 0 rules ≡ false))
run_updates-is_authoritative_example =
    run_updates-is_authoritative rules (some 3) no_rows [] (base_poll ∷ []) partial_poll

-- A poll on a lost link, after the first poll on a healthy one.
abbrev lost_poll : AtsPoll
lost_poll = record partial_poll { comms = lost }

abbrev polled_once : AtsService
polled_once = record fresh { snap = record fresh.snap { comms_object = some 0 } }

run_updates-comms_changes_example :
    comms_changes (run_updates (lost_poll ∷ partial_poll ∷ []) polled_once).published ≡ []
run_updates-comms_changes_example =
    run_updates-comms_changes (lost_poll ∷ partial_poll ∷ []) polled_once 0 refl (refl, (refl, tt))

-- After the fault was seen.
abbrev faulted : AtsService
faulted = record fresh {
  snap = record fresh.snap {
    fault_codes = fault_input_code ∷ [];
    icd_major = 1;
    ats_pi_unit_id = 3;
    base_poll_completed = true;
  };
  alarm_rows = λ c. c == fault_input_code;
}

faulted_rows :
    (c : ℕ)
    → (time_skew_code == c) ≡ false
    → faulted.alarm_rows c ≡ is_member c faulted.snap.fault_codes
faulted_rows c h = ground arith

update-faults_lost_example :
    let s' = update partial_poll faulted in
    (s'.snap.fault_codes ≡ [])
    × ((c : ℕ) → (time_skew_code == c) ≡ false → s'.alarm_rows c ≡ false)
    × (partial_poll.comms ≡ healthy
        → (faulted.snap.base_poll_completed || partial_poll.is_base) ≡ true
        → s'.snap.icd_major ≡ expected_icd_major
        → is_expected s'.expected_unit_id s'.snap.ats_pi_unit_id ≡ true
        → is_authoritative s' ≡ true)
update-faults_lost_example =
    update-faults_lost partial_poll faulted refl (omega arith, (omega arith, tt)) faulted_rows

abbrev outage : List HealthEvent
outage = prime_good 1000 ∷ sample true 1000 ∷ check_silence 6000 1500 ∷ sample false 6500 ∷ []

run_health-lost_example :
    ((run_health outage new_health).state ≡ lost)
    ↔ (3 ≤ (run_health outage new_health).consecutive_failures)
run_health-lost_example = run_health-lost outage

-- Lost twice in the last two minutes, with a bad window, and four good samples since.
abbrev flapping : CommsHealth
flapping = record {
  state = lost;
  success_tenths = 500;
  consecutive_failures = 0;
  consecutive_successes = 4;
  last_prime_good = some 100000;
  results = true ∷ true ∷ true ∷ true ∷ false ∷ false ∷ false ∷ [];
  lost_episodes = 90000 ∷ 50000 ∷ [];
}

record_sample-healthy_example : ((record_sample true 101500 flapping).state ≡ healthy) ↔ (
    (true ≡ true)
    × (IsGoodWindow (push 60 true flapping.results)
        ⊎ (5 ≤ flapping.consecutive_successes + 1)
          × (recent_flaps 101500 flapping.lost_episodes < 2)))
record_sample-healthy_example = record_sample-healthy true 101500 flapping

-- A loop that hangs after good polls.
abbrev hanging : CommsHealth
hanging = record new_health {
  last_prime_good = some 1000;
  results = true ∷ true ∷ [];
  lost_episodes = 900 ∷ 500 ∷ [];
}

watchdog-record_sample_example :
    let h' = watchdog 6000 1500 hanging in
    (h'.state ≡ lost) × ((record_sample true 6100 h').state ≡ healthy)
watchdog-record_sample_example =
    watchdog-record_sample 6000 1500 6100 hanging refl refl (omega arith)

abbrev oil : TierRegister
oil = record { name = 5; reg = record { addr = 8; type = u16; has_scale = false } }

abbrev coolant : TierRegister
coolant = record { name = 6; reg = record { addr = 9; type = u16; has_scale = false } }

abbrev prime_tier : TierMap
prime_tier = record {
  registers = oil ∷ coolant ∷ [];
  is_prime = true;
  cadence_ms = 1500;
  state_registers = 5 ∷ [];
}

abbrev old_reading : Reading
old_reading = record { values = (6, whole (pos 90)) ∷ []; value_ages = (6, 1000) ∷ [] }

old_reading-IsStamped : IsStamped old_reading
unfolding lookup
old_reading-IsStamped n = ground arith

-- The batch fails, then the first register is read and the second is not.
abbrev replies : List Answer
replies = none ∷ some (12 ∷ []) ∷ none ∷ []

poll_tier-IsYoung_example :
    let d' = (poll_tier prime_tier ((8, 2) ∷ []) 6000 replies new_health old_reading).reading in
    IsStamped d'
    × All
        (λ r. IsYoung 6000 (prime_tier.cadence_ms * 3) (lookup r.name d'.value_ages))
        prime_tier.registers
poll_tier-IsYoung_example =
    poll_tier-IsYoung prime_tier (8, 2) [] 6000 replies new_health old_reading old_reading-IsStamped
