-- ===== src/Genwatch/Poller/Health.antt =====
-- The health of a link (`CommsHealth`, `_record`, `_classify` and the round of `_watchdog`, of
-- GenWatch-main/backend/genwatch/modbus/poller.py). Times are `time.monotonic()` in milliseconds, and
-- the success rate is in tenths of a percent, which `round` to one digit makes it. Windows have the last
-- entry first. The latencies and the wall-clock times, which are for display, are left out.
use complete_gen_project.Base.{
  ℕ, ◌+◌, ◌-◌, ◌*◌, ◌/◌, ◌%◌, Bool, true, false, not, ◌&&◌, ◌||◌, Option, none, some, List, [], ◌∷◌,
  ltb, leb, if◌then◌else◌, length, keep, take, max,
}
use complete_gen_project.Genwatch.Tokens.{CommsState, healthy, degraded, lost}

pub record CommsHealth : Type 0 where
  pub state : CommsState
  pub success_tenths : ℕ
  pub consecutive_failures : ℕ
  pub consecutive_successes : ℕ
  pub last_prime_good : Option ℕ
  pub results : List Bool
  pub lost_episodes : List ℕ

abbrev pub new_health : CommsHealth
new_health = record {
  state = healthy;
  success_tenths = 1000;
  consecutive_failures = 0;
  consecutive_successes = 0;
  last_prime_good = none;
  results = [];
  lost_episodes = [];
}

abbrev pub healthy_recovery_streak : ℕ
healthy_recovery_streak = 5

abbrev pub flap_window_ms : ℕ
flap_window_ms = 120000

abbrev pub flap_max_episodes : ℕ
flap_max_episodes = 2

-- Appending to a `deque` with a limit.
abbrev pub push {ℓ} : {A : Type ℓ} → ℕ → A → List A → List A
push limit x xs = take limit (x ∷ xs)

abbrev pub count_true : List Bool → ℕ
count_true [] = 0
count_true (true ∷ bs) = count_true bs + 1
count_true (false ∷ bs) = count_true bs

-- `round(100.0 * n_ok / n, 1)`, with a tie to the even digit.
unfoldable pub success_rate : ℕ → ℕ → ℕ
success_rate n_ok n =
    let q = 1000 * n_ok / n in
    let r = 1000 * n_ok % n in
    if ltb (2 * r) n then q else if ltb n (2 * r) then q + 1 else q + q % 2

abbrev pub recent_flaps : ℕ → List ℕ → ℕ
recent_flaps now ts = length (keep (λ t. leb (now - t) flap_window_ms) ts)

abbrev pub recovers : ℕ → CommsHealth → Bool
recovers now h =
    leb healthy_recovery_streak h.consecutive_successes
    && ltb (recent_flaps now h.lost_episodes) flap_max_episodes

-- `_classify`
unfoldable pub classify : ℕ → CommsHealth → CommsState
classify now h =
    if leb 3 h.consecutive_failures
    then lost
    else if recovers now h
    then healthy
    else if ltb h.success_tenths 950 || leb 1 h.consecutive_failures
    then degraded
    else healthy

-- The sample in the counters and in the window.
unfoldable pub count_sample : Bool → CommsHealth → CommsHealth
unfolding success_rate
count_sample ok h =
    let results = push 60 ok h.results in
    record h {
      results = results;
      success_tenths = success_rate (count_true results) (length results);
      consecutive_failures = if ok then 0 else h.consecutive_failures + 1;
      consecutive_successes = if ok then h.consecutive_successes + 1 else 0;
    }

abbrev pub is_lost : CommsState → Bool
is_lost lost = true
is_lost _ = false

-- The state, with the episode where the link has become lost.
unfoldable pub enter_state : ℕ → CommsState → CommsHealth → CommsHealth
enter_state now new h = record h {
  state = new;
  lost_episodes =
      if is_lost new && not (is_lost h.state) then push 32 now h.lost_episodes else h.lost_episodes;
}

-- `_record`
unfoldable pub record_sample : Bool → ℕ → CommsHealth → CommsHealth
unfolding count_sample classify enter_state
record_sample ok now h = let h' = count_sample ok h in enter_state now (classify now h') h'

-- How long there was no good prime poll, if there ever was one.
abbrev pub is_silent : ℕ → ℕ → Option ℕ → Bool
is_silent now threshold none = false
is_silent now threshold (some last) = ltb threshold (now - last)

-- A round of `_watchdog`, with three prime cadences as the threshold.
unfoldable pub watchdog : ℕ → ℕ → CommsHealth → CommsHealth
watchdog now prime_poll_ms h =
    if is_silent now (prime_poll_ms * 3) h.last_prime_good && not (is_lost h.state)
    then (record h {
      consecutive_successes = 0;
      consecutive_failures = max h.consecutive_failures 3;
      state = lost;
      lost_episodes = push 32 now h.lost_episodes;
    })
    else h

-- What happens to the health of a link.
pub data HealthEvent : Type 0 where
  sample : Bool → ℕ → HealthEvent
  check_silence : ℕ → ℕ → HealthEvent
  prime_good : ℕ → HealthEvent

unfoldable pub health_step : HealthEvent → CommsHealth → CommsHealth
unfolding record_sample watchdog
health_step (sample ok now) h = record_sample ok now h
health_step (check_silence now prime_poll_ms) h = watchdog now prime_poll_ms h
health_step (prime_good now) h = record h { last_prime_good = some now }

unfoldable pub run_health : List HealthEvent → CommsHealth → CommsHealth
unfolding health_step
run_health [] h = h
run_health (e ∷ es) h = run_health es (health_step e h)
