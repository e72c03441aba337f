-- ===== src/Genwatch/Fuel.antt =====
-- The fuel monitor (GenWatch-main/backend/genwatch/services/fuel.py). Levels are numbers in one unit of
-- the site, times are in milliseconds. The texts, the estimate in gallons and the note that a sensor
-- fault was logged are left out, and the drop in an event is not rounded.
pub mod Status
pub mod Flapping
pub mod Drops
pub mod Burning
pub mod Reminders
use complete_gen_project.Base.{
  ℕ, ◌+◌, ◌-◌, ◌*◌, Bool, true, false, not, ◌&&◌, Option, none, some, List, [], ◌∷◌, ◌++◌, ltb, leb,
  ◌==◌, max, length, if◌then◌else◌,
}
use complete_gen_project.Genwatch.LoadSource.{EngineState, running, exercising, cranking, cooling}

pub data FuelStatus : Type 0 where
  ok warn critical unknown : FuelStatus

pub data FuelKind : Type 0 where
  level reminder drop recovered : FuelKind

pub data FuelSeverity : Type 0 where
  quiet notice alarm : FuelSeverity

-- `_history`: a sample is its time and its level.
pub record Sample : Type 0 where
  pub ts : ℕ
  pub pct : ℕ

pub record FuelConfig : Type 0 where
  pub enabled : Bool
  pub warn_pct : ℕ
  pub critical_pct : ℕ
  pub hysteresis_pct : ℕ
  pub renotify_ms : ℕ
  pub min_valid_pct : ℕ
  pub max_valid_pct : ℕ
  pub drop_alert_pct : ℕ
  pub drop_window_minutes : ℕ
  pub drop_only_when_stopped : Bool

pub record FuelEvent : Type 0 where
  pub kind : FuelKind
  pub status : FuelStatus
  pub pct : ℕ
  pub severity : FuelSeverity
  pub previous : FuelStatus
  pub dropped_pct : ℕ
  pub window_minutes : ℕ

pub record FuelMonitor : Type 0 where
  pub cfg : FuelConfig
  pub is_gaseous : Bool
  pub status : FuelStatus
  pub last_pct : Option ℕ
  pub notified_at : ℕ
  pub history : List Sample
  pub last_drop_at : ℕ

abbrev pub new_monitor : FuelConfig → Bool → FuelMonitor
new_monitor c gaseous = record {
  cfg = c;
  is_gaseous = gaseous;
  status = unknown;
  last_pct = none;
  notified_at = 0;
  history = [];
  last_drop_at = 0;
}

-- `BURNING_STATES`
unfoldable pub is_burning : EngineState → Bool
is_burning running = true
is_burning exercising = true
is_burning cranking = true
is_burning cooling = true
is_burning _ = false

abbrev pub is_applicable : FuelMonitor → Bool
is_applicable m = m.cfg.enabled && not m.is_gaseous

-- `_classify`: falling uses the bare threshold, rising has to clear it by the hysteresis.
unfoldable pub classify : FuelConfig → FuelStatus → ℕ → FuelStatus
classify c critical pct =
    if leb (c.critical_pct + c.hysteresis_pct) pct
    then (if ltb pct (c.warn_pct + c.hysteresis_pct) then warn else ok)
    else critical
classify c warn pct =
    if leb pct c.critical_pct
    then critical
    else if leb (c.warn_pct + c.hysteresis_pct) pct
    then ok
    else warn
classify c _ pct =
    if leb pct c.critical_pct then critical else if leb pct c.warn_pct then warn else ok

abbrev pub status_code : FuelStatus → ℕ
status_code ok = 0
status_code warn = 1
status_code critical = 2
status_code unknown = 3

abbrev pub status_eq : FuelStatus → FuelStatus → Bool
status_eq a b = status_code a == status_code b

abbrev pub is_low : FuelStatus → Bool
is_low warn = true
is_low critical = true
is_low _ = false

abbrev pub tell : FuelKind → FuelSeverity → FuelStatus → FuelStatus → ℕ → FuelEvent
tell kind severity previous status pct = record {
  kind = kind;
  status = status;
  pct = pct;
  severity = severity;
  previous = previous;
  dropped_pct = 0;
  window_minutes = 0;
}

-- The event of a change of the status, from the one before to the new one.
unfoldable pub crossing : FuelStatus → FuelStatus → ℕ → List FuelEvent
crossing previous critical pct = tell level alarm previous critical pct ∷ []
crossing critical warn pct = tell recovered quiet critical warn pct ∷ []
crossing previous warn pct = tell level notice previous warn pct ∷ []
crossing warn ok pct = tell recovered quiet warn ok pct ∷ []
crossing critical ok pct = tell recovered quiet critical ok pct ∷ []
crossing _ _ pct = []

abbrev pub low_severity : FuelStatus → FuelSeverity
low_severity critical = alarm
low_severity _ = notice

abbrev pub is_reminder_due : ℕ → FuelMonitor → Bool
is_reminder_due now m =
    is_low m.status && (ltb 0 m.cfg.renotify_ms && leb m.cfg.renotify_ms (now - m.notified_at))

unfoldable pub remind : ℕ → ℕ → FuelMonitor → List FuelEvent × FuelMonitor
remind pct now m =
    if is_reminder_due now m
    then (
      tell reminder (low_severity m.status) m.status m.status pct ∷ [],
      record m { notified_at = now },
    )
    else ([], m)

-- The level crossings and the reminders of `update`.
unfoldable pub update_level : ℕ → ℕ → FuelMonitor → List FuelEvent × FuelMonitor
unfolding classify crossing remind
update_level pct now m =
    let status = classify m.cfg m.status pct in
    if status_eq status m.status
    then remind pct now m
    else (crossing m.status status pct, record m { status = status; notified_at = now })

abbrev pub window_minutes : FuelConfig → ℕ
window_minutes c = max 1 c.drop_window_minutes

abbrev pub window_ms : FuelConfig → ℕ
window_ms c = window_minutes c * 60000

-- The deque keeps at most 2048 samples: an append to a full one drops the first.
abbrev pub max_samples : ℕ
max_samples = 2048

abbrev pub drop_first : List Sample → List Sample
drop_first [] = []
drop_first (x ∷ xs) = xs

abbrev pub append_sample : Sample → List Sample → List Sample
append_sample x xs = (if leb max_samples (length xs) then drop_first xs else xs) ++ x ∷ []

-- The samples before the cutoff leave, from the front.
abbrev pub evict_samples : ℕ → ℕ → List Sample → List Sample
evict_samples window now [] = []
evict_samples window now (x ∷ xs) =
    let rest = evict_samples window now xs in if ltb (x.ts + window) now then rest else x ∷ xs

abbrev pub peak_of : List Sample → ℕ
peak_of [] = 0
peak_of (x ∷ xs) = max x.pct (peak_of xs)

abbrev pub is_recent_drop : ℕ → FuelMonitor → Bool
is_recent_drop now m = not (m.last_drop_at == 0) && ltb (now - m.last_drop_at) (window_ms m.cfg)

abbrev pub drop_event : ℕ → FuelMonitor → FuelEvent
drop_event pct m = record {
  kind = drop;
  status = m.status;
  pct = pct;
  severity = alarm;
  previous = m.status;
  dropped_pct = peak_of m.history - pct;
  window_minutes = window_minutes m.cfg;
}

-- The comparison with the highest level of the window.
unfoldable pub compare_peak : ℕ → ℕ → FuelMonitor → List FuelEvent × FuelMonitor
compare_peak pct now m =
    if ltb (length m.history) 2
    then ([], m)
    else if ltb (peak_of m.history - pct) m.cfg.drop_alert_pct
    then ([], m)
    else if is_recent_drop now m
    then ([], m)
    else (drop_event pct m ∷ [], record m { last_drop_at = now })

abbrev pub sampled : ℕ → ℕ → FuelMonitor → List Sample
sampled pct now m =
    evict_samples (window_ms m.cfg) now (append_sample (record { ts = now; pct = pct }) m.history)

-- `_check_drop`
unfoldable pub check_drop : ℕ → EngineState → ℕ → FuelMonitor → List FuelEvent × FuelMonitor
unfolding compare_peak is_burning
check_drop pct engine now m =
    if m.cfg.drop_alert_pct == 0
    then ([], m)
    else if m.cfg.drop_only_when_stopped && is_burning engine
    then ([], record m { history = record { ts = now; pct = pct } ∷ [] })
    else compare_peak pct now (record m { history = sampled pct now m })

abbrev pub is_valid : FuelConfig → ℕ → Bool
is_valid c pct = leb c.min_valid_pct pct && leb pct c.max_valid_pct

unfoldable pub update_valid : ℕ → EngineState → ℕ → FuelMonitor → List FuelEvent × FuelMonitor
unfolding update_level check_drop
update_valid pct engine now m =
    let (events, m1) = update_level pct now (record m { last_pct = some pct }) in
    let (drops, m2) = check_drop pct engine now m1 in (events ++ drops, m2)

unfoldable pub update_reading :
    Option ℕ → EngineState → ℕ → FuelMonitor → List FuelEvent × FuelMonitor
unfolding update_valid
update_reading none engine now m = ([], m)
update_reading (some pct) engine now m =
    if is_valid m.cfg pct then update_valid pct engine now m else ([], m)

-- `update`: a reading that is missing or out of the valid range changes nothing.
unfoldable pub update : Option ℕ → EngineState → ℕ → FuelMonitor → List FuelEvent × FuelMonitor
unfolding update_reading
update pct engine now m = if is_applicable m then update_reading pct engine now m else ([], m)

-- The calls of `_check_fuel`, one in each poll of the generator.
pub record FuelPoll : Type 0 where
  pub reading : Option ℕ
  pub engine : EngineState
  pub now : ℕ

unfoldable pub run : List FuelPoll → FuelMonitor → List FuelEvent × FuelMonitor
unfolding update
run [] m = ([], m)
run (p ∷ ps) m =
    let (events, m1) = update p.reading p.engine p.now m in
    let (later, m2) = run ps m1 in (events ++ later, m2)
