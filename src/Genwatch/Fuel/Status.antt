-- ===== src/Genwatch/Fuel/Status.antt =====
-- The status of the tank, by the levels that were read (`_classify` and `update` of
-- GenWatch-main/backend/genwatch/services/fuel.py).
use complete_gen_project.Base.{
  ℕ, zero, suc, ◌+◌, ◌-◌, length, ◌<◌, ◌≡◌, ◌∙◌, refl, sym, ap, subst, Bool, true, false, not, ◌&&◌,
  Option, none, some, List, [], ◌∷◌, ltb, leb, ◌==◌, if◌then◌else◌, if_lem, arith, Bool-cases, inl,
  inr, ==_iff,
}
use complete_gen_project.Genwatch.LoadSource.{EngineState}
use complete_gen_project.Genwatch.Fuel.{
  FuelStatus, ok, warn, critical, unknown, FuelConfig, FuelEvent, FuelMonitor, FuelPoll,
  is_applicable, classify, status_code, status_eq, is_low, remind, update_level, compare_peak,
  check_drop, is_valid, update_valid, update_reading, update, run, sampled, is_reminder_due,
  is_burning, is_recent_drop, peak_of,
}

abbrev pub Outcome : Type 0
Outcome = List FuelEvent × FuelMonitor

-- What a step leaves of the monitor, and the status after it.
pub record Keeps (m : FuelMonitor) (status : FuelStatus) (r : Outcome) : Type 0 where
  pub cfg : r.1.cfg ≡ m.cfg
  pub gaseous : r.1.is_gaseous ≡ m.is_gaseous
  pub now_status : r.1.status ≡ status

kept : (m : FuelMonitor) (events : List FuelEvent) → Keeps m m.status (events, m)
kept m events = record { cfg = refl; gaseous = refl; now_status = refl }

Keeps-compare_peak : (pct now : ℕ) (m : FuelMonitor) → Keeps m m.status (compare_peak pct now m)
unfolding compare_peak
Keeps-compare_peak pct now m =
    if_lem (Keeps m m.status) (ltb (length m.history) 2) _ _ (kept m []) (
      if_lem (Keeps m m.status) (ltb (peak_of m.history - pct) m.cfg.drop_alert_pct) _ _ (kept m [])
        (if_lem (Keeps m m.status) (is_recent_drop now m) _ _ (kept m [])
          (record { cfg = refl; gaseous = refl; now_status = refl })))

pub Keeps-check_drop :
    (pct : ℕ) (engine : EngineState) (now : ℕ) (m : FuelMonitor)
    → Keeps m m.status (check_drop pct engine now m)
unfolding check_drop
Keeps-check_drop pct engine now m =
    if_lem (Keeps m m.status) (m.cfg.drop_alert_pct == 0) _ _ (kept m []) (
      if_lem (Keeps m m.status) (m.cfg.drop_only_when_stopped && is_burning engine) _ _
        (record { cfg = refl; gaseous = refl; now_status = refl })
        (record { cfg = peak.cfg; gaseous = peak.gaseous; now_status = peak.now_status }))
  where
    peak :
        Keeps
          (record m { history = sampled pct now m })
          m.status
          (compare_peak pct now (record m { history = sampled pct now m }))
    peak = Keeps-compare_peak pct now (record m { history = sampled pct now m })

code_status : ℕ → FuelStatus
code_status zero = ok
code_status (suc zero) = warn
code_status (suc (suc zero)) = critical
code_status (suc (suc (suc n))) = unknown

code_status-status_code : (s : FuelStatus) → code_status (status_code s) ≡ s
unfolding code_status
code_status-status_code ok = refl
code_status-status_code warn = refl
code_status-status_code critical = refl
code_status-status_code unknown = refl

pub status_eq-eq : (a b : FuelStatus) → status_eq a b ≡ true → a ≡ b
status_eq-eq a b e =
    sym (code_status-status_code a)
    ∙ ap code_status ((==_iff (status_code a) (status_code b)).0 e)
    ∙ code_status-status_code b

Keeps-remind : (pct now : ℕ) (m : FuelMonitor) → Keeps m m.status (remind pct now m)
unfolding remind
Keeps-remind pct now m =
    if_lem (Keeps m m.status) (is_reminder_due now m) _ _
      (record { cfg = refl; gaseous = refl; now_status = refl }) (kept m [])

pub Keeps-update_level :
    (pct now : ℕ) (m : FuelMonitor) → Keeps m (classify m.cfg m.status pct) (update_level pct now m)
unfolding update_level
Keeps-update_level pct now m =
    elim (Bool-cases (status_eq (classify m.cfg m.status pct) m.status)) [
      | inl same ↦ rw same (
          subst (λ s. Keeps m s (remind pct now m)) (sym (status_eq-eq _ _ same))
            (Keeps-remind pct now m))
      | inr other ↦ rw other (record { cfg = refl; gaseous = refl; now_status = refl })
    ]

-- The status after a reading.
abbrev pub status_after : FuelConfig → FuelStatus → Option ℕ → FuelStatus
status_after c s none = s
status_after c s (some pct) = if is_valid c pct then classify c s pct else s

update_valid-Keeps :
    (pct : ℕ) (engine : EngineState) (now : ℕ) (m : FuelMonitor)
    → Keeps m (classify m.cfg m.status pct) (update_valid pct engine now m)
unfolding update_valid
update_valid-Keeps pct engine now m =
    let read = record m { last_pct = some pct } in
    let first = Keeps-update_level pct now read in
    let second = Keeps-check_drop pct engine now (update_level pct now read).1 in
    record {
      cfg = second.cfg ∙ first.cfg;
      gaseous = second.gaseous ∙ first.gaseous;
      now_status = second.now_status ∙ first.now_status;
    }

pub update-Keeps :
    (reading : Option ℕ) (engine : EngineState) (now : ℕ) (m : FuelMonitor)
    → is_applicable m ≡ true
    → Keeps m (status_after m.cfg m.status reading) (update reading engine now m)
unfolding update update_reading
update-Keeps none engine now m on = rw on (kept m [])
update-Keeps (some pct) engine now m on = elim (Bool-cases (is_valid m.cfg pct)) [
  | inl good ↦ rw (on, good) (update_valid-Keeps pct engine now m)
  | inr bad ↦ rw (on, bad) (kept m [])
]

-- A switch with two thresholds: on at or below the lower one, off at or above the upper one.
abbrev pub latch_step : ℕ → ℕ → Bool → ℕ → Bool
latch_step low high true x = not (leb high x)
latch_step low high false x = leb x low

abbrev pub latch : ℕ → ℕ → Bool → List ℕ → Bool
latch low high on [] = on
latch low high on (x ∷ xs) = latch low high (latch_step low high on x) xs

abbrev pub is_critical : FuelStatus → Bool
is_critical critical = true
is_critical _ = false

-- The readings that count.
abbrev pub levels : FuelConfig → List FuelPoll → List ℕ
levels c [] = []
levels c (p ∷ ps) =
    let rest = levels c ps in
    elim p.reading [ none ↦ rest | some x ↦ (if is_valid c x then x ∷ rest else rest) ]

classify_step :
    (c : FuelConfig) (s : FuelStatus) (x : ℕ)
    → c.critical_pct < c.warn_pct
    → (is_critical (classify c s x)
        ≡ latch_step c.critical_pct (c.critical_pct + c.hysteresis_pct) (is_critical s) x)
      × (is_low (classify c s x)
          ≡ latch_step c.warn_pct (c.warn_pct + c.hysteresis_pct) (is_low s) x)
unfolding classify
classify_step c ok x h = (ground arith, ground arith)
classify_step c warn x h = (ground arith, ground arith)
classify_step c critical x h = (ground arith, ground arith)
classify_step c unknown x h = (ground arith, ground arith)

-- One poll, for both switches.
abbrev switches : FuelConfig → FuelStatus → List ℕ → Bool × Bool
switches c s xs = (
  latch c.critical_pct (c.critical_pct + c.hysteresis_pct) (is_critical s) xs,
  latch c.warn_pct (c.warn_pct + c.hysteresis_pct) (is_low s) xs,
)

counted : FuelConfig → Option ℕ → List ℕ → List ℕ
counted c reading rest = elim reading [
  | none ↦ rest
  | some x ↦ (if is_valid c x then x ∷ rest else rest)
]

switches-status_after :
    (c : FuelConfig) (s : FuelStatus) (reading : Option ℕ) (rest : List ℕ)
    → c.critical_pct < c.warn_pct
    → switches c (status_after c s reading) rest ≡ switches c s (counted c reading rest)
unfolding counted
switches-status_after c s none rest h = refl
switches-status_after c s (some x) rest h = elim (Bool-cases (is_valid c x)) [
  | inl good ↦ rw (good, (classify_step c s x h).0, (classify_step c s x h).1) refl
  | inr bad ↦ rw bad refl
]

run-latches_at :
    (ps : List FuelPoll) (m : FuelMonitor) (c : FuelConfig)
    → m.cfg ≡ c
    → is_applicable m ≡ true
    → c.critical_pct < c.warn_pct
    → (is_critical (run ps m).1.status, is_low (run ps m).1.status)
      ≡ switches c m.status (levels c ps)
unfolding run counted
run-latches_at [] m c e on h = refl
run-latches_at (p ∷ ps) m c e on h =
    run-latches_at ps (update p.reading p.engine p.now m).1 c (k.cfg ∙ e) (rw (k.cfg, k.gaseous) on)
      h
    ∙ ap (λ t. switches c t (levels c ps))
        (k.now_status ∙ ap (λ (d : FuelConfig). status_after d m.status p.reading) e)
    ∙ switches-status_after c m.status p.reading (levels c ps) h
  where
    k : Keeps m (status_after m.cfg m.status p.reading) (update p.reading p.engine p.now m)
    k = update-Keeps p.reading p.engine p.now m on

-- The status is that of two switches with a hysteresis, one for each threshold, run over the levels that
-- were read within the valid range: it is critical exactly if the switch of the critical threshold is
-- on, and low or critical exactly if the switch of the warning threshold is on, whatever readings were
-- missing or invalid in between, if the critical threshold is below the warning threshold.
pub run-latches :
    (ps : List FuelPoll) (m : FuelMonitor)
    → let c = m.cfg in
      is_applicable m ≡ true
      → c.critical_pct < c.warn_pct
      → (is_critical (run ps m).1.status
          ≡ latch c.critical_pct
              (c.critical_pct + c.hysteresis_pct)
              (is_critical m.status)
              (levels c ps))
        × (is_low (run ps m).1.status
            ≡ latch c.warn_pct (c.warn_pct + c.hysteresis_pct) (is_low m.status) (levels c ps))
run-latches ps m on h =
    let both = run-latches_at ps m m.cfg refl on h in
    (ap (λ (t : Bool × Bool). t.0) both, ap (λ (t : Bool × Bool). t.1) both)
