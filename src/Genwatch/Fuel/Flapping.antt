-- ===== src/Genwatch/Fuel/Flapping.antt =====
-- A level that stays on the critical threshold, without a hysteresis (`_classify` and `update` of
-- GenWatch-main/backend/genwatch/services/fuel.py).
use complete_gen_project.Base.{
  if_lem, ℕ, suc, ◌/◌, length-append, ◌+◌, ◌-◌, ◌<◌, ◌≡◌, ◌∙◌, refl, ap, subst, Bool, true, false,
  ◌&&◌, some, List, [], ◌∷◌, ◌++◌, ltb, ◌==◌, arith, length, keep, keep-append,
}
use mathlib.Core.List.{append-nil}
use complete_gen_project.Genwatch.LoadSource.{EngineState}
use complete_gen_project.Genwatch.Fuel.{
  FuelStatus, warn, critical, FuelKind, level, FuelConfig, FuelEvent, FuelMonitor, FuelPoll,
  is_applicable, classify, status_eq, crossing, update_level, compare_peak, check_drop, is_valid,
  update_valid, update_reading, update, run, sampled, is_burning, is_recent_drop, peak_of,
}
use complete_gen_project.Genwatch.Fuel.Status.{
  Outcome, Keeps, is_critical, status_after, update-Keeps,
}

abbrev pub is_level : FuelKind → Bool
is_level level = true
is_level _ = false

-- The alert that the level is critical.
abbrev pub is_critical_alert : FuelEvent → Bool
is_critical_alert e = is_level e.kind && is_critical e.status

abbrev pub alerts : List FuelEvent → ℕ
alerts es = length (keep is_critical_alert es)

abbrev Silent : Outcome → Type 0
Silent r = keep is_critical_alert r.0 ≡ []

Silent-check_drop :
    (pct : ℕ) (engine : EngineState) (now : ℕ) (m : FuelMonitor)
    → Silent (check_drop pct engine now m)
unfolding check_drop compare_peak
Silent-check_drop pct engine now m = if_lem Silent (m.cfg.drop_alert_pct == 0) _ _ refl (
    if_lem Silent (m.cfg.drop_only_when_stopped && is_burning engine) _ _ refl (
      if_lem Silent (ltb (length after.history) 2) _ _ refl (
        if_lem Silent (ltb (peak_of after.history - pct) m.cfg.drop_alert_pct) _ _ refl
          (if_lem Silent (is_recent_drop now after) _ _ refl refl))))
  where
    after : FuelMonitor
    after = record m { history = sampled pct now m }

-- What a change of the status tells.
crossed_level :
    (pct now : ℕ) (m : FuelMonitor)
    → status_eq (classify m.cfg m.status pct) m.status ≡ false
    → (update_level pct now m).0 ≡ crossing m.status (classify m.cfg m.status pct) pct
unfolding update_level
crossed_level pct now m other = rw other refl

keep-update_valid :
    (pct : ℕ) (engine : EngineState) (now : ℕ) (m : FuelMonitor)
    → keep is_critical_alert (update_valid pct engine now m).0
      ≡ keep is_critical_alert (update_level pct now (record m { last_pct = some pct })).0
unfolding update_valid
keep-update_valid pct engine now m =
    let first = update_level pct now (record m { last_pct = some pct }) in
    keep-append is_critical_alert first.0 _
    ∙ ap (λ es. keep is_critical_alert first.0 ++ es) (Silent-check_drop pct engine now first.1)
    ∙ append-nil (keep is_critical_alert first.0)

crossed :
    (pct : ℕ) (engine : EngineState) (now : ℕ) (m : FuelMonitor)
    → is_applicable m ≡ true
    → is_valid m.cfg pct ≡ true
    → status_eq (classify m.cfg m.status pct) m.status ≡ false
    → keep is_critical_alert (update (some pct) engine now m).0
      ≡ keep is_critical_alert (crossing m.status (classify m.cfg m.status pct) pct)
unfolding update update_reading
crossed pct engine now m on good other =
    rw (on, good)
      (keep-update_valid pct engine now m
        ∙ ap (λ es. keep is_critical_alert es)
            (crossed_level pct now (record m { last_pct = some pct }) other))

-- A monitor whose configuration has no hysteresis, on a level that is the critical threshold.
record OnThreshold (m : FuelMonitor) : Type 0 where
  on : is_applicable m ≡ true
  good : is_valid m.cfg m.cfg.critical_pct ≡ true
  none_left : m.cfg.hysteresis_pct ≡ 0
  below : m.cfg.critical_pct < m.cfg.warn_pct

flips_up :
    (m : FuelMonitor)
    → OnThreshold m
    → m.status ≡ critical
    → classify m.cfg m.status m.cfg.critical_pct ≡ warn
unfolding classify
flips_up m h e = rw e (ground (arith, h.none_left, h.below))

flips_down :
    (m : FuelMonitor)
    → OnThreshold m
    → m.status ≡ warn
    → classify m.cfg m.status m.cfg.critical_pct ≡ critical
unfolding classify
flips_down m h e = rw e (ground arith)

-- A poll on the threshold, with what it tells and what it leaves.
record Flipped (m : FuelMonitor) (count : ℕ) (next : FuelStatus) (r : Outcome) : Type 0 where
  told : alerts r.0 ≡ count
  status : r.1.status ≡ next
  cfg : r.1.cfg ≡ m.cfg
  threshold : OnThreshold r.1

module _ (engine : EngineState) (now : ℕ) (m : FuelMonitor) (h : OnThreshold m) where
  kept_threshold :
      (next : FuelStatus)
      → Keeps m next (update (some m.cfg.critical_pct) engine now m)
      → OnThreshold (update (some m.cfg.critical_pct) engine now m).1
  kept_threshold next k = record {
    on = rw (k.cfg, k.gaseous) h.on;
    good = rw k.cfg h.good;
    none_left = rw k.cfg h.none_left;
    below = rw k.cfg h.below;
  }

  flip :
      (next : FuelStatus)
      → classify m.cfg m.status m.cfg.critical_pct ≡ next
      → status_eq next m.status ≡ false
      → Flipped m
          (alerts (crossing m.status next m.cfg.critical_pct))
          next
          (update (some m.cfg.critical_pct) engine now m)
  flip next e other = record {
    told = ap length (
        crossed m.cfg.critical_pct engine now m h.on h.good (rw e other)
        ∙ ap (λ s. keep is_critical_alert (crossing m.status s m.cfg.critical_pct)) e);
    status = k.now_status ∙ rw h.good e;
    cfg = k.cfg;
    threshold = kept_threshold _ k;
  }
    where
      k :
          Keeps m
            (status_after m.cfg m.status (some m.cfg.critical_pct))
            (update (some m.cfg.critical_pct) engine now m)
      k = update-Keeps (some m.cfg.critical_pct) engine now m h.on

abbrev pub constant : ℕ → List (EngineState × ℕ) → List FuelPoll
constant x [] = []
constant x ((engine, now) ∷ calls) =
    record { reading = some x; engine = engine; now = now } ∷ constant x calls

alerts-append : (xs ys : List FuelEvent) → alerts (xs ++ ys) ≡ alerts xs + alerts ys
alerts-append xs ys =
    ap length (keep-append is_critical_alert xs ys)
    ∙ length-append (keep is_critical_alert xs) (keep is_critical_alert ys)

told_up : (pct : ℕ) (s : FuelStatus) → s ≡ critical → alerts (crossing s warn pct) ≡ 0
unfolding crossing
told_up pct s e = rw e refl

told_down : (pct : ℕ) (s : FuelStatus) → s ≡ warn → alerts (crossing s critical pct) ≡ 1
unfolding crossing
told_down pct s e = refl

-- The alerts from a critical status, and from a low one.
abbrev Flaps : List (EngineState × ℕ) → ℕ → FuelMonitor → Type 0
Flaps calls x m =
    m.cfg.critical_pct ≡ x
    → OnThreshold m
    → (m.status ≡ critical → alerts (run (constant x calls) m).0 ≡ length calls / 2)
      × (m.status ≡ warn → alerts (run (constant x calls) m).0 ≡ (length calls + 1) / 2)

flaps_lem : (calls : List (EngineState × ℕ)) (m : FuelMonitor) (x : ℕ) → Flaps calls x m
unfolding run
flaps_lem [] m x e h = ((λ s. refl), (λ s. refl))
flaps_lem ((engine, now) ∷ calls) m x e h = (up (flaps_lem calls _ x), down (flaps_lem calls _ x))
  where
    after : Outcome
    after = update (some x) engine now m

    later : Outcome
    later = run (constant x calls) after.1

    moved :
        {count : ℕ} {next : FuelStatus}
        → Flipped m count next (update (some m.cfg.critical_pct) engine now m)
        → Flipped m count next after
    moved {count} {next} f =
        subst (λ (y : ℕ). Flipped m count next (update (some y) engine now m)) e f

    up :
        Flaps calls x after.1
        → m.status ≡ critical
        → alerts (after.0 ++ later.0) ≡ suc (length calls) / 2
    up next s =
        let f = moved (flip engine now m h warn (flips_up m h s) (rw s refl)) in
        let rest =
          (next (ap (λ (d : FuelConfig). d.critical_pct) f.cfg ∙ e) f.threshold).1 f.status in
        omega (
          arith,
          alerts-append after.0 later.0,
          f.told,
          told_up m.cfg.critical_pct m.status s,
          rest,
        )

    down :
        Flaps calls x after.1
        → m.status ≡ warn
        → alerts (after.0 ++ later.0) ≡ (suc (length calls) + 1) / 2
    down next s =
        let f = moved (flip engine now m h critical (flips_down m h s) (rw s refl)) in
        let rest =
          (next (ap (λ (d : FuelConfig). d.critical_pct) f.cfg ∙ e) f.threshold).0 f.status in
        omega (
          arith,
          alerts-append after.0 later.0,
          f.told,
          told_down m.cfg.critical_pct m.status s,
          rest,
        )

-- On a monitor that applies, without a hysteresis, whose critical threshold is a valid level below the
-- threshold of the warning: a level that stays on the critical threshold alternates between critical
-- and low. From a critical status, every second one of any number of polls sends the alarm that the
-- level is critical, whatever the engine does.
pub run-flaps :
    (calls : List (EngineState × ℕ)) (m : FuelMonitor)
    → is_applicable m ≡ true
    → is_valid m.cfg m.cfg.critical_pct ≡ true
    → m.cfg.hysteresis_pct ≡ 0
    → m.cfg.critical_pct < m.cfg.warn_pct
    → m.status ≡ critical
    → alerts (run (constant m.cfg.critical_pct calls) m).0 ≡ length calls / 2
run-flaps calls m on good none_left below s =
    (flaps_lem calls m m.cfg.critical_pct refl
        (record { on = on; good = good; none_left = none_left; below = below })).0
      s
