-- ===== src/Genwatch/Fuel/Burning.antt =====
-- The alerts on a drop after the engine has burned fuel (`_check_drop` of
-- GenWatch-main/backend/genwatch/services/fuel.py).
use complete_gen_project.Base.{
  ℕ, ◌+◌, ◌-◌, ◌≤◌, ◌≡◌, inl, inr, ◌∙◌, refl, sym, subst, true, false, ◌&&◌, Option, none, some,
  List, [], ◌∷◌, ltb, leb, ◌==◌, if◌then◌else◌, if_lem, arith, length, All, All-append, Bool-cases,
}
use complete_gen_project.Genwatch.LoadSource.{EngineState}
use complete_gen_project.Genwatch.Fuel.{
  FuelConfig, FuelEvent, FuelMonitor, FuelPoll, Sample, is_applicable, classify, update_level,
  compare_peak, check_drop, is_valid, update_valid, update_reading, update, run, sampled,
  is_burning, is_recent_drop, peak_of, evict_samples, drop_first, max_samples, window_ms,
}
use complete_gen_project.Genwatch.Fuel.Status.{
  Outcome, Keeps, update-Keeps, Keeps-update_level, levels, status_after,
}
use complete_gen_project.Genwatch.Fuel.Drops.{is_drop, Passes, Passes-update_level}

-- The samples are at most `b`, and no drop that was told starts above `b`.
abbrev Below : ℕ → List Sample → Type 0
Below b xs = All (λ (x : Sample). x.pct ≤ b) xs

abbrev pub StartsBelow : ℕ → List FuelEvent → Type 0
StartsBelow b es = All (λ (e : FuelEvent). is_drop e ≡ true → e.pct + e.dropped_pct ≤ b) es

abbrev Bounded : ℕ → Outcome → Type 0
Bounded b r = StartsBelow b r.0 × Below b r.1.history

Below-evict :
    (b window now : ℕ) (xs : List Sample) → Below b xs → Below b (evict_samples window now xs)
Below-evict b window now [] h = tt
Below-evict b window now (x ∷ xs) h =
    if_lem (Below b) (ltb (x.ts + window) now) _ _ (Below-evict b window now xs h.1) h

Below-drop_first : (b : ℕ) (xs : List Sample) → Below b xs → Below b (drop_first xs)
Below-drop_first b [] h = tt
Below-drop_first b (x ∷ xs) h = h.1

Below-sampled :
    (b pct now : ℕ) (m : FuelMonitor) → pct ≤ b → Below b m.history → Below b (sampled pct now m)
Below-sampled b pct now m le h = Below-evict b (window_ms m.cfg) now _ (
    All-append (λ (x : Sample). x.pct ≤ b) _ _
      (if_lem (Below b) (leb max_samples (length m.history)) _ _ (Below-drop_first b m.history h) h)
      (le, tt))

peak_of-Below : (b : ℕ) (xs : List Sample) → Below b xs → peak_of xs ≤ b
peak_of-Below b [] h = omega arith
peak_of-Below b (x ∷ xs) h = omega (arith, h.0, peak_of-Below b xs h.1)

Bounded-compare_peak :
    (b pct now : ℕ) (m : FuelMonitor)
    → pct ≤ b
    → Below b m.history
    → Bounded b (compare_peak pct now m)
unfolding compare_peak
Bounded-compare_peak b pct now m le h =
    if_lem (Bounded b) (ltb (length m.history) 2) _ _ (tt, h)
      (if_lem (Bounded b) (ltb (peak_of m.history - pct) m.cfg.drop_alert_pct) _ _ (tt, h)
        (if_lem (Bounded b) (is_recent_drop now m) _ _ (tt, h)
          (((λ e. omega (arith, le, peak_of-Below b m.history h)), tt), h)))

Bounded-check_drop :
    (b pct : ℕ) (engine : EngineState) (now : ℕ) (m : FuelMonitor)
    → pct ≤ b
    → Below b m.history
    → Bounded b (check_drop pct engine now m)
unfolding check_drop
Bounded-check_drop b pct engine now m le h =
    if_lem (Bounded b) (m.cfg.drop_alert_pct == 0) _ _ (tt, h)
      (if_lem (Bounded b) (m.cfg.drop_only_when_stopped && is_burning engine) _ _ (tt, (le, tt))
        (Bounded-compare_peak b pct now (record m { history = sampled pct now m }) le
          (Below-sampled b pct now m le h)))

StartsBelow-told :
    (b : ℕ) (es : List FuelEvent) → All (λ (e : FuelEvent). is_drop e ≡ false) es → StartsBelow b es
StartsBelow-told b [] h = tt
StartsBelow-told b (e ∷ es) h = ((λ yes_drop. ground arith), StartsBelow-told b es h.1)

-- A reading that counts is at most `b`.
abbrev Fits : FuelConfig → ℕ → Option ℕ → Type 0
Fits c b none = Unit
Fits c b (some x) = is_valid c x ≡ true → x ≤ b

Bounded-update_valid :
    (b pct : ℕ) (engine : EngineState) (now : ℕ) (m : FuelMonitor)
    → pct ≤ b
    → Below b m.history
    → Bounded b (update_valid pct engine now m)
unfolding update_valid
Bounded-update_valid b pct engine now m le h =
    (All-append _ first.0 _ (StartsBelow-told b first.0 p.told) drops.0, drops.1)
  where
    first : Outcome
    first = update_level pct now (record m { last_pct = some pct })

    p : Passes (record m { last_pct = some pct }) first
    p = Passes-update_level pct now (record m { last_pct = some pct })

    drops : Bounded b (check_drop pct engine now first.1)
    drops = Bounded-check_drop b pct engine now first.1 le (rw p.history h)

Bounded-update :
    (b : ℕ) (reading : Option ℕ) (engine : EngineState) (now : ℕ) (m : FuelMonitor)
    → Fits m.cfg b reading
    → Below b m.history
    → Bounded b (update reading engine now m)
unfolding update update_reading
Bounded-update b none engine now m fits h = if_lem (Bounded b) (is_applicable m) _ _ (tt, h) (tt, h)
Bounded-update b (some pct) engine now m fits h = elim (Bool-cases (is_valid m.cfg pct)) [
  | inl good ↦
      if_lem (Bounded b) (is_applicable m) _ _
        (rw good (Bounded-update_valid b pct engine now m (fits good) h)) (tt, h)
  | inr bad ↦ if_lem (Bounded b) (is_applicable m) _ _ (rw bad (tt, h)) (tt, h)
]

Fits-levels :
    (c : FuelConfig) (b : ℕ) (reading : Option ℕ) (rest : List ℕ)
    → All
        (λ x. x ≤ b)
        (elim reading [ none ↦ rest | some x ↦ (if is_valid c x then x ∷ rest else rest) ])
    → Fits c b reading × All (λ x. x ≤ b) rest
Fits-levels c b none rest h = (tt, h)
Fits-levels c b (some x) rest h =
    elim (is_valid c x)
        as (λ v.
          All (λ y. y ≤ b) (if v then x ∷ rest else rest)
          → (v ≡ true → x ≤ b) × All (λ y. y ≤ b) rest) [
            | true ↦ (λ k. ((λ e. k.0), k.1))
            | false ↦ (λ k. ((λ e. cc), k))
          ]
      h

run-StartsBelow :
    (ps : List FuelPoll) (m : FuelMonitor) (c : FuelConfig) (b : ℕ)
    → m.cfg ≡ c
    → is_applicable m ≡ true
    → Below b m.history
    → All (λ x. x ≤ b) (levels c ps)
    → StartsBelow b (run ps m).0
unfolding run
run-StartsBelow [] m c b e on h all = tt
run-StartsBelow (p ∷ ps) m c b e on h all = All-append _ _ _ first.0 (
    run-StartsBelow ps (update p.reading p.engine p.now m).1 c b (k.cfg ∙ e)
      (rw (k.cfg, k.gaseous) on) first.1 split.1)
  where
    split : Fits c b p.reading × All (λ x. x ≤ b) (levels c ps)
    split = Fits-levels c b p.reading (levels c ps) all

    first : Bounded b (update p.reading p.engine p.now m)
    first =
        Bounded-update b p.reading p.engine p.now m
          (subst (λ (d : FuelConfig). Fits d b p.reading) (sym e) split.0) h

    k : Keeps m (status_after m.cfg m.status p.reading) (update p.reading p.engine p.now m)
    k = update-Keeps p.reading p.engine p.now m on

check_drop-burning :
    (pct : ℕ) (engine : EngineState) (now : ℕ) (m : FuelMonitor)
    → (m.cfg.drop_alert_pct == 0) ≡ false
    → m.cfg.drop_only_when_stopped ≡ true
    → is_burning engine ≡ true
    → (check_drop pct engine now m).1.history ≡ record { ts = now; pct = pct } ∷ []
unfolding check_drop
check_drop-burning pct engine now m some_alert only burns = rw (some_alert, only, burns) refl

update-burning :
    (pct : ℕ) (engine : EngineState) (now : ℕ) (m : FuelMonitor)
    → is_applicable m ≡ true
    → is_valid m.cfg pct ≡ true
    → (m.cfg.drop_alert_pct == 0) ≡ false
    → m.cfg.drop_only_when_stopped ≡ true
    → is_burning engine ≡ true
    → (update (some pct) engine now m).1.history ≡ record { ts = now; pct = pct } ∷ []
unfolding update update_reading update_valid
update-burning pct engine now m on good some_alert only burns =
    rw (on, good)
      (check_drop-burning pct engine now (update_level pct now read).1 (rw k.cfg some_alert)
        (rw k.cfg only) burns)
  where
    read : FuelMonitor
    read = record m { last_pct = some pct }

    k : Keeps read (classify m.cfg m.status pct) (update_level pct now read)
    k = Keeps-update_level pct now read

-- Where drops count only while the engine is stopped: after a poll that read a valid level while the
-- engine burns fuel, no alert compares with a level from before it. Every alert on a drop that later
-- polls send starts at most at `b`, for any `b` that is not below that level and the valid levels of the
-- later polls.
pub run-after_burning :
    (pct : ℕ) (engine : EngineState) (now : ℕ) (m : FuelMonitor) (ps : List FuelPoll) (b : ℕ)
    → is_applicable m ≡ true
    → is_valid m.cfg pct ≡ true
    → (m.cfg.drop_alert_pct == 0) ≡ false
    → m.cfg.drop_only_when_stopped ≡ true
    → is_burning engine ≡ true
    → pct ≤ b
    → All (λ x. x ≤ b) (levels m.cfg ps)
    → StartsBelow b (run ps (update (some pct) engine now m).1).0
run-after_burning pct engine now m ps b on good some_alert only burns le all =
    run-StartsBelow ps (update (some pct) engine now m).1 m.cfg b k.cfg (rw (k.cfg, k.gaseous) on)
      (rw (update-burning pct engine now m on good some_alert only burns) (le, tt)) all
  where
    k : Keeps m (status_after m.cfg m.status (some pct)) (update (some pct) engine now m)
    k = update-Keeps (some pct) engine now m on
