-- ===== src/Genwatch/Fuel/Drops.antt =====
-- The alerts on an abnormal drop (`_check_drop` of GenWatch-main/backend/genwatch/services/fuel.py).
use complete_gen_project.Base.{
  ℕ, ◌+◌, ◌-◌, ◌≤◌, ◌≡◌, ◌⊎◌, inl, inr, ◌∙◌, refl, sym, subst, Bool, true, false, ◌&&◌, ◌||◌,
  Option, none, some, List, [], ◌∷◌, ◌++◌, ltb, ◌==◌, if◌then◌else◌, if_lem, arith, length, All,
}
use complete_gen_project.Genwatch.LoadSource.{EngineState}
use complete_gen_project.Genwatch.Fuel.{
  FuelStatus, ok, warn, critical, unknown, drop, FuelConfig, FuelEvent, FuelMonitor, FuelPoll,
  is_applicable, classify, status_eq, crossing, remind, update_level, compare_peak, check_drop,
  is_valid, update_valid, update_reading, update, sampled, is_burning, is_recent_drop,
  is_reminder_due, peak_of, drop_event, window_ms,
}
use complete_gen_project.Genwatch.Fuel.Status.{
  Outcome, Keeps, update-Keeps, Keeps-update_level, status_after,
}

abbrev pub is_drop : FuelEvent → Bool
is_drop e = elim e.kind [ drop ↦ true | _ ↦ false ]

-- A step that tells of no drop and leaves what the detector keeps.
pub record Passes (m : FuelMonitor) (r : Outcome) : Type 0 where
  pub told : All (λ (e : FuelEvent). is_drop e ≡ false) r.0
  pub last : r.1.last_drop_at ≡ m.last_drop_at
  pub history : r.1.history ≡ m.history

crossing-told :
    (s t : FuelStatus) (pct : ℕ) → All (λ (e : FuelEvent). is_drop e ≡ false) (crossing s t pct)
unfolding crossing
crossing-told s critical pct = (refl, tt)
crossing-told critical warn pct = (refl, tt)
crossing-told ok warn pct = (refl, tt)
crossing-told warn warn pct = (refl, tt)
crossing-told unknown warn pct = (refl, tt)
crossing-told warn ok pct = (refl, tt)
crossing-told critical ok pct = (refl, tt)
crossing-told ok ok pct = tt
crossing-told unknown ok pct = tt
crossing-told s unknown pct = tt

pub Passes-update_level : (pct now : ℕ) (m : FuelMonitor) → Passes m (update_level pct now m)
unfolding update_level remind
Passes-update_level pct now m =
    if_lem (Passes m) (status_eq (classify m.cfg m.status pct) m.status) _ _
      (if_lem (Passes m) (is_reminder_due now m) _ _
        (record { told = (refl, tt); last = refl; history = refl })
        (record { told = tt; last = refl; history = refl }))
      (record {
        told = crossing-told m.status (classify m.cfg m.status pct) pct;
        last = refl;
        history = refl;
      })

abbrev pub any_drop : List FuelEvent → Bool
any_drop [] = false
any_drop (e ∷ es) = is_drop e || any_drop es

any_drop-told :
    (es fs : List FuelEvent)
    → All (λ (e : FuelEvent). is_drop e ≡ false) es
    → any_drop (es ++ fs) ≡ any_drop fs
any_drop-told [] fs h = refl
any_drop-told (e ∷ es) fs h = rw h.0 (any_drop-told es fs h.1)

-- A poll at `now`: it tells of no drop, or of one, when the one before is not recent.
abbrev Alerted : ℕ → FuelMonitor → Outcome → Type 0
Alerted now m r =
    ((any_drop r.0 ≡ false) × (r.1.last_drop_at ≡ m.last_drop_at))
    ⊎ ((any_drop r.0 ≡ true) × (r.1.last_drop_at ≡ now) × (is_recent_drop now m ≡ false))

calm : (now : ℕ) (m : FuelMonitor) → Alerted now m ([], m)
calm now m = inl (refl, refl)

due_lem :
    (now : ℕ) (m : FuelMonitor) (e : FuelEvent) (b : Bool)
    → is_drop e ≡ true
    → is_recent_drop now m ≡ b
    → Alerted now m (if b then ([], m) else (e ∷ [], record m { last_drop_at = now }))
due_lem now m e true h r = calm now m
due_lem now m e false h r = inr (rw h refl, refl, r)

Alerted-compare_peak : (pct now : ℕ) (m : FuelMonitor) → Alerted now m (compare_peak pct now m)
unfolding compare_peak
Alerted-compare_peak pct now m =
    if_lem (Alerted now m) (ltb (length m.history) 2) _ _ (calm now m) (
      if_lem (Alerted now m) (ltb (peak_of m.history - pct) m.cfg.drop_alert_pct) _ _ (calm now m)
        (due_lem now m (drop_event pct m) (is_recent_drop now m) refl refl))

Alerted-check_drop :
    (pct : ℕ) (engine : EngineState) (now : ℕ) (m : FuelMonitor)
    → Alerted now m (check_drop pct engine now m)
unfolding check_drop
Alerted-check_drop pct engine now m =
    if_lem (Alerted now m) (m.cfg.drop_alert_pct == 0) _ _ (calm now m) (
      if_lem (Alerted now m) (m.cfg.drop_only_when_stopped && is_burning engine) _ _
        (inl (refl, refl))
        (Alerted-compare_peak pct now (record m { history = sampled pct now m })))

is_recent_drop-eq :
    (now : ℕ) (m m' : FuelMonitor)
    → m'.last_drop_at ≡ m.last_drop_at
    → m'.cfg ≡ m.cfg
    → is_recent_drop now m' ≡ is_recent_drop now m
is_recent_drop-eq now m m' e f = rw (e, f) refl

Alerted-update_valid :
    (pct : ℕ) (engine : EngineState) (now : ℕ) (m : FuelMonitor)
    → Alerted now m (update_valid pct engine now m)
unfolding update_valid
Alerted-update_valid pct engine now m = elim (Alerted-check_drop pct engine now first.1) [
  | inl (none_told, same) ↦ inl (any_drop-told first.0 _ p.told ∙ none_told, same ∙ p.last)
  | inr (told, at, free) ↦ inr (
    any_drop-told first.0 _ p.told ∙ told,
    at,
    sym (is_recent_drop-eq now m first.1 p.last k.cfg) ∙ free,
  )
]
  where
    read : FuelMonitor
    read = record m { last_pct = some pct }

    first : Outcome
    first = update_level pct now read

    p : Passes read first
    p = Passes-update_level pct now read

    k : Keeps read (classify m.cfg m.status pct) first
    k = Keeps-update_level pct now read

Alerted-update :
    (reading : Option ℕ) (engine : EngineState) (now : ℕ) (m : FuelMonitor)
    → Alerted now m (update reading engine now m)
unfolding update update_reading
Alerted-update none engine now m =
    if_lem (Alerted now m) (is_applicable m) _ _ (calm now m) (calm now m)
Alerted-update (some pct) engine now m =
    if_lem (Alerted now m) (is_applicable m) _ _
      (if_lem (Alerted now m) (is_valid m.cfg pct) _ _ (Alerted-update_valid pct engine now m)
        (calm now m))
      (calm now m)

-- The times of the polls that told of a drop.
abbrev pub drop_times : List FuelPoll → FuelMonitor → List ℕ
drop_times [] m = []
drop_times (p ∷ ps) m =
    let r = update p.reading p.engine p.now m in
    let rest = drop_times ps r.1 in if any_drop r.0 then p.now ∷ rest else rest

-- Each time is a gap after the one before, and the first one after `last`, where 0 is no time.
abbrev pub IsSpaced : ℕ → ℕ → List ℕ → Type 0
IsSpaced gap last [] = Unit
IsSpaced gap last (t ∷ ts) = ((last ≡ 0) ⊎ (last + gap ≤ t)) × IsSpaced gap t ts

due_gap :
    (now : ℕ) (m : FuelMonitor)
    → is_recent_drop now m ≡ false
    → (m.last_drop_at ≡ 0) ⊎ (m.last_drop_at + window_ms m.cfg ≤ now)
due_gap now m h = ground arith

IsSpaced-step :
    (now : ℕ) (m : FuelMonitor) (r : Outcome) (ts : List ℕ)
    → Alerted now m r
    → r.1.cfg ≡ m.cfg
    → IsSpaced (window_ms r.1.cfg) r.1.last_drop_at ts
    → IsSpaced (window_ms m.cfg) m.last_drop_at (if any_drop r.0 then now ∷ ts else ts)
IsSpaced-step now m r ts (inl (none_told, same)) e h = rw none_told (
    subst (λ (l : ℕ). IsSpaced (window_ms m.cfg) l ts) same
      (subst (λ (c : FuelConfig). IsSpaced (window_ms c) r.1.last_drop_at ts) e h))
IsSpaced-step now m r ts (inr (told, at, free)) e h = rw told (
  due_gap now m free,
  subst (λ (l : ℕ). IsSpaced (window_ms m.cfg) l ts) at
      (subst (λ (c : FuelConfig). IsSpaced (window_ms c) r.1.last_drop_at ts) e h),
)

-- The alerts on a drop are at least one window apart, whatever is read, and so is the first one from the
-- alert that the monitor remembers; the time 0 stands for no alert.
run-drop_times :
    (ps : List FuelPoll) (m : FuelMonitor)
    → is_applicable m ≡ true
    → IsSpaced (window_ms m.cfg) m.last_drop_at (drop_times ps m)
run-drop_times [] m on = tt
run-drop_times (p ∷ ps) m on =
    IsSpaced-step p.now m r _ (Alerted-update p.reading p.engine p.now m) k.cfg
      (run-drop_times ps r.1 (rw (k.cfg, k.gaseous) on))
  where
    r : Outcome
    r = update p.reading p.engine p.now m

    k : Keeps m (status_after m.cfg m.status p.reading) r
    k = update-Keeps p.reading p.engine p.now m on
