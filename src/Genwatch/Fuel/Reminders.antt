-- ===== src/Genwatch/Fuel/Reminders.antt =====
-- The reminders while the tank is low (`update` of GenWatch-main/backend/genwatch/services/fuel.py).
use complete_gen_project.Base.{
  ℕ, length, ◌+◌, ◌-◌, ◌<◌, ◌≡◌, ◌⊎◌, inl, inr, ◌∙◌, refl, sym, ap, subst, Bool, true, false, not,
  ◌&&◌, ◌||◌, some, List, [], ◌∷◌, ◌++◌, ltb, ◌==◌, if◌then◌else◌, if_lem, arith, Bool-cases,
}
use complete_gen_project.Genwatch.LoadSource.{EngineState}
use complete_gen_project.Genwatch.Fuel.{
  FuelStatus, ok, warn, critical, unknown, FuelEvent, FuelMonitor, is_applicable, classify,
  status_eq, is_low, crossing, remind, update_level, compare_peak, check_drop, is_valid,
  update_valid, update_reading, update, sampled, is_burning, tell, reminder, low_severity,
  is_recent_drop, is_reminder_due, peak_of,
}
use complete_gen_project.Genwatch.Fuel.Status.{
  Outcome, Keeps, update-Keeps, status_after, status_eq-eq,
}
use complete_gen_project.Genwatch.Fuel.Drops.{is_drop}

-- Some event tells of the level.
abbrev pub any_notice : List FuelEvent → Bool
any_notice [] = false
any_notice (e ∷ es) = not (is_drop e) || any_notice es

any_notice-append : (es fs : List FuelEvent) → any_notice es ≡ true → any_notice (es ++ fs) ≡ true
any_notice-append [] fs h = cc
any_notice-append (e ∷ es) fs h = ground (arith, any_notice-append es fs)

-- The last notice is recent, and it was now if it is a new one.
abbrev pub Noticed : ℕ → FuelMonitor → Outcome → Type 0
Noticed now m r =
    (now < r.1.notified_at + m.cfg.renotify_ms)
    × (((any_notice r.0 ≡ true) × (r.1.notified_at ≡ now)) ⊎ (r.1.notified_at ≡ m.notified_at))

any_notice-crossing :
    (s t : FuelStatus) (pct : ℕ)
    → is_low t ≡ true
    → status_eq t s ≡ false
    → any_notice (crossing s t pct) ≡ true
unfolding crossing
any_notice-crossing s critical pct h ne = refl
any_notice-crossing critical warn pct h ne = refl
any_notice-crossing ok warn pct h ne = refl
any_notice-crossing warn warn pct h ne = cc
any_notice-crossing unknown warn pct h ne = refl
any_notice-crossing s ok pct h ne = cc
any_notice-crossing s unknown pct h ne = cc

Noticed-remind :
    (pct now : ℕ) (m : FuelMonitor)
    → 0 < m.cfg.renotify_ms
    → is_low m.status ≡ true
    → Noticed now m (remind pct now m)
unfolding remind
Noticed-remind pct now m some_time low = go (is_reminder_due now m) refl
  where
    go :
        (b : Bool)
        → is_reminder_due now m ≡ b
        → Noticed now m (
            if b
            then (
              tell reminder (low_severity m.status) m.status m.status pct ∷ [],
              record m { notified_at = now },
            )
            else ([], m))
    go true e = (omega arith, inl (refl, refl))
    go false e = (recent e, inr refl)
      where
        recent : is_reminder_due now m ≡ false → now < m.notified_at + m.cfg.renotify_ms
        recent no_due = ground arith

Noticed-update_level :
    (pct now : ℕ) (m : FuelMonitor)
    → 0 < m.cfg.renotify_ms
    → is_low (classify m.cfg m.status pct) ≡ true
    → Noticed now m (update_level pct now m)
unfolding update_level
Noticed-update_level pct now m some_time low =
    elim (Bool-cases (status_eq (classify m.cfg m.status pct) m.status)) [
      | inl same ↦ rw same (
          Noticed-remind pct now m some_time
            (subst (λ (s : FuelStatus). is_low s ≡ true) (status_eq-eq _ _ same) low))
      | inr other ↦ rw other (
        omega arith,
        inl (any_notice-crossing m.status (classify m.cfg m.status pct) pct low other, refl),
      )
    ]

abbrev SameNotice : FuelMonitor → Outcome → Type 0
SameNotice m r = r.1.notified_at ≡ m.notified_at

check_drop-SameNotice :
    (pct : ℕ) (engine : EngineState) (now : ℕ) (m : FuelMonitor)
    → SameNotice m (check_drop pct engine now m)
unfolding check_drop compare_peak
check_drop-SameNotice pct engine now m =
    if_lem (SameNotice m) (m.cfg.drop_alert_pct == 0) _ _ refl (
      if_lem (SameNotice m) (m.cfg.drop_only_when_stopped && is_burning engine) _ _ refl (
        if_lem (SameNotice m) (ltb (length after.history) 2) _ _ refl (
          if_lem (SameNotice m) (ltb (peak_of after.history - pct) m.cfg.drop_alert_pct) _ _ refl
            (if_lem (SameNotice m) (is_recent_drop now after) _ _ refl refl))))
  where
    after : FuelMonitor
    after = record m { history = sampled pct now m }

Noticed-update_valid :
    (pct : ℕ) (engine : EngineState) (now : ℕ) (m : FuelMonitor)
    → 0 < m.cfg.renotify_ms
    → is_low (classify m.cfg m.status pct) ≡ true
    → Noticed now m (update_valid pct engine now m)
unfolding update_valid
Noticed-update_valid pct engine now m some_time low = (
  rw same at_level.0,
  elim at_level.1 [
    | inl (told, at) ↦ inl (any_notice-append first.0 _ told, same ∙ at)
    | inr kept ↦ inr (same ∙ kept)
  ],
)
  where
    first : Outcome
    first = update_level pct now (record m { last_pct = some pct })

    at_level : Noticed now (record m { last_pct = some pct }) first
    at_level = Noticed-update_level pct now (record m { last_pct = some pct }) some_time low

    same : SameNotice first.1 (check_drop pct engine now first.1)
    same = check_drop-SameNotice pct engine now first.1

-- Where reminders are configured: after every poll that read a valid level and found the tank low, the
-- last notice on the level is less than the time of the reminders old, and the time of the last notice
-- moves only with a notice, to the time of the poll.
pub update-Noticed :
    (pct : ℕ) (engine : EngineState) (now : ℕ) (m : FuelMonitor)
    → is_applicable m ≡ true
    → is_valid m.cfg pct ≡ true
    → 0 < m.cfg.renotify_ms
    → is_low (update (some pct) engine now m).1.status ≡ true
    → Noticed now m (update (some pct) engine now m)
unfolding update update_reading
update-Noticed pct engine now m on good some_time low =
    rw (on, good) (Noticed-update_valid pct engine now m some_time found)
  where
    k : Keeps m (status_after m.cfg m.status (some pct)) (update (some pct) engine now m)
    k = update-Keeps (some pct) engine now m on

    counts : status_after m.cfg m.status (some pct) ≡ classify m.cfg m.status pct
    counts = rw good refl

    found : is_low (classify m.cfg m.status pct) ≡ true
    found = ap is_low (sym (k.now_status ∙ counts)) ∙ low
