-- ===== src/Genwatch/Ranges/Severity.antt =====
-- A range alarm keeps the severity that it was raised with (`_check_numeric_ranges` of
-- GenWatch-main/backend/genwatch/services/state.py).
use complete_gen_project.Base.{
  ℕ, ◌≡◌, ◌∙◌, refl, ap, Bool, true, false, ◌||◌, some, List, [], ◌∷◌, ltb, ◌==◌, if◌then◌else◌,
  if_lem, arith, keep, All, Bool-cases, inl, inr, ==_iff,
}
use complete_gen_project.Base.Dicts.{Dict, lookup, lookup-insert, lookup-remove}
use complete_gen_project.Genwatch.Ranges.{
  Band, RangedRegister, RangePoll, RangeState, RangeEvent, range_raised, range_cleared, min_polls,
  is_set, is_in, count_ranges, raise_one, raise_ranges, clear_one, clear_ranges, counted,
  check_active, active_now, check_numeric_ranges, run_ranges,
}

abbrev pub is_about : ℕ → RangeEvent → Bool
is_about c (range_raised k b) = k == c
is_about c (range_cleared k) = k == c

if_true {ℓ κ} :
    {A : Type ℓ} (P : A → Type κ) (b : Bool) (x y : A) → b ≡ true → P x → P (if b then x else y)
if_true P true x y e h = h
if_true P false x y e h = cc

-- The code is raised with the band, and these are the events about it.
abbrev Stands : ℕ → Band → List RangeEvent → RangeState → Type 0
Stands c band es s = (lookup c s.raised ≡ some band) × (keep (is_about c) s.emitted ≡ es)

Stands-raise_one :
    (counts : ℕ → ℕ) (c k : ℕ) (b band : Band) (es : List RangeEvent) (s : RangeState)
    → Stands c band es s
    → Stands c band es (raise_one counts k b s)
unfolding raise_one is_in
Stands-raise_one counts c k b band es s h = elim (Bool-cases (k == c)) [
  | inl same ↦
      if_true (Stands c band es) (ltb (counts k) min_polls || is_set (lookup k s.raised)) _ _
        (ground (arith, h.0, ap (λ (j : ℕ). is_set (lookup j s.raised)) ((==_iff k c).0 same))) h
  | inr other ↦
      if_lem (Stands c band es) (ltb (counts k) min_polls || is_set (lookup k s.raised)) _ _ h (
        ground (arith, lookup-insert k c b s.raised, h.0),
        if_lem (λ (out : List RangeEvent). keep (is_about c) out ≡ es) (s.rows k) _ _ h.1
            (rw (other, keep) h.1),
      )
]

Stands-raise_ranges :
    (counts : ℕ → ℕ) (c : ℕ) (band : Band) (es : List RangeEvent) (active : Dict Band)
    (s : RangeState)
    → Stands c band es s
    → Stands c band es (raise_ranges counts active s)
unfolding raise_ranges
Stands-raise_ranges counts c band es [] s h = h
Stands-raise_ranges counts c band es ((k, b) ∷ active) s h =
    Stands-raise_ranges counts c band es active (raise_one counts k b s)
      (Stands-raise_one counts c k b band es s h)

Stands-clear_one :
    (active : Dict Band) (c k : ℕ) (band : Band) (es : List RangeEvent) (s : RangeState)
    → is_in c active ≡ true
    → Stands c band es s
    → Stands c band es (clear_one active k s)
unfolding clear_one
Stands-clear_one active c k band es s out h = elim (Bool-cases (k == c)) [
  | inl same ↦
      if_true (Stands c band es) (is_in k active) _ _
        (ap (λ (j : ℕ). is_in j active) ((==_iff k c).0 same) ∙ out) h
  | inr other ↦ if_lem (Stands c band es) (is_in k active) _ _ h (
    ground (arith, lookup-remove k c s.raised, h.0),
    if_lem (λ (l : List RangeEvent). keep (is_about c) l ≡ es) (s.rows k) _ _ (rw (other, keep) h.1)
        h.1,
  )
]

Stands-clear_ranges :
    (active : Dict Band) (c : ℕ) (band : Band) (es : List RangeEvent) (before : Dict Band)
    (s : RangeState)
    → is_in c active ≡ true
    → Stands c band es s
    → Stands c band es (clear_ranges active before s)
unfolding clear_ranges
Stands-clear_ranges active c band es [] s out h = h
Stands-clear_ranges active c band es ((k, b) ∷ before) s out h =
    Stands-clear_ranges active c band es before (clear_one active k s) out
      (Stands-clear_one active c k band es s out h)

-- The register of the code is out of one of its ranges in every poll.
abbrev pub AllOut : List RangedRegister → ℕ → List RangePoll → Type 0
AllOut rs c ps = All (λ (p : RangePoll). is_in c (active_now rs p.engine p.values) ≡ true) ps

-- A code that is raised with a severity keeps it for as long as every poll has its register out of a
-- range, whichever one, and no event about it is sent: a reading that goes on from the warning range
-- into the alarm range stays a warning.
pub run_ranges-severity :
    (rs : List RangedRegister) (ps : List RangePoll) (s : RangeState) (c : ℕ) (band : Band)
    → lookup c s.raised ≡ some band
    → AllOut rs c ps
    → (lookup c (run_ranges rs ps s).raised ≡ some band)
      × (keep (is_about c) (run_ranges rs ps s).emitted ≡ keep (is_about c) s.emitted)
unfolding run_ranges check_numeric_ranges check_active
run_ranges-severity rs [] s c band h out = (h, refl)
run_ranges-severity rs (p ∷ ps) s c band h out =
    let rest = run_ranges-severity rs ps (check_numeric_ranges rs p s) c band first.0 out.1 in
    (rest.0, rest.1 ∙ first.1)
  where
    active : Dict Band
    active = active_now rs p.engine p.values

    after : RangeState
    after = raise_ranges (count_ranges active s.poll_counts) active (counted active s)

    first : Stands c band (keep (is_about c) s.emitted) (clear_ranges active after.raised after)
    first =
        Stands-clear_ranges active c band (keep (is_about c) s.emitted) after.raised after out.0 (
          Stands-raise_ranges (count_ranges active s.poll_counts) c band
            (keep (is_about c) s.emitted) active (counted active s) (h, refl))
