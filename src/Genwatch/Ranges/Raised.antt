-- ===== src/Genwatch/Ranges/Raised.antt =====
-- Which registers are raised (`_check_numeric_ranges` of
-- GenWatch-main/backend/genwatch/services/state.py).
use complete_gen_project.Base.{
  ℕ, ◌+◌, ◌≡◌, ◌∙◌, refl, ap, not, ◌&&◌, ◌||◌, List, [], ◌∷◌, ltb, leb, ◌==◌, if◌then◌else◌, if_lem,
  arith,
}
use complete_gen_project.Base.Dicts.{Dict, lookup, insert, remove, lookup-insert, lookup-remove}
use complete_gen_project.Genwatch.Ranges.{
  Band, RangedRegister, RangePoll, RangeState, min_polls, is_in, count_ranges, raise_one,
  raise_ranges, clear_one, clear_ranges, counted, check_active, active_now, check_numeric_ranges,
  run_ranges,
}

is_in-insert :
    (k c : ℕ) (b : Band) (d : Dict Band) → is_in c (insert k b d) ≡ ((k == c) || is_in c d)
unfolding is_in
is_in-insert k c b d = ground (arith, lookup-insert k c b d)

is_in-remove : (k c : ℕ) (d : Dict Band) → is_in c (remove k d) ≡ (not (k == c) && is_in c d)
unfolding is_in
is_in-remove k c d = ground (arith, lookup-remove k c d)

is_in-cons : (c k : ℕ) (b : Band) (d : Dict Band) → is_in c ((k, b) ∷ d) ≡ ((k == c) || is_in c d)
unfolding is_in lookup
is_in-cons c k b d = ground arith

is_in-raise_one :
    (counts : ℕ → ℕ) (c k : ℕ) (b : Band) (s : RangeState)
    → is_in c (raise_one counts k b s).raised
      ≡ (is_in c s.raised || ((k == c) && leb min_polls (counts c)))
unfolding raise_one
is_in-raise_one counts c k b s =
    grind (arith, is_in-insert k c b s.raised, ap (λ j. is_in j s.raised), ap counts)

is_in-raise_ranges :
    (counts : ℕ → ℕ) (c : ℕ) (active : Dict Band) (s : RangeState)
    → is_in c (raise_ranges counts active s).raised
      ≡ (is_in c s.raised || (is_in c active && leb min_polls (counts c)))
unfolding raise_ranges
is_in-raise_ranges counts c [] s = ground arith
is_in-raise_ranges counts c ((k, b) ∷ active) s = ground (
  arith,
  is_in-raise_ranges counts c active (raise_one counts k b s),
  is_in-raise_one counts c k b s,
  is_in-cons c k b active,
)

is_in-clear_one :
    (active : Dict Band) (c k : ℕ) (s : RangeState)
    → is_in c (clear_one active k s).raised ≡ (is_in c s.raised && (is_in c active || not (k == c)))
unfolding clear_one
is_in-clear_one active c k s = grind (arith, is_in-remove k c s.raised, ap (λ j. is_in j active))

is_in-clear_ranges :
    (active : Dict Band) (c : ℕ) (before : Dict Band) (s : RangeState)
    → is_in c (clear_ranges active before s).raised
      ≡ (is_in c s.raised && (is_in c active || not (is_in c before)))
unfolding clear_ranges
is_in-clear_ranges active c [] s = ground arith
is_in-clear_ranges active c ((k, b) ∷ before) s = ground (
  arith,
  is_in-clear_ranges active c before (clear_one active k s),
  is_in-clear_one active c k s,
  is_in-cons c k b before,
)

abbrev SameCounts : RangeState → RangeState → Type 0
SameCounts s s' = s'.poll_counts ≡ s.poll_counts

raise_ranges-SameCounts :
    (counts : ℕ → ℕ) (active : Dict Band) (s : RangeState)
    → SameCounts s (raise_ranges counts active s)
unfolding raise_ranges raise_one
raise_ranges-SameCounts counts [] s = refl
raise_ranges-SameCounts counts ((k, b) ∷ active) s =
    raise_ranges-SameCounts counts active (raise_one counts k b s)
    ∙ if_lem (SameCounts s) (ltb (counts k) min_polls || is_in k s.raised) _ _ refl refl

clear_ranges-SameCounts :
    (active : Dict Band) (before : Dict Band) (s : RangeState)
    → SameCounts s (clear_ranges active before s)
unfolding clear_ranges clear_one
clear_ranges-SameCounts active [] s = refl
clear_ranges-SameCounts active ((k, b) ∷ before) s =
    clear_ranges-SameCounts active before (clear_one active k s)
    ∙ if_lem (SameCounts s) (is_in k active) _ _ refl refl

abbrev pub IsSynced : ℕ → RangeState → Type 0
IsSynced c s = is_in c s.raised ≡ leb min_polls (s.poll_counts c)

IsSynced-check_active :
    (c : ℕ) (active : Dict Band) (s : RangeState)
    → IsSynced c s
    → IsSynced c (check_active active s)
unfolding check_active
IsSynced-check_active c active s h = go (ap (λ (f : ℕ → ℕ). f c) same)
  where
    counts : ℕ → ℕ
    counts = count_ranges active s.poll_counts

    after : RangeState
    after = raise_ranges counts active (counted active s)

    same : (clear_ranges active after.raised after).poll_counts ≡ counts
    same =
        clear_ranges-SameCounts active after.raised after
        ∙ raise_ranges-SameCounts counts active (counted active s)

    go :
        (clear_ranges active after.raised after).poll_counts c ≡ counts c
        → IsSynced c (clear_ranges active after.raised after)
    go e = ground (
      arith,
      is_in-clear_ranges active c after.raised after,
      is_in-raise_ranges counts c active (counted active s),
      h,
      e,
    )

-- How many of the last polls in a row had the code out of range, on top of `n` before them.
abbrev pub in_a_row : List RangedRegister → ℕ → ℕ → List RangePoll → ℕ
in_a_row rs c n [] = n
in_a_row rs c n (p ∷ ps) =
    in_a_row rs c (if is_in c (active_now rs p.engine p.values) then n + 1 else 0) ps

counts_lem :
    (rs : List RangedRegister) (ps : List RangePoll) (s : RangeState) (c : ℕ)
    → (run_ranges rs ps s).poll_counts c ≡ in_a_row rs c (s.poll_counts c) ps
unfolding run_ranges check_numeric_ranges check_active
counts_lem rs [] s c = refl
counts_lem rs (p ∷ ps) s c =
    counts_lem rs ps (check_numeric_ranges rs p s) c
    ∙ ap (λ (n : ℕ). in_a_row rs c n ps)
        (ap (λ (f : ℕ → ℕ). f c)
          (clear_ranges-SameCounts active after.raised after
            ∙ raise_ranges-SameCounts (count_ranges active s.poll_counts) active
                (counted active s)))
  where
    active : Dict Band
    active = active_now rs p.engine p.values

    after : RangeState
    after = raise_ranges (count_ranges active s.poll_counts) active (counted active s)

IsSynced-run_ranges :
    (rs : List RangedRegister) (ps : List RangePoll) (s : RangeState) (c : ℕ)
    → IsSynced c s
    → IsSynced c (run_ranges rs ps s)
unfolding run_ranges check_numeric_ranges
IsSynced-run_ranges rs [] s c h = h
IsSynced-run_ranges rs (p ∷ ps) s c h =
    IsSynced-run_ranges rs ps (check_numeric_ranges rs p s) c
      (IsSynced-check_active c (active_now rs p.engine p.values) s h)

-- Where a code is raised exactly if its count has reached three polls, as in a new state machine, that
-- stays so: after any polls the code is raised exactly if at least three polls in a row, up to the last
-- one and with those counted before, had its register out of range while the engine produced.
pub run_ranges-raised :
    (rs : List RangedRegister) (ps : List RangePoll) (s : RangeState) (c : ℕ)
    → is_in c s.raised ≡ leb min_polls (s.poll_counts c)
    → is_in c (run_ranges rs ps s).raised ≡ leb 3 (in_a_row rs c (s.poll_counts c) ps)
run_ranges-raised rs ps s c h = IsSynced-run_ranges rs ps s c h ∙ ap (leb 3) (counts_lem rs ps s c)
