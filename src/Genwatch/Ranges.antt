-- ===== src/Genwatch/Ranges.antt =====
-- The alarms on registers that leave their range (`_check_numeric_ranges` of
-- GenWatch-main/backend/genwatch/services/state.py, with the alarm rows of db.py). Readings and bounds are
-- numbers that are not negative, an alarm code stands for the name of its register, and a call of the
-- database that fails is left out.
pub mod Raised
pub mod Severity
use complete_gen_project.Base.{
  ℕ, ◌+◌, Bool, true, false, not, ◌&&◌, ◌||◌, Option, none, some, List, [], ◌∷◌, ltb, leb, ◌==◌,
  if◌then◌else◌,
}
use complete_gen_project.Base.Dicts.{Dict, lookup, insert, remove}
use complete_gen_project.Genwatch.LoadSource.{EngineState, running, exercising}
use complete_gen_project.Genwatch.Alarms.{set_row}

pub data Band : Type 0 where
  warn_band alarm_band : Band

pub record RangedRegister : Type 0 where
  pub code : ℕ
  pub alarm_range : Option (ℕ × ℕ)
  pub warn_range : Option (ℕ × ℕ)

pub data RangeEvent : Type 0 where
  range_raised : ℕ → Band → RangeEvent
  range_cleared : ℕ → RangeEvent

pub record RangeState : Type 0 where
  pub poll_counts : ℕ → ℕ
  pub raised : Dict Band
  pub rows : ℕ → Bool
  pub emitted : List RangeEvent

abbrev pub min_polls : ℕ
min_polls = 3

unfoldable pub is_producing : EngineState → Bool
is_producing running = true
is_producing exercising = true
is_producing _ = false

abbrev pub is_outside : Option (ℕ × ℕ) → ℕ → Bool
is_outside none v = false
is_outside (some (lo, hi)) v = ltb v lo || ltb hi v

-- `severity_for`
unfoldable pub severity_for : RangedRegister → Option ℕ → Option Band
severity_for r none = none
severity_for r (some v) =
    if is_outside r.alarm_range v
    then some alarm_band
    else if is_outside r.warn_range v
    then some warn_band
    else none

abbrev pub add_hit : ℕ → Option Band → Dict Band → Dict Band
add_hit code none hits = hits
add_hit code (some band) hits = insert code band hits

-- `active_now`, while the engine produces.
unfoldable pub active_loop : List RangedRegister → (ℕ → Option ℕ) → Dict Band → Dict Band
unfolding severity_for insert
active_loop [] values hits = hits
active_loop (r ∷ rs) values hits =
    active_loop rs values (add_hit r.code (severity_for r (values r.code)) hits)

unfoldable pub active_now : List RangedRegister → EngineState → (ℕ → Option ℕ) → Dict Band
unfolding active_loop is_producing
active_now rs engine values = if is_producing engine then active_loop rs values [] else []

abbrev pub is_set : Option Band → Bool
is_set none = false
is_set (some b) = true

unfoldable pub is_in : ℕ → Dict Band → Bool
unfolding lookup
is_in c d = is_set (lookup c d)

abbrev pub count_ranges : Dict Band → (ℕ → ℕ) → ℕ → ℕ
count_ranges active counts c = if is_in c active then counts c + 1 else 0

-- One code that is out of range for long enough, and not raised yet.
unfoldable pub raise_one : (ℕ → ℕ) → ℕ → Band → RangeState → RangeState
unfolding insert is_in
raise_one counts c band s = if ltb (counts c) min_polls || is_in c s.raised then s else record s {
  raised = insert c band s.raised;
  rows = set_row c true s.rows;
  emitted = if s.rows c then s.emitted else range_raised c band ∷ s.emitted;
}

unfoldable pub raise_ranges : (ℕ → ℕ) → Dict Band → RangeState → RangeState
unfolding raise_one
raise_ranges counts [] s = s
raise_ranges counts ((c, band) ∷ active) s = raise_ranges counts active (raise_one counts c band s)

-- One code that was raised and is back in range.
unfoldable pub clear_one : Dict Band → ℕ → RangeState → RangeState
unfolding remove is_in
clear_one active c s = if is_in c active then s else record s {
  raised = remove c s.raised;
  rows = set_row c false s.rows;
  emitted = if s.rows c then range_cleared c ∷ s.emitted else s.emitted;
}

unfoldable pub clear_ranges : Dict Band → Dict Band → RangeState → RangeState
unfolding clear_one
clear_ranges active [] s = s
clear_ranges active ((c, band) ∷ before) s = clear_ranges active before (clear_one active c s)

abbrev pub counted : Dict Band → RangeState → RangeState
counted active s = record s { poll_counts = count_ranges active s.poll_counts }

-- The checks of a poll, by the codes that are out of range.
unfoldable pub check_active : Dict Band → RangeState → RangeState
unfolding raise_ranges clear_ranges
check_active active s =
    let after = raise_ranges (count_ranges active s.poll_counts) active (counted active s) in
    clear_ranges active after.raised after

pub record RangePoll : Type 0 where
  pub engine : EngineState
  pub values : ℕ → Option ℕ

unfoldable pub check_numeric_ranges : List RangedRegister → RangePoll → RangeState → RangeState
unfolding check_active active_now
check_numeric_ranges rs p s = check_active (active_now rs p.engine p.values) s

unfoldable pub run_ranges : List RangedRegister → List RangePoll → RangeState → RangeState
unfolding check_numeric_ranges
run_ranges rs [] s = s
run_ranges rs (p ∷ ps) s = run_ranges rs ps (check_numeric_ranges rs p s)
