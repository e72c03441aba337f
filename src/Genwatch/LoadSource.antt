-- ===== src/Genwatch/LoadSource.antt =====
-- Which source carries the load, and the cross-check of the switch against the generator
-- (`_derive_load_source`, `_derive_load_source_from_telemetry`, `_load_source_event` and
-- `_check_loadsource_disagreement` of GenWatch-main/backend/genwatch/services/state.py).
-- Readings are in tenths of an ampere and of a kilowatt. The texts of events are left out. The row of
-- the alarm in `alarms_active` is there or not.
pub mod Hysteresis
pub mod CrossCheck
use complete_gen_project.Base.{
  ℕ, ◌+◌, Bool, true, false, not, ◌&&◌, ◌||◌, Option, none, some, List, [], ◌∷◌, ltb, leb,
  if◌then◌else◌,
}
use complete_gen_project.Companion.IoDriver.{Position, utility, generator, transferring, unknown}

-- `other` stands for any other name that a rule of the register map may give.
pub data EngineState : Type 0 where
  stopped cranking running cooling exercising alarm engine_unknown other : EngineState

-- `avg_current` and `total_kw`, where they have been read.
pub record Electrical : Type 0 where
  pub avg_current : Option ℕ
  pub total_kw : Option ℕ

-- What the state machine takes from the companion.
pub record AtsView : Type 0 where
  pub is_authoritative : Bool
  pub position : Position
  pub normal_available : Option Bool

abbrev pub load_on_kw : ℕ
load_on_kw = 20

abbrev pub load_on_current : ℕ
load_on_current = 50

abbrev pub load_off_kw : ℕ
load_off_kw = 10

abbrev pub load_off_current : ℕ
load_off_current = 20

abbrev pub or_zero : Option ℕ → ℕ
or_zero none = 0
or_zero (some n) = n

abbrev pub is_loaded : ℕ → ℕ → Bool
is_loaded current kw = leb load_on_current current && leb load_on_kw kw

abbrev pub is_unloaded : ℕ → ℕ → Bool
is_unloaded current kw = ltb current load_off_current && ltb kw load_off_kw

-- The classification by the two readings.
unfoldable pub source_by_load : ℕ → ℕ → Position → Position
source_by_load current kw generator = if is_unloaded current kw then utility else generator
source_by_load current kw _ = if is_loaded current kw then generator else utility

-- With no reading at all.
abbrev pub known_or_utility : Position → Position
known_or_utility unknown = utility
known_or_utility p = p

unfoldable pub source_by_readings : Option ℕ → Option ℕ → Position → Position
source_by_readings none none prev = known_or_utility prev
source_by_readings current kw prev = source_by_load (or_zero current) (or_zero kw) prev

unfoldable pub derive_load_source_from_telemetry : Electrical → EngineState → Position → Position
derive_load_source_from_telemetry r engine_unknown prev = prev
derive_load_source_from_telemetry r stopped prev = utility
derive_load_source_from_telemetry r cranking prev = utility
derive_load_source_from_telemetry r cooling prev = utility
derive_load_source_from_telemetry r exercising prev = utility
derive_load_source_from_telemetry r _ prev = source_by_readings r.avg_current r.total_kw prev

abbrev pub is_known : Position → Bool
is_known unknown = false
is_known _ = true

-- The position where the companion is authoritative and knows it.
abbrev pub ats_position : Option AtsView → Option Position
ats_position none = none
ats_position (some ats) =
    if ats.is_authoritative && is_known ats.position then some ats.position else none

abbrev pub position_or : Option Position → Position → Position
position_or none p = p
position_or (some q) p = q

unfoldable pub derive_load_source : Option AtsView → Electrical → EngineState → Position → Position
derive_load_source ats r engine prev =
    position_or (ats_position ats) (derive_load_source_from_telemetry r engine prev)

pub data Severity : Type 0 where
  ok warn : Severity

-- The severity of the event of a transition, if it is logged.
unfoldable pub load_source_event : Position → Position → Option Severity
load_source_event unknown utility = none
load_source_event old utility = some ok
load_source_event old new = some warn

pub data AlarmEvent : Type 0 where
  alarm_raised alarm_cleared : AlarmEvent

-- `_loadsource_disagree_count` and `_loadsource_disagree_raised`, the row in the database, and the events
-- that were emitted, the last one first.
pub record CrossCheckState : Type 0 where
  pub count : ℕ
  pub is_raised : Bool
  pub row : Bool
  pub emitted : List AlarmEvent

abbrev pub debounce_polls : ℕ
debounce_polls = 3

-- `_emit_disagree_raise` and `_emit_disagree_clear`: the database answers whether the row changed.
unfoldable pub emit_disagree_raise : CrossCheckState → CrossCheckState
emit_disagree_raise c = record c {
  is_raised = true;
  row = true;
  emitted = if c.row then c.emitted else alarm_raised ∷ c.emitted;
}

unfoldable pub emit_disagree_clear : CrossCheckState → CrossCheckState
emit_disagree_clear c = record c {
  is_raised = false;
  row = false;
  emitted = if c.row then alarm_cleared ∷ c.emitted else c.emitted;
}

-- What a poll makes of the comparison: it clears where the two agree or cannot be compared at all, and
-- holds where it is not the time to say.
pub data Verdict : Type 0 where
  clears holds disagrees : Verdict

abbrev pub may_carry_load : EngineState → Bool
may_carry_load running = true
may_carry_load alarm = true
may_carry_load _ = false

abbrev pub is_gone : Option Bool → Bool
is_gone (some false) = true
is_gone _ = false

unfoldable pub compare : Position → Option Bool → ℕ → ℕ → Verdict
compare utility normal current kw = if is_loaded current kw then disagrees else clears
compare generator normal current kw =
    if is_unloaded current kw && is_gone normal then disagrees else clears
compare _ normal current kw = holds

abbrev pub on_both : (ℕ → ℕ → Verdict) → Option ℕ → Option ℕ → Verdict
on_both f (some current) (some kw) = f current kw
on_both f _ _ = holds

unfoldable pub judge : Option AtsView → EngineState → Electrical → Verdict
judge none engine r = clears
judge (some ats) engine r =
    if ats.is_authoritative && may_carry_load engine
    then on_both (compare ats.position ats.normal_available) r.avg_current r.total_kw
    else clears

unfoldable pub apply_verdict : Verdict → CrossCheckState → CrossCheckState
unfolding emit_disagree_raise emit_disagree_clear
apply_verdict holds c = c
apply_verdict clears c = record (if c.is_raised then emit_disagree_clear c else c) { count = 0 }
apply_verdict disagrees c =
    let c' = record c { count = c.count + 1 } in
    if leb debounce_polls c'.count && not c'.is_raised then emit_disagree_raise c' else c'

-- One poll, as the cross-check sees it.
pub record Poll : Type 0 where
  pub ats : Option AtsView
  pub engine : EngineState
  pub electrical : Electrical

unfoldable pub check_loadsource_disagreement : Poll → CrossCheckState → CrossCheckState
unfolding apply_verdict
check_loadsource_disagreement p c = apply_verdict (judge p.ats p.engine p.electrical) c

unfoldable pub run_checks : List Poll → CrossCheckState → CrossCheckState
unfolding check_loadsource_disagreement
run_checks [] c = c
run_checks (p ∷ ps) c = run_checks ps (check_loadsource_disagreement p c)
