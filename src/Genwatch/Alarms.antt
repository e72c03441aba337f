-- ===== src/Genwatch/Alarms.antt =====
-- The alarms of the generator's status bits (the part of `StateMachine.update` of
-- GenWatch-main/backend/genwatch/services/state.py from the debounce to the displayed set). Codes are
-- numbers. A dictionary of counts gives 0 where it has no entry, and the rows of `alarms_active` are a
-- test on codes. The set of codes that were raised in this session is a list without order.
pub mod Session
pub mod Debounce
use complete_gen_project.Base.{
  ℕ, zero, suc, ◌+◌, Bool, true, false, not, ◌&&◌, ◌||◌, List, [], ◌∷◌, leb, ◌==◌, if◌then◌else◌,
  keep,
}
use complete_gen_project.Genwatch.LoadSource.{EngineState}

-- The fields of `AlarmBit` that the filters read; whether a state is in `suppress_in_states`.
pub record AlarmBit : Type 0 where
  pub code : ℕ
  pub min_poll_count : ℕ
  pub is_suppressed_in : EngineState → Bool

pub data AlarmEvent : Type 0 where
  raised cleared : ℕ → AlarmEvent

-- `_alarm_poll_counts`, `snap.active_alarms`, `_raised_this_session`, the rows of the database, and the
-- events that were emitted, the last one first.
pub record AlarmState : Type 0 where
  pub counts : ℕ → ℕ
  pub displayed : ℕ → Bool
  pub session : List ℕ
  pub rows : ℕ → Bool
  pub emitted : List AlarmEvent

abbrev pub has_code : ℕ → List AlarmBit → Bool
has_code c [] = false
has_code c (ab ∷ abs) = ab.code == c || has_code c abs

abbrev pub is_member : ℕ → List ℕ → Bool
is_member c [] = false
is_member c (d ∷ ds) = d == c || is_member c ds

abbrev pub occurrences : ℕ → List AlarmBit → ℕ
occurrences c [] = 0
occurrences c (ab ∷ abs) = if ab.code == c then occurrences c abs + 1 else occurrences c abs

-- The counters: one more for each active bit, none for the codes that are not active.
unfoldable pub count_polls : List AlarmBit → (ℕ → ℕ) → ℕ → ℕ
count_polls active counts c = if has_code c active then counts c + occurrences c active else 0

unfoldable pub is_effective : (ℕ → ℕ) → EngineState → AlarmBit → Bool
is_effective counts engine ab =
    leb ab.min_poll_count (counts ab.code) && not (ab.is_suppressed_in engine)

abbrev pub set_row : ℕ → Bool → (ℕ → Bool) → ℕ → Bool
set_row c v rows d = if d == c then v else rows d

abbrev pub add_member : ℕ → List ℕ → List ℕ
add_member c cs = if is_member c cs then cs else c ∷ cs

-- The raise of one alarm that is newly visible: the database answers whether its row is new.
unfoldable pub raise_alarm : ℕ → AlarmState → AlarmState
raise_alarm c s = record s {
  session = add_member c s.session;
  rows = set_row c true s.rows;
  emitted = if s.rows c then s.emitted else raised c ∷ s.emitted;
}

-- The loop over the effective alarms, `displayed` being the codes of the poll before.
unfoldable pub raise_loop : (ℕ → Bool) → List AlarmBit → AlarmState → AlarmState
unfolding raise_alarm
raise_loop displayed [] s = s
raise_loop displayed (ab ∷ abs) s =
    raise_loop displayed abs (if displayed ab.code then s else raise_alarm ab.code s)

-- The clear of one alarm whose bit has gone low.
unfoldable pub clear_alarm : ℕ → AlarmState → AlarmState
clear_alarm c s = record s {
  rows = set_row c false s.rows;
  emitted = if s.rows c then cleared c ∷ s.emitted else s.emitted;
}

-- The loop over the codes of the session; those that are left are collected apart.
unfoldable pub clear_loop : List AlarmBit → List ℕ → AlarmState → AlarmState
unfolding clear_alarm
clear_loop active [] s = s
clear_loop active (c ∷ cs) s =
    clear_loop active cs (if has_code c active then s else clear_alarm c s)

-- One poll: the alarms whose bits are set, and the state of the engine.
unfoldable pub update_alarms : List AlarmBit → EngineState → AlarmState → AlarmState
unfolding count_polls is_effective raise_loop clear_loop
update_alarms active engine s =
    let counts = count_polls active s.counts in
    let effective = keep (is_effective counts engine) active in
    let after = raise_loop s.displayed effective s in
    let settled = clear_loop active after.session after in
    record settled {
      counts = counts;
      displayed = λ c. has_code c effective;
      session = keep (λ c. has_code c active) after.session;
    }

-- The swap of the register map: the counters start again, the session stays.
unfoldable pub apply_regmap : AlarmState → AlarmState
apply_regmap s = record s { counts = λ _. 0 }

-- The polls of a session, the first one first.
pub record Poll : Type 0 where
  pub active : List AlarmBit
  pub engine : EngineState

unfoldable pub run_polls : List Poll → AlarmState → AlarmState
run_polls [] s = s
run_polls (p ∷ ps) s = run_polls ps (update_alarms p.active p.engine s)

-- A service that has just started, over the rows that the database holds from before.
abbrev pub start_alarms : (ℕ → Bool) → AlarmState
start_alarms rows = record {
  counts = λ _. 0;
  displayed = λ _. false;
  session = [];
  rows = rows;
  emitted = [];
}
