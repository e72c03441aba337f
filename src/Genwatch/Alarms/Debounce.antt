-- ===== src/Genwatch/Alarms/Debounce.antt =====
-- When an alarm is shown (`StateMachine.update` of GenWatch-main/backend/genwatch/services/state.py).
use complete_gen_project.Base.{
  ℕ, ◌+◌, ◌≡◌, ◌≤◌, refl, ap, Bool, true, false, Bool-cases, inl, inr, ◌==◌, if◌then◌else◌, List,
  [], ◌∷◌, keep, All, arith,
}
use complete_gen_project.Genwatch.LoadSource.{EngineState}
use complete_gen_project.Genwatch.Alarms.{
  AlarmBit, AlarmState, Poll, has_code, occurrences, count_polls, is_effective, update_alarms,
  run_polls, start_alarms,
}

-- The polls in a row, up to the last one, that found the code's bit set.
abbrev pub consecutive : ℕ → List Poll → ℕ → ℕ
consecutive c [] n = n
consecutive c (p ∷ ps) n = consecutive c ps (if has_code c p.active then n + 1 else 0)

-- One bit of the register map at most stands for the code.
abbrev pub IsUnique : ℕ → List AlarmBit → Type 0
IsUnique c active = occurrences c active ≤ 1

some_occurrence : (c : ℕ) (abs : List AlarmBit) → has_code c abs ≡ true → 1 ≤ occurrences c abs
some_occurrence c [] h = cc
some_occurrence c (ab ∷ abs) h = ground (arith, some_occurrence c abs)

counts-update :
    (c n : ℕ) (active : List AlarmBit) (engine : EngineState) (s : AlarmState)
    → IsUnique c active
    → s.counts c ≡ n
    → (update_alarms active engine s).counts c ≡ (if has_code c active then n + 1 else 0)
unfolding update_alarms count_polls
counts-update c n active engine s one e = ground (arith, some_occurrence c active)

counts-run :
    (c : ℕ) (ps : List Poll) (n : ℕ) (s : AlarmState)
    → All (λ p. IsUnique c p.active) ps
    → s.counts c ≡ n
    → (run_polls ps s).counts c ≡ consecutive c ps n
unfolding run_polls
counts-run c [] n s h e = e
counts-run c (p ∷ ps) n s h e =
    counts-run c ps _ _ h.1 (counts-update c n p.active p.engine s h.0 e)

has_code-effective :
    (c : ℕ) (counts : ℕ → ℕ) (engine : EngineState) (abs : List AlarmBit)
    → has_code c (keep (is_effective counts engine) abs) ≡ true
    → (ab : AlarmBit) × (ab.code ≡ c)
      × (ab.min_poll_count ≤ counts c)
      × (ab.is_suppressed_in engine ≡ false)
unfolding is_effective
has_code-effective c counts engine [] h = cc
has_code-effective c counts engine (ab ∷ abs) h =
    elim (Bool-cases (is_effective counts engine ab)) [
      | inl fit ↦ elim (Bool-cases (ab.code == c)) [
        | inl same ↦
            let e : ab.code ≡ c = ground arith in (ab, e, ground (arith, ap counts e), ground arith)
        | inr other ↦ has_code-effective c counts engine abs (ground arith)
      ]
      | inr unfit ↦ has_code-effective c counts engine abs (ground arith)
    ]

-- Where at most one bit of the register map stands for a code, an alarm that is shown after a poll
-- has had its bit set on at least its number of consecutive polls, this one included, and is not
-- suppressed in the state of the engine.
update-displayed :
    (c : ℕ) (ps : List Poll) (last : Poll) (rows : ℕ → Bool)
    → All (λ p. IsUnique c p.active) ps
    → IsUnique c last.active
    → (update_alarms last.active last.engine (run_polls ps (start_alarms rows))).displayed c ≡ true
    → (ab : AlarmBit) × (ab.code ≡ c)
      × (ab.min_poll_count ≤ consecutive c (last ∷ []) (consecutive c ps 0))
      × (ab.is_suppressed_in last.engine ≡ false)
unfolding update_alarms
update-displayed c ps last rows h one shown =
    let before = run_polls ps (start_alarms rows) in
    let (ab, e, enough, visible) =
      has_code-effective c (count_polls last.active before.counts) last.engine last.active shown in
    let counted =
      counts-update c (consecutive c ps 0) last.active last.engine before one
        (counts-run c ps 0 (start_alarms rows) h refl) in
    (ab, e, omega (arith, enough, counted), visible)
