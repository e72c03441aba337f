-- ===== src/Genwatch/Alarms/Session/Rows.antt =====
-- The rows of the database against the alarms that are shown (`StateMachine.update` of
-- GenWatch-main/backend/genwatch/services/state.py).
use complete_gen_project.Base.{
  ℕ, ◌≡◌, ◌∙◌, refl, sym, Bool, true, false, ◌&&◌, List, [], ◌∷◌, keep, All, arith,
}
use complete_gen_project.Genwatch.LoadSource.{EngineState}
use complete_gen_project.Genwatch.Alarms.{
  AlarmBit, AlarmState, Poll, has_code, is_member, is_effective, count_polls, raise_loop,
  update_alarms, run_polls, start_alarms,
}
use complete_gen_project.Genwatch.Alarms.Session.{
  is_member-keep, has_code-keep, raise-covers, raise-backed, raise-other, clear-active,
  clear-member, clear-other, raise-member,
}

both : (a b : Bool) → (a && b) ≡ true → (a ≡ true) × (b ≡ true)
both a b h = ground arith

-- What is shown was raised in this session, and what was raised has its row.
record IsBacked (c : ℕ) (s : AlarmState) : Type 0 where
  pub shown : s.displayed c ≡ true → is_member c s.session ≡ true
  pub backed : is_member c s.session ≡ true → s.rows c ≡ true

module _ (c : ℕ) (active : List AlarmBit) (engine : EngineState) (s : AlarmState) where
  abbrev effective : List AlarmBit
  effective = keep (is_effective (count_polls active s.counts) engine) active

  abbrev after : AlarmState
  after = raise_loop s.displayed effective s

  update-IsBacked : IsBacked c s → IsBacked c (update_alarms active engine s)
  unfolding update_alarms
  update-IsBacked i = record {
    shown = λ h. ground (
      arith,
      is_member-keep c (λ d. has_code d active) after.session,
      has_code-keep c (is_effective (count_polls active s.counts) engine) active h,
      raise-covers c s.displayed effective s i.shown h,
    );
    backed = λ m.
        let (on, member) =
          both (has_code c active) (is_member c after.session)
            (sym (is_member-keep c (λ d. has_code d active) after.session) ∙ m) in
        clear-active c active after.session after on
        ∙ raise-backed c s.displayed effective s i.backed member;
  }

  -- An alarm that was raised in this session, shown or hidden by a state, loses its row at the first
  -- poll that finds its bit low, and is neither shown nor remembered any more.
  update-clears :
      is_member c s.session ≡ true
      → has_code c active ≡ false
      → ((update_alarms active engine s).rows c ≡ false)
        × (is_member c (update_alarms active engine s).session ≡ false)
        × ((update_alarms active engine s).displayed c ≡ false)
  unfolding update_alarms
  update-clears m low = (
    clear-member c active after.session after (raise-member c s.displayed effective s m) low,
    ground (arith, is_member-keep c (λ d. has_code d active) after.session),
    ground (arith, has_code-keep c (is_effective (count_polls active s.counts) engine) active),
  )

  update-stale :
      is_member c s.session ≡ false
      → has_code c active ≡ false
      → ((update_alarms active engine s).rows c ≡ s.rows c)
        × (is_member c (update_alarms active engine s).session ≡ false)
  unfolding update_alarms
  update-stale m low =
      let hidden : has_code c effective ≡ false =
        ground
          (arith, has_code-keep c (is_effective (count_polls active s.counts) engine) active) in
      let (row, member) = raise-other c s.displayed effective s hidden in
      (
        clear-other c active after.session after (member ∙ m) ∙ row,
        ground (arith, is_member-keep c (λ d. has_code d active) after.session),
      )

run-IsBacked :
    (c : ℕ) (ps : List Poll) (s : AlarmState) → IsBacked c s → IsBacked c (run_polls ps s)
unfolding run_polls
run-IsBacked c [] s i = i
run-IsBacked c (p ∷ ps) s i = run-IsBacked c ps _ (update-IsBacked c p.active p.engine s i)

-- After any polls since the start, every alarm that is shown has its row in the database.
run_polls-displayed :
    (c : ℕ) (ps : List Poll) (rows : ℕ → Bool)
    → (run_polls ps (start_alarms rows)).displayed c ≡ true
    → (run_polls ps (start_alarms rows)).rows c ≡ true
run_polls-displayed c ps rows h =
    let i = run-IsBacked c ps (start_alarms rows) (record { shown = λ e. cc; backed = λ e. cc }) in
    i.backed (i.shown h)

stale_from :
    (c : ℕ) (ps : List Poll) (s : AlarmState)
    → is_member c s.session ≡ false
    → All (λ p. has_code c p.active ≡ false) ps
    → (run_polls ps s).rows c ≡ s.rows c
unfolding run_polls
stale_from c [] s m h = refl
stale_from c (p ∷ ps) s m h =
    let (row, gone) = update-stale c p.active p.engine s m h.0 in stale_from c ps _ gone h.1 ∙ row

-- A row that the database holds from before the start stays for as long as the alarm's bit stays low:
-- no poll clears it.
pub run_polls-stale :
    (c : ℕ) (ps : List Poll) (rows : ℕ → Bool)
    → rows c ≡ true
    → All (λ p. has_code c p.active ≡ false) ps
    → (run_polls ps (start_alarms rows)).rows c ≡ true
run_polls-stale c ps rows old h = stale_from c ps (start_alarms rows) refl h ∙ old
