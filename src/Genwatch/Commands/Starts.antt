-- ===== src/Genwatch/Commands/Starts.antt =====
-- What one token starts (`issue_token`, `consume_token` and `execute` of
-- GenWatch-main/backend/genwatch/services/control.py, and `execute` of services/ats_control.py).
use complete_gen_project.Base.{
  ℕ, ◌+◌, ◌-◌, ◌≤◌, ◌≡◌, inl, inr, ap, Bool, true, false, Option, none, some, List, [], ◌∷◌, arith,
  length, ◌==◌, if◌then◌else◌, Bool-cases,
}
use complete_gen_project.Base.Dicts.{IsUnique, lookup, count_some, presence, presence-insert-le}
use complete_gen_project.Genwatch.Validation.{ControlDef}
use complete_gen_project.Genwatch.Tokens.{
  Verb, Write, ConfirmToken, Control, Result, issue_token, issue_drawn, draw_token, store_token,
  new_token, evict_expired, write_audit,
}
use complete_gen_project.Genwatch.Tokens.Verdict.{IsSpendable}
use complete_gen_project.Genwatch.Tokens.Once.{
  Shrinks, consume_token-Shrinks, evict_expired-Shrinks,
}
use complete_gen_project.Genwatch.Control.{ControlMap, GeneratorView, Instants, Request}
use complete_gen_project.Genwatch.Control.Gates.{Outcome as GeneratorOutcome, execute_outcome}
use complete_gen_project.Genwatch.Ats.Model.{AtsService}
use complete_gen_project.Genwatch.AtsControl.{Command}
use complete_gen_project.Genwatch.AtsControl.Gates.{
  Outcome as SwitchOutcome, execute_command_outcome,
}
use complete_gen_project.Genwatch.Commands.{
  Operation, issue, acknowledge, command_generator, command_switch, control_or, operate,
  operate_all, issues, IsTimely, AllTimely, weight, operate-Paid, operate_all-weight,
}

-- The call brings the token `t`.
abbrev pub brings : ℕ → Operation → Bool
brings t (issue who verb draws evicted now) = false
brings t (acknowledge token who verb evicted now) = token == t
brings t (command_generator m g verb q at answer) = q.token == t
brings t (command_switch m s k q at answer) = q.token == t

-- The writes that went out on both links.
abbrev pub writes : Control → ℕ
writes c = length c.sent + length c.sent_ats

-- The writes that go out in the calls that bring the token.
abbrev pub started : ℕ → Operation → Control → ℕ
started t op c = if brings t op then writes (operate op c) - writes c else 0

abbrev pub starts : ℕ → List Operation → Control → ℕ
starts t [] c = 0
starts t (op ∷ ops) c = started t op c + starts t ops (operate op c)

-- How often the token is given out.
abbrev pub is_given : ℕ → Option (ℕ × Control) → ℕ
is_given t none = 0
is_given t (some (t', c)) = if t' == t then 1 else 0

abbrev pub given : ℕ → Operation → Control → ℕ
given t (issue who verb draws evicted now) c = is_given t (issue_token who verb draws evicted now c)
given t op c = 0

abbrev pub givens : ℕ → List Operation → Control → ℕ
givens t [] c = 0
givens t (op ∷ ops) c = given t op c + givens t ops (operate op c)

-- What a call that brings `token` spends of `t`.
abbrev Spends : ℕ → ℕ → Control → Control → Type 0
Spends t token c c' =
    (if token == t then writes c' - writes c else 0) + presence t c'.tokens ≤ presence t c.tokens

Shrinks-Spends : (t token : ℕ) (c c' : Control) → Shrinks c c' → Spends t token c c'
Shrinks-Spends t token c c' s = ground (
  arith,
  s.held t,
  ap (λ (ws : List Write). length ws) s.same,
  ap (λ (ws : List Write). length ws) s.same_ats,
)

spendable_lem :
    (o : Option ConfirmToken) (who : ℕ) (verb : Option Verb) (now : ℕ)
    → IsSpendable o who verb now
    → count_some o ≡ 1
spendable_lem none who verb now h = absurd h
spendable_lem (some ct) who verb now h = ground arith

-- The token was there, is gone, and one write went out.
spent_lem :
    (t token : ℕ) (c c' : Control)
    → presence token c.tokens ≡ 1
    → lookup token c'.tokens ≡ none
    → writes c' ≡ writes c + 1
    → presence t c'.tokens ≤ presence t c.tokens
    → Spends t token c c'
spent_lem t token c c' there gone one held = elim (Bool-cases (token == t)) [
  | inl same ↦ rw same (omega (arith, at_token same))
  | inr other ↦ rw other (omega arith)
]
  where
    at_token : (token == t) ≡ true → (presence t c.tokens ≡ 1) × (presence t c'.tokens ≡ 0)
    at_token same = let e : token ≡ t = ground arith in rw (← e) (there, ap count_some gone)

module _ (t : ℕ) (c : Control) where
  generator-Spends :
      (m : ControlMap) (g : GeneratorView) (verb : Verb) (q : Request) (at : Instants)
      (answer : Bool) (r : Result ControlDef × Control)
      → GeneratorOutcome m g verb q at answer c r
      → Spends t q.token c r.1
  generator-Spends m g verb q at answer r (inl (refusal, s, forbidden)) =
      Shrinks-Spends t q.token c r.1 s
  generator-Spends m g verb q at answer r
        (inr (ctl, p, value, sent, sent_ats, u', less, gone, held)) =
      spent_lem t q.token c r.1 (spendable_lem _ _ _ _ p.token) gone
        (omega (
          arith,
          ap (λ (ws : List Write). length ws) sent,
          ap (λ (ws : List Write). length ws) sent_ats,
        ))
        (held t)

  switch-Spends :
      (m : ControlMap) (s : AtsService) (k : Command) (q : Request) (at : Instants) (answer : Bool)
      (r : Result ControlDef × Control)
      → SwitchOutcome m s k q at answer c r
      → Spends t q.token c r.1
  switch-Spends m s k q at answer r (inl (refusal, shrinks, forbidden)) =
      Shrinks-Spends t q.token c r.1 shrinks
  switch-Spends m s k q at answer r (inr (ctl, p, value, sent_ats, sent, u', less, gone, held)) =
      spent_lem t q.token c r.1 (spendable_lem _ _ _ _ p.token) gone
        (omega (
          arith,
          ap (λ (ws : List Write). length ws) sent,
          ap (λ (ws : List Write). length ws) sent_ats,
        ))
        (held t)

  drawn_lem :
      (left : Control)
      → Shrinks c left
      → (o : Option ℕ) (who : ℕ) (verb : Option Verb) (now : ℕ)
      → presence t (control_or (issue_drawn o who verb now left) left).tokens
        ≤ presence t c.tokens + is_given t (issue_drawn o who verb now left)
  unfolding issue_drawn store_token write_audit
  drawn_lem left s none who verb now = omega (arith, s.held t)
  drawn_lem left s (some t') who verb now =
      omega (arith, s.held t, presence-insert-le t' t (new_token who verb now) left.tokens)

  issue_lem :
      (who : ℕ) (verb : Option Verb) (draws : List ℕ) (evicted now : ℕ)
      → presence t (operate (issue who verb draws evicted now) c).tokens
        ≤ presence t c.tokens + given t (issue who verb draws evicted now) c
  unfolding operate issue_token
  issue_lem who verb draws evicted now =
      let left = (evict_expired evicted c).1 in
      drawn_lem left (evict_expired-Shrinks evicted c) (draw_token draws left.tokens) who verb now

-- A call spends the token that it brings, and gives out at most one.
operate-started :
    (t : ℕ) (op : Operation) (c : Control)
    → IsUnique c.tokens
    → IsTimely op
    → started t op c + presence t (operate op c).tokens ≤ presence t c.tokens + given t op c
unfolding operate
operate-started t (issue who verb draws evicted now) c u timely =
    omega (arith, issue_lem t c who verb draws evicted now)
operate-started t (acknowledge token who verb evicted now) c u timely =
    omega (arith, Shrinks-Spends t token c _ (consume_token-Shrinks token who verb evicted now c))
operate-started t (command_generator m g verb q at answer) c u timely = omega (
  arith,
  generator-Spends t c m g verb q at answer _ (execute_outcome m g verb q at answer c u timely),
)
operate-started t (command_switch m s k q at answer) c u timely = omega (
  arith,
  switch-Spends t c m s k q at answer _ (execute_command_outcome m s k q at answer c u timely),
)

starts_lem :
    (t : ℕ) (ops : List Operation) (c : Control)
    → IsUnique c.tokens
    → AllTimely ops
    → starts t ops c + presence t (operate_all ops c).tokens ≤ presence t c.tokens + givens t ops c
unfolding operate_all
starts_lem t [] c u timely = omega arith
starts_lem t (op ∷ ops) c u timely =
    let paid = operate-Paid op c u timely.0 in
    omega (
      arith,
      operate-started t op c u timely.0,
      starts_lem t ops (operate op c) paid.unique timely.1,
    )

-- Whatever is called in whatever order, and whatever the links answer, on a store of tokens that is a
-- dictionary and with a clock that does not go back within a call: all commands that go out on both
-- links together are no more than the tokens that were held at the start and issued since, less those
-- that are left. And of each token by itself: the writes that go out in the calls that bring it are no
-- more than the times it was held at the start or has been given out since, less one if it is left. So
-- a token that was held once, or given out once, starts at most one command.
pub operate_all-starts :
    (ops : List Operation) (c : Control)
    → IsUnique c.tokens
    → AllTimely ops
    → (weight (operate_all ops c) ≤ weight c + issues ops)
      × ((t : ℕ)
          → starts t ops c + presence t (operate_all ops c).tokens
            ≤ presence t c.tokens + givens t ops c)
operate_all-starts ops c u timely =
    ((operate_all-weight ops c u timely).1, λ t. starts_lem t ops c u timely)
