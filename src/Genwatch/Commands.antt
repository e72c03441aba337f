-- ===== src/Genwatch/Commands.antt =====
-- The two control services over one store of confirm tokens: `issue_token`, `consume_token` (the
-- acknowledgement of an alarm) and `execute` of GenWatch-main/backend/genwatch/services/control.py, and
-- `execute` of services/ats_control.py. Their locks make each operation one step.
pub mod Starts
use complete_gen_project.Base.{
  ℕ, ◌+◌, ◌≤◌, ◌≡◌, inl, inr, ap, Bool, Option, none, some, List, [], ◌∷◌, arith, length,
}
use complete_gen_project.Base.Dicts.{IsUnique, IsUnique-insert, length-insert}
use complete_gen_project.Genwatch.Validation.{ControlDef}
use complete_gen_project.Genwatch.Tokens.{
  Verb, Write, Control, Result, new_token, consume_token, issue_token, issue_drawn, draw_token,
  store_token, evict_expired, write_audit,
}
use complete_gen_project.Genwatch.Tokens.Once.{
  Shrinks, consume_token-Shrinks, evict_expired-Shrinks,
}
use complete_gen_project.Genwatch.Control.{ControlMap, GeneratorView, Instants, Request, execute}
use complete_gen_project.Genwatch.Control.Gates.{Outcome as GeneratorOutcome, execute_outcome}
use complete_gen_project.Genwatch.Ats.Model.{AtsService}
use complete_gen_project.Genwatch.AtsControl.{Command, execute_command}
use complete_gen_project.Genwatch.AtsControl.Gates.{
  Outcome as SwitchOutcome, execute_command_outcome,
}

-- A call, with what it reads of the other services, the answer of its link, and the clock.
pub data Operation : Type 0 where
  issue : ℕ → Option Verb → List ℕ → ℕ → ℕ → Operation
  acknowledge : ℕ → ℕ → Option Verb → ℕ → ℕ → Operation
  command_generator : ControlMap → GeneratorView → Verb → Request → Instants → Bool → Operation
  command_switch : ControlMap → AtsService → Command → Request → Instants → Bool → Operation

abbrev pub control_or : Option (ℕ × Control) → Control → Control
control_or none c = c
control_or (some (t, c')) c = c'

unfoldable pub operate : Operation → Control → Control
operate (issue who verb draws evicted now) c =
    control_or (issue_token who verb draws evicted now c) (evict_expired evicted c).1
operate (acknowledge token who verb evicted now) c = (consume_token token who verb evicted now c).1
operate (command_generator m g verb q at answer) c = (execute m g verb q at answer c).1
operate (command_switch m s k q at answer) c = (execute_command m s k q at answer c).1

unfoldable pub operate_all : List Operation → Control → Control
operate_all [] c = c
operate_all (op ∷ ops) c = operate_all ops (operate op c)

abbrev pub issues : List Operation → ℕ
issues [] = 0
issues (issue who verb draws evicted now ∷ ops) = issues ops + 1
issues (op ∷ ops) = issues ops

-- The clock does not go back within an operation.
abbrev pub IsTimely : Operation → Type 0
IsTimely (command_generator m g verb q at answer) = at.evicted ≤ at.consumed
IsTimely (command_switch m s k q at answer) = at.evicted ≤ at.consumed
IsTimely op = Unit

abbrev pub AllTimely : List Operation → Type 0
AllTimely [] = Unit
AllTimely (op ∷ ops) = IsTimely op × AllTimely ops

-- The commands that went out, and the tokens that are left.
abbrev pub weight : Control → ℕ
weight c = length c.sent + length c.sent_ats + length c.tokens

-- Nothing is gained but by an issue.
pub record Paid (gain : ℕ) (c c' : Control) : Type 0 where
  pub unique : IsUnique c'.tokens
  pub bound : weight c' ≤ weight c + gain

drawn-Paid :
    (c left : Control)
    → IsUnique c.tokens
    → Shrinks c left
    → (o : Option ℕ) (who : ℕ) (verb : Option Verb) (now : ℕ)
    → Paid 1 c (control_or (issue_drawn o who verb now left) left)
unfolding issue_drawn store_token write_audit
drawn-Paid c left u s none who verb now = record {
  unique = s.unique u;
  bound = omega (
    arith,
    s.fewer,
    ap (λ (ws : List Write). length ws) s.same,
    ap (λ (ws : List Write). length ws) s.same_ats,
  );
}
drawn-Paid c left u s (some t) who verb now = record {
  unique = IsUnique-insert t (new_token who verb now) left.tokens (s.unique u);
  bound = omega (
    arith,
    s.fewer,
    ap (λ (ws : List Write). length ws) s.same,
    ap (λ (ws : List Write). length ws) s.same_ats,
    length-insert t (new_token who verb now) left.tokens,
  );
}

module _ (c : Control) (u : IsUnique c.tokens) where
  Shrinks-Paid : (c' : Control) → Shrinks c c' → Paid 0 c c'
  Shrinks-Paid c' s = record {
    unique = s.unique u;
    bound = omega (
      arith,
      s.fewer,
      ap (λ (ws : List Write). length ws) s.same,
      ap (λ (ws : List Write). length ws) s.same_ats,
    );
  }

  generator-Paid :
      (m : ControlMap) (g : GeneratorView) (verb : Verb) (q : Request) (at : Instants)
      (answer : Bool) (r : Result ControlDef × Control)
      → GeneratorOutcome m g verb q at answer c r
      → Paid 0 c r.1
  generator-Paid m g verb q at answer r (inl (refusal, s, forbidden)) = Shrinks-Paid r.1 s
  generator-Paid m g verb q at answer r
        (inr (ctl, p, value, sent, sent_ats, u', less, gone, held)) =
      record {
        unique = u';
        bound = omega (
          arith,
          less,
          ap (λ (ws : List Write). length ws) sent,
          ap (λ (ws : List Write). length ws) sent_ats,
        );
      }

  switch-Paid :
      (m : ControlMap) (s : AtsService) (k : Command) (q : Request) (at : Instants) (answer : Bool)
      (r : Result ControlDef × Control)
      → SwitchOutcome m s k q at answer c r
      → Paid 0 c r.1
  switch-Paid m s k q at answer r (inl (refusal, shrinks, forbidden)) = Shrinks-Paid r.1 shrinks
  switch-Paid m s k q at answer r (inr (ctl, p, value, sent_ats, sent, u', less, gone, held)) =
      record {
        unique = u';
        bound = omega (
          arith,
          less,
          ap (λ (ws : List Write). length ws) sent,
          ap (λ (ws : List Write). length ws) sent_ats,
        );
      }

  issue-Paid :
      (who : ℕ) (verb : Option Verb) (draws : List ℕ) (evicted now : ℕ)
      → Paid 1 c (operate (issue who verb draws evicted now) c)
  unfolding operate issue_token
  issue-Paid who verb draws evicted now = drawn (draw_token draws left.tokens)
    where
      left : Control
      left = (evict_expired evicted c).1

      shrinks : Shrinks c left
      shrinks = evict_expired-Shrinks evicted c

      drawn : (o : Option ℕ) → Paid 1 c (control_or (issue_drawn o who verb now left) left)
      drawn o = drawn-Paid c left u shrinks o who verb now

pub operate-Paid :
    (op : Operation) (c : Control)
    → IsUnique c.tokens
    → IsTimely op
    → Paid (issues (op ∷ [])) c (operate op c)
unfolding operate
operate-Paid (issue who verb draws evicted now) c u timely =
    issue-Paid c u who verb draws evicted now
operate-Paid (acknowledge token who verb evicted now) c u timely =
    Shrinks-Paid c u _ (consume_token-Shrinks token who verb evicted now c)
operate-Paid (command_generator m g verb q at answer) c u timely =
    generator-Paid c u m g verb q at answer _ (execute_outcome m g verb q at answer c u timely)
operate-Paid (command_switch m s k q at answer) c u timely =
    switch-Paid c u m s k q at answer _ (execute_command_outcome m s k q at answer c u timely)

issues_split :
    (op : Operation) (ops : List Operation) → issues (op ∷ ops) ≡ issues (op ∷ []) + issues ops
issues_split (issue who verb draws evicted now) ops = omega arith
issues_split (acknowledge token who verb evicted now) ops = omega arith
issues_split (command_generator m g verb q at answer) ops = omega arith
issues_split (command_switch m s k q at answer) ops = omega arith

-- Whatever is called in whatever order, and whatever the links answer: the tokens stay a dictionary, and
-- the commands that go out on both links together are no more than the tokens that were held at the
-- start and issued since, less those that are left.
pub operate_all-weight :
    (ops : List Operation) (c : Control)
    → IsUnique c.tokens
    → AllTimely ops
    → IsUnique (operate_all ops c).tokens × (weight (operate_all ops c) ≤ weight c + issues ops)
unfolding operate_all
operate_all-weight [] c u timely = (u, omega arith)
operate_all-weight (op ∷ ops) c u timely =
    let paid = operate-Paid op c u timely.0 in
    let (unique, bound) = operate_all-weight ops (operate op c) paid.unique timely.1 in
    (unique, omega (arith, bound, paid.bound, issues_split op ops))
