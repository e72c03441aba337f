-- ===== src/Genwatch/AtsControl/Gates.antt =====
-- What a command to the switch has to pass (`execute` of
-- GenWatch-main/backend/genwatch/services/ats_control.py).
use complete_gen_project.Base.{
  ℕ, ◌≤◌, ◌<◌, length, subst, ◌≡◌, ◌⊎◌, inl, inr, refl, sym, ap, ◌∙◌, Bool, true, false, not, ◌||◌,
  none, some, List, ◌∷◌, arith,
}
use complete_gen_project.Base.Dicts.{Dict, lookup, IsUnique, presence}
use complete_gen_project.Genwatch.Validation.{ControlDef}
use complete_gen_project.Genwatch.Tokens.{
  ConfirmToken, Write, ats_modbus_failed, Control, Result, ◌>>◌, write_audit, require_rule,
  consume_token,
}
use complete_gen_project.Genwatch.Tokens.Verdict.{IsSpendable}
use complete_gen_project.Genwatch.Tokens.Once.{Shrinks, Shrinks-of_eq}
use complete_gen_project.Genwatch.Tokens.Spending.{consume_rule}
use complete_gen_project.Genwatch.Control.{
  ControlMap, Instants, Request, no_control, to_write, report,
}
use complete_gen_project.Genwatch.Control.Gates.{need_rule, IsRefused, reported, report_lem}
use complete_gen_project.Genwatch.Ats.Model.{AtsService, is_authoritative}
use complete_gen_project.Genwatch.AtsControl.{
  role_satisfies, AtsCommandSpec, ats_command_spec, is_blocked, is_lost, Command, control_name,
  is_assert, and_then, client_write_ats, drops_utility, execute_command,
}

-- What only an assertion has to pass.
abbrev pub MayAssert : Command → AtsService → Type 0
MayAssert k s =
    (is_authoritative s ≡ true)
    × (is_blocked s.snap.fault_codes ≡ false)
    × (drops_utility k s ≡ false)

pub record IsPermitted (m : ControlMap) (s : AtsService) (k : Command) (q : Request) (at : Instants)
    (c : Control) (ctl : ControlDef) : Type 0 where
  pub spec : AtsCommandSpec
  pub known : ats_command_spec k.verb ≡ some spec
  pub role : role_satisfies q.role spec.role ≡ true
  pub comms : is_lost s.snap.comms ≡ false
  pub asserts : is_assert spec k.asserts ≡ true → MayAssert k s
  pub found : and_then (control_name spec k.asserts) m.controls ≡ some ctl
  pub token : IsSpendable (lookup q.token c.tokens) q.who (some k.verb) at.consumed

abbrev pub Outcome :
    ControlMap
    → AtsService
    → Command
    → Request
    → Instants
    → Bool
    → Control
    → Result ControlDef × Control
    → Type 0
Outcome m s k q at answer c r =
    (IsRefused r.0 × Shrinks c r.1 × ((ctl : ControlDef) → ¬ IsPermitted m s k q at c ctl))
    ⊎ (ctl : ControlDef) × IsPermitted m s k q at c ctl
      × (r.0 ≡ reported answer ats_modbus_failed ctl)
      × (r.1.sent_ats ≡ to_write ctl ∷ c.sent_ats)
      × (r.1.sent ≡ c.sent)
      × IsUnique r.1.tokens
      × (length r.1.tokens < length c.tokens)
      × (lookup q.token r.1.tokens ≡ none)
      × ((t : ℕ) → presence t r.1.tokens ≤ presence t c.tokens)

module _ (m : ControlMap) (s : AtsService) (k : Command) (q : Request) (at : Instants)
    (answer : Bool) (c : Control) where
  abbrev Q : Result ControlDef × Control → Type 0
  Q = Outcome m s k q at answer c

  committed :
      (ctl : ControlDef)
      → IsUnique c.tokens
      → at.evicted ≤ at.consumed
      → (IsSpendable (lookup q.token c.tokens) q.who (some k.verb) at.consumed
          → IsPermitted m s k q at c ctl)
      → Q (
          (consume_token q.token q.who (some k.verb) at.evicted at.consumed
              >> (client_write_ats ctl >> report answer q.who q.token ats_modbus_failed ctl))
            c)
  unfolding client_write_ats
  committed ctl u later permit =
      consume_rule Q q.token q.who (some k.verb) at.evicted at.consumed c _ u later
        (λ e c' quiet unspendable. inl (tt, quiet, λ other p. unspendable p.token))
        (λ ct c' spent.
          let (value, sent, sent_ats, tokens) =
            report_lem answer q.who q.token ats_modbus_failed ctl (client_write_ats ctl c').1 in
          inr (
            ctl,
            permit spent.spendable,
            value,
            sent_ats ∙ ap (λ (ws : List Write). to_write ctl ∷ ws) spent.shrinks.same_ats,
            sent ∙ spent.shrinks.same,
            subst (λ (d : Dict ConfirmToken). IsUnique d) (sym tokens) (spent.shrinks.unique u),
            omega (arith, ap (λ (d : Dict ConfirmToken). length d) tokens, spent.less),
            ap (lookup q.token) tokens ∙ spent.gone,
            λ t.
                omega (
                  arith,
                  ap (λ (d : Dict ConfirmToken). presence t d) tokens,
                  spent.shrinks.held t,
                ),
          ))

  -- The tokens are a dictionary, and the clock does not go back. A command to the switch is refused, with
  -- nothing written, if a gate fails; otherwise one write goes out. The gates are: the command and its
  -- control are known, the role suffices for it, the link is not lost, the token may be spent on it by
  -- this operator; and, unless it releases a maintained command, the link is authoritative, no fault
  -- blocks, and a force transfer with a utility that is available has the override. The token is then
  -- gone, none is added, and the answer of the link decides what is reported.
  pub execute_command_outcome :
      IsUnique c.tokens
      → at.evicted ≤ at.consumed
      → Outcome m s k q at answer c (execute_command m s k q at answer c)
  unfolding execute_command no_control write_audit
  execute_command_outcome u later =
      need_rule Q (ats_command_spec k.verb) _ _ c
        (λ e. inl (tt, Shrinks-of_eq c _ refl refl refl, λ other p. cc (p.known)))
        (λ spec known.
          require_rule Q (role_satisfies q.role spec.role) _ _ _ _ _ _ _ c
            (λ e. inl (tt, Shrinks-of_eq c _ refl refl refl, λ other p. no_role p known e))
            (λ role.
              require_rule Q (not (is_lost s.snap.comms)) _ _ _ _ _ _ _ c
                (λ e.
                  inl (tt, Shrinks-of_eq c _ refl refl refl, λ other p. ground (arith, p.comms)))
                (λ comms.
                  require_rule Q (not (is_assert spec k.asserts) || is_authoritative s) _ _ _ _ _ _
                    _ c
                    (λ e. inl (
                      tt,
                      Shrinks-of_eq c _ refl refl refl,
                      λ other p. no_assert p known (is_authoritative s) (λ may. may.0) e,
                    ))
                    (λ authority.
                      require_rule Q
                        (not (is_assert spec k.asserts) || not (is_blocked s.snap.fault_codes)) _ _
                        _ _ _ _ _ c
                        (λ e. inl (
                          tt,
                          Shrinks-of_eq c _ refl refl refl,
                          λ other p.
                              no_assert p known (not (is_blocked s.snap.fault_codes))
                                (λ may. rw may.1 refl) e,
                        ))
                        (λ faults.
                          require_rule Q (not (is_assert spec k.asserts) || not (drops_utility k s))
                            _ _ _ _ _ _ _ c
                            (λ e. inl (
                              tt,
                              Shrinks-of_eq c _ refl refl refl,
                              λ other p.
                                  no_assert p known (not (drops_utility k s)) (λ may. rw may.2 refl)
                                    e,
                            ))
                            (λ utility.
                              need_rule Q (and_then (control_name spec k.asserts) m.controls) _ _ c
                                (λ e. inl (
                                  tt,
                                  Shrinks-of_eq c _ refl refl refl,
                                  λ other p. unfound p known e,
                                ))
                                (λ ctl found. committed ctl u later (λ token. record {
                                  spec = spec;
                                  known = known;
                                  role = role;
                                  comms = not_true _ comms;
                                  asserts = λ a. (
                                    imposed _ _ a authority,
                                    not_true _ (imposed _ _ a faults),
                                    not_true _ (imposed _ _ a utility),
                                  );
                                  found = found;
                                  token = token;
                                }))))))))
    where
      not_true : (b : Bool) → not b ≡ true → b ≡ false
      not_true true h = cc
      not_true false h = refl

      imposed : (a b : Bool) → a ≡ true → (not a || b) ≡ true → b ≡ true
      imposed true b e h = h
      imposed false b e h = cc

      no_role :
          {spec : AtsCommandSpec} {other : ControlDef}
          → IsPermitted m s k q at c other
          → ats_command_spec k.verb ≡ some spec
          → role_satisfies q.role spec.role ≡ false
          → ⊥
      no_role {spec} p known e =
          let same : spec ≡ p.spec = cc (p.known) in
          cc (ap (λ (t : AtsCommandSpec). role_satisfies q.role t.role) same, p.role)

      no_assert :
          {spec : AtsCommandSpec} {other : ControlDef}
          → IsPermitted m s k q at c other
          → ats_command_spec k.verb ≡ some spec
          → (b : Bool) → (MayAssert k s → b ≡ true)
          → (not (is_assert spec k.asserts) || b) ≡ false
          → ⊥
      no_assert {spec} p known b holds e =
          let same : spec ≡ p.spec = cc (p.known) in
          let a : is_assert spec k.asserts ≡ true = ground arith in
          let asserted : is_assert p.spec k.asserts ≡ true =
            ap (λ (t : AtsCommandSpec). is_assert t k.asserts) (sym same) ∙ a in
          let held : b ≡ true = holds (p.asserts asserted) in ground arith

      unfound :
          {spec : AtsCommandSpec} {other : ControlDef}
          → IsPermitted m s k q at c other
          → ats_command_spec k.verb ≡ some spec
          → and_then (control_name spec k.asserts) m.controls ≡ none
          → ⊥
      unfound {spec} p known e =
          let same : spec ≡ p.spec = cc (p.known) in
          cc (
            ap (λ (t : AtsCommandSpec). and_then (control_name t k.asserts) m.controls) same,
            p.found,
          )
