-- ===== src/Genwatch/Control/Gates.antt =====
-- What a command to the generator has to pass (`execute` of
-- GenWatch-main/backend/genwatch/services/control.py).
use complete_gen_project.Base.{
  ℕ, ◌-◌, ◌≤◌, ◌<◌, length, ◌≡◌, ◌⊎◌, inl, inr, refl, sym, ap, ◌∙◌, subst, Bool, true, false, not,
  ◌||◌, Option, none, some, List, [], ◌∷◌, arith, All, keep, Bool-cases,
}
use complete_gen_project.Base.Dicts.{Dict, lookup, IsUnique, presence}
use complete_gen_project.Genwatch.Validation.{ControlDef}
use complete_gen_project.Genwatch.Tokens.{
  Verb, ConfirmToken, Write, CommsState, healthy, PanelMode, panel_auto, modbus_failed, ErrorCode,
  Control, Step, Result, done, refused, ◌>>=◌, ◌>>◌, write_audit, require_rule, consume_token,
}
use complete_gen_project.Genwatch.Tokens.Verdict.{IsSpendable}
use complete_gen_project.Genwatch.Tokens.Once.{Shrinks, Shrinks-of_eq}
use complete_gen_project.Genwatch.Tokens.Spending.{consume_rule}
use complete_gen_project.Genwatch.Control.{
  ControlName, ControlMap, GeneratorView, Instants, Request, may_operate, verb_to_control, allowed,
  panel_auto_required, is_healthy, is_auto, is_stale, max_age_ms, stale_control_registers, is_nil,
  need, no_control, to_write, client_write, write_event, report, execute,
}

pub need_rule :
    {A B : Type 0} (Q : Result B × Control → Type 0) (o : Option A) (missing : Step A)
    (k : A → Step B) (c : Control)
    → (o ≡ none → Q ((missing >>= k) c))
    → ((x : A) → o ≡ some x → Q (k x c))
    → Q ((need o missing >>= k) c)
need_rule Q none missing k c no_way way = no_way refl
need_rule Q (some x) missing k c no_way way = way x refl

abbrev pub IsRefused : {A : Type 0} → Result A → Type 0
IsRefused (done x) = ⊥
IsRefused (refused e) = Unit

-- A register that was decoded within two cadences.
abbrev pub IsFresh : ℕ → ℕ → Option ℕ → Type 0
IsFresh now limit none = ⊥
IsFresh now limit (some ts) = now - ts ≤ limit

-- A command that all gates let through, with the control that it writes.
pub record IsPermitted (m : ControlMap) (g : GeneratorView) (verb : Verb) (q : Request)
    (at : Instants) (c : Control) (ctl : ControlDef) : Type 0 where
  pub role : may_operate q.role ≡ true
  pub name : ControlName
  pub named : verb_to_control verb ≡ some name
  pub found : m.controls name ≡ some ctl
  pub comms : g.comms ≡ healthy
  pub fresh : All (λ name. IsFresh at.checked (max_age_ms m) (g.value_ages name)) m.state_registers
  pub panel : g.panel_mode ≡ panel_auto
  pub engine : allowed verb g.engine_state ≡ true
  pub token : IsSpendable (lookup q.token c.tokens) q.who (some verb) at.consumed

-- What the command reports after a write, by the answer of the link.
abbrev pub reported : Bool → ErrorCode → ControlDef → Result ControlDef
reported true code ctl = done ctl
reported false code ctl = refused (record { code = code; http_status = 502 })

-- Either refused with nothing written, or permitted and written once.
abbrev pub Outcome :
    ControlMap
    → GeneratorView
    → Verb
    → Request
    → Instants
    → Bool
    → Control
    → Result ControlDef × Control
    → Type 0
Outcome m g verb q at answer c r =
    (IsRefused r.0 × Shrinks c r.1 × ((ctl : ControlDef) → ¬ IsPermitted m g verb q at c ctl))
    ⊎ (ctl : ControlDef) × IsPermitted m g verb q at c ctl
      × (r.0 ≡ reported answer modbus_failed ctl)
      × (r.1.sent ≡ to_write ctl ∷ c.sent)
      × (r.1.sent_ats ≡ c.sent_ats)
      × IsUnique r.1.tokens
      × (length r.1.tokens < length c.tokens)
      × (lookup q.token r.1.tokens ≡ none)
      × ((t : ℕ) → presence t r.1.tokens ≤ presence t c.tokens)

module _ (now limit : ℕ) (ages : ℕ → Option ℕ) where
  fresh_lem : (o : Option ℕ) → is_stale now limit o ≡ false → IsFresh now limit o
  unfolding is_stale
  fresh_lem none h = cc
  fresh_lem (some ts) h = ground arith

  stale-All :
      (names : List ℕ)
      → is_nil (keep (λ name. is_stale now limit (ages name)) names) ≡ true
      → All (λ name. IsFresh now limit (ages name)) names
  stale-All [] h = tt
  stale-All (n ∷ ns) h = elim (Bool-cases (is_stale now limit (ages n))) [
    | inl stale ↦ absurd (ground arith)
    | inr fresh ↦ (fresh_lem (ages n) fresh, stale-All ns (ground arith))
  ]

  stale_lem : (o : Option ℕ) → IsFresh now limit o → is_stale now limit o ≡ false
  unfolding is_stale
  stale_lem none h = absurd h
  stale_lem (some ts) h = ground arith

  All-stale :
      (names : List ℕ)
      → All (λ name. IsFresh now limit (ages name)) names
      → is_nil (keep (λ name. is_stale now limit (ages name)) names) ≡ true
  All-stale [] h = refl
  All-stale (n ∷ ns) h = ground (arith, stale_lem (ages n) h.0, All-stale ns h.1)

healthy_lem : (s : CommsState) → is_healthy s ≡ true → s ≡ healthy
healthy_lem s h = ground arith

auto_lem :
    (verb : Verb) (name : ControlName) (mode : PanelMode)
    → verb_to_control verb ≡ some name
    → (not (panel_auto_required verb) || is_auto mode) ≡ true
    → mode ≡ panel_auto
unfolding verb_to_control panel_auto_required
auto_lem verb name mode e h = ground arith

pub report_lem :
    (answer : Bool) (who token : ℕ) (code : ErrorCode) (ctl : ControlDef) (c : Control)
    → let r = report answer who token code ctl c in
      (r.0 ≡ reported answer code ctl)
      × (r.1.sent ≡ c.sent)
      × (r.1.sent_ats ≡ c.sent_ats)
      × (r.1.tokens ≡ c.tokens)
unfolding report write_audit write_event
report_lem true who token code ctl c = (refl, refl, refl, refl)
report_lem false who token code ctl c = (refl, refl, refl, refl)

module _ (m : ControlMap) (g : GeneratorView) (verb : Verb) (q : Request) (at : Instants)
    (answer : Bool) (c : Control) where
  abbrev Q : Result ControlDef × Control → Type 0
  Q = Outcome m g verb q at answer c

  -- The end of the command, once the gates hold.
  committed :
      (ctl : ControlDef)
      → IsUnique c.tokens
      → at.evicted ≤ at.consumed
      → (IsSpendable (lookup q.token c.tokens) q.who (some verb) at.consumed
          → IsPermitted m g verb q at c ctl)
      → Q (
          (consume_token q.token q.who (some verb) at.evicted at.consumed
              >> (client_write ctl >> report answer q.who q.token modbus_failed ctl))
            c)
  unfolding client_write
  committed ctl u later permit =
      consume_rule Q q.token q.who (some verb) at.evicted at.consumed c _ u later
        (λ e c' quiet unspendable. inl (tt, quiet, λ other p. unspendable p.token))
        (λ ct c' spent.
          let (value, sent, sent_ats, tokens) =
            report_lem answer q.who q.token modbus_failed ctl (client_write ctl c').1 in
          inr (
            ctl,
            permit spent.spendable,
            value,
            sent ∙ ap (λ (ws : List Write). to_write ctl ∷ ws) spent.shrinks.same,
            sent_ats ∙ spent.shrinks.same_ats,
            subst (λ (d : Dict ConfirmToken). IsUnique d) (sym tokens) (spent.shrinks.unique u),
            omega (arith, ap (λ (d : Dict ConfirmToken). length d) tokens, spent.less),
            ap (lookup q.token) tokens ∙ spent.gone,
            λ t.
                omega (
                  arith,
                  ap (λ (d : Dict ConfirmToken). presence t d) tokens,
                  spent.shrinks.held t,
                ),
          ))

  -- The tokens are a dictionary, and the clock does not go back. A command to the generator is refused,
  -- with nothing written, if a gate fails; otherwise one write goes out. The gates are: the role may operate,
  -- the verb and its control are known, the link is healthy and not degraded, every register behind the
  -- engine state and the panel was decoded within two cadences, the key switch is in AUTO, the engine
  -- state allows the verb, and the token may be spent on it by this operator. The token is then gone,
  -- none is added, and the answer of the link decides what is reported.
  pub execute_outcome :
      IsUnique c.tokens
      → at.evicted ≤ at.consumed
      → Outcome m g verb q at answer c (execute m g verb q at answer c)
  unfolding execute no_control write_audit stale_control_registers
  execute_outcome u later =
      require_rule Q (may_operate q.role) _ _ _ _ _ _ _ c
        (λ e. inl (tt, Shrinks-of_eq c _ refl refl refl, λ other p. cc (p.role)))
        (λ role.
          need_rule Q (verb_to_control verb) _ _ c
            (λ e. inl (tt, Shrinks-of_eq c _ refl refl refl, λ other p. cc (p.named)))
            (λ name named.
              need_rule Q (m.controls name) _ _ c
                (λ e. inl (tt, Shrinks-of_eq c _ refl refl refl, λ other p. unfound p named e))
                (λ ctl found.
                  require_rule Q (is_healthy g.comms) _ _ _ _ _ _ _ c
                    (λ e.
                      inl
                        (tt, Shrinks-of_eq c _ refl refl refl, λ other p. ground (arith, p.comms)))
                    (λ comms.
                      require_rule Q (is_nil (stale_control_registers m g at.checked)) _ _ _ _ _ _ _
                        c (λ e. inl (tt, Shrinks-of_eq c _ refl refl refl, λ other p. stale p e))
                        (λ fresh.
                          require_rule Q (not (panel_auto_required verb) || is_auto g.panel_mode) _
                            _ _ _ _ _ _ c
                            (λ e. inl (tt, Shrinks-of_eq c _ refl refl refl, λ other p. off p e))
                            (λ panel.
                              require_rule Q (allowed verb g.engine_state) _ _ _ _ _ _ _ c
                                (λ e.
                                  inl (
                                    tt,
                                    Shrinks-of_eq c _ refl refl refl,
                                    λ other p. cc (p.engine),
                                  ))
                                (λ engine. committed ctl u later (λ token. record {
                                  role = role;
                                  name = name;
                                  named = named;
                                  found = found;
                                  comms = healthy_lem g.comms comms;
                                  fresh = fresh_registers fresh;
                                  panel = auto_lem verb name g.panel_mode named panel;
                                  engine = engine;
                                  token = token;
                                }))))))))
    where
      fresh_registers :
          is_nil (stale_control_registers m g at.checked) ≡ true
          → All (λ name. IsFresh at.checked (max_age_ms m) (g.value_ages name)) m.state_registers
      fresh_registers h = stale-All at.checked (max_age_ms m) g.value_ages m.state_registers h

      unfound :
          {name : ControlName} {other : ControlDef}
          → IsPermitted m g verb q at c other
          → verb_to_control verb ≡ some name
          → m.controls name ≡ none
          → ⊥
      unfound p named e = cc

      stale :
          {other : ControlDef}
          → IsPermitted m g verb q at c other
          → is_nil (stale_control_registers m g at.checked) ≡ false
          → ⊥
      stale p e = cc (All-stale at.checked (max_age_ms m) g.value_ages m.state_registers p.fresh)

      off :
          {other : ControlDef}
          → IsPermitted m g verb q at c other
          → (not (panel_auto_required verb) || is_auto g.panel_mode) ≡ false
          → ⊥
      off p e = ground (arith, p.panel)
