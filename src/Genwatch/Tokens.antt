-- ===== src/Genwatch/Tokens.antt =====
-- The confirm tokens (`ConfirmToken`, `issue_token`, `consume_token` and `_evict_expired_locked` of
-- GenWatch-main/backend/genwatch/services/control.py), with the errors and the audit ledger that the
-- two control services share. Operators and tokens are numbers, times are `time.monotonic()` in
-- milliseconds; the wall-clock fields of a token, which are for display, and texts are left out. The
-- lock makes each operation one step.
pub mod Verdict
pub mod Once
pub mod Spending
use complete_gen_project.Base.{
  ℕ, ◌+◌, ◌≡◌, refl, Bool, true, false, not, ◌&&◌, Option, none, some, List, [], ◌∷◌, ltb, ◌==◌,
  if◌then◌else◌,
}
use complete_gen_project.Base.Dicts.{Dict, lookup, remove, insert}
use complete_gen_project.Companion.IoDriver.{Position}
use complete_gen_project.Genwatch.LoadSource.{EngineState}

-- What a token may be issued for: the verbs of the generator, the commands of the switch, and any other
-- text.
pub data Verb : Type 0 where
  start stop exercise transfer test inhibit force_transfer bypass_delay : Verb
  other_verb : ℕ → Verb

abbrev pub verb_code : Verb → ℕ
verb_code start = 0
verb_code stop = 1
verb_code exercise = 2
verb_code transfer = 3
verb_code test = 4
verb_code inhibit = 5
verb_code force_transfer = 6
verb_code bypass_delay = 7
verb_code (other_verb n) = n + 8

abbrev pub verb_eq : Verb → Verb → Bool
verb_eq v w = verb_code v == verb_code w

pub record ConfirmToken : Type 0 where
  pub operator : ℕ
  pub expires_monotonic : ℕ
  pub verb : Option Verb

pub data CommsState : Type 0 where
  healthy degraded lost : CommsState

pub data PanelMode : Type 0 where
  panel_auto panel_manual panel_off panel_unknown : PanelMode

-- The second column of a row of the audit ledger, and its outcome.
pub data Detail : Type 0 where
  issued missing expired_token operator_mismatch verb_mismatch ttl : Detail
  bad_role no_register stale_registers not_authoritative blocking_fault : Detail
  no_override write_failed written : Detail
  bad_comms : CommsState → Detail
  bad_panel : PanelMode → Detail
  bad_state : EngineState → Detail

pub data Outcome : Type 0 where
  succeeded denied failed expired : Outcome

pub record AuditRow : Type 0 where
  pub who : ℕ
  pub detail : Detail
  pub token : ℕ
  pub outcome : Outcome

pub data ErrorCode : Type 0 where
  forbidden unknown_verb no_register comms_lost stale_data panel_mode_locked : ErrorCode
  invalid_state token_invalid token_expired token_mismatch token_action_mismatch : ErrorCode
  modbus_failed unknown_command ats_comms_lost ats_not_authoritative ats_fault : ErrorCode
  override_required ats_modbus_failed : ErrorCode

pub record ControlError : Type 0 where
  pub code : ErrorCode
  pub http_status : ℕ

-- A write on a Modbus link: one register, or several.
pub data Write : Type 0 where
  write_single : ℕ → ℕ → Write
  write_multiple : ℕ → ℕ → List ℕ → Write

-- The tokens, the ledger, the writes sent to the two links, and the outcomes of the command events,
-- the last ones first.
pub record Control : Type 0 where
  pub tokens : Dict ConfirmToken
  pub ledger : List AuditRow
  pub sent : List Write
  pub sent_ats : List Write
  pub command_events : List Bool

pub data Result (A : Type 0) : Type 0 where
  done : A → Result A
  refused : ControlError → Result A

-- A step of a service: it may raise a ControlError, and keeps the state that it has left.
abbrev pub Step : Type 0 → Type 0
Step A = Control → Result A × Control

module _ {A B : Type 0} where
  infixl 5 ◌>>=◌ ◌>>◌
  abbrev pub continue : Result A → (A → Step B) → Step B
  continue (refused e) f c = (refused e, c)
  continue (done x) f c = f x c

  abbrev pub ◌>>=◌ : Step A → (A → Step B) → Step B
  ◌>>=◌ m f c = let (r, c') = m c in continue r f c'

  abbrev pub ◌>>◌ : Step A → Step B → Step B
  m >> k = m >>= λ _. k

abbrev pub pure : {A : Type 0} → A → Step A
pure x c = (done x, c)

abbrev pub raise : {A : Type 0} → ErrorCode → ℕ → Step A
raise code status c = (refused (record { code = code; http_status = status }), c)

unfoldable pub write_audit : ℕ → Detail → ℕ → Outcome → Step (Unit {0})
write_audit who detail token outcome c = (
  done tt,
  record c {
    ledger = record { who = who; detail = detail; token = token; outcome = outcome } ∷ c.ledger;
  },
)

-- A guard that writes a row where it refuses.
unfoldable pub require : Bool → ℕ → Detail → ℕ → Outcome → ErrorCode → ℕ → Step (Unit {0})
unfolding write_audit
require ok who detail token outcome code status =
    if ok then pure tt else (do write_audit who detail token outcome; raise code status)

-- The state and the error of a refusal.
abbrev pub refusal :
    {A : Type 0} → ℕ → Detail → ℕ → Outcome → ErrorCode → ℕ → Control → Result A × Control
refusal who detail token outcome code status c = (
  refused (record { code = code; http_status = status }),
  (write_audit who detail token outcome c).1,
)

-- What is left to show after a guard: the refusal where it fails, and the rest where it holds.
pub require_rule :
    {B : Type 0} (Q : Result B × Control → Type 0) (ok : Bool) (who : ℕ) (detail : Detail)
    (token : ℕ) (outcome : Outcome) (code : ErrorCode) (status : ℕ) (k : Step B) (c : Control)
    → (ok ≡ false → Q (refusal who detail token outcome code status c))
    → (ok ≡ true → Q (k c))
    → Q ((require ok who detail token outcome code status >> k) c)
unfolding require
require_rule Q true who detail token outcome code status k c no_way way = way refl
require_rule Q false who detail token outcome code status k c no_way way = no_way refl

-- What is left to show after a step, for each way in which it ends.
pub bind_rule :
    {A B : Type 0} (Q : Result B × Control → Type 0) (m : Step A) (k : A → Step B) (c : Control)
    → ((e : ControlError) → (c' : Control) → m c ≡ (refused e, c') → Q (refused e, c'))
    → ((x : A) → (c' : Control) → m c ≡ (done x, c') → Q (k x c'))
    → Q ((m >>= k) c)
bind_rule {A} {B} Q m k c no_way way = split (m c).0 (m c).1 refl
  where
    split : (r : Result A) (c' : Control) → m c ≡ (r, c') → Q ((m >>= k) c)
    split (refused e) c' h = rw h (no_way e c' h)
    split (done x) c' h = rw h (way x c' h)

abbrev pub token_ttl_ms : ℕ
token_ttl_ms = 30000

unfoldable pub evict_token : ℕ → ℕ → ConfirmToken → Control → Control
unfolding write_audit remove
evict_token now t ct c =
    if ltb ct.expires_monotonic now
    then (write_audit ct.operator ttl t expired (record c { tokens = remove t c.tokens })).1
    else c

-- The loop of `_evict_expired_locked` over the tokens at its start.
unfoldable pub evict_loop : ℕ → Dict ConfirmToken → Control → Control
unfolding evict_token
evict_loop now [] c = c
evict_loop now ((t, ct) ∷ d) c = evict_loop now d (evict_token now t ct c)

unfoldable pub evict_expired : ℕ → Step (Unit {0})
unfolding evict_loop
evict_expired now c = (done tt, evict_loop now c.tokens c)

-- The first of the random tokens that is not in use; the random source is outside.
unfoldable pub draw_token : List ℕ → Dict ConfirmToken → Option ℕ
unfolding lookup
draw_token [] d = none
draw_token (t ∷ ts) d = elim (lookup t d) [ none ↦ some t | some ct ↦ draw_token ts d ]

abbrev pub new_token : ℕ → Option Verb → ℕ → ConfirmToken
new_token operator verb now = record {
  operator = operator;
  expires_monotonic = now + token_ttl_ms;
  verb = verb;
}

-- With `t` the token that was drawn after the eviction.
unfoldable pub store_token : ℕ → Option Verb → ℕ → ℕ → Step ConfirmToken
unfolding write_audit insert
store_token operator verb t now c =
    let ct = new_token operator verb now in
    let added = record c { tokens = insert t ct c.tokens } in
    (done ct, (write_audit operator issued t succeeded added).1)

-- `none` where the random source has not given a token that is free: the loop goes on.
unfoldable pub issue_drawn : Option ℕ → ℕ → Option Verb → ℕ → Control → Option (ℕ × Control)
unfolding store_token
issue_drawn none operator verb now c = none
issue_drawn (some t) operator verb now c = some (t, (store_token operator verb t now c).1)

unfoldable pub issue_token : ℕ → Option Verb → List ℕ → ℕ → ℕ → Control → Option (ℕ × Control)
unfolding evict_expired draw_token issue_drawn
issue_token operator verb draws evicted now c =
    let c' = (evict_expired evicted c).1 in
    issue_drawn (draw_token draws c'.tokens) operator verb now c'

-- The verb of the token, if it has one, is the one asked for, if one is.
abbrev pub verb_matches : Option Verb → Option Verb → Bool
verb_matches (some v) (some w) = verb_eq v w
verb_matches _ _ = true

-- The checks on a token that was popped.
unfoldable pub check_token : Option ConfirmToken → ℕ → ℕ → Option Verb → ℕ → Step ConfirmToken
unfolding require write_audit
check_token none token operator verb now = do
  write_audit operator missing token denied
  raise token_invalid 400
check_token (some ct) token operator verb now = do
  require (not (ltb ct.expires_monotonic now)) operator expired_token token denied token_expired 400
  require (ct.operator == operator) operator operator_mismatch token denied token_mismatch 403
  require (verb_matches ct.verb verb) operator verb_mismatch token denied token_action_mismatch 403
  pure ct

unfoldable pub pop_token : ℕ → Step (Option ConfirmToken)
unfolding lookup remove
pop_token token c = (done (lookup token c.tokens), record c { tokens = remove token c.tokens })

-- `_consume_token_locked`: the clock is read for the eviction, and again for the token.
unfoldable pub consume_token : ℕ → ℕ → Option Verb → ℕ → ℕ → Step ConfirmToken
unfolding evict_expired pop_token check_token
consume_token token operator verb evicted now = do
  evict_expired evicted
  ct ← pop_token token
  check_token ct token operator verb now
