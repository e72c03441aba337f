-- ===== src/Genwatch/AtsControl/Release.antt =====
-- Backing a maintained command out (`execute` of
-- GenWatch-main/backend/genwatch/services/ats_control.py).
use complete_gen_project.Base.{
  ◌≤◌, ◌≡◌, inl, inr, ◌∙◌, ap, Bool, true, false, Option, some, ◌∷◌, arith,
}
use complete_gen_project.Base.Dicts.{lookup, IsUnique}
use complete_gen_project.Genwatch.Validation.{ControlDef}
use complete_gen_project.Genwatch.Tokens.{ats_modbus_failed, Control, Result}
use complete_gen_project.Genwatch.Tokens.Verdict.{IsSpendable}
use complete_gen_project.Genwatch.Control.{ControlName, ControlMap, Instants, Request, to_write}
use complete_gen_project.Genwatch.Control.Gates.{reported}
use complete_gen_project.Genwatch.Ats.Model.{AtsService}
use complete_gen_project.Genwatch.AtsControl.{
  role_satisfies, AtsCommandSpec, ats_command_spec, is_lost, Command, control_name, and_then,
  execute_command,
}
use complete_gen_project.Genwatch.AtsControl.Gates.{IsPermitted, Outcome, execute_command_outcome}

release_name :
    (spec : AtsCommandSpec) (asserts : Bool)
    → spec.is_maintained ≡ true
    → asserts ≡ false
    → control_name spec asserts ≡ spec.release_control
unfolding control_name
release_name spec asserts maintained releases = rw (maintained, releases)

-- A maintained command is released by everyone whose role suffices, with a token for it, whenever the link
-- is not lost: no fault, and no loss of authority, can refuse it. The register of the release is written
-- once.
pub execute_command_release :
    (m : ControlMap) (s : AtsService) (k : Command) (q : Request) (at : Instants) (answer : Bool)
    (c : Control) (spec : AtsCommandSpec) (ctl : ControlDef)
    → ats_command_spec k.verb ≡ some spec
    → spec.is_maintained ≡ true
    → k.asserts ≡ false
    → role_satisfies q.role spec.role ≡ true
    → is_lost s.snap.comms ≡ false
    → and_then spec.release_control m.controls ≡ some ctl
    → IsUnique c.tokens
    → at.evicted ≤ at.consumed
    → IsSpendable (lookup q.token c.tokens) q.who (some k.verb) at.consumed
    → let r = execute_command m s k q at answer c in
      (r.0 ≡ reported answer ats_modbus_failed ctl) × (r.1.sent_ats ≡ to_write ctl ∷ c.sent_ats)
execute_command_release m s k q at answer c spec ctl known maintained releases role comms found u
      later token =
    by_outcome (execute_command m s k q at answer c)
      (execute_command_outcome m s k q at answer c u later)
  where
    named : control_name spec k.asserts ≡ spec.release_control
    named = release_name spec k.asserts maintained releases

    permitted : IsPermitted m s k q at c ctl
    permitted = record {
      spec = spec;
      known = known;
      role = role;
      comms = comms;
      asserts = λ a. absurd (ground arith);
      found = rw named found;
      token = token;
    }

    same_control : (other : ControlDef) → IsPermitted m s k q at c other → other ≡ ctl
    same_control other p =
        let same : p.spec ≡ spec = cc (known, p.known) in
        cc (
          ap (λ (t : AtsCommandSpec). and_then (control_name t k.asserts) m.controls) same,
          p.found,
          ap (λ (o : Option ControlName). and_then o m.controls) named,
          found,
        )

    by_outcome :
        (r : Result ControlDef × Control)
        → Outcome m s k q at answer c r
        → (r.0 ≡ reported answer ats_modbus_failed ctl) × (r.1.sent_ats ≡ to_write ctl ∷ c.sent_ats)
    by_outcome r (inl (refusal, same, not_permitted)) = absurd (not_permitted ctl permitted)
    by_outcome r (inr (other, p, value, sent, same_sent, u', less, gone, held)) =
        let e = same_control other p in
        (
          value ∙ ap (reported answer ats_modbus_failed) e,
          sent ∙ ap (λ (x : ControlDef). to_write x ∷ c.sent_ats) e,
        )
