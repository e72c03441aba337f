-- ===== src/Genwatch/Tokens/Spending.antt =====
-- The step of a command that spends its token (`consume_token` in the two control services of
-- GenWatch-main/backend/genwatch/services).
use complete_gen_project.Base.{ℕ, ◌≤◌, ◌<◌, ◌≡◌, sym, ap, subst, ◌∙◌, ◌↔◌, Option, none, length}
use complete_gen_project.Base.Dicts.{lookup, IsUnique}
use complete_gen_project.Genwatch.Tokens.{
  Verb, ConfirmToken, ControlError, Control, Step, Result, done, refused, ◌>>=◌, bind_rule,
  consume_token,
}
use complete_gen_project.Genwatch.Tokens.Verdict.{IsSpendable, Accepts, consume_token_verdict}
use complete_gen_project.Genwatch.Tokens.Once.{
  Shrinks, consume_token-Shrinks, length-consume_token_lt,
}

-- What is known where a token was accepted.
pub record IsSpent (token operator : ℕ) (verb : Option Verb) (now : ℕ) (c c' : Control)
    : Type 0 where
  pub shrinks : Shrinks c c'
  pub spendable : IsSpendable (lookup token c.tokens) operator verb now
  pub gone : lookup token c'.tokens ≡ none
  pub less : length c'.tokens < length c.tokens

module _ {B : Type 0} (Q : Result B × Control → Type 0) (token operator : ℕ) (verb : Option Verb)
    (evicted now : ℕ) (c : Control) where
  abbrev outcome : Result ConfirmToken × Control
  outcome = consume_token token operator verb evicted now c

  -- What is left to show after the token, for each verdict.
  pub consume_rule :
      (k : ConfirmToken → Step B)
      → IsUnique c.tokens
      → evicted ≤ now
      → ((e : ControlError)
          → (c' : Control) → Shrinks c c'
          → ¬ IsSpendable (lookup token c.tokens) operator verb now
          → Q (refused e, c'))
      → ((ct : ConfirmToken) → (c' : Control) → IsSpent token operator verb now c c' → Q (k ct c'))
      → Q ((consume_token token operator verb evicted now >>= k) c)
  consume_rule k u later no_way way =
      bind_rule Q (consume_token token operator verb evicted now) k c
        (λ e c' h.
          no_way e c' (shrunk c' (state h))
            (λ p. subst (λ (x : Result ConfirmToken × Control). Accepts x.0) h (verdict.0.1 p)))
        (λ ct c' h. way ct c' (record {
          shrinks = shrunk c' (state h);
          spendable = verdict.0.0 (accepted ct c' h);
          gone = ap (λ (x : Control). lookup token x.tokens) (sym (state h)) ∙ verdict.1;
          less =
              subst (λ (x : Control). length x.tokens < length c.tokens) (state h)
                (length-consume_token_lt token operator verb evicted now c (accepted ct c' h));
        }))
    where
      verdict :
          (Accepts outcome.0 ↔ IsSpendable (lookup token c.tokens) operator verb now)
          × (lookup token outcome.1.tokens ≡ none)
      verdict =
          let v = consume_token_verdict token operator verb evicted now c u later in (v.0, v.1)

      state : {r : Result ConfirmToken} {c' : Control} → outcome ≡ (r, c') → outcome.1 ≡ c'
      state h = ap (λ (x : Result ConfirmToken × Control). x.1) h

      shrunk : (c' : Control) → outcome.1 ≡ c' → Shrinks c c'
      shrunk c' e = subst (Shrinks c) e (consume_token-Shrinks token operator verb evicted now c)

      accepted : (ct : ConfirmToken) (c' : Control) → outcome ≡ (done ct, c') → Accepts outcome.0
      accepted ct c' h = subst (λ (x : Result ConfirmToken × Control). Accepts x.0) (sym h) tt
