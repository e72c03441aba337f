-- ===== src/Genwatch/Tokens/Once.antt =====
-- A token is spent once: what the operations on the tokens leave alone (`issue_token`, `consume_token`
-- and `_evict_expired_locked` of GenWatch-main/backend/genwatch/services/control.py).
use complete_gen_project.Base.{
  ℕ, ◌≤◌, ◌<◌, ◌≡◌, ◌∙◌, refl, sym, ap, Option, none, some, [], ◌∷◌, ltb, arith, length, Bool-cases,
  inl, inr, subst,
}
use complete_gen_project.Base.Dicts.{
  Dict, lookup, IsUnique, IsUnique-remove, length-remove, length-remove_lt, presence,
  presence-remove-le,
}
use complete_gen_project.Genwatch.Tokens.{
  Verb, ConfirmToken, Control, evict_token, evict_loop, evict_expired, check_token, consume_token,
  write_audit,
}
use complete_gen_project.Genwatch.Tokens.Verdict.{
  IsSpendable, Accepts, check_token-IsSpendable, check_token_rest, popped, consume_token_lem,
}

-- The tokens stay a dictionary, none is added and they become no more, and nothing is written on a
-- link.
pub record Shrinks (c c' : Control) : Type 0 where
  pub unique : IsUnique c.tokens → IsUnique c'.tokens
  pub fewer : length c'.tokens ≤ length c.tokens
  pub held : (t : ℕ) → presence t c'.tokens ≤ presence t c.tokens
  pub same : c'.sent ≡ c.sent
  pub same_ats : c'.sent_ats ≡ c.sent_ats

pub Shrinks-of_eq :
    (c c' : Control)
    → c'.tokens ≡ c.tokens
    → c'.sent ≡ c.sent
    → c'.sent_ats ≡ c.sent_ats
    → Shrinks c c'
Shrinks-of_eq c c' tokens sent sent_ats = record {
  unique = λ u. subst (λ (d : Dict ConfirmToken). IsUnique d) (sym tokens) u;
  fewer = omega (arith, ap (λ (d : Dict ConfirmToken). length d) tokens);
  held = λ t. omega (arith, ap (λ (d : Dict ConfirmToken). presence t d) tokens);
  same = sent;
  same_ats = sent_ats;
}

pub Shrinks-trans : (c c' c'' : Control) → Shrinks c c' → Shrinks c' c'' → Shrinks c c''
Shrinks-trans c c' c'' s t = record {
  unique = λ u. t.unique (s.unique u);
  fewer = omega arith;
  held = λ k. omega (arith, s.held k, t.held k);
  same = t.same ∙ s.same;
  same_ats = t.same_ats ∙ s.same_ats;
}

evict_token-Shrinks :
    (now t : ℕ) (ct : ConfirmToken) (c : Control) → Shrinks c (evict_token now t ct c)
unfolding evict_token write_audit
evict_token-Shrinks now t ct c = elim (Bool-cases (ltb ct.expires_monotonic now)) [
  | inl old ↦ rw old (record {
    unique = IsUnique-remove t c.tokens;
    fewer = length-remove t c.tokens;
    held = λ k. presence-remove-le t k c.tokens;
    same = refl;
    same_ats = refl;
  })
  | inr fresh ↦ rw fresh (record {
    unique = λ u. u;
    fewer = omega arith;
    held = λ k. omega arith;
    same = refl;
    same_ats = refl;
  })
]

evict_loop-Shrinks :
    (now : ℕ) (d : Dict ConfirmToken) (c : Control) → Shrinks c (evict_loop now d c)
unfolding evict_loop
evict_loop-Shrinks now [] c = record {
  unique = λ u. u;
  fewer = omega arith;
  held = λ k. omega arith;
  same = refl;
  same_ats = refl;
}
evict_loop-Shrinks now ((t, ct) ∷ d) c =
    Shrinks-trans c (evict_token now t ct c) _ (evict_token-Shrinks now t ct c)
      (evict_loop-Shrinks now d (evict_token now t ct c))

pub evict_expired-Shrinks : (now : ℕ) (c : Control) → Shrinks c (evict_expired now c).1
unfolding evict_expired
evict_expired-Shrinks now c = evict_loop-Shrinks now c.tokens c

present :
    (o : Option ConfirmToken) (operator : ℕ) (verb : Option Verb) (now : ℕ)
    → IsSpendable o operator verb now
    → (ct : ConfirmToken) × (o ≡ some ct)
present none operator verb now h = absurd h
present (some ct) operator verb now h = (ct, refl)

module _ (token operator : ℕ) (verb : Option Verb) (evicted now : ℕ) (c : Control) where
  abbrev evicted_state : Control
  evicted_state = (evict_expired evicted c).1

  popped-Shrinks : Shrinks c (popped token evicted c)
  popped-Shrinks = Shrinks-trans c evicted_state _ (evict_expired-Shrinks evicted c) (record {
    unique = IsUnique-remove token evicted_state.tokens;
    fewer = length-remove token evicted_state.tokens;
    held = λ k. presence-remove-le token k evicted_state.tokens;
    same = refl;
    same_ats = refl;
  })

  check_token-Shrinks :
      (o : Option ConfirmToken) (c : Control)
      → Shrinks c (check_token o token operator verb now c).1
  check_token-Shrinks o c =
      let (tokens, sent, sent_ats) = check_token_rest o token operator verb now c in
      Shrinks-of_eq c _ tokens sent sent_ats

  pub consume_token-Shrinks : Shrinks c (consume_token token operator verb evicted now c).1
  consume_token-Shrinks = rw (consume_token_lem token operator verb evicted now c) (
      Shrinks-trans c (popped token evicted c) _ popped-Shrinks
        (check_token-Shrinks (lookup token evicted_state.tokens) (popped token evicted c)))

  -- A token that is accepted was there, and is not any more.
  pub length-consume_token_lt :
      Accepts (consume_token token operator verb evicted now c).0
      → length (consume_token token operator verb evicted now c).1.tokens < length c.tokens
  length-consume_token_lt = rw (consume_token_lem token operator verb evicted now c) (λ a.
      let o = lookup token evicted_state.tokens in
      let spend =
        (check_token-IsSpendable o token operator verb now (popped token evicted c)).0 a in
      let (ct, e) = present o operator verb now spend in
      let rest = (check_token_rest o token operator verb now (popped token evicted c)).0 in
      omega (
        arith,
        length-remove_lt token evicted_state.tokens ct e,
        (evict_expired-Shrinks evicted c).fewer,
        ap (λ (d : Dict ConfirmToken). length d) rest,
      ))
