-- ===== src/Genwatch/Tokens/Verdict.antt =====
-- When a confirm token is accepted (`consume_token` of
-- GenWatch-main/backend/genwatch/services/control.py).
use complete_gen_project.Base.{
  ℕ, ◌≤◌, ◌≡◌, ◌↔◌, ◌∙◌, refl, ap, Bool, true, false, not, Option, none, some, [], ◌∷◌, ltb, ◌==◌,
  ◌&&◌, if◌then◌else◌, arith, Bool-cases, inl, inr,
}
use complete_gen_project.Base.Dicts.{Dict, lookup, remove, lookup-remove, IsUnique}
use complete_gen_project.Genwatch.Tokens.{
  Verb, ConfirmToken, Control, Result, done, refused, verb_matches, require_rule, evict_loop,
  evict_expired, pop_token, check_token, consume_token, evict_token, write_audit,
}

abbrev pub is_expired : ℕ → Option ConfirmToken → Bool
is_expired now none = false
is_expired now (some ct) = ltb ct.expires_monotonic now

-- The token as it is after an eviction.
abbrev pub live : ℕ → Option ConfirmToken → Option ConfirmToken
live now o = if is_expired now o then none else o

evict_token-lookup :
    (now j : ℕ) (ct : ConfirmToken) (c : Control) (t : ℕ)
    → lookup t (evict_token now j ct c).tokens
      ≡ (if (ltb ct.expires_monotonic now && j == t) then none else lookup t c.tokens)
unfolding evict_token
evict_token-lookup now j ct c t = elim (Bool-cases (ltb ct.expires_monotonic now)) [
  | inl old ↦ rw old (lookup-remove j t c.tokens)
  | inr fresh ↦ rw fresh refl
]

live_step :
    (now j t : ℕ) (ct : ConfirmToken) (d : Dict ConfirmToken) (o : Option ConfirmToken)
    → lookup j d ≡ none
    → (if is_expired now (lookup t d)
        then none
        else (if (ltb ct.expires_monotonic now && j == t) then none else o))
      ≡ (if is_expired now (if j == t then some ct else lookup t d) then none else o)
live_step now j t ct d o u = elim (Bool-cases (j == t)) [
  | inl same ↦ rw (same, absent same) (ground arith)
  | inr other ↦ rw other (ground arith)
]
  where
    absent : (j == t) ≡ true → lookup t d ≡ none
    absent same = ground arith

evict_loop-lookup :
    (now : ℕ) (d : Dict ConfirmToken) (c : Control) (t : ℕ)
    → IsUnique d
    → lookup t (evict_loop now d c).tokens
      ≡ (if is_expired now (lookup t d) then none else lookup t c.tokens)
unfolding evict_loop lookup
evict_loop-lookup now [] c t u = refl
evict_loop-lookup now ((j, ct) ∷ d) c t u =
    evict_loop-lookup now d (evict_token now j ct c) t u.1
    ∙ ap (λ (o : Option ConfirmToken). if is_expired now (lookup t d) then none else o)
        (evict_token-lookup now j ct c t)
    ∙ live_step now j t ct d (lookup t c.tokens) u.0

-- An eviction takes the expired tokens, and no other.
pub evict_expired-lookup :
    (now : ℕ) (c : Control) (t : ℕ)
    → IsUnique c.tokens
    → lookup t (evict_expired now c).1.tokens ≡ live now (lookup t c.tokens)
unfolding evict_expired
evict_expired-lookup now c t u = evict_loop-lookup now c.tokens c t u

-- A token that may be spent.
abbrev pub IsSpendable : Option ConfirmToken → ℕ → Option Verb → ℕ → Type 0
IsSpendable none operator verb now = ⊥
IsSpendable (some ct) operator verb now =
    (now ≤ ct.expires_monotonic) × (ct.operator ≡ operator) × (verb_matches ct.verb verb ≡ true)

abbrev pub Accepts : Result ConfirmToken → Type 0
Accepts (done ct) = Unit
Accepts (refused e) = ⊥

pub check_token-IsSpendable :
    (o : Option ConfirmToken) (token operator : ℕ) (verb : Option Verb) (now : ℕ) (c : Control)
    → Accepts (check_token o token operator verb now c).0 ↔ IsSpendable o operator verb now
unfolding check_token
check_token-IsSpendable none token operator verb now c = ((λ h. h), (λ h. h))
check_token-IsSpendable (some ct) token operator verb now c =
    require_rule Q (not (ltb ct.expires_monotonic now)) _ _ _ _ _ _ _ c
      (λ late. (absurd, λ h. ground arith))
      (λ in_time.
        require_rule Q (ct.operator == operator) _ _ _ _ _ _ _ c
          (λ other. (absurd, λ h. ground arith))
          (λ own.
            require_rule Q (verb_matches ct.verb verb) _ _ _ _ _ _ _ c
              (λ unbound. (absurd, λ h. ground arith))
              (λ bound. ((λ h. (ground arith, ground arith, bound)), (λ h. tt)))))
  where
    Q : Result ConfirmToken × Control → Type 0
    Q r = Accepts r.0 ↔ IsSpendable (some ct) operator verb now

-- A check writes to the ledger alone.
pub check_token_rest :
    (o : Option ConfirmToken) (token operator : ℕ) (verb : Option Verb) (now : ℕ) (c : Control)
    → let c' = (check_token o token operator verb now c).1 in
      (c'.tokens ≡ c.tokens) × (c'.sent ≡ c.sent) × (c'.sent_ats ≡ c.sent_ats)
unfolding check_token write_audit
check_token_rest none token operator verb now c = (refl, refl, refl)
check_token_rest (some ct) token operator verb now c =
    require_rule Q (not (ltb ct.expires_monotonic now)) _ _ _ _ _ _ _ c (λ late. (refl, refl, refl))
      (λ in_time.
        require_rule Q (ct.operator == operator) _ _ _ _ _ _ _ c (λ other. (refl, refl, refl))
          (λ own.
            require_rule Q (verb_matches ct.verb verb) _ _ _ _ _ _ _ c
              (λ unbound. (refl, refl, refl)) (λ bound. (refl, refl, refl))))
  where
    Q : Result ConfirmToken × Control → Type 0
    Q r = (r.1.tokens ≡ c.tokens) × (r.1.sent ≡ c.sent) × (r.1.sent_ats ≡ c.sent_ats)

-- The state in which the token is checked.
abbrev pub popped : ℕ → ℕ → Control → Control
popped token evicted c =
    let c' = (evict_expired evicted c).1 in record c' { tokens = remove token c'.tokens }

pub consume_token_lem :
    (token operator : ℕ) (verb : Option Verb) (evicted now : ℕ) (c : Control)
    → consume_token token operator verb evicted now c
      ≡ check_token
          (lookup token (evict_expired evicted c).1.tokens)
          token
          operator
          verb
          now
          (popped token evicted c)
unfolding consume_token evict_expired pop_token
consume_token_lem token operator verb evicted now c = refl

live-IsSpendable :
    (o : Option ConfirmToken) (operator : ℕ) (verb : Option Verb) (evicted now : ℕ)
    → evicted ≤ now
    → IsSpendable (live evicted o) operator verb now ↔ IsSpendable o operator verb now
live-IsSpendable none operator verb evicted now h = ((λ s. s), (λ s. s))
live-IsSpendable (some ct) operator verb evicted now h =
    elim (Bool-cases (ltb ct.expires_monotonic evicted)) [
      | inl old ↦ rw old (absurd, λ s. ground arith)
      | inr fresh ↦ rw fresh ((λ s. s), (λ s. s))
    ]

-- The tokens are a dictionary, and the clock does not go back between the eviction and the check. A
-- confirm token is accepted exactly if it was issued and not used, has not expired, was issued to the
-- same operator, and not for another action. Whatever the verdict, the token is gone afterwards; the
-- other tokens stay, but for those that have expired.
pub consume_token_verdict :
    (token operator : ℕ) (verb : Option Verb) (evicted now : ℕ) (c : Control)
    → IsUnique c.tokens
    → evicted ≤ now
    → let r = consume_token token operator verb evicted now c in
      (Accepts r.0 ↔ IsSpendable (lookup token c.tokens) operator verb now)
      × (lookup token r.1.tokens ≡ none)
      × ((t : ℕ) → (token == t) ≡ false → lookup t r.1.tokens ≡ live evicted (lookup t c.tokens))
consume_token_verdict token operator verb evicted now c u h =
    rw (consume_token_lem token operator verb evicted now c) (
      rw (evict_expired-lookup evicted c token u) (
        (
          λ a. (live-IsSpendable _ operator verb evicted now h).0 (spend.0 a),
          λ s. spend.1 ((live-IsSpendable _ operator verb evicted now h).1 s),
        ),
        after token ∙ gone,
        λ t other. after t ∙ rest t other,
      ))
  where
    o : Option ConfirmToken
    o = live evicted (lookup token c.tokens)

    spend :
        Accepts (check_token o token operator verb now (popped token evicted c)).0
        ↔ IsSpendable o operator verb now
    spend = check_token-IsSpendable o token operator verb now (popped token evicted c)

    after :
        (t : ℕ)
        → lookup t (check_token o token operator verb now (popped token evicted c)).1.tokens
          ≡ (if token == t then none else lookup t (evict_expired evicted c).1.tokens)
    after t =
        ap (lookup t) (check_token_rest o token operator verb now (popped token evicted c)).0
        ∙ lookup-remove token t (evict_expired evicted c).1.tokens

    gone : (if token == token then none else lookup token (evict_expired evicted c).1.tokens) ≡ none
    gone = ground arith

    rest :
        (t : ℕ)
        → (token == t) ≡ false
        → (if token == t then none else lookup t (evict_expired evicted c).1.tokens)
          ≡ live evicted (lookup t c.tokens)
    rest t other = rw other (evict_expired-lookup evicted c t u)
