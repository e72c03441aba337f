-- ===== src/Genwatch/Accounts/Codes.antt =====
-- A one-time code is accepted once (`verify` of GenWatch-main/backend/genwatch/services/totp.py and
-- `authenticate` of services/users.py).
use complete_gen_project.Base.{
  ℕ, ◌<◌, ◌≡◌, refl, subst, Bool, true, false, not, Option, none, some, List, [], ◌∷◌, ltb,
  if◌then◌else◌, if_lem, arith,
}
use complete_gen_project.Genwatch.Accounts.{
  Account, LoginConfig, TypedCode, Attempt, LoginResult, by_password, by_counter, by_recovery,
  denied, record_failure, user_record_login_ok, user_record_login_fail, has_unused, counters,
  match_counter, verify_code, by_code, try_recovery, second_factor, authenticate, finish_login,
  login, run_logins, totp_required_for,
}

-- The counters of the codes that were accepted, in their order.
abbrev pub accepted_counters : List LoginResult → List ℕ
accepted_counters [] = []
accepted_counters (by_counter n ∷ rs) = n ∷ accepted_counters rs
accepted_counters (_ ∷ rs) = accepted_counters rs

abbrev pub IsRising : ℕ → List ℕ → Type 0
IsRising last [] = Unit
IsRising last (n ∷ ns) = (last < n) × IsRising n ns

-- A login that accepts the code of a counter, above the last one, or keeps the last one.
abbrev Moves : ℕ → LoginResult → ℕ → Type 0
Moves last (by_counter n) next = (last < n) × (next ≡ n)
Moves last _ next = next ≡ last

abbrev Rises : ℕ → LoginResult × Account → Type 0
Rises last r = Moves last r.0 r.1.totp_last_counter

Rises-finish_login :
    (last : ℕ) (r : LoginResult) (a : Account)
    → Rises last (r, a)
    → Rises last (finish_login (r, a))
unfolding user_record_login_ok
Rises-finish_login last by_password a h = h
Rises-finish_login last (by_counter n) a h = h
Rises-finish_login last (by_recovery n) a h = h
Rises-finish_login last (denied code) a h = h

IsRising-step :
    (last : ℕ) (r : LoginResult) (next : ℕ) (rs : List LoginResult)
    → Moves last r next
    → IsRising next (accepted_counters rs)
    → IsRising last (accepted_counters (r ∷ rs))
IsRising-step last by_password next rs h k =
    subst (λ (n : ℕ). IsRising n (accepted_counters rs)) h k
IsRising-step last (by_counter n) next rs h k =
    (h.0, subst (λ (m : ℕ). IsRising m (accepted_counters rs)) h.1 k)
IsRising-step last (by_recovery n) next rs h k =
    subst (λ (m : ℕ). IsRising m (accepted_counters rs)) h k
IsRising-step last (denied code) next rs h k =
    subst (λ (m : ℕ). IsRising m (accepted_counters rs)) h k

module _ (verify_password : ℕ → ℕ → Bool) (code_at : ℕ → ℕ → ℕ) (is_well_formed : ℕ → Bool) where
  match_counter-lt :
      (secret last code : ℕ) (ns : List ℕ) (n : ℕ)
      → match_counter verify_password code_at is_well_formed secret last code ns ≡ some n
      → last < n
  unfolding match_counter
  match_counter-lt secret last code [] n e = cc
  match_counter-lt secret last code (m ∷ ns) n e =
      ground (arith, match_counter-lt secret last code ns n)

  verify_code-lt :
      (secret : ℕ) (code : Option ℕ) (now last n : ℕ)
      → verify_code verify_password code_at is_well_formed secret code now last ≡ some n
      → last < n
  unfolding verify_code
  verify_code-lt secret none now last n e = cc
  verify_code-lt secret (some code) now last n e =
      (elim (is_well_formed secret)
          as (λ b.
            (if b
                then match_counter verify_password code_at is_well_formed secret last code
                    (counters now)
                else none)
              ≡ some n
            → last < n) [
              | true ↦ match_counter-lt secret last code (counters now) n
              | false ↦ (λ k. cc)
            ])
        e

  Rises-by_code :
      (c : LoginConfig) (code : TypedCode) (now : ℕ) (found : Option ℕ) (a : Account)
      → ((n : ℕ) → found ≡ some n → a.totp_last_counter < n)
      → Rises a.totp_last_counter
          (by_code verify_password code_at is_well_formed c code now found a)
  unfolding by_code try_recovery record_failure user_record_login_fail
  Rises-by_code c code now (some n) a h = (h n refl, refl)
  Rises-by_code c code now none a h =
      if_lem (Rises a.totp_last_counter) (has_unused code.hash a.recovery_codes) _ _ refl refl

  Rises-second_factor :
      (c : LoginConfig) (code : Option TypedCode) (now : ℕ) (a : Account)
      → Rises a.totp_last_counter
          (second_factor verify_password code_at is_well_formed c code now a)
  unfolding second_factor
  Rises-second_factor c none now a = refl
  Rises-second_factor c (some code) now a =
      Rises-by_code c code now
        (verify_code verify_password code_at is_well_formed a.totp_secret code.six_digits now
          a.totp_last_counter)
        a (verify_code-lt a.totp_secret code.six_digits now a.totp_last_counter)

  Rises-authenticate :
      (c : LoginConfig) (t : Attempt) (a : Account)
      → Rises a.totp_last_counter (authenticate verify_password code_at is_well_formed c t a)
  unfolding authenticate record_failure user_record_login_fail
  Rises-authenticate c t a =
      if_lem P (ltb t.now a.locked_until) _ _
        (if_lem P (verify_password t.password a.password_hash) _ _ refl refl)
        (if_lem P (not (verify_password t.password a.password_hash)) _ _ refl (
          if_lem P a.disabled _ _ refl (
            if_lem P (not (totp_required_for c a)) _ _ refl (
              if_lem P (not a.totp_enabled) _ _ refl (Rises-second_factor c t.totp_code t.now a)))))
    where
      P : LoginResult × Account → Type 0
      P r = Rises a.totp_last_counter r

  -- Over any sequence of logins to an account, the counters of the one-time codes that are accepted rise,
  -- from above the last one that the account has spent: no code is accepted twice, nor is the code of an
  -- earlier counter, whatever fails, is locked or is reset in between.
  pub run_logins-accepted_counters :
      (c : LoginConfig) (ts : List Attempt) (a : Account)
      → IsRising a.totp_last_counter
          (accepted_counters (run_logins verify_password code_at is_well_formed c ts a).0)
  unfolding run_logins login
  run_logins-accepted_counters c [] a = tt
  run_logins-accepted_counters c (t ∷ ts) a =
      let r = authenticate verify_password code_at is_well_formed c t a in
      IsRising-step a.totp_last_counter (finish_login r).0 _ _
        (Rises-finish_login a.totp_last_counter r.0 r.1 (Rises-authenticate c t a))
        (run_logins-accepted_counters c ts (finish_login r).1)
