-- ===== src/Genwatch/Accounts.antt =====
-- The login to an account (GenWatch-main/backend/genwatch/services/users.py, with verify of
-- services/totp.py, the rows of db.py, and the reset of the counters after a login in api/auth.py). Times
-- are whole seconds. The checks of hashes and of codes are parameters: a password is checked against a
-- hash, and a secret gives a code for a counter. Texts and audit rows are left out.
pub mod Lockout
pub mod Codes
use complete_gen_project.Base.{
  ℕ, ◌+◌, ◌-◌, ◌*◌, ◌/◌, ◌^◌, min, max, Bool, true, false, not, ◌&&◌, ◌||◌, Option, none, some,
  List, [], ◌∷◌, ltb, leb, ◌==◌, if◌then◌else◌,
}

-- A recovery code is its hash, and whether it was used.
pub record Account : Type 0 where
  pub password_hash : ℕ
  pub disabled : Bool
  pub totp_enabled : Bool
  pub totp_secret : ℕ
  pub totp_last_counter : ℕ
  pub failed_attempts : ℕ
  pub locked_until : ℕ
  pub recovery_codes : List (ℕ × Bool)

pub record LoginConfig : Type 0 where
  pub lockout_threshold : ℕ
  pub lockout_seconds : ℕ
  pub lockout_max_seconds : ℕ
  pub require_totp : Bool

-- What was typed as a second factor: its digits, where these are six, and its hash as a recovery code.
-- Six digits that are not all ASCII, on which `hmac.compare_digest` raises TypeError, are left out.
pub record TypedCode : Type 0 where
  pub six_digits : Option ℕ
  pub hash : ℕ

pub record Attempt : Type 0 where
  pub password : ℕ
  pub totp_code : Option TypedCode
  pub now : ℕ

pub data LoginCode : Type 0 where
  invalid_credentials account_locked totp_enrollment_required totp_required totp_invalid : LoginCode

-- A login is by password alone, by the code of a counter, or by a recovery code.
pub data LoginResult : Type 0 where
  by_password : LoginResult
  by_counter : ℕ → LoginResult
  by_recovery : ℕ → LoginResult
  denied : LoginCode → LoginResult

abbrev pub is_ok : LoginResult → Bool
is_ok (denied code) = false
is_ok _ = true

abbrev pub max_doublings : ℕ
max_doublings = 10

-- The time of the lockout that this failure arms: 0 for none.
unfoldable pub lock_for : LoginConfig → ℕ → ℕ
lock_for c attempts =
    let threshold = max 1 c.lockout_threshold in
    if not (c.lockout_seconds == 0) && leb threshold attempts
    then min (max c.lockout_seconds c.lockout_max_seconds)
        (c.lockout_seconds * 2 ^ min (attempts - threshold) max_doublings)
    else 0

-- `user_record_login_fail`
unfoldable pub user_record_login_fail : ℕ → Account → Account
user_record_login_fail until a = record a {
  failed_attempts = a.failed_attempts + 1;
  locked_until = max a.locked_until until;
}

-- `_record_failure`
unfoldable pub record_failure : LoginConfig → ℕ → Account → Account
unfolding lock_for user_record_login_fail
record_failure c now a =
    let lock = lock_for c (a.failed_attempts + 1) in
    user_record_login_fail (if lock == 0 then 0 else now + lock) a

unfoldable pub user_record_login_ok : Account → Account
user_record_login_ok a = record a { failed_attempts = 0; locked_until = 0 }

abbrev pub totp_required_for : LoginConfig → Account → Bool
totp_required_for c a = a.totp_enabled || c.require_totp

abbrev pub has_unused : ℕ → List (ℕ × Bool) → Bool
has_unused h [] = false
has_unused h ((k, used) ∷ codes) = (k == h && not used) || has_unused h codes

abbrev pub spend : ℕ → List (ℕ × Bool) → List (ℕ × Bool)
spend h [] = []
spend h ((k, used) ∷ codes) = (k, used || (k == h)) ∷ spend h codes

abbrev pub period_s : ℕ
period_s = 30

-- The counters that are tried, with a drift of one step.
abbrev pub counters : ℕ → List ℕ
counters now = (now / period_s - 1) ∷ now / period_s ∷ (now / period_s + 1) ∷ []

-- What a login that is accepted resets.
abbrev pub finish_login : LoginResult × Account → LoginResult × Account
finish_login r = if is_ok r.0 then (r.0, user_record_login_ok r.1) else r

module _ (verify_password : ℕ → ℕ → Bool) (code_at : ℕ → ℕ → ℕ) (is_well_formed : ℕ → Bool) where
  -- The loop of `verify`: a counter that was spent is passed over.
  unfoldable pub match_counter : ℕ → ℕ → ℕ → List ℕ → Option ℕ
  match_counter secret last code [] = none
  match_counter secret last code (n ∷ ns) =
      let rest = match_counter secret last code ns in
      if leb n last then rest else if code_at secret n == code then some n else rest

  -- `verify` of services/totp.py
  unfoldable pub verify_code : ℕ → Option ℕ → ℕ → ℕ → Option ℕ
  unfolding match_counter
  verify_code secret none now last = none
  verify_code secret (some code) now last =
      if is_well_formed secret then match_counter secret last code (counters now) else none

  -- The recovery codes, after the code of no counter matched.
  unfoldable pub try_recovery : LoginConfig → TypedCode → ℕ → Account → LoginResult × Account
  unfolding record_failure
  try_recovery c code now a =
      if has_unused code.hash a.recovery_codes
      then (by_recovery code.hash, record a { recovery_codes = spend code.hash a.recovery_codes })
      else (denied totp_invalid, record_failure c now a)

  unfoldable pub by_code : LoginConfig → TypedCode → ℕ → Option ℕ → Account → LoginResult × Account
  unfolding try_recovery
  by_code c code now (some n) a = (by_counter n, record a { totp_last_counter = n })
  by_code c code now none a = try_recovery c code now a

  unfoldable pub second_factor :
      LoginConfig → Option TypedCode → ℕ → Account → LoginResult × Account
  unfolding by_code verify_code
  second_factor c none now a = (denied totp_required, a)
  second_factor c (some code) now a =
      by_code c code now (verify_code a.totp_secret code.six_digits now a.totp_last_counter) a

  -- `authenticate`, for an account that exists.
  unfoldable pub authenticate : LoginConfig → Attempt → Account → LoginResult × Account
  unfolding second_factor record_failure
  authenticate c t a =
      if ltb t.now a.locked_until
      then (if verify_password t.password a.password_hash
          then (denied account_locked, a)
          else (denied invalid_credentials, record_failure c t.now a))
      else if not (verify_password t.password a.password_hash)
      then (denied invalid_credentials, record_failure c t.now a)
      else if a.disabled
      then (denied invalid_credentials, a)
      else if not (totp_required_for c a)
      then (by_password, a)
      else if not a.totp_enabled
      then (denied totp_enrollment_required, a)
      else second_factor c t.totp_code t.now a

  -- The login of api/auth.py, without its rate limits.
  unfoldable pub login : LoginConfig → Attempt → Account → LoginResult × Account
  unfolding authenticate user_record_login_ok
  login c t a = finish_login (authenticate c t a)

  unfoldable pub run_logins : LoginConfig → List Attempt → Account → List LoginResult × Account
  unfolding login
  run_logins c [] a = ([], a)
  run_logins c (t ∷ ts) a =
      let (result, a1) = login c t a in
      let (results, a2) = run_logins c ts a1 in (result ∷ results, a2)
