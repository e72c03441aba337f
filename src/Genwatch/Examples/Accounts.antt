-- ===== src/Genwatch/Examples/Accounts.antt =====
-- The theorems on the login at concrete inputs.
use complete_gen_project.Base.{
  ℕ, ◌+◌, ◌≡◌, refl, Bool, true, false, none, some, [], ◌∷◌, ◌==◌, All, arith,
}
use complete_gen_project.Genwatch.Accounts.{
  Account, LoginConfig, TypedCode, Attempt, LoginResult, is_ok, run_logins,
}
use complete_gen_project.Genwatch.Accounts.Lockout.{run_logins-lockout}
use complete_gen_project.Genwatch.Accounts.Codes.{
  accepted_counters, IsRising, run_logins-accepted_counters,
}

-- A hash is the password, and the code of a counter is the secret and the counter.
abbrev verify_password : ℕ → ℕ → Bool
verify_password typed hash = typed == hash

abbrev code_at : ℕ → ℕ → ℕ
code_at secret counter = secret + counter

abbrev is_well_formed : ℕ → Bool
is_well_formed secret = true

abbrev policy : LoginConfig
policy = record {
  lockout_threshold = 5;
  lockout_seconds = 900;
  lockout_max_seconds = 3600;
  require_totp = true;
}

-- After four wrong passwords, with two-factor login.
abbrev account : Account
account = record {
  password_hash = 77;
  disabled = false;
  totp_enabled = true;
  totp_secret = 500;
  totp_last_counter = 10;
  failed_attempts = 4;
  locked_until = 0;
  recovery_codes = (9, false) ∷ [];
}

abbrev typed : ℕ → TypedCode
typed digits = record { six_digits = some digits; hash = 0 }

abbrev wrong : Attempt
wrong = record { password = 78; totp_code = none; now = 600 }

-- The right password with the code of counter 20, twice.
abbrev right : ℕ → Attempt
right now = record { password = 77; totp_code = some (typed 520); now = now }

run_logins-lockout_example :
    All
      (λ (r : LoginResult). is_ok r ≡ false)
      (run_logins verify_password code_at is_well_formed policy
        (wrong ∷ right 601 ∷ right 1499 ∷ [])
        account).0
run_logins-lockout_example =
    run_logins-lockout verify_password code_at is_well_formed policy wrong
      (right 601 ∷ right 1499 ∷ []) account refl (omega arith) (omega arith)
      (omega arith, (omega arith, tt))

replayed_test :
    accepted_counters
      (run_logins verify_password code_at is_well_formed policy
        (right 600 ∷ right 601 ∷ [])
        account).0
    ≡ 20 ∷ []
unfolding run_logins
replayed_test = refl

run_logins-accepted_counters_example : IsRising 10 (
    accepted_counters
      (run_logins verify_password code_at is_well_formed policy
        (right 600 ∷ right 601 ∷ [])
        account).0)
run_logins-accepted_counters_example =
    run_logins-accepted_counters verify_password code_at is_well_formed policy
      (right 600 ∷ right 601 ∷ []) account
