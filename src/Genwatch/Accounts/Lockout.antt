-- ===== src/Genwatch/Accounts/Lockout.antt =====
-- The lockout of an account (`authenticate` and `_record_failure` of
-- GenWatch-main/backend/genwatch/services/users.py).
use Prim.Native.Nat.pow
use complete_gen_project.Base.{
  ℕ, zero, suc, sym, subst, lt→ltb, ◌+◌, ◌-◌, ◌*◌, ◌^◌, min, max, ◌≤◌, ◌<◌, ◌≡◌, refl, Bool, false,
  List, [], ◌∷◌, ltb, if◌then◌else◌, if_lem, arith, All,
}
use complete_gen_project.Genwatch.Accounts.{
  Account, LoginConfig, Attempt, LoginResult, is_ok, lock_for, user_record_login_fail,
  user_record_login_ok, record_failure, authenticate, finish_login, login, run_logins,
  max_doublings,
}

locked_until-record_failure :
    (c : LoginConfig) (now : ℕ) (a : Account)
    → a.locked_until ≤ (record_failure c now a).locked_until
unfolding record_failure user_record_login_fail
locked_until-record_failure c now a = omega arith

power_positive : (n : ℕ) → 0 < 2 ^ n
power_positive zero = omega (arith, pow.zero 2)
power_positive (suc n) = omega (arith, pow.suc 2 n, power_positive n)

le_times : (s p : ℕ) → 0 < p → s ≤ s * p
le_times s p h = grind arith

-- A lockout lasts at least the configured time.
lock_for-le :
    (c : LoginConfig) (attempts : ℕ)
    → 0 < c.lockout_seconds
    → max 1 c.lockout_threshold ≤ attempts
    → c.lockout_seconds ≤ lock_for c attempts
unfolding lock_for
lock_for-le c attempts some_time reached = ground (
  arith,
  le_times c.lockout_seconds (2 ^ min (attempts - max 1 c.lockout_threshold) max_doublings)
      (power_positive (min (attempts - max 1 c.lockout_threshold) max_doublings)),
)

module _ (verify_password : ℕ → ℕ → Bool) (code_at : ℕ → ℕ → ℕ) (is_well_formed : ℕ → Bool) where
  -- A login that was refused, with a lock that stays.
  abbrev Holds : ℕ → LoginResult × Account → Type 0
  Holds until r = (is_ok r.0 ≡ false) × (until ≤ r.1.locked_until)

  Holds-finish_login :
      (until : ℕ) (r : LoginResult × Account) → Holds until r → Holds until (finish_login r)
  Holds-finish_login until r h =
      subst (λ (b : Bool). Holds until (if b then (r.0, user_record_login_ok r.1) else r)) (sym h.0)
        h

  locked_step :
      (c : LoginConfig) (t : Attempt) (a : Account) (until : ℕ)
      → t.now < until
      → until ≤ a.locked_until
      → Holds until (login verify_password code_at is_well_formed c t a)
  unfolding login authenticate
  locked_step c t a until early le =
      Holds-finish_login until (authenticate verify_password code_at is_well_formed c t a) (
        rw (lt→ltb t.now a.locked_until (omega arith)) (
          if_lem (Holds until) (verify_password t.password a.password_hash) _ _ (refl, le)
            (refl, omega (arith, locked_until-record_failure c t.now a))))

  -- A wrong password, when the failures reach the threshold.
  failed_step :
      (c : LoginConfig) (t : Attempt) (a : Account)
      → verify_password t.password a.password_hash ≡ false
      → 0 < c.lockout_seconds
      → max 1 c.lockout_threshold ≤ a.failed_attempts + 1
      → Holds (t.now + c.lockout_seconds) (login verify_password code_at is_well_formed c t a)
  unfolding login authenticate
  failed_step c t a wrong some_time reached =
      Holds-finish_login until (authenticate verify_password code_at is_well_formed c t a) (
        if_lem (Holds until) (ltb t.now a.locked_until) _ _ (rw wrong (refl, armed))
          (rw wrong (refl, armed)))
    where
      until : ℕ
      until = t.now + c.lockout_seconds

      armed : until ≤ (record_failure c t.now a).locked_until
      armed = ground (arith, lock_for-le c (a.failed_attempts + 1) some_time reached)

  locked_run :
      (c : LoginConfig) (ts : List Attempt) (a : Account) (until : ℕ)
      → All (λ (t : Attempt). t.now < until) ts
      → until ≤ a.locked_until
      → All
          (λ (r : LoginResult). is_ok r ≡ false)
          (run_logins verify_password code_at is_well_formed c ts a).0
  unfolding run_logins
  locked_run c [] a until early le = tt
  locked_run c (t ∷ ts) a until early le =
      let held = locked_step c t a until early.0 le in
      (
        held.0,
        locked_run c ts (login verify_password code_at is_well_formed c t a).1 until early.1 held.1,
      )

  -- Where lockouts are configured: a wrong password that brings the failures to the threshold locks the
  -- account. It is refused, and so is every login for the time of the lockout after it, with whatever
  -- password, code and recovery code, however the failures before were spread.
  pub run_logins-lockout :
      (c : LoginConfig) (t : Attempt) (ts : List Attempt) (a : Account)
      → verify_password t.password a.password_hash ≡ false
      → 0 < c.lockout_seconds
      → max 1 c.lockout_threshold ≤ a.failed_attempts + 1
      → All (λ (later : Attempt). later.now < t.now + c.lockout_seconds) ts
      → All
          (λ (r : LoginResult). is_ok r ≡ false)
          (run_logins verify_password code_at is_well_formed c (t ∷ ts) a).0
  unfolding run_logins
  run_logins-lockout c t ts a wrong some_time reached early =
      let held = failed_step c t a wrong some_time reached in
      (
        held.0,
        locked_run c ts (login verify_password code_at is_well_formed c t a).1
            (t.now + c.lockout_seconds) early held.1,
      )
