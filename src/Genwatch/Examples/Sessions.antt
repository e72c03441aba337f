-- ===== src/Genwatch/Examples/Sessions.antt =====
-- The theorems on the sessions at concrete inputs.
use complete_gen_project.Base.{
  ℕ, zero, suc, ◌<◌, ◌≤◌, ◌≡◌, ◌↔◌, ◌⊎◌, refl, true, false, Option, none, some, List, [], ◌∷◌,
}
use complete_gen_project.Base.Dicts.{lookup}
use complete_gen_project.Genwatch.Sessions.{
  SessionRow, UserRow, Database, Claims, AuthConfig, validate, session_revoke,
}
use complete_gen_project.Genwatch.Sessions.Final.{
  SessionOp, check_token, start, renew, revoke_all, prune, is_accepted, run_ops, run_ops-revoked,
}
use complete_gen_project.Genwatch.Sessions.Gate.{validate-is_accepted}

-- Tokens that are the identifier itself, all made in the first epoch.
abbrev encode : Claims → ℕ
encode claims = elim claims.jti [ none ↦ 0 | some jti ↦ jti ]

abbrev claims_of : ℕ → Claims
claims_of jti = record { jti = some jti; epoch = 1; exp = 100000 }

abbrev decode : ℕ → ℕ → Option Claims
decode now zero = none
decode now (suc n) = some (claims_of (suc n))

abbrev auth : AuthConfig
auth = record { session_hours = 12; idle_timeout_minutes = 30; remember_me_days = 365 }

abbrev remembered : SessionRow
remembered = record {
  user_id = 7;
  last_seen_at = 1000;
  expires_at = 90000;
  revoked_at = none;
  remember = true;
}

abbrev operator_row : UserRow
operator_row = record { disabled = false; token_epoch = 1 }

abbrev console : Database
console = record { sessions = (5, remembered) ∷ []; users = (7, operator_row) ∷ [] }

abbrev attempts : List SessionOp
attempts =
    renew 5 2000
    ∷ start 7 operator_row true 6 2500
    ∷ check_token 5 true 2600
    ∷ prune 2700
    ∷ revoke_all 7 (some 5) 2800
    ∷ []

run_ops-revoked_example :
    is_accepted
      (validate encode decode auth 5 true 3000
        (run_ops encode decode auth attempts (session_revoke 5 1500 console))).0
    ≡ false
run_ops-revoked_example =
    run_ops-revoked encode decode auth attempts 5 1500 console 5 true 3000 (claims_of 5)
      (tt, (refl, (tt, (tt, (tt, tt))))) refl refl

validate-is_accepted_example :
    (is_accepted (validate encode decode auth 5 true 8000 console).0 ≡ true) ↔ (
      (remembered.revoked_at ≡ none)
      × (8000 < 90000)
      × (operator_row.disabled ≡ false)
      × ((claims_of 5).epoch ≡ operator_row.token_epoch)
      × ((remembered.remember ≡ true) ⊎ (auth.idle_timeout_minutes ≡ 0) ⊎ (7000 ≤ 1800)))
unfolding lookup
validate-is_accepted_example =
    validate-is_accepted encode decode auth 5 true 8000 console (claims_of 5) 5 remembered
      operator_row refl refl refl refl
