-- ===== src/Genwatch/Sessions/Gate.antt =====
-- When a session is accepted (`validate` of GenWatch-main/backend/genwatch/services/session.py).
use complete_gen_project.Base.{
  ℕ, ◌*◌, ◌-◌, ◌<◌, ◌≤◌, ◌≡◌, ◌↔◌, ◌⊎◌, refl, Bool, true, false, not, Option, none, some, leb, ◌==◌,
  if◌then◌else◌, arith,
}
use complete_gen_project.Base.Dicts.{lookup}
use complete_gen_project.Genwatch.Sessions.{
  SessionRow, UserRow, Database, Claims, AuthConfig, Validated, is_idle, touched, session_revoke,
  validate_user, validate_row, validate_claims, validate, SessionPrincipal, is_none, accepted,
  refused, revoked, expired, account_disabled, invalidated, idle,
}
use complete_gen_project.Genwatch.Sessions.Final.{is_accepted}

abbrev accepts : Validated × Database → Bool
accepts r = is_accepted r.0

-- The refusals in their order.
five :
    (gone late off stale tired : Bool) (p : SessionPrincipal) (db idle_db touched_db : Database)
    → (accepts (
          if gone
          then (refused revoked, db)
          else if late
          then (refused expired, db)
          else if off
          then (refused account_disabled, db)
          else if stale
          then (refused invalidated, db)
          else if tired
          then (refused idle, idle_db)
          else (accepted p, touched_db))
        ≡ true)
      ↔ ((gone ≡ false) × (late ≡ false) × (off ≡ false) × (stale ≡ false) × (tired ≡ false))
five true late off stale tired p db d e = ((λ h. cc), λ h. cc)
five false true off stale tired p db d e = ((λ h. cc), λ h. cc)
five false false true stale tired p db d e = ((λ h. cc), λ h. cc)
five false false false true tired p db d e = ((λ h. cc), λ h. cc)
five false false false false true p db d e = ((λ h. cc), λ h. cc)
five false false false false false p db d e = ((λ h. (refl, refl, refl, refl, refl)), λ h. refl)

idle_lem :
    (c : AuthConfig) (now : ℕ) (row : SessionRow)
    → (is_idle c now row ≡ false) ↔ (
        (row.remember ≡ true)
        ⊎ (c.idle_timeout_minutes ≡ 0)
        ⊎ (now - row.last_seen_at ≤ c.idle_timeout_minutes * 60))
idle_lem c now row = ((λ h. ground arith), λ h. ground arith)

open_lem : (o : Option ℕ) → (not (is_none o) ≡ false) ↔ (o ≡ none)
open_lem none = ((λ h. refl), λ h. refl)
open_lem (some t) = ((λ h. cc), λ h. cc)

module _ (encode : Claims → ℕ) (decode : ℕ → ℕ → Option Claims) where
  -- A token that decodes to claims with an identifier, whose session row and account exist, is accepted
  -- exactly if the row was not revoked, is not past its expiry, the account is enabled, the token was made
  -- in the present epoch of the account, and the session is remembered, or no idle time is configured, or
  -- it was used within the idle time.
  pub validate-is_accepted :
      (c : AuthConfig) (token : ℕ) (touch : Bool) (now : ℕ) (db : Database) (claims : Claims)
      (jti : ℕ) (row : SessionRow) (user : UserRow)
      → decode now token ≡ some claims
      → claims.jti ≡ some jti
      → lookup jti db.sessions ≡ some row
      → lookup row.user_id db.users ≡ some user
      → (is_accepted (validate encode decode c token touch now db).0 ≡ true) ↔ (
          (row.revoked_at ≡ none)
          × (now < row.expires_at)
          × (user.disabled ≡ false)
          × (claims.epoch ≡ user.token_epoch)
          × ((row.remember ≡ true)
              ⊎ (c.idle_timeout_minutes ≡ 0)
              ⊎ (now - row.last_seen_at ≤ c.idle_timeout_minutes * 60)))
  unfolding validate validate_claims validate_row validate_user
  validate-is_accepted c token touch now db claims jti row user decoded named found account =
      rw (decoded, named, found, account)
        (
          (λ h.
              let t = parts.0 h in
              (
                (open_lem row.revoked_at).0 t.0,
                ground (arith, t.1),
                t.2,
                ground (arith, t.3),
                (idle_lem c now row).0 t.4,
              )),
          λ h. parts.1 (
            (open_lem row.revoked_at).1 h.0,
            ground (arith, h.1),
            h.2,
            ground (arith, h.3),
            (idle_lem c now row).1 h.4,
          ),
        )
    where
      result : Validated × Database
      result =
          if not (is_none row.revoked_at)
          then (refused revoked, db)
          else if leb row.expires_at now
          then (refused expired, db)
          else validate_user c claims jti row touch now (some user) db

      parts : (accepts result ≡ true) ↔ (
          (not (is_none row.revoked_at) ≡ false)
          × (leb row.expires_at now ≡ false)
          × (user.disabled ≡ false)
          × (not (claims.epoch == user.token_epoch) ≡ false)
          × (is_idle c now row ≡ false))
      parts =
          five (not (is_none row.revoked_at)) (leb row.expires_at now) user.disabled
            (not (claims.epoch == user.token_epoch)) (is_idle c now row)
            (record { uid = row.user_id; jti = jti; remember = row.remember }) db
            (session_revoke jti now db) (touched touch jti now row db)
