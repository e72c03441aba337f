-- ===== src/Genwatch/Sessions.antt =====
-- The sessions of the console (GenWatch-main/backend/genwatch/services/session.py, with the rows of db.py
-- and the claims of services/auth.py). Times are whole seconds. The library that signs tokens is a
-- parameter; the names, addresses and roles of the rows are left out.
pub mod Revoked
pub mod Final
pub mod Gate
use complete_gen_project.Base.{
  ℕ, ◌+◌, ◌-◌, ◌*◌, Bool, true, false, not, ◌&&◌, ◌||◌, Option, none, some, List, [], ◌∷◌, ◌++◌,
  ltb, leb, ◌==◌, if◌then◌else◌,
}
use complete_gen_project.Base.Dicts.{Dict, lookup}

pub record SessionRow : Type 0 where
  pub user_id : ℕ
  pub last_seen_at : ℕ
  pub expires_at : ℕ
  pub revoked_at : Option ℕ
  pub remember : Bool

pub record UserRow : Type 0 where
  pub disabled : Bool
  pub token_epoch : ℕ

pub record Database : Type 0 where
  pub sessions : Dict SessionRow
  pub users : Dict UserRow

-- The payload of a token.
pub record Claims : Type 0 where
  pub jti : Option ℕ
  pub epoch : ℕ
  pub exp : ℕ

pub record AuthConfig : Type 0 where
  pub session_hours : ℕ
  pub idle_timeout_minutes : ℕ
  pub remember_me_days : ℕ

pub data AuthError : Type 0 where
  bad_token old_token not_found revoked expired no_account account_disabled invalidated idle :
      AuthError

pub record SessionPrincipal : Type 0 where
  pub uid : ℕ
  pub jti : ℕ
  pub remember : Bool

pub data Validated : Type 0 where
  accepted : SessionPrincipal → Validated
  refused : AuthError → Validated

-- `UPDATE … WHERE`, on the rows of a table.
unfoldable pub update_where {ℓ} : {A : Type ℓ} → (ℕ → A → Bool) → (A → A) → Dict A → Dict A
update_where matches change [] = []
update_where matches change ((k, row) ∷ rows) =
    (k, if matches k row then change row else row) ∷ update_where matches change rows

-- `DELETE … WHERE`
unfoldable pub delete_where {ℓ} : {A : Type ℓ} → (ℕ → A → Bool) → Dict A → Dict A
delete_where matches [] = []
delete_where matches ((k, row) ∷ rows) =
    let rest = delete_where matches rows in if matches k row then rest else (k, row) ∷ rest

abbrev pub is_none : Option ℕ → Bool
is_none none = true
is_none (some t) = false

-- `INSERT`, on a key that is new.
unfoldable pub session_create : ℕ → ℕ → ℕ → Bool → ℕ → Database → Database
session_create jti uid expires_at remember now db = record db {
  sessions =
      db.sessions
      ++ (
        jti,
        record {
          user_id = uid;
          last_seen_at = now;
          expires_at = expires_at;
          revoked_at = none;
          remember = remember;
        },
      )
        ∷ [];
}

unfoldable pub session_touch : ℕ → ℕ → Database → Database
session_touch jti now db = record db {
  sessions =
      update_where (λ k row. k == jti) (λ row. record row { last_seen_at = now }) db.sessions;
}

abbrev pub is_live : ℕ → SessionRow → Bool
is_live now row = is_none row.revoked_at && ltb now row.expires_at

unfoldable pub session_extend : ℕ → ℕ → ℕ → Database → Database
session_extend jti expires_at now db = record db {
  sessions =
      update_where (λ k row. k == jti && is_live now row)
        (λ row. record row { expires_at = expires_at }) db.sessions;
}

abbrev pub revoke_row : ℕ → SessionRow → SessionRow
revoke_row now row = record row { revoked_at = some now }

unfoldable pub session_revoke : ℕ → ℕ → Database → Database
session_revoke jti now db = record db {
  sessions =
      update_where (λ k row. k == jti && is_none row.revoked_at) (revoke_row now) db.sessions;
}

abbrev pub is_other : Option ℕ → ℕ → Bool
is_other none k = true
is_other (some jti) k = not (k == jti)

unfoldable pub session_revoke_all_for_user : ℕ → Option ℕ → ℕ → Database → Database
session_revoke_all_for_user uid except now db = record db {
  sessions =
      update_where (λ k row. row.user_id == uid && is_none row.revoked_at && is_other except k)
        (revoke_row now) db.sessions;
}

abbrev pub prune_after_s : ℕ
prune_after_s = 604800

unfoldable pub sessions_prune : ℕ → Database → Database
sessions_prune now db = record db {
  sessions = delete_where (λ k row. ltb (row.expires_at + prune_after_s) now) db.sessions;
}

unfoldable pub user_bump_token_epoch : ℕ → Database → Database
user_bump_token_epoch uid db = record db {
  users =
      update_where (λ k row. k == uid) (λ row. record row { token_epoch = row.token_epoch + 1 })
        db.users;
}

abbrev pub remember_me_hours : AuthConfig → ℕ
remember_me_hours c = c.remember_me_days * 24

-- A session that is not remembered and was not used for the idle time.
abbrev pub is_idle : AuthConfig → ℕ → SessionRow → Bool
is_idle c now row =
    not row.remember
    && (ltb 0 c.idle_timeout_minutes && ltb (c.idle_timeout_minutes * 60) (now - row.last_seen_at))

abbrev pub touch_interval_s : ℕ
touch_interval_s = 60

abbrev pub touched : Bool → ℕ → ℕ → SessionRow → Database → Database
touched touch jti now row db =
    if touch && leb touch_interval_s (now - row.last_seen_at) then session_touch jti now db else db

-- The account of a session whose row is live.
unfoldable pub validate_user :
    AuthConfig
    → Claims
    → ℕ
    → SessionRow
    → Bool
    → ℕ
    → Option UserRow
    → Database
    → Validated × Database
validate_user c claims jti row touch now none db = (refused no_account, db)
validate_user c claims jti row touch now (some user) db =
    if user.disabled
    then (refused account_disabled, db)
    else if not (claims.epoch == user.token_epoch)
    then (refused invalidated, db)
    else if is_idle c now row
    then (refused idle, session_revoke jti now db)
    else (
      accepted (record { uid = row.user_id; jti = jti; remember = row.remember }),
      touched touch jti now row db,
    )

unfoldable pub validate_row :
    AuthConfig → Claims → ℕ → Bool → ℕ → Option SessionRow → Database → Validated × Database
unfolding validate_user lookup
validate_row c claims jti touch now none db = (refused not_found, db)
validate_row c claims jti touch now (some row) db =
    if not (is_none row.revoked_at)
    then (refused revoked, db)
    else if leb row.expires_at now
    then (refused expired, db)
    else validate_user c claims jti row touch now (lookup row.user_id db.users) db

unfoldable pub validate_claims :
    AuthConfig → Option Claims → Bool → ℕ → Database → Validated × Database
unfolding validate_row lookup
validate_claims c none touch now db = (refused bad_token, db)
validate_claims c (some claims) touch now db = elim claims.jti [
  | none ↦ (refused old_token, db)
  | some jti ↦ validate_row c claims jti touch now (lookup jti db.sessions) db
]

module _ (encode : Claims → ℕ) (decode : ℕ → ℕ → Option Claims) where
  -- `validate`: the token is decoded, with its own expiry, at the time of the call.
  unfoldable pub validate : AuthConfig → ℕ → Bool → ℕ → Database → Validated × Database
  unfolding validate_claims
  validate c token touch now db = validate_claims c (decode now token) touch now db

  -- `start_session`, with the identifier that was drawn.
  unfoldable pub start_session :
      AuthConfig → ℕ → UserRow → Bool → ℕ → ℕ → Database → ℕ × ℕ × Database
  unfolding session_create sessions_prune
  start_session c uid user asked jti now db =
      let remember = asked && ltb 0 (remember_me_hours c) in
      let exp = now + (if remember then remember_me_hours c else c.session_hours) * 3600 in
      (
        encode (record { jti = some jti; epoch = user.token_epoch; exp = exp }),
        exp,
        sessions_prune now (session_create jti uid exp remember now db),
      )

  abbrev pub is_due : AuthConfig → ℕ → SessionRow → Bool
  is_due c now row =
      row.remember
      && is_none row.revoked_at
      && not (ltb (remember_me_hours c * 3600) (2 * (row.expires_at - now)))

  -- The renewal of a row that is due, for an account that is enabled.
  unfoldable pub renew_user :
      AuthConfig → ℕ → SessionRow → ℕ → Option UserRow → Database → Option (ℕ × ℕ) × Database
  unfolding session_extend
  renew_user c jti row now none db = (none, db)
  renew_user c jti row now (some user) db =
      let exp = now + remember_me_hours c * 3600 in
      if user.disabled then (none, db) else (
        (if is_live now row
            then some (encode (record { jti = some jti; epoch = user.token_epoch; exp = exp }), exp)
            else none),
        session_extend jti exp now db,
      )

  unfoldable pub renew_row :
      AuthConfig → ℕ → ℕ → Option SessionRow → Database → Option (ℕ × ℕ) × Database
  unfolding renew_user lookup
  renew_row c jti now none db = (none, db)
  renew_row c jti now (some row) db =
      if is_due c now row
      then renew_user c jti row now (lookup row.user_id db.users) db
      else (none, db)

  unfoldable pub renew_if_due : AuthConfig → ℕ → ℕ → Database → Option (ℕ × ℕ) × Database
  unfolding renew_row lookup
  renew_if_due c jti now db =
      if remember_me_hours c == 0
      then (none, db)
      else renew_row c jti now (lookup jti db.sessions) db
