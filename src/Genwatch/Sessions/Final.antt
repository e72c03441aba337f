-- ===== src/Genwatch/Sessions/Final.antt =====
-- Runs of operations on the sessions, and that a revocation is final
-- (GenWatch-main/backend/genwatch/services/session.py and db.py).
use complete_gen_project.Base.{
  ℕ, ◌+◌, ◌*◌, ◌≡◌, refl, Bool, true, false, Option, none, some, List, [], ◌∷◌, ◌==◌, if_lem, arith,
  All, All-append, Option-cases, inl, inr,
}
use complete_gen_project.Base.Dicts.{lookup}
use complete_gen_project.Genwatch.Sessions.{
  SessionRow, UserRow, Database, Claims, AuthConfig, Validated, accepted, refused, session_create,
  session_extend, revoke_row, session_revoke, session_revoke_all_for_user, sessions_prune,
  user_bump_token_epoch, validate_row, validate_claims, validate, start_session, renew_user,
  renew_row, renew_if_due, is_due, remember_me_hours,
}
use complete_gen_project.Genwatch.Sessions.Revoked.{
  IsRevoked-update_where, IsRevoked-delete_where, session_revoke-IsRevoked, lookup-IsRevoked, Stays,
  Stays-revoke, After-validate_claims,
}

-- The operations on the sessions, of the console, its users and its administrators.
pub data SessionOp : Type 0 where
  check_token : ℕ → Bool → ℕ → SessionOp
  start : ℕ → UserRow → Bool → ℕ → ℕ → SessionOp
  renew : ℕ → ℕ → SessionOp
  revoke : ℕ → ℕ → SessionOp
  revoke_all : ℕ → Option ℕ → ℕ → SessionOp
  prune : ℕ → SessionOp
  bump_epoch : ℕ → SessionOp

-- No operation starts a session under the identifier.
abbrev pub IsOther : ℕ → SessionOp → Type 0
IsOther jti (start uid user asked k now) = (k == jti) ≡ false
IsOther jti _ = Unit

abbrev pub AllOther : ℕ → List SessionOp → Type 0
AllOther jti ops = All (IsOther jti) ops

abbrev pub is_accepted : Validated → Bool
is_accepted (accepted p) = true
is_accepted (refused e) = false

module _ (encode : Claims → ℕ) (decode : ℕ → ℕ → Option Claims) (c : AuthConfig) where
  unfoldable pub apply : SessionOp → Database → Database
  unfolding validate start_session renew_if_due
  apply (check_token token touch now) db = (validate encode decode c token touch now db).1
  apply (start uid user asked jti now) db =
      (start_session encode decode c uid user asked jti now db).2
  apply (renew jti now) db = (renew_if_due encode decode c jti now db).1
  apply (revoke jti now) db = session_revoke jti now db
  apply (revoke_all uid except now) db = session_revoke_all_for_user uid except now db
  apply (prune now) db = sessions_prune now db
  apply (bump_epoch uid) db = user_bump_token_epoch uid db

  unfoldable pub run_ops : List SessionOp → Database → Database
  unfolding apply
  run_ops [] db = db
  run_ops (op ∷ ops) db = run_ops ops (apply op db)

  Stays-extend :
      (jti k expires now : ℕ) (db : Database)
      → Stays jti db
      → Stays jti (session_extend k expires now db)
  unfolding session_extend
  Stays-extend jti k expires now db h =
      IsRevoked-update_where jti _ (λ (r : SessionRow). record r { expires_at = expires })
        db.sessions (λ r e. e) h

  Stays-renew_if_due :
      (jti k now : ℕ) (db : Database)
      → Stays jti db
      → Stays jti (renew_if_due encode decode c k now db).1
  unfolding renew_if_due renew_row renew_user
  Stays-renew_if_due jti k now db h =
      if_lem Kept (remember_me_hours c == 0) _ _ h (by_row (lookup k db.sessions))
    where
      Kept : Option (ℕ × ℕ) × Database → Type 0
      Kept r = Stays jti r.1

      by_user :
          (row : SessionRow) (user : Option UserRow)
          → Kept (renew_user encode decode c k row now user db)
      by_user row none = h
      by_user row (some user) =
          if_lem Kept user.disabled _ _ h
            (Stays-extend jti k (now + remember_me_hours c * 3600) now db h)

      by_row : (row : Option SessionRow) → Kept (renew_row encode decode c k now row db)
      by_row none = h
      by_row (some row) =
          if_lem Kept (is_due encode decode c now row) _ _
            (by_user row (lookup row.user_id db.users)) h

  Stays-apply :
      (jti : ℕ) (op : SessionOp) (db : Database)
      → IsOther jti op
      → Stays jti db
      → Stays jti (apply op db)
  unfolding apply validate start_session session_create sessions_prune session_revoke_all_for_user
      user_bump_token_epoch
  Stays-apply jti (check_token token touch now) db other h =
      After-validate_claims jti c (decode now token) touch now db h
  Stays-apply jti (start uid user asked k now) db other h =
      IsRevoked-delete_where jti _ _
        (All-append _ db.sessions _ h ((λ e. ground (arith, other)), tt))
  Stays-apply jti (renew k now) db other h = Stays-renew_if_due jti k now db h
  Stays-apply jti (revoke k now) db other h = Stays-revoke jti k now db h
  Stays-apply jti (revoke_all uid except now) db other h =
      IsRevoked-update_where jti _ (revoke_row now) db.sessions (λ row e. refl) h
  Stays-apply jti (prune now) db other h = IsRevoked-delete_where jti _ db.sessions h
  Stays-apply jti (bump_epoch uid) db other h = h

  Stays-run_ops :
      (jti : ℕ) (ops : List SessionOp) (db : Database)
      → AllOther jti ops
      → Stays jti db
      → Stays jti (run_ops ops db)
  unfolding run_ops
  Stays-run_ops jti [] db all h = h
  Stays-run_ops jti (op ∷ ops) db all h =
      Stays-run_ops jti ops (apply op db) all.1 (Stays-apply jti op db all.0 h)

  refused_lem :
      (jti : ℕ) (claims : Claims) (touch : Bool) (now : ℕ) (db : Database)
      → Stays jti db
      → is_accepted (validate_row c claims jti touch now (lookup jti db.sessions) db).0 ≡ false
  unfolding validate_row
  refused_lem jti claims touch now db h = elim (Option-cases (lookup jti db.sessions)) [
    | inl missing ↦ rw missing refl
    | inr (row, found) ↦ rw (found, lookup-IsRevoked jti db.sessions row h found) refl
  ]

  -- A revocation is final: after a session was revoked, no token of it is accepted again, whatever the
  -- console, its users and its administrators do in between, so long as no session starts under the
  -- same identifier, and however the library that signs tokens decodes the token.
  pub run_ops-revoked :
      (ops : List SessionOp) (jti revoked_now : ℕ) (db : Database) (token : ℕ) (touch : Bool)
      (now : ℕ) (claims : Claims)
      → AllOther jti ops
      → decode now token ≡ some claims
      → claims.jti ≡ some jti
      → is_accepted
          (validate encode decode c token touch now
            (run_ops ops (session_revoke jti revoked_now db))).0
        ≡ false
  unfolding validate validate_claims
  run_ops-revoked ops jti revoked_now db token touch now claims all decoded named =
      rw (decoded, named)
        (refused_lem jti claims touch now (run_ops ops (session_revoke jti revoked_now db)) (
          Stays-run_ops jti ops (session_revoke jti revoked_now db) all
            (session_revoke-IsRevoked jti revoked_now db)))
