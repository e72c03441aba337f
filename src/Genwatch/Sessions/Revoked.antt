-- ===== src/Genwatch/Sessions/Revoked.antt =====
-- A revoked session stays revoked (GenWatch-main/backend/genwatch/services/session.py and db.py).
use complete_gen_project.Base.{
  ℕ, ◌-◌, ◌≡◌, refl, Bool, true, false, not, ◌&&◌, Option, none, some, [], ◌∷◌, leb, ◌==◌,
  if◌then◌else◌, if_lem, arith, All, Bool-cases, inl, inr,
}
use complete_gen_project.Base.Dicts.{Dict, lookup}
use complete_gen_project.Genwatch.Sessions.{
  SessionRow, UserRow, Database, Claims, AuthConfig, old_token, Validated, refused, update_where,
  delete_where, is_none, session_touch, revoke_row, session_revoke, is_idle, touched, validate_user,
  validate_row, validate_claims,
}

-- Every row of the session is revoked.
abbrev pub IsRevoked : ℕ → Dict SessionRow → Type 0
IsRevoked jti rows =
    All (λ (e : ℕ × SessionRow). (e.0 == jti) ≡ true → is_none e.1.revoked_at ≡ false) rows

pub IsRevoked-update_where :
    (jti : ℕ) (matches : ℕ → SessionRow → Bool) (change : SessionRow → SessionRow)
    (rows : Dict SessionRow)
    → ((row : SessionRow)
        → is_none row.revoked_at ≡ false
        → is_none (change row).revoked_at ≡ false)
    → IsRevoked jti rows
    → IsRevoked jti (update_where matches change rows)
unfolding update_where
IsRevoked-update_where jti matches change [] keeps h = tt
IsRevoked-update_where jti matches change ((k, row) ∷ rows) keeps h = (
  (λ e.
      if_lem (λ (r : SessionRow). is_none r.revoked_at ≡ false) (matches k row) _ _
        (keeps row (h.0 e)) (h.0 e)),
  IsRevoked-update_where jti matches change rows keeps h.1,
)

pub IsRevoked-delete_where :
    (jti : ℕ) (matches : ℕ → SessionRow → Bool) (rows : Dict SessionRow)
    → IsRevoked jti rows
    → IsRevoked jti (delete_where matches rows)
unfolding delete_where
IsRevoked-delete_where jti matches [] h = tt
IsRevoked-delete_where jti matches ((k, row) ∷ rows) h =
    if_lem (IsRevoked jti) (matches k row) _ _ (IsRevoked-delete_where jti matches rows h.1)
      (h.0, IsRevoked-delete_where jti matches rows h.1)

-- The rows that a revocation leaves.
pub session_revoke-IsRevoked :
    (jti now : ℕ) (db : Database) → IsRevoked jti (session_revoke jti now db).sessions
unfolding session_revoke update_where
session_revoke-IsRevoked jti now db = go db.sessions
  where
    go :
        (rows : Dict SessionRow)
        → IsRevoked jti
            (update_where (λ k row. k == jti && is_none row.revoked_at) (revoke_row now) rows)
    go [] = tt
    go ((k, row) ∷ rows) = ((λ e. gone k row e), go rows)
      where
        gone :
            (k : ℕ) (row : SessionRow)
            → (k == jti) ≡ true
            → is_none
                (if k == jti && is_none row.revoked_at then revoke_row now row else row).revoked_at
              ≡ false
        gone k row e = elim (Bool-cases (is_none row.revoked_at)) [
          | inl live ↦ rw (e, live) refl
          | inr closed ↦ rw (e, closed) closed
        ]

pub lookup-IsRevoked :
    (jti : ℕ) (rows : Dict SessionRow) (row : SessionRow)
    → IsRevoked jti rows
    → lookup jti rows ≡ some row
    → is_none row.revoked_at ≡ false
unfolding lookup
lookup-IsRevoked jti [] row h e = cc
lookup-IsRevoked jti ((k, r) ∷ rows) row h e = elim (Bool-cases (k == jti)) [
  | inl same ↦ ground (arith, h.0 same)
  | inr other ↦ lookup-IsRevoked jti rows row h.1 (ground arith)
]

-- What the operations on a revoked session leave.
abbrev pub Stays : ℕ → Database → Type 0
Stays jti db = IsRevoked jti db.sessions

pub Stays-revoke :
    (jti k now : ℕ) (db : Database) → Stays jti db → Stays jti (session_revoke k now db)
unfolding session_revoke
Stays-revoke jti k now db h =
    IsRevoked-update_where jti _ (revoke_row now) db.sessions (λ row e. refl) h

Stays-touched :
    (jti : ℕ) (touch : Bool) (k now : ℕ) (row : SessionRow) (db : Database)
    → Stays jti db
    → Stays jti (touched touch k now row db)
unfolding session_touch
Stays-touched jti touch k now row db h =
    if_lem (Stays jti) (touch && leb 60 (now - row.last_seen_at)) _ _
      (IsRevoked-update_where jti _ (λ (r : SessionRow). record r { last_seen_at = now })
        db.sessions (λ r e. e) h)
      h

abbrev pub After : ℕ → Validated × Database → Type 0
After jti r = Stays jti r.1

After-validate_user :
    (jti : ℕ) (c : AuthConfig) (claims : Claims) (k : ℕ) (row : SessionRow) (touch : Bool) (now : ℕ)
    (user : Option UserRow) (db : Database)
    → Stays jti db
    → After jti (validate_user c claims k row touch now user db)
unfolding validate_user
After-validate_user jti c claims k row touch now none db h = h
After-validate_user jti c claims k row touch now (some user) db h =
    if_lem (After jti) user.disabled _ _ h (
      if_lem (After jti) (not (claims.epoch == user.token_epoch)) _ _ h (
        if_lem (After jti) (is_idle c now row) _ _ (Stays-revoke jti k now db h)
          (Stays-touched jti touch k now row db h)))

pub After-validate_claims :
    (jti : ℕ) (c : AuthConfig) (claims : Option Claims) (touch : Bool) (now : ℕ) (db : Database)
    → Stays jti db
    → After jti (validate_claims c claims touch now db)
unfolding validate_claims validate_row
After-validate_claims jti c none touch now db h = h
After-validate_claims jti c (some claims) touch now db h = by_jti claims.jti
  where
    by_row :
        (k : ℕ) (row : Option SessionRow) → After jti (validate_row c claims k touch now row db)
    by_row k none = h
    by_row k (some row) = if_lem (After jti) (not (is_none row.revoked_at)) _ _ h (
        if_lem (After jti) (leb row.expires_at now) _ _ h
          (After-validate_user jti c claims k row touch now (lookup row.user_id db.users) db h))

    by_jti :
        (o : Option ℕ)
        → After jti (elim o [
          | none ↦ (refused old_token, db)
          | some k ↦ validate_row c claims k touch now (lookup k db.sessions) db
        ])
    by_jti none = h
    by_jti (some k) = by_row k (lookup k db.sessions)
