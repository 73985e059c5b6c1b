-- ===== src/Auth/Tokens.antt =====
-- A refresh token is claimed once.
use claw_work.Prelude.{
  Bool, Bool-cases, Dict, Option, Option-cases, Text, arith, false, inl, inr, is_some, lookup,
  lookup-insert, ltb, none, not, refl, some, subst, text_eq, text_eq_iff, text_eq_refl, trim, true,
  ℕ, ◌&&◌, ◌≡◌, ◌∙◌,
}
use claw_work.Tasks.{adjust, lookup-adjust}
use claw_work.Tasks.Storage.{refuse}
use claw_work.Auth.{
  AuthDb, Credential, RefreshToken, User, claim_token, create_session, find_by_email, is_locked,
  is_usable_token, login, login_user, logout, refresh, register,
}

-- The token of that hash has been revoked.
abbrev pub Revoked : Text → AuthDb → Type 0
Revoked hash db =
    (r : RefreshToken) × (lookup hash db.tokens ≡ some r) × (is_some r.revoked_at ≡ true)

create_session-Revoked :
    (now : ℕ) (new_hash id hash : Text) (u : User) (db : AuthDb)
    → Revoked hash db
    → Revoked hash (create_session now new_hash id u db).0
unfolding create_session
create_session-Revoked now new_hash id hash u db (r, there, gone) =
    elim (Bool-cases (is_some (lookup new_hash db.tokens))) [
      | inl y ↦ rw y (r, there, gone)
      | inr n ↦ rw n (
        r,
        lookup-insert new_hash hash _ db.tokens ∙ elim (Bool-cases (text_eq new_hash hash)) [
          | inr m ↦ rw m there
          | inl y ↦
              let same : new_hash ≡ hash = ground (arith, text_eq_iff new_hash hash) in
              let free : is_some (lookup hash db.tokens) ≡ false =
                subst (λ j. is_some (lookup j db.tokens) ≡ false) same n in
              absurd (ground arith)
        ],
        gone,
      )
    ]

revoke-Revoked :
    (now : ℕ) (other hash : Text) (tokens : Dict RefreshToken) (r : RefreshToken)
    → lookup hash tokens ≡ some r
    → is_some r.revoked_at ≡ true
    → (t : RefreshToken) × (lookup hash
          (adjust other (λ t. record t { revoked_at = some now }) tokens)
        ≡ some t)
      × (is_some t.revoked_at ≡ true)
revoke-Revoked now other hash tokens r there gone = elim (Bool-cases (text_eq other hash)) [
  | inl y ↦ (
    record r { revoked_at = some now },
    lookup-adjust other hash _ tokens ∙ rw (y, there) refl,
    refl,
  )
  | inr n ↦ (r, lookup-adjust other hash _ tokens ∙ rw n there, gone)
]

claim_token-Revoked :
    (now : ℕ) (other hash : Text) (db : AuthDb)
    → Revoked hash db
    → Revoked hash (claim_token now other db).0
unfolding claim_token
claim_token-Revoked now other hash db (r, there, gone) =
    elim (Option-cases (lookup other db.tokens)) [
      | inl e ↦ rw (e, claim_token) (r, there, gone)
      | inr (t, e) ↦
          rw (e, claim_token)
            (elim (Bool-cases (not (is_some t.revoked_at) && ltb now t.expires_at)) [
              | inl y ↦ rw y (revoke-Revoked now other hash db.tokens r there gone)
              | inr n ↦ rw n (r, there, gone)
            ])
    ]

logout-Revoked :
    (now : ℕ) (user other hash : Text) (db : AuthDb)
    → Revoked hash db
    → Revoked hash (logout now user other db)
unfolding logout
logout-Revoked now user other hash db (r, there, gone) =
    elim (Option-cases (lookup other db.tokens)) [
      | inl e ↦ rw (e, logout) (r, there, gone)
      | inr (t, e) ↦
          rw (e, logout)
            (elim (Bool-cases (text_eq t.user_id user && not (is_some t.revoked_at))) [
              | inl y ↦ rw y (revoke-Revoked now other hash db.tokens r there gone)
              | inr n ↦ rw n (r, there, gone)
            ])
    ]

register-Revoked :
    (lower : Text → Text) (now : ℕ) (new_id new_hash : Text) (c : Text × Text)
    (email nickname hash : Text) (db : AuthDb)
    → Revoked hash db
    → Revoked hash (register lower now new_id new_hash c email nickname db).0
unfolding register
register-Revoked lower now new_id new_hash c email nickname hash db h =
    elim (Bool-cases (is_some (find_by_email (lower (trim email)) db.users))) [
      | inl y ↦ rw (y, register) h
      | inr n ↦ rw (n, register) (create_session-Revoked now new_hash new_id hash _ _ h)
    ]

login_user-Revoked :
    (now : ℕ) (new_hash : Text) (fits : Credential → Bool) (id hash : Text) (u : User) (db : AuthDb)
    → Revoked hash db
    → Revoked hash (login_user now new_hash fits id u db).0
unfolding login_user
login_user-Revoked now new_hash fits id hash u db h =
    elim (Option-cases (lookup id db.credentials)) [
      | inl e ↦ rw (e, login_user) h
      | inr (c, e) ↦
          rw (e, login_user)
            (elim (Bool-cases (is_locked now c)) [
              | inl y ↦ rw y h
              | inr n ↦ rw n (elim (Bool-cases (fits c)) [
                | inl y ↦ rw y (create_session-Revoked now new_hash id hash u _ h)
                | inr m ↦ rw m h
              ])
            ])
    ]

login-Revoked :
    (lower : Text → Text) (now : ℕ) (new_hash : Text) (fits : Credential → Bool) (email hash : Text)
    (db : AuthDb)
    → Revoked hash db
    → Revoked hash (login lower now new_hash fits email db).0
unfolding login
login-Revoked lower now new_hash fits email hash db h =
    elim (Option-cases (find_by_email (lower (trim email)) db.users)) [
      | inl e ↦ rw (e, login) h
      | inr (f, e) ↦ rw (e, login) (login_user-Revoked now new_hash fits f.0 hash f.1 db h)
    ]

-- The steps of the service that write, in any order; `claimed` and `session` are those of `refresh`,
-- between which others may come.
pub data Step (db : AuthDb) : AuthDb → Type 0 where
  registered :
      (lower : Text → Text) (now : ℕ) (new_id hash : Text) (c : Text × Text) (email nickname : Text)
      → Step db (register lower now new_id hash c email nickname db).0
  logged_in :
      (lower : Text → Text) (now : ℕ) (hash : Text) (fits : Credential → Bool) (email : Text)
      → Step db (login lower now hash fits email db).0
  claimed : (now : ℕ) (hash : Text) → Step db (claim_token now hash db).0
  session : (now : ℕ) (hash id : Text) (u : User) → Step db (create_session now hash id u db).0
  logged_out : (now : ℕ) (user hash : Text) → Step db (logout now user hash db)

pub data Steps : AuthDb → AuthDb → Type 0 where
  start : {db : AuthDb} → Steps db db
  next : {a b c : AuthDb} → Steps a b → Step b c → Steps a c

Step-Revoked : {db db' : AuthDb} (hash : Text) → Revoked hash db → Step db db' → Revoked hash db'
Step-Revoked {db} hash h (registered lower now new_id new_hash c email nickname) =
    register-Revoked lower now new_id new_hash c email nickname hash db h
Step-Revoked {db} hash h (logged_in lower now new_hash fits email) =
    login-Revoked lower now new_hash fits email hash db h
Step-Revoked {db} hash h (claimed now other) = claim_token-Revoked now other hash db h
Step-Revoked {db} hash h (session now new_hash id u) =
    create_session-Revoked now new_hash id hash u db h
Step-Revoked {db} hash h (logged_out now user other) = logout-Revoked now user other hash db h

Steps-Revoked : {db db' : AuthDb} (hash : Text) → Steps db db' → Revoked hash db → Revoked hash db'
Steps-Revoked hash start h = h
Steps-Revoked hash (next steps step) h = Step-Revoked hash (Steps-Revoked hash steps h) step

claim_token-Revoked_self :
    (now : ℕ) (hash : Text) (db : AuthDb)
    → (claim_token now hash db).1 ≡ true
    → Revoked hash (claim_token now hash db).0
unfolding claim_token
claim_token-Revoked_self now hash db = elim (Option-cases (lookup hash db.tokens)) [
  | inl e ↦ rw (e, claim_token) (λ h. absurd (ground arith))
  | inr (t, e) ↦
      rw (e, claim_token)
        (elim (Bool-cases (not (is_some t.revoked_at) && ltb now t.expires_at)) [
          | inl y ↦ rw y (λ h. (
            record t { revoked_at = some now },
            lookup-adjust hash hash _ db.tokens ∙ rw (text_eq_refl hash, e) refl,
            refl,
          ))
          | inr n ↦ rw n (λ h. absurd (ground arith))
        ])
]

-- A refresh token is used once: when a request has claimed it, then, whatever registrations,
-- logins, refreshes and logouts come between, no request claims it again, and a refresh with it is
-- refused and changes nothing.
pub claim_token-once :
    (db : AuthDb) {db' : AuthDb} (now later : ℕ) (sub : Option Text) (hash new_hash : Text)
    → (claim_token now hash db).1 ≡ true
    → Steps (claim_token now hash db).0 db'
    → ((claim_token later hash db').1 ≡ false)
      × (refresh later sub hash new_hash db' ≡ (db', refuse 401))
unfolding claim_token refresh
claim_token-once db {db'} now later sub hash new_hash won steps =
    let (r, there, gone) = Steps-Revoked hash steps (claim_token-Revoked_self now hash db won) in
    (rw (there, claim_token) (rw gone refl), by_sub sub r there gone)
  where
    by_sub :
        (sub : Option Text) (r : RefreshToken)
        → lookup hash db'.tokens ≡ some r
        → is_some r.revoked_at ≡ true
        → refresh later sub hash new_hash db' ≡ (db', refuse 401)
    by_sub none r there gone = refl
    by_sub (some s) r there gone =
        let unusable : is_usable_token later s r ≡ false = rw gone (ground arith) in
        rw (there, refresh) (rw unusable refl)
