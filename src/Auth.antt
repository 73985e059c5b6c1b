-- ===== src/Auth.antt =====
-- apps/mobile-api/src/auth/auth.service.ts over the tables of packages/database. What
-- packages/auth does with passwords and tokens is an argument: a hash, whether a password fits, and
-- the user that a valid token names. The clock and new identifiers are arguments too. Errors are
-- HTTP statuses; 500 stands for what the code does not catch.
pub mod Tokens
mod Examples
use claw_work.Prelude.{
  Bool, Dict, List, Option, Text, [], false, if◌then◌else◌, insert, is_some, leb, lookup, ltb, none,
  not, or_else, some, text_eq, trim, true, ℕ, ◌&&◌, ◌+◌, ◌*◌, ◌||◌, ◌∷◌,
}
use claw_work.Tasks.{adjust}
use claw_work.Tasks.Storage.{Reply, refuse, reply}

pub record User : Type 0 where
  pub email : Option Text
  pub nickname : Text

pub record Credential : Type 0 where
  pub password_hash : Text
  pub password_salt : Text
  pub failed_attempts : ℕ
  pub locked_until : Option ℕ

pub record RefreshToken : Type 0 where
  pub user_id : Text
  pub expires_at : ℕ
  pub revoked_at : Option ℕ

-- Users and credentials by the user's identifier, refresh tokens by their hash, which is unique.
pub record AuthDb : Type 0 where
  pub users : Dict User
  pub credentials : Dict Credential
  pub tokens : Dict RefreshToken
  pub settings : List Text

abbrev pub has_email : Text → User → Bool
has_email email u = elim u.email [ none ↦ false | some e ↦ text_eq e email ]

-- `user.findUnique({ where: { email } })`
unfoldable pub find_by_email : Text → Dict User → Option (Text × User)
find_by_email email [] = none
find_by_email email ((id, u) ∷ more) =
    let rest = find_by_email email more in if has_email email u then some (id, u) else rest

pub record Session : Type 0 where
  pub user_id : Text
  pub email : Option Text
  pub nickname : Text

abbrev pub refresh_token_lifetime_ms : ℕ
refresh_token_lifetime_ms = 30 * 24 * 60 * 60 * 1000

-- `createSession`, given the hash of the new token. The unique index refuses a hash that is taken.
unfoldable pub create_session : (now : ℕ) (hash id : Text) → User → AuthDb → AuthDb × Reply Session
create_session now hash id u db = if is_some (lookup hash db.tokens) then (db, refuse 500) else (
  record db {
    tokens =
        insert hash
          (record { user_id = id; expires_at = now + refresh_token_lifetime_ms; revoked_at = none })
          db.tokens;
  },
  reply (record { user_id = id; email = u.email; nickname = u.nickname }),
)

unfoldable pub register :
    (lower : Text → Text) (now : ℕ) (new_id hash : Text) (credential : Text × Text)
    → (email nickname : Text) → AuthDb
    → AuthDb × Reply Session
unfolding create_session find_by_email
register lower now new_id hash credential email nickname db =
    if is_some (find_by_email (lower (trim email)) db.users)
    then (db, refuse 409)
    else create_session now hash new_id
        (record { email = some (lower (trim email)); nickname = trim nickname })
        (record db {
          users =
              insert new_id (record { email = some (lower (trim email)); nickname = trim nickname })
                db.users;
          credentials =
              insert new_id
                (record {
                  password_hash = credential.0;
                  password_salt = credential.1;
                  failed_attempts = 0;
                  locked_until = none;
                })
                db.credentials;
          settings = new_id ∷ db.settings;
        })

abbrev pub is_locked : ℕ → Credential → Bool
is_locked now c = elim c.locked_until [ none ↦ false | some t ↦ ltb now t ]

abbrev pub count_failure : ℕ → Credential → Credential
count_failure now c = record c {
  failed_attempts = c.failed_attempts + 1;
  locked_until = if leb 5 (c.failed_attempts + 1) then some (now + 15 * 60 * 1000) else none;
}

abbrev pub clear_failures : Credential → Credential
clear_failures c = record c { failed_attempts = 0; locked_until = none }

-- The part of `login` after the user is found. `fits` is `verifyPassword` of the input.
unfoldable pub login_user :
    (now : ℕ) (hash : Text) (fits : Credential → Bool)
    → (id : Text) → User
    → AuthDb
    → AuthDb × Reply Session
unfolding create_session
login_user now hash fits id u db = elim (lookup id db.credentials) [
  | none ↦ (db, refuse 401)
  | some c ↦
      if is_locked now c
      then (db, refuse 401)
      else if not (fits c)
      then (record db { credentials = adjust id (count_failure now) db.credentials }, refuse 401)
      else create_session now hash id u
          (record db { credentials = adjust id clear_failures db.credentials })
]

unfoldable pub login :
    (lower : Text → Text) (now : ℕ) (hash : Text) (fits : Credential → Bool)
    → (email : Text) → AuthDb
    → AuthDb × Reply Session
unfolding login_user find_by_email
login lower now hash fits email db = elim (find_by_email (lower (trim email)) db.users) [
  | none ↦ (db, refuse 401)
  | some (id, u) ↦ login_user now hash fits id u db
]

-- The test of `refresh` on the record that it read. `sub` is the user that the token names.
abbrev pub is_usable_token : (now : ℕ) (sub : Text) → RefreshToken → Bool
is_usable_token now sub r =
    text_eq r.user_id sub && (not (is_some r.revoked_at) && not (leb r.expires_at now))

-- `updateMany({ where: { id, revokedAt: null, expiresAt: { gt: now } } })`, and whether it found the
-- row.
unfoldable pub claim_token : (now : ℕ) (hash : Text) → AuthDb → AuthDb × Bool
claim_token now hash db = elim (lookup hash db.tokens) [
  | none ↦ (db, false)
  | some r ↦
      if not (is_some r.revoked_at) && ltb now r.expires_at
      then (
        record db { tokens = adjust hash (λ t. record t { revoked_at = some now }) db.tokens },
        true,
      )
      else (db, false)
]

unfoldable pub after_claim_token :
    (now : ℕ) (new_hash id : Text) → AuthDb × Bool → AuthDb × Reply Session
unfolding create_session
after_claim_token now new_hash id (db, false) = (db, refuse 401)
after_claim_token now new_hash id (db, true) = elim (lookup id db.users) [
  | none ↦ (db, refuse 500)
  | some u ↦ create_session now new_hash id u db
]

-- `refresh`: `sub` is what `verifyRefreshToken` gives, or `none` where it throws.
unfoldable pub refresh :
    (now : ℕ) (sub : Option Text) (hash new_hash : Text) → AuthDb → AuthDb × Reply Session
unfolding claim_token after_claim_token
refresh now none hash new_hash db = (db, refuse 401)
refresh now (some sub) hash new_hash db = elim (lookup hash db.tokens) [
  | none ↦ (db, refuse 401)
  | some r ↦
      if is_usable_token now sub r
      then after_claim_token now new_hash r.user_id (claim_token now hash db)
      else (db, refuse 401)
]

-- The condition of `logout`'s `updateMany`.
unfoldable pub logout : (now : ℕ) (user hash : Text) → AuthDb → AuthDb
logout now user hash db = elim (lookup hash db.tokens) [
  | none ↦ db
  | some r ↦
      if text_eq r.user_id user && not (is_some r.revoked_at)
      then record db { tokens = adjust hash (λ t. record t { revoked_at = some now }) db.tokens }
      else db
]

-- `authenticate`: `sub` is what `verifyAccessToken` gives.
unfoldable pub authenticate : (sub : Option Text) → AuthDb → Reply Session
authenticate none db = refuse 401
authenticate (some sub) db = elim (lookup sub db.users) [
  | none ↦ refuse 401
  | some u ↦ reply (record { user_id = sub; email = u.email; nickname = u.nickname })
]
