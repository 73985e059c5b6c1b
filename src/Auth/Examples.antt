-- ===== src/Auth/Examples.antt =====
-- The theorem on refresh tokens at a concrete input.
use claw_work.Prelude.{[], false, js, lookup, none, refl, some, text_eq, ◌∷◌, ◌≡◌}
use claw_work.Tasks.Storage.{refuse}
use claw_work.Auth.{AuthDb, claim_token, create_session, logout, refresh}
use claw_work.Auth.Tokens.{Step, Steps, claim_token-once}

abbrev auth_db : AuthDb
auth_db = record {
  users = (js "u", record { email = none; nickname = js "ann" }) ∷ [];
  credentials = [];
  tokens = (js "h", record { user_id = js "u"; expires_at = 100; revoked_at = none }) ∷ [];
  settings = [];
}

-- The request that won goes on, and another one logs out.
abbrev later_db : AuthDb
later_db =
    logout 6 (js "u") (js "h")
      (create_session 5 (js "h2") (js "u") (record { email = none; nickname = js "ann" })
        (claim_token 5 (js "h") auth_db).0).0

later_steps : Steps (claim_token 5 (js "h") auth_db).0 later_db
later_steps =
    Steps.next
      (Steps.next Steps.start
        (Step.session 5 (js "h2") (js "u") (record { email = none; nickname = js "ann" })))
      (Step.logged_out 6 (js "u") (js "h"))

claim_token-once_example :
    ((claim_token 7 (js "h") later_db).1 ≡ false)
    × (refresh 7 (some (js "u")) (js "h") (js "h3") later_db ≡ (later_db, refuse 401))
unfolding claim_token lookup text_eq
claim_token-once_example =
    claim_token-once auth_db 5 7 (some (js "u")) (js "h") (js "h3") refl later_steps
