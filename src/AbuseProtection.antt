-- ===== src/AbuseProtection.antt =====
-- apps/mobile-api/src/security/abuse-protection.service.ts: the counters of requests and of daily
-- tasks. A counter store is Redis as its documentation has it: INCR of a missing or expired key
-- starts at 1, EXPIRE sets the time at which a key is gone. A script is one step. The date in a key
-- is written as the number of the day.
pub mod Minute
pub mod Day
pub mod Release
mod Examples
use claw_work.Prelude.{
  Bool, Dict, Option, Text, decimal, false, if◌then◌else◌, insert, js, lookup, ltb, none, not, some,
  true, ℕ, ◌*◌, ◌++◌, ◌+◌, ◌-◌, ◌/◌, ◌==◌,
}
use claw_work.Tasks.{as_positive_integer}

pub record Counter : Type 0 where
  pub count : ℕ
  pub expires_at : Option ℕ

abbrev pub Redis : Type 0
Redis = Dict Counter

abbrev is_live : ℕ → Counter → Bool
is_live now c = elim c.expires_at [ none ↦ true | some t ↦ ltb now t ]

-- `GET`
unfoldable pub get : ℕ → Text → Redis → Option Counter
get now key redis = elim (lookup key redis) [
  | none ↦ none
  | some c ↦ if is_live now c then some c else none
]

unfoldable pub incremented : Option Counter → Counter
incremented none = record { count = 1; expires_at = none }
incremented (some c) = record c { count = c.count + 1 }

-- The start of both scripts: `INCR`, and the expiry where the counter is new.
unfoldable pub incr_expire : ℕ → Counter → Counter
incr_expire deadline c = if c.count == 1 then record c { expires_at = some deadline } else c

unfoldable pub positive_env : Option ℕ → ℕ → ℕ
positive_env var fallback = as_positive_integer var fallback

pub record Limits : Type 0 where
  pub authenticated_per_minute : Option ℕ
  pub anonymous_per_minute : Option ℕ
  pub daily_tasks : Option ℕ

unfoldable pub request_limit : Limits → Bool → ℕ
unfolding positive_env
request_limit l authenticated =
    if authenticated
    then positive_env l.authenticated_per_minute 120
    else positive_env l.anonymous_per_minute 30

unfoldable pub rate_key : Text → Bool → ℕ → Text
rate_key identity authenticated now =
    js "clawwork:rate:"
    ++ ((if authenticated then js "user" else js "ip")
        ++ (js ":" ++ (identity ++ (js ":" ++ decimal (now / 60000)))))

-- `consumeRequest`: the new counters, and whether the request may go on.
unfoldable pub consume_request : Limits → Text → Bool → ℕ → Redis → Redis × Bool
unfolding get incremented incr_expire request_limit rate_key
consume_request l identity authenticated now redis =
    let key = rate_key identity authenticated now in
    let c = incr_expire (now + 65000) (incremented (get now key redis)) in
    (insert key c redis, not (ltb (request_limit l authenticated) c.count))

unfoldable pub quota_key : Text → ℕ → Text
quota_key user now = js "clawwork:quota:tasks:" ++ (user ++ (js ":" ++ decimal (now / 86400000)))

unfoldable pub daily_limit : Limits → ℕ
unfolding positive_env
daily_limit l = positive_env l.daily_tasks 100

-- `reserveDailyTask`, with `false` where it throws.
unfoldable pub reserve_daily_task : Limits → Text → ℕ → Redis → Redis × Bool
unfolding get incremented incr_expire quota_key daily_limit
reserve_daily_task l user now redis =
    let key = quota_key user now in
    let c = incr_expire (now + 48 * 60 * 60 * 1000) (incremented (get now key redis)) in
    if ltb (daily_limit l) c.count
    then (insert key (record c { count = c.count - 1 }) redis, false)
    else (insert key c redis, true)

unfoldable pub release_daily_task : Text → ℕ → Redis → Redis
unfolding get quota_key
release_daily_task user now redis = elim (get now (quota_key user now) redis) [
  | none ↦ redis
  | some c ↦
      if ltb 0 c.count
      then insert (quota_key user now) (record c { count = c.count - 1 }) redis
      else redis
]
