-- ===== src/AbuseProtection/Examples.antt =====
-- The theorems on the counters at concrete inputs.
use claw_work.Prelude.{
  List, [], arith, js, length, lookup, min, none, refl, some, true, ℕ, ◌+◌, ◌∷◌, ◌≡◌,
}
use claw_work.AbuseProtection.{
  Limits, request_limit, reserve_daily_task, daily_limit, get, incr_expire, incremented,
  positive_env, quota_key, release_daily_task,
}
use claw_work.AbuseProtection.Minute.{admitted-request_limit, admitted}
use claw_work.Tasks.{as_positive_integer}
use claw_work.AbuseProtection.Day.{
  reserve_release-Within, Within, count_of, release-reserve_other_day,
}

abbrev small_limits : Limits
small_limits = record {
  authenticated_per_minute = some 2;
  anonymous_per_minute = none;
  daily_tasks = some 3;
}

abbrev times : List ℕ
times = 120001 ∷ 120500 ∷ 150000 ∷ 179999 ∷ []

admitted-request_limit_example :
    admitted small_limits (js "u") true times []
    ≡ min (length times) (request_limit small_limits true)
admitted-request_limit_example =
    admitted-request_limit small_limits (js "u") true 2 times [] (refl, (refl, (refl, (refl, tt))))
      (unfold lookup in refl)

reserve_release-Within_example :
    Within small_limits (reserve_daily_task small_limits (js "u") 1000 []).0
    × Within small_limits (release_daily_task (js "u") 1000 [])
unfolding lookup
reserve_release-Within_example =
    reserve_release-Within small_limits (js "u") 1000 [] (λ user now. omega arith)

release-reserve_other_day_example :
    count_of (
      lookup
        (quota_key (js "u") 1000)
        (release_daily_task (js "u") 86401000 (reserve_daily_task small_limits (js "u") 1000 []).0))
    ≡ count_of (get 1000 (quota_key (js "u") 1000) []) + 1
release-reserve_other_day_example =
    release-reserve_other_day small_limits (js "u") 1000 86401000 []
      (unfold reserve_daily_task get lookup incremented incr_expire daily_limit positive_env
          as_positive_integer in
        refl)
      (omega arith)
