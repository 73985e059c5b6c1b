-- ===== src/AbuseProtection/Release.antt =====
-- A reservation that fails, or that is given back at once, leaves the user's counter of the day.
use claw_work.Prelude.{
  Bool-cases, Option, Option-cases, Text, arith, inl, inr, insert, lookup, lookup-insert_self, none,
  refl, some, true, ℕ, ◌*◌, ◌+◌, ◌==◌, ◌≡◌, ap, false, if◌then◌else◌, ltb, subst, sym, ◌-◌, ◌∙◌,
  ◌≤◌,
}
use claw_work.AbuseProtection.{
  Counter, Redis, Limits, get, incremented, incr_expire, reserve_daily_task, release_daily_task,
  quota_key, daily_limit, is_live,
}
use claw_work.AbuseProtection.Day.{count_of, incremented-count}

-- The counter that a reservation finds and counts up.
abbrev reserved_counter : Text → ℕ → Redis → Counter
reserved_counter user now redis =
    incr_expire (now + 48 * 60 * 60 * 1000) (incremented (get now (quota_key user now) redis))

get-none :
    (now : ℕ) (key : Text) (redis : Redis) → lookup key redis ≡ none → get now key redis ≡ none
unfolding get
get-none now key redis e = rw (get, e) refl

get-some :
    (now : ℕ) (key : Text) (redis : Redis) (d : Counter)
    → lookup key redis ≡ some d
    → get now key redis ≡ (if is_live now d then some d else none)
unfolding get
get-some now key redis d e = rw (get, e) refl

get-is_live :
    (now : ℕ) (key : Text) (redis : Redis) (c : Counter)
    → get now key redis ≡ some c
    → is_live now c ≡ true
get-is_live now key redis c h = elim (Option-cases (lookup key redis)) [
  | inl e ↦ let no : none ≡ some c = sym (get-none now key redis e) ∙ h in cc
  | inr (d, e) ↦ of_some d (sym (get-some now key redis d e) ∙ h)
]
  where
    of_some :
        (d : Counter) → (if is_live now d then some d else none) ≡ some c → is_live now c ≡ true
    of_some d k = elim (Bool-cases (is_live now d)) [
      | inl y ↦ let same : d ≡ c = ground arith in subst (λ x. is_live now x ≡ true) same y
      | inr n ↦ absurd (ground arith)
    ]

get-insert :
    (now : ℕ) (key : Text) (c : Counter) (redis : Redis)
    → is_live now c ≡ true
    → get now key (insert key c redis) ≡ some c
unfolding get
get-insert now key c redis h = rw (lookup-insert_self key c redis, get, h) refl

incr_expire-is_live :
    (now : ℕ) (o : Option Counter)
    → ((c : Counter) → o ≡ some c → is_live now c ≡ true)
    → is_live now (incr_expire (now + 48 * 60 * 60 * 1000) (incremented o)) ≡ true
unfolding incr_expire incremented
incr_expire-is_live now none h = ground arith
incr_expire-is_live now (some c) h = elim (Bool-cases (c.count + 1 == 1)) [
  | inl y ↦ rw y (ground arith)
  | inr n ↦ rw n (h c refl)
]

reserved_counter-is_live :
    (user : Text) (now : ℕ) (redis : Redis) → is_live now (reserved_counter user now redis) ≡ true
reserved_counter-is_live user now redis =
    incr_expire-is_live now (get now (quota_key user now) redis)
      (λ c. get-is_live now (quota_key user now) redis c)

pub get-reserve_refused :
    (l : Limits) (user : Text) (now : ℕ) (redis : Redis)
    → (reserve_daily_task l user now redis).1 ≡ false
    → count_of (get now (quota_key user now) (reserve_daily_task l user now redis).0)
      ≡ count_of (get now (quota_key user now) redis)
unfolding reserve_daily_task get
get-reserve_refused l user now redis h =
    elim (Bool-cases (ltb (daily_limit l) (reserved_counter user now redis).count)) [
      | inl y ↦
          rw (reserve_daily_task, y)
            (ap count_of (
                get-insert now (quota_key user now) _ redis
                  (reserved_counter-is_live user now redis))
              ∙ omega (
                arith,
                incremented-count (get now (quota_key user now) redis) (now + 48 * 60 * 60 * 1000),
              ))
      | inr n ↦
          let granted : (reserve_daily_task l user now redis).1 ≡ true =
            rw (reserve_daily_task, n) refl in
          absurd (ground arith)
    ]

get-reserve_granted :
    (l : Limits) (user : Text) (now : ℕ) (redis : Redis)
    → (reserve_daily_task l user now redis).1 ≡ true
    → get now (quota_key user now) (reserve_daily_task l user now redis).0
      ≡ some (reserved_counter user now redis)
unfolding reserve_daily_task
get-reserve_granted l user now redis h =
    elim (Bool-cases (ltb (daily_limit l) (reserved_counter user now redis).count)) [
      | inl y ↦
          let refused : (reserve_daily_task l user now redis).1 ≡ false =
            rw (reserve_daily_task, y) refl in
          absurd (ground arith)
      | inr n ↦
          rw (reserve_daily_task, n)
            (get-insert now (quota_key user now) _ redis (reserved_counter-is_live user now redis))
    ]

get-release :
    (user : Text) (now : ℕ) (redis : Redis) (c : Counter)
    → get now (quota_key user now) redis ≡ some c
    → 1 ≤ c.count
    → count_of (get now (quota_key user now) (release_daily_task user now redis)) + 1 ≡ c.count
unfolding release_daily_task get
get-release user now redis c h p =
    let some_left : ltb 0 c.count ≡ true = ground arith in
    rw (release_daily_task, h, some_left)
      (ap (λ o. count_of o + 1)
          (get-insert now (quota_key user now) (record c { count = c.count - 1 }) redis
            (get-is_live now (quota_key user now) redis c h))
        ∙ omega arith)

-- A reservation that is given back on the same day at once leaves the count of the day what it was.
pub release-reserve :
    (l : Limits) (user : Text) (now : ℕ) (redis : Redis)
    → (reserve_daily_task l user now redis).1 ≡ true
    → count_of (
        get now
          (quota_key user now)
          (release_daily_task user now (reserve_daily_task l user now redis).0))
      ≡ count_of (get now (quota_key user now) redis)
release-reserve l user now redis h =
    let count : (reserved_counter user now redis).count
        ≡ count_of (get now (quota_key user now) redis) + 1 =
      incremented-count (get now (quota_key user now) redis) (now + 48 * 60 * 60 * 1000) in
    omega (
      arith,
      get-release user now (reserve_daily_task l user now redis).0 (reserved_counter user now redis)
          (get-reserve_granted l user now redis h) (omega (arith, count)),
      count,
    )
