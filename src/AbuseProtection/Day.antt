-- ===== src/AbuseProtection/Day.antt =====
-- The daily tasks: no counter passes the limit, and what a release gives back.
use claw_work.Prelude.{
  Bool-cases, Option, Option-cases, Text, arith, inl, inr, insert, lookup, lookup-insert, ltb, none,
  refl, some, text_eq, weight, ℕ, ◌*◌, ◌+◌, ◌≡◌, ◌≤◌, List, [], ap, decimal, false, js,
  lookup-insert_ne, lookup-insert_self, read_decimal, read_decimal-decimal, sym, true, ◌++◌, ◌-◌,
  ◌/◌, ◌∙◌, ◌∷◌, ◌≢◌,
}
use claw_work.AbuseProtection.{
  Counter, Redis, Limits, get, incremented, incr_expire, reserve_daily_task, release_daily_task,
  quota_key, daily_limit,
}

abbrev pub count_of : Option Counter → ℕ
count_of o = weight (λ (c : Counter). c.count) o

-- No counter of daily tasks is above the limit.
abbrev pub Within : Limits → Redis → Type 0
Within l redis =
    (user : Text) (now : ℕ) → count_of (lookup (quota_key user now) redis) ≤ daily_limit l

get-le :
    (now : ℕ) (key : Text) (redis : Redis)
    → count_of (get now key redis) ≤ count_of (lookup key redis)
unfolding get
get-le now key redis = elim (Option-cases (lookup key redis)) [
  | inl e ↦ rw (e, get) (omega arith)
  | inr (c, e) ↦ rw (e, get) (ground arith)
]

pub incremented-count :
    (o : Option Counter) (deadline : ℕ)
    → (incr_expire deadline (incremented o)).count ≡ count_of o + 1
unfolding incremented incr_expire
incremented-count none deadline = refl
incremented-count (some c) deadline = ground arith

count_of-insert :
    (key j : Text) (c : Counter) (redis : Redis) (limit : ℕ)
    → c.count ≤ limit
    → count_of (lookup j redis) ≤ limit
    → count_of (lookup j (insert key c redis)) ≤ limit
count_of-insert key j c redis limit h k = elim (Bool-cases (text_eq key j)) [
  | inl y ↦ rw (lookup-insert, y) h
  | inr n ↦ rw (lookup-insert, n) k
]

-- Neither a reservation nor a release, of whatever user and at whatever time, takes the counter of
-- any user and day over the daily limit.
pub reserve_release-Within :
    (l : Limits) (user : Text) (now : ℕ) (redis : Redis)
    → Within l redis
    → Within l (reserve_daily_task l user now redis).0
      × Within l (release_daily_task user now redis)
reserve_release-Within l user now redis h = (reserved, released)
  where
    old : Counter
    old = incr_expire (now + 48 * 60 * 60 * 1000) (incremented (get now (quota_key user now) redis))

    small : old.count ≤ daily_limit l + 1
    small = omega (
      arith,
      incremented-count (get now (quota_key user now) redis) (now + 48 * 60 * 60 * 1000),
      get-le now (quota_key user now) redis,
      h user now,
    )

    reserved : Within l (reserve_daily_task l user now redis).0
    reserved u t =
        unfold reserve_daily_task in
        elim (Bool-cases (ltb (daily_limit l) old.count)) [
          | inl y ↦
              rw (y, reserve_daily_task)
                (count_of-insert (quota_key user now) (quota_key u t) _ redis (daily_limit l)
                  (omega (arith, small)) (h u t))
          | inr n ↦
              rw (n, reserve_daily_task)
                (count_of-insert (quota_key user now) (quota_key u t) _ redis (daily_limit l)
                  (ground arith) (h u t))
        ]

    released : Within l (release_daily_task user now redis)
    released u t =
        unfold release_daily_task in
        elim (Option-cases (get now (quota_key user now) redis)) [
          | inl e ↦ rw (e, release_daily_task) (h u t)
          | inr (c, e) ↦
              rw (e, release_daily_task)
                (elim (Bool-cases (ltb 0 c.count)) [
                  | inl y ↦
                      let read : count_of (get now (quota_key user now) redis) ≡ c.count =
                        rw e refl in
                      let fits : c.count - 1 ≤ daily_limit l =
                        omega (arith, get-le now (quota_key user now) redis, h user now, read) in
                      rw y (
                        count_of-insert (quota_key user now) (quota_key u t) _ redis (daily_limit l)
                          fits (h u t))
                  | inr n ↦ rw n (h u t)
                ])
        ]

append-cancel {ℓ} : {A : Type ℓ} (xs : List A) {ys zs : List A} → xs ++ ys ≡ xs ++ zs → ys ≡ zs
append-cancel [] h = h
append-cancel (x ∷ xs) h = append-cancel xs (ground arith)

quota_key-day :
    (user : Text) (now later : ℕ)
    → quota_key user now ≡ quota_key user later
    → now / 86400000 ≡ later / 86400000
unfolding quota_key
quota_key-day user now later h =
    let tails : decimal (now / 86400000) ≡ decimal (later / 86400000) =
      append-cancel (js ":") (append-cancel user (append-cancel (js "clawwork:quota:tasks:") h)) in
    sym (read_decimal-decimal (now / 86400000))
    ∙ ap read_decimal tails
    ∙ read_decimal-decimal (later / 86400000)

release-lookup_ne :
    (user j : Text) (now : ℕ) (redis : Redis)
    → quota_key user now ≢ j
    → lookup j (release_daily_task user now redis) ≡ lookup j redis
unfolding release_daily_task
release-lookup_ne user j now redis ne = elim (Option-cases (get now (quota_key user now) redis)) [
  | inl e ↦ rw (e, release_daily_task) refl
  | inr (c, e) ↦
      rw (e, release_daily_task)
        (elim (Bool-cases (ltb 0 c.count)) [
          | inl y ↦ rw y (lookup-insert_ne _ redis ne)
          | inr n ↦ rw n refl
        ])
]

reserve-count :
    (l : Limits) (user : Text) (now : ℕ) (redis : Redis)
    → (reserve_daily_task l user now redis).1 ≡ true
    → count_of (lookup (quota_key user now) (reserve_daily_task l user now redis).0)
      ≡ count_of (get now (quota_key user now) redis) + 1
unfolding reserve_daily_task
reserve-count l user now redis h =
    elim (Bool-cases (
      ltb (daily_limit l)
        (incr_expire (now + 48 * 60 * 60 * 1000)
          (incremented (get now (quota_key user now) redis))).count)) [
            | inl y ↦
                let refused : (reserve_daily_task l user now redis).1 ≡ false =
                  rw (y, reserve_daily_task) refl in
                absurd (ground arith)
            | inr n ↦
                rw (n, reserve_daily_task)
                  (ap count_of (lookup-insert_self (quota_key user now) _ redis)
                    ∙ incremented-count (get now (quota_key user now) redis)
                        (now + 48 * 60 * 60 * 1000))
          ]

-- A reservation that is given back on a later day is not given back: the counter of the day on
-- which it was made still counts it.
pub release-reserve_other_day :
    (l : Limits) (user : Text) (now later : ℕ) (redis : Redis)
    → (reserve_daily_task l user now redis).1 ≡ true
    → now / 86400000 ≢ later / 86400000
    → count_of (
        lookup
          (quota_key user now)
          (release_daily_task user later (reserve_daily_task l user now redis).0))
      ≡ count_of (get now (quota_key user now) redis) + 1
release-reserve_other_day l user now later redis h other =
    ap count_of (
      release-lookup_ne user (quota_key user now) later _
        (λ e. other (sym (quota_key-day user later now e))))
    ∙ reserve-count l user now redis h
