-- ===== src/AbuseProtection/Minute.antt =====
-- The requests of one client in one minute.
use claw_work.Prelude.{
  Bool, List, Option, Text, [], arith, if◌then◌else◌, lookup, ltb, none, refl, some, true, ℕ, ◌*◌,
  ◌+◌, ◌/◌, ◌∷◌, ◌≡◌, ◌≤◌, All, ap, decimal, false, js, length, min, ◌++◌, ◌-◌, ◌==◌, ap₂, insert,
  lookup-insert_self, not, subst, sym, ◌∙◌,
}
use claw_work.AbuseProtection.{
  Counter, Redis, Limits, get, incremented, incr_expire, request_limit, rate_key, consume_request,
}

-- The requests of a client at the given times: how many may go on.
unfoldable pub admitted : Limits → Text → Bool → List ℕ → Redis → ℕ
admitted l identity authenticated [] redis = 0
admitted l identity authenticated (now ∷ times) redis =
    (if (consume_request l identity authenticated now redis).1 then 1 else 0)
    + admitted l identity authenticated times (consume_request l identity authenticated now redis).0

abbrev pub InMinute : ℕ → ℕ → Type 0
InMinute minute now = now / 60000 ≡ minute

-- The counter of the minute after `n` requests in it.
data Counted (minute : ℕ) : ℕ → Option Counter → Type 0 where
  fresh : Counted minute 0 none
  after :
      (n deadline : ℕ)
      → 1 ≤ n
      → minute * 60000 + 65000 ≤ deadline
      → Counted minute n (some (record { count = n; expires_at = some deadline }))

abbrev next_counter : ℕ → Text → Redis → Counter
next_counter now key redis = incr_expire (now + 65000) (incremented (get now key redis))

next_counter-Counted :
    (minute n now : ℕ) (key : Text) (redis : Redis)
    → InMinute minute now
    → Counted minute n (lookup key redis)
    → ((next_counter now key redis).count ≡ n + 1)
      × Counted minute (n + 1) (some (next_counter now key redis))
unfolding incr_expire incremented get
next_counter-Counted minute n now key redis i c = by_counter (lookup key redis) refl c
  where
    by_counter :
        {n : ℕ} (o : Option Counter)
        → lookup key redis ≡ o
        → Counted minute n o
        → ((next_counter now key redis).count ≡ n + 1)
          × Counted minute (n + 1) (some (next_counter now key redis))
    by_counter _ e fresh = rw (e, get) (refl, after 1 (now + 65000) (omega arith) (omega arith))
    by_counter _ e (after m deadline p h) =
        let live : ltb now deadline ≡ true = ground arith in
        let old : (m + 1 == 1) ≡ false = ground arith in
        rw (e, live, get, old) (refl, after (m + 1) deadline (omega arith) h)

rate_key-minute :
    (identity : Text) (authenticated : Bool) (minute now : ℕ)
    → InMinute minute now
    → rate_key identity authenticated now ≡ rate_key identity authenticated (minute * 60000)
unfolding rate_key
rate_key-minute identity authenticated minute now i =
    let same : now / 60000 ≡ minute * 60000 / 60000 = omega arith in
    ap
      (λ k.
        js "clawwork:rate:"
        ++ ((if authenticated then js "user" else js "ip")
            ++ (js ":" ++ (identity ++ (js ":" ++ decimal k)))))
      same

consume_request-Counted :
    (l : Limits) (identity : Text) (authenticated : Bool) (minute n now : ℕ) (redis : Redis)
    → InMinute minute now
    → Counted minute n (lookup (rate_key identity authenticated (minute * 60000)) redis)
    → ((consume_request l identity authenticated now redis).1
        ≡ not (ltb (request_limit l authenticated) (n + 1)))
      × Counted minute (n + 1) (
          lookup
            (rate_key identity authenticated (minute * 60000))
            (consume_request l identity authenticated now redis).0)
unfolding consume_request
consume_request-Counted l identity authenticated minute n now redis i c =
    let key : rate_key identity authenticated now
        ≡ rate_key identity authenticated (minute * 60000) =
      rate_key-minute identity authenticated minute now i in
    let here : Counted minute n (lookup (rate_key identity authenticated now) redis) =
      subst (λ k. Counted minute n (lookup k redis)) (sym key) c in
    let (count, next) =
      next_counter-Counted minute n now (rate_key identity authenticated now) redis i here in
    (
      ap (λ m. not (ltb (request_limit l authenticated) m)) count,
      subst
          (λ k. Counted minute (n + 1) (
            lookup k (
              insert (rate_key identity authenticated now)
                (next_counter now (rate_key identity authenticated now) redis) redis)))
          key
          (subst (Counted minute (n + 1))
            (sym (lookup-insert_self (rate_key identity authenticated now) _ redis)) next),
    )

admitted-from :
    (l : Limits) (identity : Text) (authenticated : Bool) (minute n : ℕ) (times : List ℕ)
    (redis : Redis)
    → All (InMinute minute) times
    → Counted minute n (lookup (rate_key identity authenticated (minute * 60000)) redis)
    → admitted l identity authenticated times redis
      ≡ min (length times) (request_limit l authenticated - n)
unfolding admitted
admitted-from l identity authenticated minute n [] redis h c = omega arith
admitted-from l identity authenticated minute n (now ∷ times) redis (i, h) c =
    let (answer, next) = consume_request-Counted l identity authenticated minute n now redis i c in
    let later : admitted l identity authenticated times
          (consume_request l identity authenticated now redis).0
        ≡ min (length times) (request_limit l authenticated - (n + 1)) =
      admitted-from l identity authenticated minute (n + 1) times _ h next in
    ap₂ (λ (b : Bool) m. (if b then 1 else 0) + m) answer later ∙ ground arith

-- Of the requests of one client in one minute, whenever they come in it, as many as the limit
-- says may go on, or all if they are fewer, if the counter of this minute has not been used.
pub admitted-request_limit :
    (l : Limits) (identity : Text) (authenticated : Bool) (minute : ℕ) (times : List ℕ)
    (redis : Redis)
    → All (InMinute minute) times
    → lookup (rate_key identity authenticated (minute * 60000)) redis ≡ none
    → admitted l identity authenticated times redis
      ≡ min (length times) (request_limit l authenticated)
admitted-request_limit l identity authenticated minute times redis h new =
    let all : admitted l identity authenticated times redis
        ≡ min (length times) (request_limit l authenticated - 0) =
      admitted-from l identity authenticated minute 0 times redis h
        (subst (Counted minute 0) (sym new) fresh) in
    omega (arith, all)
