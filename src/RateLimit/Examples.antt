-- ===== src/RateLimit/Examples.antt =====
-- Tests and witnesses for the rate limits of cmd/api/middleware/ratelimit.go.
use vaultrun.Base.{
  Text, codes, text_eq, ℕ, ◌+◌, ◌-◌, ◌*◌, ◌≤◌, ◌≡◌, refl, true, none, some, List, [], ◌∷◌, arith,
}
use vaultrun.RateLimit.{
  minute, Bucket, Limiter, new_limiter, capacity, refill, spend, put, allow, gc, actor_rate_limit,
  redis_rate_limit,
}
use vaultrun.RateLimit.Bound.{Event, request, collect, Ordered, end_time, granted, granted-bound}
use vaultrun.RateLimit.Redis.{Attempt, redis_passed, Counting, fallbacks, redis_passed-bound_new}

abbrev alice : Text
alice = codes "10.0.0.7"

-- two requests, a round of the collector after eleven minutes, and one more request
abbrev visits : List Event
visits =
    request alice 0 5 ∷ request alice 6 7 ∷ collect 660000000010 ∷ request alice 1 660000000020 ∷ []

visits-Ordered : Ordered 0 visits
unfolding Ordered
visits-Ordered = (omega arith, (omega arith, (omega arith, (omega arith, tt))))

granted-bound_example :
    granted alice (new_limiter 1) visits * minute ≤ 1 * minute + (end_time 0 visits - 0) * 1
granted-bound_example = granted-bound 1 alice 0 visits visits-Ordered

-- Of the three requests the second one is refused.
first_and_last : granted alice (new_limiter 1) visits ≡ 2
unfolding granted allow spend refill capacity minute gc text_eq
first_and_last = refl

-- A collection between the two halves of a request: the request spends a token of the bucket that it
-- found, which is dropped meanwhile, and the next one at the same time finds a full bucket. At one
-- request per minute both are granted.
abbrev idle : Bucket
idle = record { tokens = 60000000000; last = 0 }

collected_between :
    let l : Limiter = record { rpm = 1; buckets = put alice idle (λ key. none) } in
    let now : ℕ = 660000000010 in
    ((spend 1 now idle).1 ≡ true) × ((allow (gc l now) alice now now).1 ≡ true)
unfolding allow spend refill capacity minute gc text_eq
collected_between = (refl, refl)

-- Redis answers twice, fails, and answers again.
abbrev tries : List Attempt
tries =
    record { made = 0; now = 1; clock = 1; answer = some 1 }
    ∷ record { made = 2; now = 3; clock = 3; answer = some 2 }
    ∷ record { made = 4; now = 5; clock = 5; answer = none }
    ∷ record { made = 6; now = 7; clock = 7; answer = some 3 }
    ∷ []

redis_passed-bound_new_example :
    redis_passed 2 alice (new_limiter 2) tries * minute
    ≤ 2 * minute + (2 * minute + (end_time 0 (fallbacks alice tries) - 0) * 2)
unfolding Counting Ordered fallbacks
redis_passed-bound_new_example =
    redis_passed-bound_new 2 alice tries 0 (omega arith, (omega arith, (omega arith, tt)))
      (omega arith, tt)

-- Three of the four are passed on: the last is over the limit.
tries_passed : redis_passed 2 alice (new_limiter 2) tries ≡ 3
unfolding redis_passed redis_rate_limit allow spend refill capacity minute
tries_passed = refl

-- The master key is exempt.
master_exempt : (actor_rate_limit (new_limiter 0) (codes "master") 0 0).1.passed ≡ true
unfolding actor_rate_limit text_eq
master_exempt = refl
