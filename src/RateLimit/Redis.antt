-- ===== src/RateLimit/Redis.antt =====
-- How many requests the limit that counts in Redis lets through: NewRedisRateLimit of
-- cmd/api/middleware/ratelimit.go.
use native.Mathlib.Nat.{add-mul, mul-le-mul, le_refl}
use vaultrun.Base.{
  Text, codes, text_eq_refl, ℕ, ◌+◌, ◌-◌, ◌*◌, ◌≤◌, ◌<◌, ◌≡◌, refl, inl, inr, Bool, true, false,
  ◌&&◌, Option, none, some, List, [], ◌∷◌, map, arith, ltb, Bool-cases,
}
use vaultrun.RateLimit.{minute, Limiter, new_limiter, allow, reply, after_incr, redis_rate_limit}
use vaultrun.RateLimit.Bound.{Event, request, Ordered, end_time, count_if, granted, granted-bound}

-- A request: the readings of the clock, and what Redis answers to INCR, none where it fails.
pub record Attempt : Type 0 where
  pub made : ℕ
  pub now : ℕ
  pub clock : ℕ
  pub answer : Option ℕ

-- How many of one caller's requests are passed on.
unfoldable pub redis_passed : (limit : ℕ) → (ip : Text) → Limiter → List Attempt → ℕ
redis_passed limit ip l [] = 0
redis_passed limit ip l (a ∷ attempts) =
    let r = redis_rate_limit (λ w. a.answer) limit l ip a.made a.now a.clock in
    count_if r.1.0.passed (redis_passed limit ip r.0 attempts)

-- the answers of INCR on one counter that stood at `n`: each is larger than the one before
unfoldable pub Counting : ℕ → List (Option ℕ) → Type 0
Counting n [] = Unit
Counting n (none ∷ answers) = Counting n answers
Counting n (some c ∷ answers) = (n < c) × Counting c answers

abbrev pub fallback : Text → Attempt → Option ℕ → List Event → List Event
fallback ip a none es = request ip a.made a.now ∷ es
fallback ip a (some c) es = es

-- The requests that the fallback in memory sees.
unfoldable pub fallbacks : Text → List Attempt → List Event
fallbacks ip [] = []
fallbacks ip (a ∷ attempts) = fallback ip a a.answer (fallbacks ip attempts)

abbrev pub answer_of : Attempt → Option ℕ
answer_of a = a.answer

reply-limiter :
    (label : Text) (header : Option ℕ) (retry : Bool) (p : Limiter × Bool)
    → (reply label header retry p).0 ≡ p.0
reply-limiter label header retry (l, true) = refl
reply-limiter label header retry (l, false) = refl

reply-passed :
    (label : Text) (header : Option ℕ) (retry : Bool) (p : Limiter × Bool)
    → (reply label header retry p).1.passed ≡ p.1
reply-passed label header retry (l, true) = refl
reply-passed label header retry (l, false) = refl

-- one request, where the bound holds of what follows it
one-bound :
    (limit : ℕ) (ip : Text) (a : Attempt) (attempts : List Attempt)
    → ((n : ℕ) (l : Limiter)
        → Counting n (map answer_of attempts)
        → redis_passed limit ip l attempts ≤ (limit - n) + granted ip l (fallbacks ip attempts))
    → (n : ℕ) (l : Limiter) (o : Option ℕ) → Counting n (o ∷ map answer_of attempts)
    → let r =
        after_incr limit (codes "ip") (some limit) (some limit) o (allow l ip a.made a.now) l in
      count_if r.1.0.passed (redis_passed limit ip r.0 attempts)
      ≤ (limit - n) + granted ip l (fallback ip a o (fallbacks ip attempts))
unfolding Counting granted
one-bound limit ip a attempts rest n l none c =
    let local = allow l ip a.made a.now in
    let after = rest n local.0 c in
    rw (reply-limiter (codes "ip") (some limit) true local) (
      rw (reply-passed (codes "ip") (some limit) true local) (
        rw (text_eq_refl ip) (
          count_both local.1 (redis_passed limit ip local.0 attempts) (limit - n)
            (granted ip local.0 (fallbacks ip attempts)) after)))
  where
    count_both : (b : Bool) (p m g : ℕ) → p ≤ m + g → count_if b p ≤ m + count_if (true && b) g
    count_both true p m g h = omega (arith, h)
    count_both false p m g h = h
one-bound limit ip a attempts rest n l (some k) c =
    let after = rest k l c.1 in
    elim (Bool-cases (ltb limit k)) [
      | inl over ↦ rw over (omega (arith, after, c.0))
      | inr under ↦
          rw under (let fits : k ≤ limit = ground (arith, under) in omega (arith, after, c.0, fits))
    ]

redis_passed-bound :
    (limit : ℕ) (ip : Text) (attempts : List Attempt) (n : ℕ) (l : Limiter)
    → Counting n (map answer_of attempts)
    → redis_passed limit ip l attempts ≤ (limit - n) + granted ip l (fallbacks ip attempts)
unfolding redis_passed redis_rate_limit fallbacks
redis_passed-bound limit ip [] n l c = omega arith
redis_passed-bound limit ip (a ∷ attempts) n l c =
    one-bound limit ip a attempts (redis_passed-bound limit ip attempts) n l a.answer c

-- While the counter in Redis of one caller counts up, the caller gets at most `limit` requests
-- through by it, and while Redis fails at most `limit` at once and `limit` more for each minute that
-- passes, rounds of the collector aside: Redis failing never opens the gate.
pub redis_passed-bound_new :
    (limit : ℕ) (ip : Text) (attempts : List Attempt) (t : ℕ)
    → Counting 0 (map answer_of attempts)
    → Ordered t (fallbacks ip attempts)
    → redis_passed limit ip (new_limiter limit) attempts * minute
      ≤ limit * minute + (limit * minute + (end_time t (fallbacks ip attempts) - t) * limit)
unfolding minute
redis_passed-bound_new limit ip attempts t c o =
    let both = redis_passed-bound limit ip attempts 0 (new_limiter limit) c in
    let local = granted-bound limit ip t (fallbacks ip attempts) o in
    let scaled = mul-le-mul both (le_refl minute) in
    let split = add-mul limit (granted ip (new_limiter limit) (fallbacks ip attempts)) minute in
    omega (arith, scaled, split, local)
