-- ===== src/RateLimit.antt =====
-- The rate limits on the API: cmd/api/middleware/ratelimit.go.
--
-- Times are in nanoseconds. A bucket's tokens are counted in parts, of which one token has as many
-- as a minute has nanoseconds, so that `rate` is `rpm` parts for a nanosecond, exactly; the rounding
-- of the source's float64 is not modelled. The map of buckets is a function.
pub mod Levels
pub mod Bound
pub mod Redis
mod Examples
use vaultrun.Base.{
  Text, codes, text_eq, ℕ, ◌+◌, ◌-◌, ◌*◌, ◌/◌, Bool, true, false, Option, none, some, ltb, leb,
  ◌==◌, if◌then◌else◌,
}

unfoldable pub minute : ℕ
minute = 60000000000

pub record Bucket : Type 0 where
  pub tokens : ℕ
  pub last : ℕ

-- `rpm` is requestsPerMinute, of which every bucket's capacity and rate are made
pub record Limiter : Type 0 where
  pub rpm : ℕ
  pub buckets : Text → Option Bucket

abbrev pub new_limiter : ℕ → Limiter
new_limiter rpm = record { rpm = rpm; buckets = λ key. none }

unfoldable pub capacity : ℕ → ℕ
capacity rpm = rpm * minute

-- tokens after the time since the last request is added, capped
unfoldable pub refill : (rpm now : ℕ) → Bucket → ℕ
refill rpm now b =
    let tokens = b.tokens + (now - b.last) * rpm in
    if ltb (capacity rpm) tokens then capacity rpm else tokens

-- `bucket.allow`
unfoldable pub spend : (rpm now : ℕ) → Bucket → Bucket × Bool
spend rpm now b =
    let tokens = refill rpm now b in
    if leb minute tokens
    then (record { tokens = tokens - minute; last = now }, true)
    else (record { tokens = tokens; last = now }, false)

-- the bucket of a key, or the one made for it at `made`
abbrev pub or_full : (rpm made : ℕ) → Option Bucket → Bucket
or_full rpm made none = record { tokens = capacity rpm; last = made }
or_full rpm made (some b) = b

abbrev pub put : Text → Bucket → (Text → Option Bucket) → Text → Option Bucket
put key b buckets k = if text_eq k key then some b else buckets k

-- `limiter.allow`, which reads the clock where it makes a bucket and again in `bucket.allow`. It is
-- one step here: the source gives up the limiter's lock between the two, and a collection that runs
-- in between is not modelled.
unfoldable pub allow : Limiter → Text → (made now : ℕ) → Limiter × Bool
allow l key made now =
    let (b, ok) = spend l.rpm now (or_full l.rpm made (l.buckets key)) in
    (record l { buckets = put key b l.buckets }, ok)

abbrev pub drop_idle : ℕ → Option Bucket → Option Bucket
drop_idle now none = none
drop_idle now (some b) = if ltb (10 * minute) (now - b.last) then none else some b

-- One round of `limiter.gc`.
unfoldable pub gc : Limiter → ℕ → Limiter
gc l now = record l { buckets = λ key. drop_idle now (l.buckets key) }

-- What a middleware does with a request: pass it on, or answer 429 and count it under a label; and
-- the headers it sets.
pub record Reply : Type 0 where
  pub passed : Bool
  pub hit : Option Text
  pub limit_header : Option ℕ
  pub retry_after : Bool

abbrev pub pass_on : Option ℕ → Reply
pass_on header = record { passed = true; hit = none; limit_header = header; retry_after = false }

abbrev pub too_many : Text → Option ℕ → Bool → Reply
too_many label header retry = record {
  passed = false;
  hit = some label;
  limit_header = header;
  retry_after = retry;
}

-- the answer of a limiter, as a reply
abbrev pub reply : Text → Option ℕ → Bool → Limiter × Bool → Limiter × Reply
reply label header retry (l, true) = (l, pass_on none)
reply label header retry (l, false) = (l, too_many label header retry)

-- The handler of RateLimit.
unfoldable pub rate_limit : Limiter → (ip : Text) → (made now : ℕ) → Limiter × Reply
rate_limit l ip made now = reply (codes "ip") none false (allow l ip made now)

-- The handler of ActorRateLimit.
unfoldable pub actor_rate_limit : Limiter → (actor : Text) → (made now : ℕ) → Limiter × Reply
actor_rate_limit l actor made now =
    if text_eq actor (codes "master")
    then (l, pass_on none)
    else reply (codes "actor") none false (allow l actor made now)

-- The key of a counter in Redis: its kind, the caller, and the minute.
pub record Window : Type 0 where
  pub kind : Text
  pub caller : Text
  pub number : ℕ

abbrev pub window : Text → Text → ℕ → Window
window kind caller now = record { kind = kind; caller = caller; number = now / minute }

-- what follows INCR: none is an error of Redis; the last result is whether the expiry is set
abbrev pub after_incr :
    (limit : ℕ)
    → (label : Text) → (passes fails : Option ℕ) → Option ℕ
    → Limiter × Bool
    → Limiter
    → Limiter × (Reply × Bool)
after_incr limit label passes fails none local l =
    let (l', r) = reply label fails true local in (l', (r, false))
after_incr limit label passes fails (some count) local l =
    (l, ((if ltb limit count then too_many label fails true else pass_on passes), count == 1))

-- The handler of NewRedisRateLimit; `incr` is Redis's answer to INCR of a key.
unfoldable pub redis_rate_limit :
    (Window → Option ℕ)
    → (limit : ℕ) → Limiter
    → (ip : Text) → (made now clock : ℕ) → Limiter × (Reply × Bool)
redis_rate_limit incr limit l ip made now clock =
    after_incr limit (codes "ip") (some limit) (some limit) (incr (window (codes "ip") ip clock))
      (allow l ip made now) l

-- The handler of NewRedisActorRateLimit.
unfoldable pub redis_actor_rate_limit :
    (Window → Option ℕ)
    → (limit : ℕ) → Limiter
    → (actor : Text) → (made now clock : ℕ) → Limiter × (Reply × Bool)
redis_actor_rate_limit incr limit l actor made now clock =
    if text_eq actor (codes "master")
    then (l, (pass_on none, false))
    else after_incr limit (codes "actor") none none (incr (window (codes "actor") actor clock))
        (allow l actor made now) l
