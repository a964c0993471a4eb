-- ===== src/RateLimit/Bound.antt =====
-- How many requests of one key a limiter of cmd/api/middleware/ratelimit.go can grant.
use native.Mathlib.Nat.{add-mul, suc-mul}
use vaultrun.Base.{
  Text, text_eq_iff, text_eq, ℕ, suc, ◌+◌, ◌-◌, ◌*◌, ◌≤◌, ◌≡◌, sym, subst, inl, inr, Bool, ◌&&◌,
  List, [], ◌∷◌, arith, leb, if◌then◌else◌, Bool-cases,
}
use vaultrun.RateLimit.{minute, Limiter, new_limiter, capacity, allow, gc}
use vaultrun.RateLimit.Levels.{
  level, left, allow-ok, level_other, level-gc, level-grows, level-left,
}

-- What happens to a limiter: a request, with the key and the two readings of the clock, or a round
-- of the collector.
pub data Event : Type 0 where
  request : Text → ℕ → ℕ → Event
  collect : ℕ → Event

abbrev pub time_of : Event → ℕ
time_of (request key made now) = now
time_of (collect now) = now

-- The clock does not run backwards.
unfoldable pub Ordered : ℕ → List Event → Type 0
Ordered t [] = Unit
Ordered t (e ∷ es) = (t ≤ time_of e) × Ordered (time_of e) es

unfoldable pub end_time : ℕ → List Event → ℕ
end_time t [] = t
end_time t (e ∷ es) = end_time (time_of e) es

abbrev pub count_if : Bool → ℕ → ℕ
count_if b n = if b then suc n else n

-- How many requests of a key are granted.
unfoldable pub granted : Text → Limiter → List Event → ℕ
granted key l [] = 0
granted key l (request k made now ∷ es) =
    count_if (text_eq key k && (allow l k made now).1) (granted key (allow l k made now).0 es)
granted key l (collect now ∷ es) = granted key (gc l now) es

le-end_time : (t : ℕ) (es : List Event) → Ordered t es → t ≤ end_time t es
unfolding end_time Ordered
le-end_time t [] o = omega arith
le-end_time t (e ∷ es) o = let rest = le-end_time (time_of e) es o.1 in omega (arith, o.0)

-- Time passed up to `now` and from `now` on.
split-time :
    (r t now end : ℕ) → t ≤ now → now ≤ end → (now - t) * r + (end - now) * r ≡ (end - t) * r
split-time r t now end h h' =
    let whole : end - t ≡ (now - t) + (end - now) = omega (arith, h, h') in
    rw whole (sym (add-mul (now - t) (end - now) r))

-- one request, of the key or of another
paid :
    (key : Text) (l : Limiter) (k : Text) (made now rest more : ℕ)
    → rest * minute ≤ level (allow l k made now).0 key now + more
    → count_if (text_eq key k && (allow l k made now).1) rest * minute ≤ level l key now + more
paid key l k made now rest more h = elim (Bool-cases (text_eq key k)) [
  | inr other ↦ rw other (rw (level_other l k key made now now other) at h)
  | inl same ↦
      let e = (text_eq_iff key k).0 same in
      rw same (
        paid_own l k made now rest more
          (subst (λ x. rest * minute ≤ level (allow l k made now).0 x now + more) e h) e)
]
  where
    paid_own :
        (l : Limiter) (k : Text) (made now rest more : ℕ)
        → rest * minute ≤ level (allow l k made now).0 k now + more
        → key ≡ k
        → count_if (allow l k made now).1 rest * minute ≤ level l key now + more
    paid_own l k made now rest more h e =
        let kept = level-left l k made now in
        let ok = allow-ok l k made now in
        rw e (rw ok (spent rest (level l k now) more (level (allow l k made now).0 k now) h kept))
      where
        spent :
            (rest n more after : ℕ)
            → rest * minute ≤ after + more
            → after ≤ left n
            → count_if (leb minute n) rest * minute ≤ n + more
        spent rest n more after h k = ground (arith, suc-mul rest minute)

granted-bound_from :
    (key : Text) (t : ℕ) (es : List Event) (l : Limiter)
    → Ordered t es
    → granted key l es * minute ≤ level l key t + (end_time t es - t) * l.rpm
unfolding granted end_time Ordered allow gc
granted-bound_from key t [] l o = omega arith
granted-bound_from key t (request k made now ∷ es) l o =
    let rest = granted-bound_from key now es (allow l k made now).0 o.1 in
    let own =
      paid key l k made now (granted key (allow l k made now).0 es)
        ((end_time now es - now) * l.rpm) rest in
    let grown = level-grows l key t now in
    let time = split-time l.rpm t now (end_time now es) o.0 (le-end_time now es o.1) in
    omega (arith, own, grown, time)
granted-bound_from key t (collect now ∷ es) l o =
    let rest = granted-bound_from key now es (gc l now) o.1 in
    let same = level-gc l key now now (omega arith) in
    let grown = level-grows l key t now in
    let time = split-time l.rpm t now (end_time now es) o.0 (le-end_time now es o.1) in
    omega (arith, rest, same, grown, time)

-- Whatever the requests and the rounds of the collector, where no round runs between the two locks
-- of a request, as long as the clock does not run backwards, a new limiter grants one key at most
-- `rpm` requests at once and `rpm` more for each minute that passes.
pub granted-bound :
    (rpm : ℕ) (key : Text) (t : ℕ) (es : List Event)
    → Ordered t es
    → granted key (new_limiter rpm) es * minute ≤ rpm * minute + (end_time t es - t) * rpm
unfolding level capacity
granted-bound rpm key t es o = granted-bound_from key t es (new_limiter rpm) o
