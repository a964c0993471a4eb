-- ===== src/RateLimit/Levels.antt =====
-- What a request finds in its bucket, as a function of the time: limiter.allow and limiter.gc of
-- cmd/api/middleware/ratelimit.go.
use native.Mathlib.Nat.{mul-le-mul, le_refl, add-mul, sub_self, zero-mul}
use vaultrun.Base.{
  Text, text_eq_refl, text_eq, ℕ, ◌+◌, ◌-◌, ◌*◌, ◌≤◌, ◌≡◌, refl, sym, ap, ◌∙◌, inl, inr, false,
  Option, none, some, arith, ltb, leb, if◌then◌else◌, Bool-cases,
}
use vaultrun.RateLimit.{
  minute, Bucket, Limiter, capacity, refill, spend, or_full, allow, drop_idle, gc,
}

abbrev pub level_at : (rpm now : ℕ) → Option Bucket → ℕ
level_at rpm now none = capacity rpm
level_at rpm now (some b) = refill rpm now b

-- The tokens that a request of the key at `now` finds.
unfoldable pub level : Limiter → Text → ℕ → ℕ
level l key now = level_at l.rpm now (l.buckets key)

-- A bucket just made is full, however late it is asked.
pub refill-or_full :
    (rpm made now : ℕ) (o : Option Bucket)
    → refill rpm now (or_full rpm made o) ≡ level_at rpm now o
unfolding refill
refill-or_full rpm made now none = ground arith
refill-or_full rpm made now (some b) = refl

-- what a request leaves of `n` tokens
abbrev pub left : ℕ → ℕ
left n = if leb minute n then n - minute else n

spend-tokens :
    (rpm now : ℕ) (b : Bucket)
    → (spend rpm now b).0 ≡ record { tokens = left (refill rpm now b); last = now }
unfolding spend
spend-tokens rpm now b = elim (Bool-cases (leb minute (refill rpm now b))) [
  | inl enough ↦ rw enough refl
  | inr short ↦ rw short refl
]

spend-ok : (rpm now : ℕ) (b : Bucket) → (spend rpm now b).1 ≡ leb minute (refill rpm now b)
unfolding spend
spend-ok rpm now b = elim (Bool-cases (leb minute (refill rpm now b))) [
  | inl enough ↦ rw enough refl
  | inr short ↦ rw short refl
]

-- A request is granted exactly where it finds a whole token.
pub allow-ok :
    (l : Limiter) (key : Text) (made now : ℕ)
    → (allow l key made now).1 ≡ leb minute (level l key now)
unfolding allow level
allow-ok l key made now =
    spend-ok l.rpm now (or_full l.rpm made (l.buckets key))
    ∙ ap (leb minute) (refill-or_full l.rpm made now (l.buckets key))

-- After a request the bucket of its key fills from what the request left.
pub level-allow :
    (l : Limiter) (key : Text) (made now later : ℕ)
    → level (allow l key made now).0 key later
      ≡ refill l.rpm later (record { tokens = left (level l key now); last = now })
unfolding allow level
level-allow l key made now later = rw (text_eq_refl key) (
    rw (spend-tokens l.rpm now (or_full l.rpm made (l.buckets key)))
      (rw (refill-or_full l.rpm made now (l.buckets key)) refl))

-- The other keys' buckets stay as they are.
pub level_other :
    (l : Limiter) (key k : Text) (made now later : ℕ)
    → text_eq k key ≡ false
    → level (allow l key made now).0 k later ≡ level l k later
unfolding allow level
level_other l key k made now later other = rw other refl

-- A bucket that was idle for more than a minute is full.
refill-idle : (rpm now : ℕ) (b : Bucket) → minute ≤ now - b.last → refill rpm now b ≡ capacity rpm
unfolding refill capacity
refill-idle rpm now b idle = let more = mul-le-mul (le_refl rpm) idle in ground (arith, more)

level_at-drop_idle :
    (rpm now later : ℕ) (o : Option Bucket)
    → now ≤ later
    → level_at rpm later (drop_idle now o) ≡ level_at rpm later o
unfolding minute
level_at-drop_idle rpm now later none h = refl
level_at-drop_idle rpm now later (some b) h = elim (Bool-cases (ltb (10 * minute) (now - b.last))) [
  | inl idle ↦ rw idle (sym (refill-idle rpm later b (ground (arith, idle, h))))
  | inr busy ↦ rw busy refl
]

-- What is collected was full, so no later request can tell.
pub level-gc :
    (l : Limiter) (key : Text) (now later : ℕ)
    → now ≤ later
    → level (gc l now) key later ≡ level l key later
unfolding gc level
level-gc l key now later h = level_at-drop_idle l.rpm now later (l.buckets key) h

refill-grows :
    (rpm now later : ℕ) (b : Bucket) → refill rpm later b ≤ refill rpm now b + (later - now) * rpm
unfolding refill
refill-grows rpm now later b =
    let time : later - b.last ≤ (now - b.last) + (later - now) = omega arith in
    let more = mul-le-mul time (le_refl rpm) in
    let split = add-mul (now - b.last) (later - now) rpm in ground (arith, more, split)

level_at-grows :
    (rpm now later : ℕ) (o : Option Bucket)
    → level_at rpm later o ≤ level_at rpm now o + (later - now) * rpm
level_at-grows rpm now later none = omega arith
level_at-grows rpm now later (some b) = refill-grows rpm now later b

-- A bucket gains no more than its rate.
pub level-grows :
    (l : Limiter) (key : Text) (now later : ℕ)
    → level l key later ≤ level l key now + (later - now) * l.rpm
unfolding level
level-grows l key now later = level_at-grows l.rpm now later (l.buckets key)

refill_now : (rpm n now : ℕ) → refill rpm now (record { tokens = n; last = now }) ≤ n
unfolding refill
refill_now rpm n now =
    let still : (now - now) * rpm ≡ 0 = rw (sub_self now) (zero-mul rpm) in ground (arith, still)

-- Right after a request its bucket holds at most what the request left.
pub level-left :
    (l : Limiter) (key : Text) (made now : ℕ)
    → level (allow l key made now).0 key now ≤ left (level l key now)
level-left l key made now =
    rw (level-allow l key made now now) (refill_now l.rpm (left (level l key now)) now)
