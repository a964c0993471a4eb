-- ===== src/Redact/Whole.antt =====
-- What Redact of internal/secrets/redact.go replaces.
use vaultrun.Base.{
  length, all, any, length-append, Text, is_empty, starts_with, ℕ, zero, suc, ◌-◌, ◌≤◌, ◌≡◌, refl,
  sym, ap, ap₂, subst, ◌⊎◌, inl, inr, Bool, true, false, ◌&&◌, ◌||◌, not, Option, none, some, List,
  [], ◌∷◌, ◌++◌, arith, leb, ◌==◌, ==_iff, Bool-cases, Option-cases, and-eq_true,
}
use vaultrun.Redact.{Needle, Redactor, begins, begins_with, is_first, is_at, match_at, process}

-- The needle is one of the list.
abbrev pub IsAmong : Needle → List Needle → Type 0
IsAmong n [] = ⊥
IsAmong n (m ∷ ms) = (n ≡ m) ⊎ IsAmong n ms

abbrev pub no_longer : Needle → Needle → Bool
no_longer n m = leb (length m.pat) (length n.pat)

-- If the needle `m` stands in front, it is no longer than `n`.
abbrev pub gives_way : Needle → Text → Needle → Bool
gives_way n buf m = not (is_at buf m) || no_longer n m

-- A text redacted, from the left: a needle that stands there is replaced, of those that do the
-- longest, and a byte is kept only where none of the needles stands.
pub data Redacts (needles : List Needle) : Text → Text → Type 0 where
  done : Redacts needles [] []
  keep :
      (c : ℕ) {s o : Text}
      → all (λ n. not (is_at (c ∷ s) n)) needles ≡ true
      → Redacts needles s o
      → Redacts needles (c ∷ s) (c ∷ o)
  hide :
      (n : Needle) {s o : Text}
      → IsAmong n needles
      → all (gives_way n (n.pat ++ s)) needles ≡ true
      → Redacts needles s o
      → Redacts needles (n.pat ++ s) (n.repl ++ o)

abbrev pub is_filled : Needle → Bool
is_filled n = not (is_empty n.pat)

-- Each needle is no longer than those before it.
abbrev pub is_sorted : List Needle → Bool
is_sorted [] = true
is_sorted (n ∷ ns) = all (no_longer n) ns && is_sorted ns

pub starts_with-split : (b s : Text) → starts_with b s ≡ true → (t : Text) × (s ≡ b ++ t)
starts_with-split [] s h = (s, refl)
starts_with-split (x ∷ b) [] h = cc
starts_with-split (x ∷ b) (c ∷ s) h =
    let (same, rest) = and-eq_true (x == c) (starts_with b s) h in
    let split = starts_with-split b s rest in
    (split.0, ap₂ (λ y u. y ∷ u) (sym ((==_iff x c).0 same)) split.1)

-- the bytes of a needle that was found are passed over
pub process_skip :
    (r : Redactor) (final : Bool) (b t : Text)
    → process r final (length b) (b ++ t) ≡ process r final 0 t
unfolding process
process_skip r final [] t = refl
process_skip r final (x ∷ b) t = process_skip r final b t

pub match_at-IsAmong :
    (ns : List Needle) (n : Needle) (buf : Text)
    → match_at ns buf ≡ some n
    → IsAmong n ns × (is_at buf n ≡ true)
unfolding match_at
match_at-IsAmong [] n buf h = cc
match_at-IsAmong (m ∷ ns) n buf h = elim (Bool-cases (is_at buf m)) [
  | inl here ↦
      let e : some m ≡ some n = rw here at h in
      let same : m ≡ n = cc in (inl (sym same), subst (λ k. is_at buf k ≡ true) same here)
  | inr other ↦ let rest = match_at-IsAmong ns n buf (rw other at h) in (inr rest.0, rest.1)
]

no_longer-gives_way :
    (n : Needle) (buf : Text) (ns : List Needle)
    → all (no_longer n) ns ≡ true
    → all (gives_way n buf) ns ≡ true
no_longer-gives_way n buf [] h = refl
no_longer-gives_way n buf (m ∷ ns) h =
    let (a, b) = and-eq_true (no_longer n m) (all (no_longer n) ns) h in
    rw (no_longer-gives_way n buf ns b) (rw a (ground arith))

-- where the needles are sorted, the first that stands in front is the longest
pub match_at-gives_way :
    (ns : List Needle) (n : Needle) (buf : Text)
    → is_sorted ns ≡ true
    → match_at ns buf ≡ some n
    → all (gives_way n buf) ns ≡ true
unfolding match_at
match_at-gives_way [] n buf o h = refl
match_at-gives_way (m ∷ ns) n buf o h =
    let (first, rest) = and-eq_true (all (no_longer m) ns) (is_sorted ns) o in
    elim (Bool-cases (is_at buf m)) [
      | inl here ↦
          let e : some m ≡ some n = rw here at h in
          let same : m ≡ n = cc in
          let own : no_longer m m ≡ true = ground arith in
          let others = no_longer-gives_way m buf ns first in
          subst (λ k. all (gives_way k buf) (m ∷ ns) ≡ true) same (ground (arith, own, others))
      | inr other ↦
          let others = match_at-gives_way ns n buf rest (rw other at h) in
          ground (arith, other, others)
    ]

pub match_at-none_stands :
    (ns : List Needle) (buf : Text)
    → match_at ns buf ≡ none
    → all (λ n. not (is_at buf n)) ns ≡ true
unfolding match_at
match_at-none_stands [] buf h = refl
match_at-none_stands (m ∷ ns) buf h = elim (Bool-cases (is_at buf m)) [
  | inl here ↦ absurd (found (rw here at h))
  | inr other ↦ ground (arith, other, match_at-none_stands ns buf (rw other at h))
]
  where
    found : ◌≡◌ {A = Option Needle} (some m) none → ⊥
    found e = cc

-- a byte with which no needle begins
pub plain_byte :
    (ns : List Needle) (c : ℕ) (s : Text)
    → all is_filled ns ≡ true
    → any (begins_with c) ns ≡ false
    → all (λ n. not (is_at (c ∷ s) n)) ns ≡ true
plain_byte [] c s filled plain = refl
plain_byte (n ∷ ns) c s filled plain =
    let (first, rest) = and-eq_true (is_filled n) (all is_filled ns) filled in
    ground (
      arith,
      one n.pat first (ground (arith, plain)),
      plain_byte ns c s rest (ground (arith, plain)),
    )
  where
    one :
        (p : Text)
        → not (is_empty p) ≡ true
        → begins c p ≡ false
        → not (starts_with p (c ∷ s)) ≡ true
    one [] f b = cc
    one (x ∷ p) f b = ground (arith, b)

pub IsAmong-filled :
    (n : Needle) (ns : List Needle) → IsAmong n ns → all is_filled ns ≡ true → is_filled n ≡ true
IsAmong-filled n [] a f = absurd a
IsAmong-filled n (m ∷ ns) (inl e) f = rw e (ground (arith, f))
IsAmong-filled n (m ∷ ns) (inr a) f = IsAmong-filled n ns a (ground (arith, f))

pub shorter :
    {n : ℕ} (p t : Text) (c : ℕ) (s : Text)
    → not (is_empty p) ≡ true
    → c ∷ s ≡ p ++ t
    → length (c ∷ s) ≤ suc n
    → length t ≤ n
shorter [] t c s f e h = cc
shorter (x ∷ p) t c s f e h =
    let tail : s ≡ p ++ t = cc in
    let size = length-append p t in let same = ap length tail in omega (arith, size, same, h)

module _ (r : Redactor) (filled : all is_filled r.needles ≡ true)
    (sorted : is_sorted r.needles ≡ true) where
  -- a needle at the front, where the rest is known
  pub hidden :
      (p repl : Text) (c : ℕ) (s t : Text)
      → IsAmong (record { pat = p; repl = repl }) r.needles
      → not (is_empty p) ≡ true
      → c ∷ s ≡ p ++ t
      → all (gives_way (record { pat = p; repl = repl }) (c ∷ s)) r.needles ≡ true
      → Redacts r.needles t (process r true 0 t).0
      → Redacts r.needles (c ∷ s) (repl ++ (process r true (length p - 1) s).0)
  hidden [] repl c s t a f e l rest = cc
  hidden (x ∷ b) repl c s t a f e l rest =
      let tail : s ≡ b ++ t = cc in
      let count : suc (length b) - 1 ≡ length b = omega arith in
      rw e (
        rw count (
          rw tail (
            rw (process_skip r true b t)
              (hide (record { pat = x ∷ b; repl = repl }) a (rw e at l) rest))))

  pub process-Redacts :
      (n : ℕ) (s : Text) → length s ≤ n → Redacts r.needles s (process r true 0 s).0
  unfolding process is_first
  process-Redacts n [] h = done
  process-Redacts zero (c ∷ s) h = absurd (omega (arith, h))
  process-Redacts (suc n) (c ∷ s) h =
      let rest = process-Redacts n s (omega (arith, h)) in
      elim (Bool-cases (any (begins_with c) r.needles)) [
        | inr plain ↦ rw plain (keep c (plain_byte r.needles c s filled plain) rest)
        | inl first ↦ rw first (elim (Option-cases (match_at r.needles (c ∷ s))) [
          | inl missing ↦ rw missing (keep c (match_at-none_stands r.needles (c ∷ s) missing) rest)
          | inr (m, found) ↦
              let (among, at) = match_at-IsAmong r.needles m (c ∷ s) found in
              let (t, e) = starts_with-split m.pat (c ∷ s) at in
              let full = IsAmong-filled m r.needles among filled in
              rw found (
                hidden m.pat m.repl c s t among full e
                  (match_at-gives_way r.needles m (c ∷ s) sorted found)
                  (process-Redacts n t (shorter m.pat t c s full e h)))
        ])
      ]
