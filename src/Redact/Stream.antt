-- ===== src/Redact/Stream.antt =====
-- That the writer of internal/secrets/redact.go gives what Redact gives, however the output is cut.
use mathlib.Core.List.{append_assoc}
use vaultrun.Base.{
  length, all, any, length-append, Text, text_eq_iff, starts_with, text_eq, ℕ, zero, suc, ◌-◌, ◌≤◌,
  ◌<◌, ◌≡◌, refl, sym, ap, subst, ◌⊎◌, inl, inr, Bool, true, false, ◌&&◌, ◌||◌, not, Option, none,
  some, List, [], ◌∷◌, ◌++◌, arith, Bool-cases, Option-cases, and-eq_true,
}
use vaultrun.Redact.{
  Needle, Redactor, is_first, is_at, match_at, is_cut, could_extend, emit, unmatched, process,
}

-- If the first needle stands at the front of the second, they have one pattern.
abbrev pub is_apart : Needle → Needle → Bool
is_apart n m = not (starts_with n.pat m.pat) || text_eq n.pat m.pat

-- No needle continues another.
unfoldable pub prefix_free : List Needle → Bool
prefix_free needles = all (λ n. all (is_apart n) needles) needles

starts_with-more :
    (b buf more : Text) → starts_with b buf ≡ true → starts_with b (buf ++ more) ≡ true
starts_with-more [] buf more h = refl
starts_with-more (x ∷ b) [] more h = cc
starts_with-more (x ∷ b) (c ∷ buf) more h = ground (arith, starts_with-more b buf more)

starts_with_trans :
    (a b c : Text) → starts_with a b ≡ true → starts_with b c ≡ true → starts_with a c ≡ true
starts_with_trans [] b c h k = refl
starts_with_trans (x ∷ a) [] c h k = cc
starts_with_trans (x ∷ a) (y ∷ b) [] h k = cc
starts_with_trans (x ∷ a) (y ∷ b) (z ∷ c) h k = ground (arith, starts_with_trans a b c)

-- What stands at the front once more has come stood there before, or was cut off.
starts_with-cut :
    (b buf more : Text)
    → starts_with b (buf ++ more) ≡ true
    → (starts_with b buf ≡ true) ⊎ ((length buf < length b) × (starts_with buf b ≡ true))
starts_with-cut [] buf more h = inl refl
starts_with-cut (x ∷ b) [] more h = inr (omega arith, refl)
starts_with-cut (x ∷ b) (c ∷ buf) more h = ground (arith, starts_with-cut b buf more)

clash : {b : Bool} → b ≡ true → b ≡ false → ⊥
clash t f = cc

match_at-stands :
    (ns : List Needle) (n : Needle) (buf : Text) → match_at ns buf ≡ some n → is_at buf n ≡ true
unfolding match_at
match_at-stands [] n buf h = cc
match_at-stands (m ∷ ns) n buf h = elim (Bool-cases (is_at buf m)) [
  | inl here ↦
      let e : some m ≡ some n = rw here at h in
      let same : m ≡ n = cc in subst (λ k. is_at buf k ≡ true) same here
  | inr other ↦ match_at-stands ns n buf (rw other at h)
]

still_other :
    (m n : Needle) (buf more : Text)
    → is_at buf m ≡ false
    → is_at buf n ≡ true
    → is_apart n m ≡ true
    → is_at (buf ++ more) m ≡ false
still_other m n buf more other here apart = elim (Bool-cases (is_at (buf ++ more) m)) [
  | inr out ↦ out
  | inl now ↦ elim (starts_with-cut m.pat buf more now) [
    | inl before ↦ absurd (clash before other)
    | inr longer ↦
        let within = starts_with_trans n.pat buf m.pat here longer.1 in
        let e : text_eq n.pat m.pat ≡ true = ground (arith, within, apart) in
        let same = (text_eq_iff n.pat m.pat).0 e in
        absurd (clash (subst (λ p. starts_with p buf ≡ true) same here) other)
  ]
]

-- the needle found stays the one that is found
match_at-more :
    (ns : List Needle) (n : Needle) (buf more : Text)
    → match_at ns buf ≡ some n
    → all (is_apart n) ns ≡ true
    → match_at ns (buf ++ more) ≡ some n
unfolding match_at
match_at-more [] n buf more h apart = cc
match_at-more (m ∷ ns) n buf more h apart = elim (Bool-cases (is_at buf m)) [
  | inl here ↦ rw (starts_with-more m.pat buf more here) (rw here at h)
  | inr other ↦
      let found : match_at ns buf ≡ some n = rw other at h in
      let (first, rest) = and-eq_true (is_apart n m) (all (is_apart n) ns) apart in
      rw (still_other m n buf more other (match_at-stands ns n buf found) first)
        (match_at-more ns n buf more found rest)
]

match_at-apart :
    (ns xs : List Needle) (n : Needle) (buf : Text)
    → match_at ns buf ≡ some n
    → all (λ m. all (is_apart m) xs) ns ≡ true
    → all (is_apart n) xs ≡ true
unfolding match_at
match_at-apart [] xs n buf h a = cc
match_at-apart (m ∷ ns) xs n buf h a =
    let (first, rest) = and-eq_true (all (is_apart m) xs) (all (λ k. all (is_apart k) xs) ns) a in
    elim (Bool-cases (is_at buf m)) [
      | inl here ↦
          let e : some m ≡ some n = rw here at h in
          let same : m ≡ n = cc in subst (λ k. all (is_apart k) xs ≡ true) same first
      | inr other ↦ match_at-apart ns xs n buf (rw other at h) rest
    ]

-- no needle is found once more has come, if none could
pub match_at-none :
    (ns : List Needle) (buf more : Text)
    → match_at ns buf ≡ none
    → any (is_cut buf) ns ≡ false
    → match_at ns (buf ++ more) ≡ none
unfolding match_at
match_at-none [] buf more h cut = refl
match_at-none (m ∷ ns) buf more h cut = elim (Bool-cases (is_at buf m)) [
  | inl here ↦ absurd (found (rw here at h))
  | inr other ↦ elim (Bool-cases (is_at (buf ++ more) m)) [
    | inr out ↦ rw out (match_at-none ns buf more (rw other at h) (ground (arith, cut)))
    | inl now ↦ elim (starts_with-cut m.pat buf more now) [
      | inl before ↦ absurd (clash before other)
      | inr longer ↦ ground (arith, cut, longer.0, longer.1)
    ]
  ]
]
  where
    found : ◌≡◌ {A = Option Needle} (some m) none → ⊥
    found e = cc

starts_with-less :
    (buf more b : Text) → starts_with (buf ++ more) b ≡ true → starts_with buf b ≡ true
starts_with-less [] more b h = refl
starts_with-less (c ∷ buf) more [] h = cc
starts_with-less (c ∷ buf) more (x ∷ b) h = ground (arith, starts_with-less buf more b)

-- what is cut off with more behind it is cut off without
cut_less :
    (ns : List Needle) (buf more : Text)
    → any (is_cut buf) ns ≡ false
    → any (is_cut (buf ++ more)) ns ≡ false
cut_less [] buf more h = refl
cut_less (n ∷ ns) buf more h =
    let longer = length-append buf more in
    ground (arith, longer, starts_with-less buf more n.pat, cut_less ns buf more)

length-starts_with : (b buf : Text) → starts_with b buf ≡ true → length b ≤ length buf
length-starts_with [] buf h = omega arith
length-starts_with (x ∷ b) [] h = cc
length-starts_with (x ∷ b) (c ∷ buf) h = ground (arith, length-starts_with b buf)

emit-emit : (s t : Text) (p : Text × Text) → emit s (emit t p) ≡ emit (s ++ t) p
emit-emit s t (out, rest) = ap (λ x. (x, rest)) (sym (append_assoc s t out))

emit-nil : (p : Text × Text) → emit [] p ≡ p
emit-nil (out, rest) = refl

undecided :
    (c : ℕ) (s : Text) (go : ℕ → Text × Text) (b : Bool) {q : Text × Text}
    → emit (c ∷ []) (go 0) ≡ q
    → unmatched (not b && false) go c s ≡ q
undecided c s go true e = e
undecided c s go false e = e

module _ (r : Redactor) (free : prefix_free r.needles ≡ true) where
  -- the byte at hand, where what follows is known
  pub process-more :
      (final : Bool) (skip : ℕ) (buf more : Text)
      → skip ≤ length buf
      → process r final skip (buf ++ more)
        ≡ emit
            (process r false skip buf).0
            (process r final 0 ((process r false skip buf).1 ++ more))
  unfolding process
  process-more final zero [] more h = sym (emit-nil (process r final 0 more))
  process-more final (suc skip) [] more h = absurd (omega (arith, h))
  process-more final (suc skip) (c ∷ s) more h = process-more final skip s more (omega (arith, h))
  process-more final zero (c ∷ s) more h = elim (Bool-cases (is_first r c)) [
    | inr plain ↦ rw plain (
        rw (process-more final 0 s more (omega arith)) (
          emit-emit (c ∷ []) (process r false 0 s).0
            (process r final 0 ((process r false 0 s).1 ++ more))))
    | inl first ↦ rw first (elim (Option-cases (match_at r.needles (c ∷ s))) [
      | inr (n, found) ↦
          let apart =
            match_at-apart r.needles r.needles n (c ∷ s) found (unfold prefix_free in free) in
          let fits = length-starts_with n.pat (c ∷ s) (match_at-stands r.needles n (c ∷ s) found) in
          rw found (
            rw (match_at-more r.needles n (c ∷ s) more found apart) (
              rw (process-more final (length n.pat - 1) s more (omega (arith, fits))) (
                emit-emit n.repl (process r false (length n.pat - 1) s).0
                  (process r final 0 ((process r false (length n.pat - 1) s).1 ++ more)))))
      | inl missing ↦ rw missing (elim (Bool-cases (could_extend r (c ∷ s))) [
        | inl cut ↦ rw cut (unfold process in rw first refl)
        | inr whole ↦
            let shut : any (is_cut (c ∷ s)) r.needles ≡ false = (unfold could_extend in whole) in
            let still : could_extend r (c ∷ s ++ more) ≡ false =
              (unfold could_extend in cut_less r.needles (c ∷ s) more shut) in
            rw whole (
              rw (match_at-none r.needles (c ∷ s) more missing shut) (
                rw still (
                  undecided c (s ++ more) _ final (
                    rw (process-more final 0 s more (omega arith)) (
                      emit-emit (c ∷ []) (process r false 0 s).0
                        (process r final 0 ((process r false 0 s).1 ++ more)))))))
      ])
    ])
  ]
