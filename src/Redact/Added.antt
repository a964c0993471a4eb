-- ===== src/Redact/Added.antt =====
-- What adding the patterns of a secret does to the needles: the closure add of NewRedactor in
-- internal/secrets/redact.go.
use vaultrun.Base.{
  length, all, any, Text, codes, text_eq_refl, is_empty, text_eq, ◌≡◌, refl, inl, inr, Bool, true,
  false, ◌&&◌, ◌||◌, not, List, [], ◌∷◌, ◌++◌, arith, ltb, Bool-cases, and-eq_true,
}
use vaultrun.Redact.{Needle}
use vaultrun.Redact.Build.{b64, has_pat, add_needle, add_all}
use vaultrun.Redact.Whole.{is_filled}

all-append : (p : Needle → Bool) (xs ys : List Needle) → all p (xs ++ ys) ≡ (all p xs && all p ys)
all-append p [] ys = refl
all-append p (x ∷ xs) ys = ground (arith, all-append p xs ys)

any-append : (p : Needle → Bool) (xs ys : List Needle) → any p (xs ++ ys) ≡ (any p xs || any p ys)
any-append p [] ys = refl
any-append p (x ∷ xs) ys = ground (arith, any-append p xs ys)

-- What holds of the needles so far: none is empty, and those of `known` are among them.
pub record Holds (known ns : List Needle) : Type 0 where
  pub filled : all is_filled ns ≡ true
  pub keeps : (v : Text) → any (has_pat v) known ≡ true → any (has_pat v) ns ≡ true

add_needle-Holds :
    (name pat : Text) (known ns : List Needle)
    → Holds known ns
    → Holds known (add_needle name ns pat)
unfolding add_needle
add_needle-Holds name pat known ns h = elim (Bool-cases (is_empty pat || any (has_pat pat) ns)) [
  | inl old ↦ rw old h
  | inr new ↦ rw new (record {
    filled = rw (all-append is_filled ns _) (ground (arith, new, h.filled));
    keeps = λ v k. rw (any-append (has_pat v) ns _) (rw (h.keeps v k) refl);
  })
]

-- an added pattern is there
add_needle-has :
    (name pat : Text) (ns : List Needle)
    → is_empty pat ≡ false
    → any (has_pat pat) (add_needle name ns pat) ≡ true
unfolding add_needle
add_needle-has name pat ns full = rw full (elim (Bool-cases (any (has_pat pat) ns)) [
  | inl old ↦ rw old old
  | inr new ↦ rw new (rw (any-append (has_pat pat) ns _) (rw new (rw (text_eq_refl pat) refl)))
])

add_all-Holds :
    (name : Text) (known ns : List Needle) (pats : List Text)
    → Holds known ns
    → Holds known (add_all name ns pats)
add_all-Holds name known ns [] h = h
add_all-Holds name known ns (pat ∷ pats) h =
    add_all-Holds name known (add_needle name ns pat) pats (add_needle-Holds name pat known ns h)

pub refl-Holds : (ns : List Needle) → all is_filled ns ≡ true → Holds ns ns
refl-Holds ns f = record { filled = f; keeps = λ v k. k }

-- A value as it may appear in output: itself, and in the encodings of base64.
abbrev pub forms : Text → List Text
forms val =
    val ∷ b64 43 47 true val ∷ b64 43 47 false val ∷ b64 45 95 true val ∷ b64 45 95 false val ∷ []

abbrev pub is_short : Text → Bool
is_short val = ltb (length val) 4

abbrev pub is_pattern : List Needle → Text → Bool
is_pattern ns pat = any (has_pat pat) ns

-- The secret is too short, or each form of its value is one of the patterns.
abbrev pub is_covered : List Needle → Text × Text → Bool
is_covered ns (name, val) = is_short val || all (is_pattern ns) (forms val)

abbrev pub marked : Text → Text → Needle
marked name pat = record { pat = pat; repl = codes "[REDACTED:" ++ name ++ codes "]" }

-- The needle stands for a form of the secret, which is not too short, and is replaced by the
-- secret's name in brackets.
abbrev pub hides_form : Needle → Text × Text → Bool
hides_form n (name, val) =
    not (is_short val)
    && text_eq n.repl (codes "[REDACTED:" ++ name ++ codes "]")
    && any (text_eq n.pat) (forms val)

abbrev pub is_from : List (Text × Text) → Needle → Bool
is_from secrets n = any (hides_form n) secrets

pub all-keeps :
    (known ns : List Needle) (pats : List Text)
    → Holds known ns
    → all (is_pattern known) pats ≡ true
    → all (is_pattern ns) pats ≡ true
all-keeps known ns [] h k = refl
all-keeps known ns (pat ∷ pats) h k =
    let (first, rest) = and-eq_true (is_pattern known pat) (all (is_pattern known) pats) k in
    ground (arith, h.keeps pat first, all-keeps known ns pats h rest)

pub all-keeps_covered :
    (known ns : List Needle) (secrets : List (Text × Text))
    → Holds known ns
    → all (is_covered known) secrets ≡ true
    → all (is_covered ns) secrets ≡ true
all-keeps_covered known ns [] h k = refl
all-keeps_covered known ns ((name, val) ∷ secrets) h k =
    let (first, rest) =
      and-eq_true (is_covered known (name, val)) (all (is_covered known) secrets) k in
    let others = all-keeps_covered known ns secrets h rest in
    elim (Bool-cases (is_short val)) [
      | inl short ↦ rw short others
      | inr long ↦
          let here = all-keeps known ns (forms val) h (rw long at first) in rw long (rw here others)
    ]

abbrev pub is_text : Text → Bool
is_text s = not (is_empty s)

-- all patterns that are added are there
pub add_all-covers :
    (name : Text) (ns : List Needle) (pats : List Text)
    → all is_filled ns ≡ true
    → all is_text pats ≡ true
    → Holds ns (add_all name ns pats) × (all (is_pattern (add_all name ns pats)) pats ≡ true)
add_all-covers name ns [] f k = (refl-Holds ns f, refl)
add_all-covers name ns (pat ∷ pats) f k =
    let (full, others) = and-eq_true (is_text pat) (all is_text pats) k in
    let one = add_needle name ns pat in
    let first = add_needle-Holds name pat ns ns (refl-Holds ns f) in
    let (kept, covered) = add_all-covers name one pats first.filled others in
    let here = kept.keeps pat (add_needle-has name pat ns (ground (arith, full))) in
    (
      record { filled = kept.filled; keeps = λ v j. kept.keeps v (first.keeps v j) },
      ground (arith, here, covered),
    )

pub all-if :
    (f g : Text → Bool) (pats : List Text)
    → ((pat : Text) → f pat ≡ true → g pat ≡ true)
    → all f pats ≡ true
    → all g pats ≡ true
all-if f g [] w h = refl
all-if f g (pat ∷ pats) w h =
    let (first, rest) = and-eq_true (f pat) (all f pats) h in
    rw (w pat first, all-if f g pats w rest) refl

-- what holds of the needles and of those added holds of all
pub add_all-all :
    (p : Needle → Bool) (name : Text) (ns : List Needle) (pats : List Text)
    → all p ns ≡ true
    → all (λ pat. p (marked name pat)) pats ≡ true
    → all p (add_all name ns pats) ≡ true
unfolding add_needle
add_all-all p name ns [] f k = f
add_all-all p name ns (pat ∷ pats) f k =
    let (first, others) =
      and-eq_true (p (marked name pat)) (all (λ pat. p (marked name pat)) pats) k in
    let one : all p (add_needle name ns pat) ≡ true =
      elim (Bool-cases (is_empty pat || any (has_pat pat) ns)) [
        | inl old ↦ rw old f
        | inr new ↦ rw new (rw (all-append p ns (marked name pat ∷ [])) (rw (f, first) refl))
      ] in
    add_all-all p name (add_needle name ns pat) pats one others

pub filled-forms : (val : Text) → is_short val ≡ false → all is_text (forms val) ≡ true
unfolding b64
filled-forms [] h = cc
filled-forms (a ∷ []) h = cc
filled-forms (a ∷ b ∷ []) h = cc
filled-forms (a ∷ b ∷ c ∷ val) h = refl

-- a needle made for a form of a secret hides it
pub hides_form-marked :
    (name val : Text)
    → is_short val ≡ false
    → all (λ pat. hides_form (marked name pat) (name, val)) (forms val) ≡ true
hides_form-marked name val long =
    let r = text_eq_refl (codes "[REDACTED:" ++ name ++ codes "]") in
    rw long (
      rw r (
        ground (
          arith,
          text_eq_refl val,
          text_eq_refl (b64 43 47 true val),
          text_eq_refl (b64 43 47 false val),
          text_eq_refl (b64 45 95 true val),
          text_eq_refl (b64 45 95 false val),
        )))
