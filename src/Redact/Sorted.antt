-- ===== src/Redact/Sorted.antt =====
-- The order of a redactor's needles: the sort.Slice of NewRedactor in internal/secrets/redact.go.
use vaultrun.Base.{
  length, all, any, ◌≡◌, refl, ap, ◌∙◌, inl, inr, Bool, true, ◌&&◌, ◌||◌, List, [], ◌∷◌, arith, ltb,
  Bool-cases, and-eq_true,
}
use vaultrun.Redact.{Needle}
use vaultrun.Redact.Build.{insert_needle, sort_needles}
use vaultrun.Redact.Whole.{no_longer, is_sorted, shorter}

all-insert_needle :
    (p : Needle → Bool) (n : Needle) (ms : List Needle)
    → all p (insert_needle n ms) ≡ (p n && all p ms)
unfolding insert_needle
all-insert_needle p n [] = refl
all-insert_needle p n (m ∷ ms) = ground (arith, all-insert_needle p n ms)

pub all-sort_needles : (p : Needle → Bool) (ns : List Needle) → all p (sort_needles ns) ≡ all p ns
unfolding sort_needles
all-sort_needles p [] = refl
all-sort_needles p (n ∷ ns) =
    all-insert_needle p n (sort_needles ns) ∙ ap (λ b. p n && b) (all-sort_needles p ns)

any-insert_needle :
    (p : Needle → Bool) (n : Needle) (ms : List Needle)
    → any p (insert_needle n ms) ≡ (p n || any p ms)
unfolding insert_needle
any-insert_needle p n [] = refl
any-insert_needle p n (m ∷ ms) = ground (arith, any-insert_needle p n ms)

pub any-sort_needles : (p : Needle → Bool) (ns : List Needle) → any p (sort_needles ns) ≡ any p ns
unfolding sort_needles
any-sort_needles p [] = refl
any-sort_needles p (n ∷ ns) =
    any-insert_needle p n (sort_needles ns) ∙ ap (λ b. p n || b) (any-sort_needles p ns)

-- what is no longer than a shorter needle is no longer
no_longer_trans :
    (n m : Needle) (ms : List Needle)
    → no_longer n m ≡ true
    → all (no_longer m) ms ≡ true
    → all (no_longer n) ms ≡ true
no_longer_trans n m [] h k = refl
no_longer_trans n m (x ∷ ms) h k =
    let (a, b) = and-eq_true (no_longer m x) (all (no_longer m) ms) k in
    let first : no_longer n x ≡ true = ground (arith, h, a) in
    ground (arith, first, no_longer_trans n m ms h b)

insert_needle-sorted :
    (n : Needle) (ms : List Needle) → is_sorted ms ≡ true → is_sorted (insert_needle n ms) ≡ true
unfolding insert_needle
insert_needle-sorted n [] h = refl
insert_needle-sorted n (m ∷ ms) h =
    let (below, rest) = and-eq_true (all (no_longer m) ms) (is_sorted ms) h in
    elim (Bool-cases (ltb (length n.pat) (length m.pat))) [
      | inl shorter ↦
          let own : no_longer m n ≡ true = ground (arith, shorter) in
          let all_below = all-insert_needle (no_longer m) n ms in
          rw shorter (rw all_below (rw (own, below) (insert_needle-sorted n ms rest)))
      | inr longer ↦
          let own : no_longer n m ≡ true = ground (arith, longer) in
          rw longer (rw (own, no_longer_trans n m ms own below, below) rest)
    ]

pub sort_needles-sorted : (ns : List Needle) → is_sorted (sort_needles ns) ≡ true
unfolding sort_needles
sort_needles-sorted [] = refl
sort_needles-sorted (n ∷ ns) = insert_needle-sorted n (sort_needles ns) (sort_needles-sorted ns)
