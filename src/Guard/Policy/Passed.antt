-- ===== src/Guard/Policy/Passed.antt =====
-- What it means that a check of internal/dockerguard/policy.go refused nothing.
use vaultrun.Base.{
  null, All, Text, is_empty, ◌≡◌, refl, ◌⊎◌, inl, inr, Bool, true, false, ◌||◌, not, none, some,
  List, [], ◌∷◌, arith,
}
use vaultrun.Guard.Policy.{◌then_check◌, deny_if, check_each}
use vaultrun.Guard.Types.{Denial, Check}

-- Both checks passed.
pub then_check-none : (a b : Check) → (a then_check b) ≡ none → (a ≡ none) × (b ≡ none)
unfolding ◌then_check◌
then_check-none none b h = (refl, h)
then_check-none (some r) b h = cc

pub deny_if-none : (t : Bool) (r : Denial) → deny_if t r ≡ none → t ≡ false
unfolding deny_if
deny_if-none true r h = cc
deny_if-none false r h = refl

pub check_each-none {ℓ} :
    {A : Type ℓ} (f : A → Check) (xs : List A) → check_each f xs ≡ none → All (λ x. f x ≡ none) xs
unfolding check_each
check_each-none f [] h = tt
check_each-none f (x ∷ xs) h =
    let (here, rest) = then_check-none (f x) (check_each f xs) h in
    (here, check_each-none f xs rest)

pub null-nil {ℓ} : {A : Type ℓ} (xs : List A) → not (null xs) ≡ false → xs ≡ []
null-nil [] h = refl
null-nil (x ∷ xs) h = cc

pub empty-nil : (s : Text) → not (is_empty s) ≡ false → s ≡ []
empty-nil [] h = refl
empty-nil (c ∷ s) h = cc

pub or-false : (a b : Bool) → (a || b) ≡ false → (a ≡ false) × (b ≡ false)
or-false a b h = ground arith

pub or-true : (a b : Bool) → (a || b) ≡ true → (a ≡ true) ⊎ (b ≡ true)
or-true true b h = inl refl
or-true false b h = inr h

pub is_empty-nil : (s : Text) → is_empty s ≡ true → s ≡ []
is_empty-nil [] h = refl
is_empty-nil (c ∷ s) h = cc

pub not-false : (b : Bool) → not b ≡ false → b ≡ true
not-false true h = refl
not-false false h = cc

pub refused : (r : Denial) → ◌≡◌ {A = Check} (some r) none → ⊥
refused r e = cc
