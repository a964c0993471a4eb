-- ===== src/Guard/Policy/Options.antt =====
-- Which security options a container may have: CheckCreate of internal/dockerguard/policy.go.
use vaultrun.Base.{
  length, All, Text, codes, text_eq_iff, is_empty, starts_with, text_eq, ◌≡◌, refl, sym, ap, ap₂,
  ◌∙◌, ◌≢◌, ◌⊎◌, inl, inr, true, false, ◌||◌, none, List, [], ◌∷◌, ◌++◌, arith, ◌==◌, ==_iff,
  Bool-cases, and-eq_true,
}
use vaultrun.Guard.Policy.{check_each, is_nnp, is_seccomp, drop_bytes, check_one_opt}
use vaultrun.Guard.Policy.Passed.{
  then_check-none, deny_if-none, or-false, or-true, not-false, refused,
}
use vaultrun.Guard.Types.{Policy, bad_security_opt}

-- A security option that is allowed: no-new-privileges in one of its spellings, or the configured
-- seccomp profile, which there is then.
pub data OptAllowed (p : Policy) (s : Text) : Type 0 where
  no_new_privileges :
      (s ≡ codes "no-new-privileges")
        ⊎ (s ≡ codes "no-new-privileges:true")
        ⊎ (s ≡ codes "no-new-privileges=true")
      → OptAllowed p s
  profile :
      p.seccomp ≢ []
      → (s ≡ codes "seccomp=" ++ p.seccomp) ⊎ (s ≡ codes "seccomp:" ++ p.seccomp)
      → OptAllowed p s

is_nnp_cases :
    (s : Text)
    → is_nnp s ≡ true
    → (s ≡ codes "no-new-privileges")
      ⊎ (s ≡ codes "no-new-privileges:true")
      ⊎ (s ≡ codes "no-new-privileges=true")
unfolding is_nnp
is_nnp_cases s h = elim (or-true (text_eq s (codes "no-new-privileges")) _ h) [
  | inl e ↦ inl ((text_eq_iff s (codes "no-new-privileges")).0 e)
  | inr k ↦ elim (or-true (text_eq s (codes "no-new-privileges:true")) _ k) [
    | inl e ↦ inr (inl ((text_eq_iff s (codes "no-new-privileges:true")).0 e))
    | inr e ↦ inr (inr ((text_eq_iff s (codes "no-new-privileges=true")).0 (ground (arith, e))))
  ]
]

-- a prefix, and what is behind it
prefix_split : (q s : Text) → starts_with q s ≡ true → s ≡ q ++ drop_bytes (length q) s
prefix_split [] s h = refl
prefix_split (x ∷ q) [] h = cc
prefix_split (x ∷ q) (c ∷ s) h =
    let (same, rest) = and-eq_true (x == c) (starts_with q s) h in
    ap₂ (λ y u. y ∷ u) (sym ((==_iff x c).0 same)) (prefix_split q s rest)

not_empty : (s : Text) → is_empty s ≡ false → s ≢ []
not_empty s h = λ e. (let k : is_empty s ≡ true = rw e refl in cc)

one_opt-OptAllowed : (p : Policy) (s : Text) → check_one_opt p s ≡ none → OptAllowed p s
unfolding check_one_opt is_seccomp
one_opt-OptAllowed p s h = elim (Bool-cases (is_nnp s)) [
  | inl yes_ ↦ no_new_privileges (is_nnp_cases s yes_)
  | inr no_ ↦
      elim (Bool-cases (starts_with (codes "seccomp=") s || starts_with (codes "seccomp:") s)) [
        | inr neither ↦ absurd (refused bad_security_opt (rw (no_, neither) at h))
        | inl found ↦
            let (full, same) = or-false _ _ (deny_if-none _ _ (rw (no_, found) at h)) in
            let rest = (text_eq_iff (drop_bytes 8 s) p.seccomp).0 (not-false _ same) in
            profile (not_empty p.seccomp full)
              (elim (or-true (starts_with (codes "seccomp=") s) _ found) [
                | inl e ↦
                    inl (prefix_split (codes "seccomp=") s e ∙ ap (λ t. codes "seccomp=" ++ t) rest)
                | inr e ↦
                    inr (prefix_split (codes "seccomp:") s e ∙ ap (λ t. codes "seccomp:" ++ t) rest)
              ])
      ]
]

pub opts_allowed :
    (p : Policy) (ss : List Text) → check_each (check_one_opt p) ss ≡ none → All (OptAllowed p) ss
unfolding check_each
opts_allowed p [] h = tt
opts_allowed p (s ∷ ss) h =
    let (a, b) = then_check-none _ _ h in (one_opt-OptAllowed p s a, opts_allowed p ss b)
