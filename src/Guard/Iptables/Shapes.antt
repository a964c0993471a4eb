-- ===== src/Guard/Iptables/Shapes.antt =====
-- What the names of chains and bridges look like: chainRe and bridgeRe of internal/dockerguard/policy.go.
use mathlib.Core.List.{append-nil}
use vaultrun.Base.{
  length, all, Text, codes, text_eq_iff, is_empty, text_eq, ℕ, zero, suc, ◌≤◌, ◌≡◌, refl, sym, ap,
  ap₂, ◌∙◌, subst, ◌⊎◌, inl, inr, true, ◌&&◌, ◌||◌, Option, none, some, [], ◌∷◌, ◌++◌, arith, leb,
  ◌==◌, leb→le, ==_iff, Bool-cases, Option-cases, and-eq_true,
}
use vaultrun.Guard.Names.{is_hex, after_hex, after_literal, is_bridge, hex_run, is_chain}
use vaultrun.Guard.Policy.Passed.{is_empty-nil}

-- vr-, one to twelve hex digits, and -in or nothing
pub record IsChainName (s : Text) : Type 0 where
  pub digits : Text
  pub hex : all is_hex digits ≡ true
  pub some_digits : 1 ≤ length digits
  pub few_digits : length digits ≤ 12
  pub spelt : (s ≡ codes "vr-" ++ digits) ⊎ (s ≡ codes "vr-" ++ digits ++ codes "-in")

-- br- and twelve hex digits
pub record IsBridgeName (s : Text) : Type 0 where
  pub digits : Text
  pub hex : all is_hex digits ≡ true
  pub twelve : length digits ≡ 12
  pub spelt : s ≡ codes "br-" ++ digits

pub after_literal-some : (q s t : Text) → after_literal q s ≡ some t → s ≡ q ++ t
unfolding after_literal
after_literal-some [] s t h = cc
after_literal-some (x ∷ q) [] t h = absurd cc
after_literal-some (x ∷ q) (c ∷ s) t h = elim (Bool-cases (x == c)) [
  | inl same ↦
      let k : after_literal q s ≡ some t = rw same at h in
      ap₂ (λ y u. y ∷ u) (sym ((==_iff x c).0 same)) (after_literal-some q s t k)
  | inr other ↦ absurd (let k : ◌≡◌ {A = Option Text} none (some t) = rw other at h in cc)
]

hex_run-split :
    (s : Text)
    → (h : Text) × (s ≡ h ++ (hex_run s).1) × (all is_hex h ≡ true) × (length h ≡ (hex_run s).0)
unfolding hex_run
hex_run-split [] = ([], refl, refl, refl)
hex_run-split (c ∷ s) = elim (Bool-cases (is_hex c)) [
  | inr other ↦ rw other ([], refl, refl, refl)
  | inl hex ↦
      let (h, e, a, n) = hex_run-split s in
      let a2 : all is_hex (c ∷ h) ≡ true = rw hex a in
      rw hex (c ∷ h, ap (λ u. c ∷ u) e, a2, ap suc n)
]

pub after_hex-some :
    (n : ℕ) (s t : Text)
    → after_hex n s ≡ some t
    → (h : Text) × (s ≡ h ++ t) × (all is_hex h ≡ true) × (length h ≡ n)
unfolding after_hex
after_hex-some zero s t h = ([], cc, refl, refl)
after_hex-some (suc n) [] t h = absurd cc
after_hex-some (suc n) (c ∷ s) t h = elim (Bool-cases (is_hex c)) [
  | inr other ↦ absurd (let k : ◌≡◌ {A = Option Text} none (some t) = rw other at h in cc)
  | inl hex ↦
      let k : after_hex n s ≡ some t = rw hex at h in
      let (g, e, a, m) = after_hex-some n s t k in
      let a2 : all is_hex (c ∷ g) ≡ true = rw hex a in (c ∷ g, ap (λ u. c ∷ u) e, a2, ap suc m)
]

-- what is behind the digits, where they are right
tail-cases :
    (n : ℕ) (rest : Text)
    → (leb 1 n && leb n 12 && (is_empty rest || text_eq rest (codes "-in"))) ≡ true
    → (1 ≤ n) × (n ≤ 12) × ((rest ≡ []) ⊎ (rest ≡ codes "-in"))
tail-cases n rest h =
    let (k, e) =
      and-eq_true (leb 1 n && leb n 12) (is_empty rest || text_eq rest (codes "-in")) h in
    let (low, high) = and-eq_true (leb 1 n) (leb n 12) k in
    (
      leb→le 1 n low,
      leb→le n 12 high,
      elim (Bool-cases (is_empty rest)) [
        | inl none_ ↦ inl (is_empty-nil rest none_)
        | inr more ↦ inr ((text_eq_iff rest (codes "-in")).0 (ground (arith, e, more)))
      ],
    )

pub is_chain-IsChainName : (s : Text) → is_chain s ≡ true → IsChainName s
unfolding is_chain
is_chain-IsChainName s h = elim (Option-cases (after_literal (codes "vr-") s)) [
  | inl missing ↦ absurd (let k = rw missing at h in cc)
  | inr (t, found) ↦
      let (digits, e, hex, n) = hex_run-split t in
      let (low, high, ending) = tail-cases (hex_run t).0 (hex_run t).1 (rw found at h) in
      let whole = after_literal-some (codes "vr-") s t found ∙ ap (λ u. codes "vr-" ++ u) e in
      record {
        digits = digits;
        hex = hex;
        some_digits = subst (λ x. 1 ≤ x) (sym n) low;
        few_digits = subst (λ x. x ≤ 12) (sym n) high;
        spelt = elim ending [
          | inl done ↦ inl (
              whole
              ∙ ap (λ u. codes "vr-" ++ digits ++ u) done
              ∙ ap (λ u. codes "vr-" ++ u) (append-nil digits))
          | inr more ↦ inr (whole ∙ ap (λ u. codes "vr-" ++ digits ++ u) more)
        ];
      }
]

pub is_bridge-IsBridgeName : (s : Text) → is_bridge s ≡ true → IsBridgeName s
unfolding is_bridge
is_bridge-IsBridgeName s h = elim (Option-cases (after_literal (codes "br-") s)) [
  | inl missing ↦ absurd (let k = rw missing at h in cc)
  | inr (t, found) ↦ elim (Option-cases (after_hex 12 t)) [
    | inl bad ↦ absurd (let k = rw (found, bad) at h in cc)
    | inr (rest, good) ↦
        let (digits, e, hex, n) = after_hex-some 12 t rest good in
        let done = is_empty-nil rest (rw (found, good) at h) in
        let tail : t ≡ digits = e ∙ ap (λ u. digits ++ u) done ∙ append-nil digits in
        record {
          digits = digits;
          hex = hex;
          twelve = n;
          spelt = after_literal-some (codes "br-") s t found ∙ ap (λ u. codes "br-" ++ u) tail;
        }
  ]
]
