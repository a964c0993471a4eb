-- ===== src/Guard/Iptables/Rules.antt =====
-- The firewall rules that the guard lets through: CheckIptables of internal/dockerguard/policy.go.
use vaultrun.Base.{
  length, any, All, Text, codes, text_eq_iff, text_eq, suc, ◌≡◌, refl, ap₂, ◌≢◌, ◌⊎◌, inl, inr,
  true, false, ◌||◌, none, some, List, [], ◌∷◌, ◌++◌, arith, ltb, Bool-cases, and-eq_true,
}
use vaultrun.Guard.Iptables.{
  selects_table, is_new_flush_delete, is_insert_delete, is_bridge_jump, check_rule, check_iptables,
}
use vaultrun.Guard.Iptables.Shapes.{
  IsChainName, IsBridgeName, is_chain-IsChainName, is_bridge-IsBridgeName,
}
use vaultrun.Guard.Names.{is_bridge, is_chain}
use vaultrun.Guard.Policy.{text_in}
use vaultrun.Guard.Policy.Passed.{
  then_check-none, deny_if-none, null-nil, or-false, or-true, not-false,
}
use vaultrun.Guard.Types.{Denial, Check}

-- -i <bridge> -j <DROP or one of our chains>, word by word
pub record IsJump (rest : List Text) : Type 0 where
  pub bridge : Text
  pub target : Text
  pub words : rest ≡ codes "-i" ∷ bridge ∷ codes "-j" ∷ target ∷ []
  pub ours : IsBridgeName bridge
  pub stops : (target ≡ codes "DROP") ⊎ IsChainName target

-- Work on one of our chains, or a jump for one sandbox bridge in FORWARD or INPUT.
abbrev pub RuleAllowed : Text → Text → List Text → Type 0
RuleAllowed op c rest =
    (((op ≡ codes "-N") ⊎ (op ≡ codes "-F") ⊎ (op ≡ codes "-X")) × IsChainName c × (rest ≡ []))
    ⊎ (((op ≡ codes "-A") × IsChainName c)
        ⊎ (((op ≡ codes "-I") ⊎ (op ≡ codes "-D"))
            × ((c ≡ codes "FORWARD") ⊎ (c ≡ codes "INPUT"))
            × IsJump rest))

text_in_two : (s a b : Text) → text_in s (a ∷ b ∷ []) ≡ true → (s ≡ a) ⊎ (s ≡ b)
text_in_two s a b h = elim (or-true (text_eq s a) (text_eq s b || false) h) [
  | inl e ↦ inl ((text_eq_iff s a).0 e)
  | inr e ↦ inr ((text_eq_iff s b).0 (ground arith))
]

is_bridge_jump-IsJump : (rest : List Text) → is_bridge_jump rest ≡ true → IsJump rest
unfolding is_bridge_jump
is_bridge_jump-IsJump (i ∷ br ∷ j ∷ target ∷ []) h =
    let (r1, t) = and-eq_true _ (text_eq target (codes "DROP") || is_chain target) h in
    let (r2, wj) = and-eq_true _ (text_eq j (codes "-j")) r1 in
    let (wi, ours) = and-eq_true (text_eq i (codes "-i")) (is_bridge br) r2 in
    record {
      bridge = br;
      target = target;
      words =
          ap₂ (λ a b. a ∷ br ∷ b ∷ target ∷ []) ((text_eq_iff i (codes "-i")).0 wi)
            ((text_eq_iff j (codes "-j")).0 wj);
      ours = is_bridge-IsBridgeName br ours;
      stops = elim (or-true (text_eq target (codes "DROP")) (is_chain target) t) [
        | inl d ↦ inl ((text_eq_iff target (codes "DROP")).0 d)
        | inr c ↦ inr (is_chain-IsChainName target c)
      ];
    }
is_bridge_jump-IsJump [] h = cc
is_bridge_jump-IsJump (i ∷ []) h = cc
is_bridge_jump-IsJump (i ∷ br ∷ []) h = cc
is_bridge_jump-IsJump (i ∷ br ∷ j ∷ []) h = cc
is_bridge_jump-IsJump (i ∷ br ∷ j ∷ t ∷ u ∷ rest) h = cc

three_ops :
    (op : Text)
    → is_new_flush_delete op ≡ true
    → (op ≡ codes "-N") ⊎ (op ≡ codes "-F") ⊎ (op ≡ codes "-X")
three_ops op h = elim (or-true (text_eq op (codes "-N")) _ h) [
  | inl e ↦ inl ((text_eq_iff op (codes "-N")).0 e)
  | inr k ↦ inr (text_in_two op (codes "-F") (codes "-X") k)
]

check_rule-RuleAllowed :
    (op c : Text) (rest : List Text) → check_rule op c rest ≡ none → RuleAllowed op c rest
unfolding check_rule
check_rule-RuleAllowed op c rest h = elim (Bool-cases (is_new_flush_delete op)) [
  | inl own ↦
      let (a, b) = or-false _ _ (deny_if-none _ _ (rw own at h)) in
      inl (three_ops op own, is_chain-IsChainName c (not-false _ a), null-nil rest b)
  | inr n0 ↦ elim (Bool-cases (text_eq op (codes "-A"))) [
    | inl add ↦ inr (
        inl (
          (text_eq_iff op (codes "-A")).0 add,
          is_chain-IsChainName c (not-false _ (deny_if-none _ _ (rw (n0, add) at h))),
        ))
    | inr n1 ↦ elim (Bool-cases (is_insert_delete op)) [
      | inl jump ↦
          let (a, b) = then_check-none _ _ (rw (n0, n1, jump) at h) in
          inr (
            inr (
              text_in_two op (codes "-I") (codes "-D") jump,
              text_in_two c (codes "FORWARD") (codes "INPUT") (not-false _ (deny_if-none _ _ a)),
              is_bridge_jump-IsJump rest (not-false _ (deny_if-none _ _ b)),
            ))
      | inr n2 ↦ absurd (refused (rw (n0, n1, n2) at h))
    ]
  ]
]
  where
    refused : {r : Denial} → ◌≡◌ {A = Check} (some r) none → ⊥
    refused e = cc

-- The argument does not begin with -t or --table.
pub record NamesNoTable (a : Text) : Type 0 where
  pub no_short : (u : Text) → a ≢ codes "-t" ++ u
  pub no_long : (u : Text) → a ≢ codes "--table" ++ u

short_selects : (u : Text) → selects_table (codes "-t" ++ u) ≡ true
unfolding selects_table text_eq
short_selects [] = refl
short_selects (c ∷ u) =
    let long : ltb 2 (suc (suc (suc (length u)))) ≡ true = ground arith in rw long refl

long_selects : (u : Text) → selects_table (codes "--table" ++ u) ≡ true
unfolding selects_table text_eq
long_selects u = refl

selects_table-NamesNoTable : (a : Text) → selects_table a ≡ false → NamesNoTable a
selects_table-NamesNoTable a h = record {
  no_short = λ u e. (let k = short_selects u in let k2 = rw e at h in cc);
  no_long = λ u e. (let k = long_selects u in let k2 = rw e at h in cc);
}

any-NamesNoTable : (xs : List Text) → any selects_table xs ≡ false → All NamesNoTable xs
any-NamesNoTable [] h = tt
any-NamesNoTable (a ∷ xs) h =
    let (b, c) = or-false (selects_table a) (any selects_table xs) h in
    (selects_table-NamesNoTable a b, any-NamesNoTable xs c)

-- No argument of a firewall command that the guard lets through begins with -t or --table, and the
-- command makes, empties, removes or adds to a chain that is named vr-, up to twelve hex digits and
-- perhaps -in, or inserts or removes in FORWARD or INPUT a jump for one bridge, named br- and twelve
-- hex digits, to DROP or such a chain.
pub check_iptables-RuleAllowed :
    (op c : Text) (rest : List Text)
    → check_iptables (op ∷ c ∷ rest) ≡ none
    → All NamesNoTable (op ∷ c ∷ rest) × RuleAllowed op c rest
unfolding check_iptables
check_iptables-RuleAllowed op c rest h = elim (Bool-cases (any selects_table (op ∷ c ∷ rest))) [
  | inl other ↦ absurd (refused (rw other at h))
  | inr same ↦
      (any-NamesNoTable (op ∷ c ∷ rest) same, check_rule-RuleAllowed op c rest (rw same at h))
]
  where
    refused : {r : Denial} → ◌≡◌ {A = Check} (some r) none → ⊥
    refused e = cc
