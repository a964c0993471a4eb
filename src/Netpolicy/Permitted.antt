-- ===== src/Netpolicy/Permitted.antt =====
-- That the guard lets every rule of a sandbox through: applyEgressPolicy and removeEgressPolicy of
-- internal/docker/netpolicy.go, and CheckExec of internal/dockerguard/policy.go.
use vaultrun.Guard.Names.{is_chain, is_bridge}
use vaultrun.Guard.Iptables.{
  selects_table, check_iptables, check_command, check_exec, check_rule, is_bridge_jump,
  is_new_flush_delete, is_insert_delete,
}
use vaultrun.Guard.Policy.{◌then_check◌, deny_if, text_in}
use vaultrun.Base.{
  any, Text, codes, starts_with, text_eq, ◌≡◌, refl, Bool, true, false, ◌||◌, not, none, List, [],
  ◌∷◌, ◌++◌, arith, ◌==◌, is_some,
}
use vaultrun.Netpolicy.{Command, ipt, ipt6, run_in_helper, Rule, jump}

abbrev pub is_permitted : Command → Bool
is_permitted c = not (is_some (check_exec (run_in_helper c) true))

abbrev pub rule_permitted : Rule → Bool
rule_permitted r = is_permitted r.command

pub ipt_permitted : (args : List Text) → check_iptables args ≡ none → is_permitted (ipt args) ≡ true
unfolding check_exec check_command text_eq ◌then_check◌ deny_if
ipt_permitted args h = rw h refl

pub ipt6_permitted :
    (args : List Text) → check_iptables args ≡ none → is_permitted (ipt6 args) ≡ true
unfolding check_exec check_command text_eq ◌then_check◌ deny_if
ipt6_permitted args h = rw h refl

-- what does not begin with a dash selects no table
pub dash_free : (s : Text) → starts_with (codes "-") s ≡ false → selects_table s ≡ false
unfolding selects_table text_eq
dash_free [] h = refl
dash_free (c ∷ s) h =
    let other : (45 == c) ≡ false = ground (arith, h) in
    let other2 : (c == 45) ≡ false = ground (arith, other) in rw other (rw other2 refl)

-- the arguments around one that is not known
pub around :
    (xs : List Text) (s : Text) (ys : List Text)
    → any selects_table xs ≡ false
    → selects_table s ≡ false
    → any selects_table ys ≡ false
    → any selects_table (xs ++ s ∷ ys) ≡ false
around [] s ys a b c = rw b c
around (x ∷ xs) s ys a b c =
    let (first, rest) = or-eq_false (selects_table x) (any selects_table xs) a in
    rw first (around xs s ys rest b c)
  where
    or-eq_false : (p q : Bool) → (p || q) ≡ false → (p ≡ false) × (q ≡ false)
    or-eq_false p q h = ground (arith, h)

append_plain : selects_table (codes "-A") ≡ false
unfolding selects_table text_eq
append_plain = refl

module _ (chain : Text) (known : is_chain chain ≡ true) (plain : selects_table chain ≡ false) where
  pub chain_permitted :
      (op : Text)
      → selects_table op ≡ false
      → is_new_flush_delete op ≡ true
      → check_iptables (op ∷ chain ∷ []) ≡ none
  unfolding check_iptables check_rule deny_if
  chain_permitted op free new = rw free (rw plain (rw new (rw known refl)))

  pub append_permitted :
      (rest : List Text)
      → any selects_table rest ≡ false
      → check_iptables (codes "-A" ∷ chain ∷ rest) ≡ none
  unfolding check_iptables check_rule deny_if text_eq
  append_permitted rest h =
      let op : selects_table (codes "-A") ≡ false = append_plain in
      rw op (rw plain (rw h (rw known refl)))

dash_i :
    (op from : Text)
    → any selects_table (op ∷ from ∷ []) ≡ false
    → any selects_table (op ∷ from ∷ codes "-i" ∷ []) ≡ false
unfolding selects_table text_eq
dash_i op from h = ground (arith, h)

dash_j : any selects_table (codes "-j" ∷ []) ≡ false
unfolding selects_table text_eq
dash_j = refl

-- the jump from one of the built-in chains
pub jump_permitted :
    (op from iface target : Text)
    → any selects_table (op ∷ from ∷ []) ≡ false
    → is_new_flush_delete op ≡ false
    → text_eq op (codes "-A") ≡ false
    → is_insert_delete op ≡ true
    → text_in from (codes "FORWARD" ∷ codes "INPUT" ∷ []) ≡ true
    → selects_table iface ≡ false
    → is_bridge iface ≡ true
    → selects_table target ≡ false
    → (text_eq target (codes "DROP") || is_chain target) ≡ true
    → check_iptables (jump op from iface target) ≡ none
unfolding text_eq check_iptables check_rule deny_if is_bridge_jump ◌then_check◌
jump_permitted op from iface target a b c d e f g h k =
    let args : any selects_table (jump op from iface target) ≡ false =
      around (op ∷ from ∷ codes "-i" ∷ []) iface (codes "-j" ∷ target ∷ []) (dash_i op from a) f
        (around (codes "-j" ∷ []) target [] dash_j h refl) in
    rw args (rw b (rw c (rw d (rw e (rw g (rw k refl))))))
