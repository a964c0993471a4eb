-- ===== src/Netpolicy/Examples.antt =====
-- Tests of the firewall rules of a sandbox, and the theorem applied to them.
use vaultrun.Guard.Names.{contains}
use vaultrun.Base.{
  all, Text, codes, text_eq_iff, text_eq, ℕ, ◌≡◌, refl, inl, inr, true, false, Option, none, some,
  [], ◌∷◌, arith, ◌==◌, if◌then◌else◌, Bool-cases,
}
use vaultrun.Netpolicy.{
  Command, ipt, chain_name, bridge_iface, Parsers, is_ipt_exists_err, blocked_nets, accept_rules,
  egress_rules, run_rules, is_iptables_name, apply_egress_policy, remove_egress_policy,
}
use vaultrun.Netpolicy.Issued.{policies-is_permitted}
use vaultrun.Netpolicy.Permitted.{is_permitted}
use vaultrun.Netpolicy.Policies.{IsSound}

abbrev gateway : Text
gateway = codes "172.18.0.1"

-- One address is known.
abbrev parsers : Parsers
parsers = record {
  parse_ip = λ s. if text_eq s gateway then some true else none;
  parse_cidr = λ s. none;
}

parsers-IsSound : IsSound parsers
parsers-IsSound = record {
  dashless = λ s h. elim (Bool-cases (text_eq s gateway)) [
    | inl this ↦ rw ((text_eq_iff s gateway).0 this) refl
    | inr other ↦ absurd (let k = rw other at h in cc)
  ];
}

-- Every command succeeds, but that the chain is there already.
abbrev answers : ℕ → Command → Option Text
answers left c = if left == 15 then some (codes "iptables: Chain already exists.") else none

abbrev container : Text
container = codes "0123456789abcdef"

abbrev network : Text
network = codes "fedcba9876543210"

policies-is_permitted_example :
    (all is_permitted
        (apply_egress_policy parsers answers
          (chain_name container)
          (bridge_iface network)
          gateway
          (gateway ∷ [])
          false).0
      ≡ true)
    × (all is_permitted (remove_egress_policy (chain_name container) (bridge_iface network)) ≡ true)
policies-is_permitted_example =
    policies-is_permitted parsers answers container network gateway (gateway ∷ []) false
      parsers-IsSound refl refl refl (omega arith)

-- The chain that is there already does not stop the policy, and another error does.
set_up :
    (apply_egress_policy parsers answers
      (chain_name container)
      (bridge_iface network)
      gateway
      (gateway ∷ [])
      false).1
    ≡ none
unfolding apply_egress_policy is_iptables_name egress_rules accept_rules run_rules is_ipt_exists_err
    contains text_eq
set_up = refl

abbrev refuses : ℕ → Command → Option Text
refuses left c = if left == 20 then some (codes "Permission denied") else none

stopped_early :
    (apply_egress_policy parsers refuses
      (chain_name container)
      (bridge_iface network)
      gateway
      []
      true).0
    ≡ ipt (codes "-N" ∷ chain_name container ∷ [])
      ∷ ipt (codes "-F" ∷ chain_name container ∷ [])
      ∷ []
unfolding apply_egress_policy is_iptables_name egress_rules accept_rules run_rules is_ipt_exists_err
    contains text_eq blocked_nets
stopped_early = refl
