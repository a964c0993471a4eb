-- ===== src/Netpolicy/Issued.antt =====
-- That every command of a sandbox's firewall policy passes the guard: applyEgressPolicy and
-- removeEgressPolicy of internal/docker/netpolicy.go, CheckExec of internal/dockerguard/policy.go.
use vaultrun.Guard.Names.{is_hex, is_chain}
use vaultrun.Base.{
  length, all, Text, codes, is_empty, text_eq, ℕ, ◌≤◌, ◌≡◌, refl, inl, inr, Bool, true, ◌||◌, not,
  Option, List, [], ◌∷◌, ◌++◌, arith, Bool-cases, is_some,
}
use vaultrun.Netpolicy.{
  Command, ipt, ipt6, chain_name, input_chain, bridge_iface, Parsers, if_exists_or_missing, Rule,
  may_exist, drop_rule, jump, first_rules, destinations, egress_rules, is_iptables_name,
  apply_egress_policy, remove_egress_policy,
}
use vaultrun.Netpolicy.Chains.{is_chain-chain_name, is_chain-input_chain, is_bridge-bridge_iface}
use vaultrun.Netpolicy.Permitted.{
  is_permitted, rule_permitted, ipt_permitted, ipt6_permitted, dash_free, chain_permitted,
}
use vaultrun.Netpolicy.Policies.{
  IsSound, all-append_rules, plain_op, known_op, first_rules_permitted, drop_rule_permitted,
  destinations_permitted, jumps_permitted, run_rules-permitted, named_plain, drop_known,
}

module _ (container_id network_id : Text) (hex : all is_hex container_id ≡ true)
    (named : not (is_empty container_id) ≡ true) (net_hex : all is_hex network_id ≡ true)
    (net_long : 12 ≤ length network_id) where
  rules_permitted :
      (ps : Parsers)
      → IsSound ps
      → (dns_server : Text) (ips : List Text) (open_internet : Bool)
      → is_some (ps.parse_ip dns_server) ≡ true
      → all rule_permitted (
          egress_rules ps
            (chain_name container_id)
            (bridge_iface network_id)
            dns_server
            ips
            open_internet)
        ≡ true
  unfolding egress_rules
  rules_permitted ps sound dns_server ips open_internet dns =
      let chain_ : Text = chain_name container_id in
      let in_ : Text = input_chain chain_ in
      let iface : Text = bridge_iface network_id in
      let (free, in_free, x, drop_free) = named_plain container_id in
      let (y, z, iface_free, u) = named_plain network_id in
      let known = is_chain-chain_name container_id hex named in
      let in_known = is_chain-input_chain container_id hex named in
      let bridge = is_bridge-bridge_iface network_id net_hex net_long in
      let parsed : (is_some (ps.parse_ip dns_server) || is_some (ps.parse_cidr dns_server)) ≡ true =
        rw dns refl in
      let dns_free = dash_free dns_server (sound.dashless dns_server parsed) in
      let to_chain = jumps_permitted iface chain_ iface_free bridge free (either chain_ known) in
      let to_in = jumps_permitted iface in_ iface_free bridge in_free (either in_ in_known) in
      let to_drop = jumps_permitted iface (codes "DROP") iface_free bridge drop_free drop_known in
      let j1 : rule_permitted (may_exist (jump (codes "-I") (codes "FORWARD") iface chain_))
          ≡ true =
        ipt_permitted _ to_chain.0 in
      let j2 : rule_permitted (may_exist (jump (codes "-I") (codes "INPUT") iface in_)) ≡ true =
        ipt_permitted _ to_in.1 in
      let j3 : is_permitted (ipt6 (jump (codes "-I") (codes "FORWARD") iface (codes "DROP")))
          ≡ true =
        ipt6_permitted _ to_drop.0 in
      let d1 = drop_rule_permitted ps sound chain_ known free in
      let d2 = drop_rule_permitted ps sound in_ in_known in_free in
      let on_input : List Rule =
        drop_rule in_
        ∷ may_exist (jump (codes "-I") (codes "INPUT") iface in_)
        ∷ record {
          command = ipt6 (jump (codes "-I") (codes "FORWARD") iface (codes "DROP"));
          tolerance = if_exists_or_missing;
        }
        ∷ [] in
      let on_forward : List Rule =
        drop_rule chain_
        ∷ may_exist (jump (codes "-I") (codes "FORWARD") iface chain_)
        ∷ (first_rules in_ dns_server ++ on_input) in
      let g1 : all rule_permitted on_input ≡ true = rw d2 (rw j2 (rw j3 refl)) in
      let g2 : all rule_permitted (first_rules in_ dns_server ++ on_input) ≡ true =
        all-append_rules (first_rules in_ dns_server) on_input
          (first_rules_permitted ps sound in_ in_known in_free dns_server dns_free) g1 in
      let g3 : all rule_permitted on_forward ≡ true = rw d1 (rw j1 g2) in
      all-append_rules (first_rules chain_ dns_server)
        (destinations ps chain_ ips open_internet ++ on_forward)
        (first_rules_permitted ps sound chain_ known free dns_server dns_free)
        (all-append_rules (destinations ps chain_ ips open_internet) on_forward
          (destinations_permitted ps sound chain_ known free ips open_internet) g3)
    where
      either : (c : Text) → is_chain c ≡ true → (text_eq c (codes "DROP") || is_chain c) ≡ true
      either c h = ground (arith, h)

  applied_permitted :
      (ps : Parsers)
      → IsSound ps
      → (run : ℕ → Command → Option Text)
      → (dns_server : Text) (ips : List Text) (open_internet : Bool)
      → all is_permitted
          (apply_egress_policy ps run
            (chain_name container_id)
            (bridge_iface network_id)
            dns_server
            ips
            open_internet).0
        ≡ true
  unfolding apply_egress_policy
  applied_permitted ps sound run dns_server ips open_internet =
      elim (Bool-cases (is_iptables_name (chain_name container_id))) [
        | inr bad ↦ rw bad refl
        | inl good ↦ elim (Bool-cases (is_iptables_name (bridge_iface network_id))) [
          | inr bad ↦ rw good (rw bad refl)
          | inl good2 ↦ elim (Bool-cases (is_some (ps.parse_ip dns_server))) [
            | inr bad ↦ rw good (rw good2 (rw bad refl))
            | inl dns ↦
                let r =
                  run_rules-permitted run
                    (egress_rules ps (chain_name container_id) (bridge_iface network_id) dns_server
                      ips open_internet)
                    (rules_permitted ps sound dns_server ips open_internet dns) in
                rw good (rw good2 (rw dns r))
          ]
        ]
      ]

  removed_permitted :
      all is_permitted (remove_egress_policy (chain_name container_id) (bridge_iface network_id))
      ≡ true
  unfolding remove_egress_policy
  removed_permitted =
      let chain_ : Text = chain_name container_id in
      let in_ : Text = input_chain chain_ in
      let iface : Text = bridge_iface network_id in
      let (free, in_free, x, drop_free) = named_plain container_id in
      let (y, z, iface_free, u) = named_plain network_id in
      let known = is_chain-chain_name container_id hex named in
      let in_known = is_chain-input_chain container_id hex named in
      let bridge = is_bridge-bridge_iface network_id net_hex net_long in
      let (n, f, d) = plain_op in
      let (new, flush, delete_) = known_op in
      let to_chain = jumps_permitted iface chain_ iface_free bridge free (either chain_ known) in
      let to_in = jumps_permitted iface in_ iface_free bridge in_free (either in_ in_known) in
      let to_drop = jumps_permitted iface (codes "DROP") iface_free bridge drop_free drop_known in
      let c1 : is_permitted (ipt (jump (codes "-D") (codes "INPUT") iface in_)) ≡ true =
        ipt_permitted _ to_in.3 in
      let c2 : is_permitted (ipt (codes "-F" ∷ in_ ∷ [])) ≡ true =
        ipt_permitted _ (chain_permitted in_ in_known in_free (codes "-F") f flush) in
      let c3 : is_permitted (ipt (codes "-X" ∷ in_ ∷ [])) ≡ true =
        ipt_permitted _ (chain_permitted in_ in_known in_free (codes "-X") d delete_) in
      let c4 : is_permitted (ipt (jump (codes "-D") (codes "FORWARD") iface chain_)) ≡ true =
        ipt_permitted _ to_chain.2 in
      let c5 : is_permitted (ipt (codes "-F" ∷ chain_ ∷ [])) ≡ true =
        ipt_permitted _ (chain_permitted chain_ known free (codes "-F") f flush) in
      let c6 : is_permitted (ipt (codes "-X" ∷ chain_ ∷ [])) ≡ true =
        ipt_permitted _ (chain_permitted chain_ known free (codes "-X") d delete_) in
      let c7 : is_permitted (ipt6 (jump (codes "-D") (codes "FORWARD") iface (codes "DROP")))
          ≡ true =
        ipt6_permitted _ to_drop.2 in
      rw c1 (rw c2 (rw c3 (rw c4 (rw c5 (rw c6 (rw c7 refl))))))
    where
      either : (c : Text) → is_chain c ≡ true → (text_eq c (codes "DROP") || is_chain c) ≡ true
      either c h = ground (arith, h)

-- For a container and a network with hexadecimal IDs, of twelve digits or more the network's, the guard
-- permits every command that setting up the sandbox's firewall issues, whatever the commands answer and
-- whichever addresses are allowed, and every command that removes it, where the texts that are addresses
-- begin with no dash.
pub policies-is_permitted :
    (ps : Parsers) (run : ℕ → Command → Option Text) (container_id network_id dns_server : Text)
    (ips : List Text) (open_internet : Bool)
    → IsSound ps
    → all is_hex container_id ≡ true
    → not (is_empty container_id) ≡ true
    → all is_hex network_id ≡ true
    → 12 ≤ length network_id
    → (all is_permitted
          (apply_egress_policy ps run
            (chain_name container_id)
            (bridge_iface network_id)
            dns_server
            ips
            open_internet).0
        ≡ true)
      × (all is_permitted (remove_egress_policy (chain_name container_id) (bridge_iface network_id))
          ≡ true)
policies-is_permitted ps run container_id network_id dns_server ips open_internet sound hex named
      net_hex net_long =
    (
      applied_permitted container_id network_id hex named net_hex net_long ps sound run dns_server
          ips open_internet,
      removed_permitted container_id network_id hex named net_hex net_long,
    )
