-- ===== src/Netpolicy/Policies.antt =====
-- That the guard lets the whole of a sandbox's policy through: applyEgressPolicy and
-- removeEgressPolicy of internal/docker/netpolicy.go.
use vaultrun.Guard.Names.{is_chain, is_bridge}
use vaultrun.Guard.Iptables.{check_iptables, selects_table, is_new_flush_delete}
use vaultrun.Base.{
  length, all, any, Text, codes, starts_with, text_eq, ℕ, ◌≡◌, refl, inl, inr, Bool, true, false,
  ◌||◌, Option, none, some, List, [], ◌∷◌, ◌++◌, map, arith, Bool-cases, and-eq_true, is_some,
}
use vaultrun.Netpolicy.{
  Command, ipt, chain_name, input_chain, bridge_iface, Parsers, Rule, blocked_nets, drop_net,
  accept_ip, is_v4_by, is_v4, accept_rules, conntrack_rule, dns_rule, drop_rule, jump, first_rules,
  destinations, stops, run_rules,
}
use vaultrun.Netpolicy.Permitted.{
  is_permitted, rule_permitted, ipt_permitted, dash_free, around, chain_permitted, append_permitted,
  jump_permitted,
}

-- What is an address or a range of addresses does not begin with a dash.
pub record IsSound (ps : Parsers) : Type 0 where
  pub dashless :
      (s : Text)
      → (is_some (ps.parse_ip s) || is_some (ps.parse_cidr s)) ≡ true
      → starts_with (codes "-") s ≡ false

pub all-append_rules :
    (xs ys : List Rule)
    → all rule_permitted xs ≡ true
    → all rule_permitted ys ≡ true
    → all rule_permitted (xs ++ ys) ≡ true
all-append_rules [] ys g h = h
all-append_rules (x ∷ xs) ys g h =
    let (first, rest) = and-eq_true (rule_permitted x) (all rule_permitted xs) g in
    rw first (all-append_rules xs ys rest h)

is_v4-parses :
    (cidr ip : Option Bool) → is_v4_by cidr ip ≡ true → (is_some ip || is_some cidr) ≡ true
is_v4-parses none none h = absurd cc
is_v4-parses none (some v) h = refl
is_v4-parses (some v) none h = refl
is_v4-parses (some v) (some v2) h = refl

pub plain_op :
    (selects_table (codes "-N") ≡ false)
    × (selects_table (codes "-F") ≡ false)
    × (selects_table (codes "-X") ≡ false)
unfolding selects_table text_eq
plain_op = (refl, refl, refl)

pub known_op :
    (is_new_flush_delete (codes "-N") ≡ true)
    × (is_new_flush_delete (codes "-F") ≡ true)
    × (is_new_flush_delete (codes "-X") ≡ true)
unfolding text_eq
known_op = (refl, refl, refl)

plain_tail : any selects_table (codes "-j" ∷ codes "ACCEPT" ∷ []) ≡ false
unfolding selects_table text_eq
plain_tail = refl

plain_drop : any selects_table (codes "-j" ∷ codes "DROP" ∷ []) ≡ false
unfolding selects_table text_eq
plain_drop = refl

plain_conntrack :
    any selects_table (
      codes "-m"
      ∷ codes "conntrack"
      ∷ codes "--ctstate"
      ∷ codes "ESTABLISHED,RELATED"
      ∷ codes "-j"
      ∷ codes "ACCEPT"
      ∷ [])
    ≡ false
unfolding selects_table text_eq
plain_conntrack = refl

plain_proto :
    (any selects_table (codes "-p" ∷ codes "udp" ∷ codes "--dport" ∷ codes "53" ∷ codes "-d" ∷ [])
      ≡ false)
    × (any selects_table (codes "-p" ∷ codes "tcp" ∷ codes "--dport" ∷ codes "53" ∷ codes "-d" ∷ [])
        ≡ false)
unfolding selects_table text_eq
plain_proto = (refl, refl)

plain_d : any selects_table (codes "-d" ∷ []) ≡ false
unfolding selects_table text_eq
plain_d = refl

blocked_plain : any selects_table blocked_nets ≡ false
unfolding selects_table text_eq blocked_nets
blocked_plain = refl

module _ (ps : Parsers) (sound : IsSound ps) (chain : Text) (known : is_chain chain ≡ true)
    (plain : selects_table chain ≡ false) where
  accept_rules_permitted : (ips : List Text) → all rule_permitted (accept_rules ps chain ips) ≡ true
  unfolding accept_rules
  accept_rules_permitted [] = refl
  accept_rules_permitted (ip ∷ ips) =
      let rest = accept_rules_permitted ips in
      elim (Bool-cases (is_v4 ps ip)) [
        | inr other ↦ rw other rest
        | inl v4 ↦
            let free =
              dash_free ip
                (sound.dashless ip (is_v4-parses (ps.parse_cidr ip) (ps.parse_ip ip) v4)) in
            let this : rule_permitted (accept_ip chain ip) ≡ true = ipt_permitted _ (
              append_permitted chain known plain _ (
                around (codes "-d" ∷ []) ip (codes "-j" ∷ codes "ACCEPT" ∷ []) plain_d free
                  plain_tail)) in
            rw v4 (rw this rest)
      ]

  drop_nets_permitted :
      (nets : List Text)
      → any selects_table nets ≡ false
      → all rule_permitted (map (drop_net chain) nets) ≡ true
  drop_nets_permitted [] h = refl
  drop_nets_permitted (net ∷ nets) h =
      let (free, more) = or_false (selects_table net) (any selects_table nets) h in
      let this : rule_permitted (drop_net chain net) ≡ true = ipt_permitted _ (
        append_permitted chain known plain _ (
          around (codes "-d" ∷ []) net (codes "-j" ∷ codes "DROP" ∷ []) plain_d free plain_drop)) in
      rw this (drop_nets_permitted nets more)
    where
      or_false : (p q : Bool) → (p || q) ≡ false → (p ≡ false) × (q ≡ false)
      or_false p q e = ground (arith, e)

  pub first_rules_permitted :
      (dns_server : Text)
      → selects_table dns_server ≡ false
      → all rule_permitted (first_rules chain dns_server) ≡ true
  first_rules_permitted dns_server free =
      let (n, f, x) = plain_op in
      let (new, flush, delete_) = known_op in
      let (udp, tcp) = plain_proto in
      let one_ : is_permitted (ipt (codes "-N" ∷ chain ∷ [])) ≡ true =
        ipt_permitted _ (chain_permitted chain known plain (codes "-N") n new) in
      let two : is_permitted (ipt (codes "-F" ∷ chain ∷ [])) ≡ true =
        ipt_permitted _ (chain_permitted chain known plain (codes "-F") f flush) in
      let three : rule_permitted (conntrack_rule chain) ≡ true =
        ipt_permitted _ (append_permitted chain known plain _ plain_conntrack) in
      let four : rule_permitted (dns_rule chain (codes "udp") dns_server) ≡ true = ipt_permitted _ (
        append_permitted chain known plain _ (
          around (codes "-p" ∷ codes "udp" ∷ codes "--dport" ∷ codes "53" ∷ codes "-d" ∷ [])
            dns_server (codes "-j" ∷ codes "ACCEPT" ∷ []) udp free plain_tail)) in
      let five : rule_permitted (dns_rule chain (codes "tcp") dns_server) ≡ true = ipt_permitted _ (
        append_permitted chain known plain _ (
          around (codes "-p" ∷ codes "tcp" ∷ codes "--dport" ∷ codes "53" ∷ codes "-d" ∷ [])
            dns_server (codes "-j" ∷ codes "ACCEPT" ∷ []) tcp free plain_tail)) in
      rw one_ (rw two (rw three (rw four (rw five refl))))

  pub drop_rule_permitted : rule_permitted (drop_rule chain) ≡ true
  drop_rule_permitted = ipt_permitted _ (append_permitted chain known plain _ plain_drop)

  pub destinations_permitted :
      (ips : List Text) (open_internet : Bool)
      → all rule_permitted (destinations ps chain ips open_internet) ≡ true
  destinations_permitted ips false = accept_rules_permitted ips
  destinations_permitted ips true =
      all-append_rules (map (drop_net chain) blocked_nets)
        (accept_rules ps chain (codes "0.0.0.0/0" ∷ []))
        (drop_nets_permitted blocked_nets blocked_plain)
        (accept_rules_permitted (codes "0.0.0.0/0" ∷ []))

-- the jumps of a policy and their removal
pub jumps_permitted :
    (iface target : Text)
    → selects_table iface ≡ false
    → is_bridge iface ≡ true
    → selects_table target ≡ false
    → (text_eq target (codes "DROP") || is_chain target) ≡ true
    → (check_iptables (jump (codes "-I") (codes "FORWARD") iface target) ≡ none)
      × (check_iptables (jump (codes "-I") (codes "INPUT") iface target) ≡ none)
      × (check_iptables (jump (codes "-D") (codes "FORWARD") iface target) ≡ none)
      × (check_iptables (jump (codes "-D") (codes "INPUT") iface target) ≡ none)
unfolding text_eq selects_table
jumps_permitted iface target f g h k = (
  jump_permitted (codes "-I") (codes "FORWARD") iface target refl refl refl refl refl f g h k,
  jump_permitted (codes "-I") (codes "INPUT") iface target refl refl refl refl refl f g h k,
  jump_permitted (codes "-D") (codes "FORWARD") iface target refl refl refl refl refl f g h k,
  jump_permitted (codes "-D") (codes "INPUT") iface target refl refl refl refl refl f g h k,
)

-- what is issued is among the rules
pub run_rules-permitted :
    (run : ℕ → Command → Option Text) (rules : List Rule)
    → all rule_permitted rules ≡ true
    → all is_permitted (run_rules run rules).0 ≡ true
unfolding run_rules
run_rules-permitted run [] h = refl
run_rules-permitted run (r ∷ rules) h =
    let (first, rest) = and-eq_true (rule_permitted r) (all rule_permitted rules) h in
    elim (Bool-cases (stops r.tolerance (run (length rules) r.command))) [
      | inl stop ↦ rw stop (rw first refl)
      | inr on ↦ rw on (rw first (run_rules-permitted run rules rest))
    ]

pub named_plain :
    (id : Text)
    → (selects_table (chain_name id) ≡ false)
      × (selects_table (input_chain (chain_name id)) ≡ false)
      × (selects_table (bridge_iface id) ≡ false)
      × (selects_table (codes "DROP") ≡ false)
unfolding selects_table text_eq
named_plain id = (refl, refl, refl, refl)

pub drop_known : (text_eq (codes "DROP") (codes "DROP") || is_chain (codes "DROP")) ≡ true
unfolding text_eq
drop_known = refl
