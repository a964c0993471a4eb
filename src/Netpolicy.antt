-- ===== src/Netpolicy.antt =====
-- The firewall rules of a sandbox: internal/docker/netpolicy.go. Every rule is one command, which the
-- API runs in the netpolicy helper through the guard of Guard.
pub mod Chains
pub mod Permitted
pub mod Policies
pub mod Issued
mod Examples
use vaultrun.Guard.Names.{contains}
use vaultrun.Guard.Types.{ExecOptions}
use vaultrun.Base.{
  length, all, Text, codes, is_empty, first_bytes, ℕ, Bool, true, false, ◌&&◌, ◌||◌, not, Option,
  none, some, List, [], ◌∷◌, ◌++◌, map, leb, ◌==◌, if◌then◌else◌, is_some,
}

pub record Command : Type 0 where
  pub bin : Text
  pub args : List Text

-- `ipt` and `ipt6`
abbrev pub ipt : List Text → Command
ipt args = record { bin = codes "iptables"; args = args }

abbrev pub ipt6 : List Text → Command
ipt6 args = record { bin = codes "ip6tables"; args = args }

-- The ContainerExecCreate of `runInHelper`.
abbrev pub run_in_helper : Command → ExecOptions
run_in_helper c = record {
  privileged = false;
  user = [];
  env = [];
  working_dir = [];
  attach_stdin = false;
  tty = false;
  cmd = c.bin ∷ c.args;
}

-- `chainName`: the first twelve bytes of the ID, or all of a shorter one
abbrev pub chain_name : (container_id : Text) → Text
chain_name container_id = codes "vr-" ++ first_bytes 12 container_id

-- `inputChain`
abbrev pub input_chain : Text → Text
input_chain chain = chain ++ codes "-in"

-- `bridgeIface`
abbrev pub bridge_iface : (network_id : Text) → Text
bridge_iface network_id = codes "br-" ++ first_bytes 12 network_id

-- net.ParseIP and net.ParseCIDR: none where they fail, or whether the address is one of IPv4.
pub record Parsers : Type 0 where
  pub parse_ip : Text → Option Bool
  pub parse_cidr : Text → Option Bool

-- `isIPTExistsErr` on the text of an error
unfoldable pub is_ipt_exists_err : Text → Bool
is_ipt_exists_err s =
    contains (codes "Chain already exists") s
    || contains (codes "Already exists") s
    || contains (codes "already exists") s
    || contains (codes "Duplicate rule") s

-- `isIPT6NotFound`
unfoldable pub is_ipt6_not_found : Text → Bool
is_ipt6_not_found s =
    contains (codes "executable file not found") s || contains (codes "no such file or directory") s

-- Which errors of a command do not stop the policy.
pub data Tolerance : Type 0 where
  strict : Tolerance
  if_exists : Tolerance
  if_exists_or_missing : Tolerance

abbrev pub tolerates : Tolerance → Text → Bool
tolerates strict s = false
tolerates if_exists s = is_ipt_exists_err s
tolerates if_exists_or_missing s = is_ipt6_not_found s || is_ipt_exists_err s

pub record Rule : Type 0 where
  pub command : Command
  pub tolerance : Tolerance

abbrev pub must : List Text → Rule
must args = record { command = ipt args; tolerance = strict }

abbrev pub may_exist : List Text → Rule
may_exist args = record { command = ipt args; tolerance = if_exists }

-- blockedNets of internal/docker/allowedhosts.go, those of IPv4, as net.IPNet prints them
unfoldable pub blocked_nets : List Text
blocked_nets =
    codes "0.0.0.0/8"
    ∷ codes "10.0.0.0/8"
    ∷ codes "100.64.0.0/10"
    ∷ codes "127.0.0.0/8"
    ∷ codes "169.254.0.0/16"
    ∷ codes "172.16.0.0/12"
    ∷ codes "192.168.0.0/16"
    ∷ []

abbrev pub drop_net : (chain net : Text) → Rule
drop_net chain net = must (codes "-A" ∷ chain ∷ codes "-d" ∷ net ∷ codes "-j" ∷ codes "DROP" ∷ [])

abbrev pub accept_ip : (chain ip : Text) → Rule
accept_ip chain ip = must (codes "-A" ∷ chain ∷ codes "-d" ∷ ip ∷ codes "-j" ∷ codes "ACCEPT" ∷ [])

abbrev pub is_v4_address : Option Bool → Bool
is_v4_address none = false
is_v4_address (some v4) = v4

-- whether an allowed address gets a rule: a range of IPv4, or what is no range and an address of IPv4
abbrev pub is_v4_by : (cidr ip : Option Bool) → Bool
is_v4_by none ip = is_v4_address ip
is_v4_by (some v4) ip = v4

abbrev pub is_v4 : Parsers → Text → Bool
is_v4 ps ip = is_v4_by (ps.parse_cidr ip) (ps.parse_ip ip)

unfoldable pub accept_rules : Parsers → (chain : Text) → (ips : List Text) → List Rule
accept_rules ps chain [] = []
accept_rules ps chain (ip ∷ ips) =
    let rest = accept_rules ps chain ips in if is_v4 ps ip then accept_ip chain ip ∷ rest else rest

abbrev pub new_chain : Text → List Rule
new_chain chain = may_exist (codes "-N" ∷ chain ∷ []) ∷ must (codes "-F" ∷ chain ∷ []) ∷ []

abbrev pub conntrack_rule : Text → Rule
conntrack_rule chain = must (
    codes "-A"
    ∷ chain
    ∷ codes "-m"
    ∷ codes "conntrack"
    ∷ codes "--ctstate"
    ∷ codes "ESTABLISHED,RELATED"
    ∷ codes "-j"
    ∷ codes "ACCEPT"
    ∷ [])

abbrev pub dns_rule : (chain proto dns_server : Text) → Rule
dns_rule chain proto dns_server = must (
    codes "-A"
    ∷ chain
    ∷ codes "-p"
    ∷ proto
    ∷ codes "--dport"
    ∷ codes "53"
    ∷ codes "-d"
    ∷ dns_server
    ∷ codes "-j"
    ∷ codes "ACCEPT"
    ∷ [])

abbrev pub drop_rule : Text → Rule
drop_rule chain = must (codes "-A" ∷ chain ∷ codes "-j" ∷ codes "DROP" ∷ [])

abbrev pub jump : (op from iface target : Text) → List Text
jump op from iface target = op ∷ from ∷ codes "-i" ∷ iface ∷ codes "-j" ∷ target ∷ []

-- the rules every chain begins with
abbrev pub first_rules : (chain dns_server : Text) → List Rule
first_rules chain dns_server =
    new_chain chain
    ++ conntrack_rule chain
      ∷ dns_rule chain (codes "udp") dns_server
      ∷ dns_rule chain (codes "tcp") dns_server
      ∷ []

abbrev pub destinations :
    Parsers → (chain : Text) → (ips : List Text) → (open_internet : Bool) → List Rule
destinations ps chain ips false = accept_rules ps chain ips
destinations ps chain ips true =
    map (drop_net chain) blocked_nets ++ accept_rules ps chain (codes "0.0.0.0/0" ∷ [])

-- The commands of `applyEgressPolicy`, in order.
unfoldable pub egress_rules :
    Parsers
    → (chain iface dns_server : Text) → (ips : List Text) → (open_internet : Bool) → List Rule
egress_rules ps chain iface dns_server ips open_internet =
    first_rules chain dns_server
    ++ destinations ps chain ips open_internet
    ++ drop_rule chain
      ∷ may_exist (jump (codes "-I") (codes "FORWARD") iface chain)
      ∷ (first_rules (input_chain chain) dns_server
          ++ drop_rule (input_chain chain)
            ∷ may_exist (jump (codes "-I") (codes "INPUT") iface (input_chain chain))
            ∷ record {
              command = ipt6 (jump (codes "-I") (codes "FORWARD") iface (codes "DROP"));
              tolerance = if_exists_or_missing;
            }
            ∷ [])

pub data PolicyError : Type 0 where
  invalid_chain : PolicyError
  invalid_iface : PolicyError
  invalid_dns : PolicyError
  command_failed : Command → Text → PolicyError

-- what a command answers: the text of an error, or none
abbrev pub stops : Tolerance → Option Text → Bool
stops tolerance none = false
stops tolerance (some s) = not (tolerates tolerance s)

abbrev pub text_of : Option Text → Text
text_of none = []
text_of (some s) = s

-- The commands one after another, up to the first error that is not tolerated: those that were issued,
-- and the error. `run` answers the commands, by how many are left to come.
unfoldable pub run_rules :
    (run : ℕ → Command → Option Text) → List Rule → List Command × Option PolicyError
run_rules run [] = ([], none)
run_rules run (r ∷ rules) =
    let rest = run_rules run rules in
    let answer = run (length rules) r.command in
    if stops r.tolerance answer
    then (r.command ∷ [], some (command_failed r.command (text_of answer)))
    else (r.command ∷ rest.0, rest.1)

-- [a-zA-Z0-9_-]
abbrev pub is_name_byte : ℕ → Bool
is_name_byte c =
    (leb 97 c && leb c 122)
    || (leb 65 c && leb c 90)
    || (leb 48 c && leb c 57)
    || (c == 95)
    || (c == 45)

-- iptablesNameRe
unfoldable pub is_iptables_name : Text → Bool
is_iptables_name s = not (is_empty s) && all is_name_byte s

-- `applyEgressPolicy`
unfoldable pub apply_egress_policy :
    Parsers
    → (run : ℕ → Command → Option Text) → (chain iface dns_server : Text) → (ips : List Text)
    → (open_internet : Bool) → List Command × Option PolicyError
apply_egress_policy ps run chain iface dns_server ips open_internet =
    if not (is_iptables_name chain)
    then ([], some invalid_chain)
    else if not (is_iptables_name iface)
    then ([], some invalid_iface)
    else if not (is_some (ps.parse_ip dns_server))
    then ([], some invalid_dns)
    else run_rules run (egress_rules ps chain iface dns_server ips open_internet)

-- The commands of `removeEgressPolicy`; their errors are only logged.
unfoldable pub remove_egress_policy : (chain iface : Text) → List Command
remove_egress_policy chain iface =
    ipt (jump (codes "-D") (codes "INPUT") iface (input_chain chain))
    ∷ ipt (codes "-F" ∷ input_chain chain ∷ [])
    ∷ ipt (codes "-X" ∷ input_chain chain ∷ [])
    ∷ ipt (jump (codes "-D") (codes "FORWARD") iface chain)
    ∷ ipt (codes "-F" ∷ chain ∷ [])
    ∷ ipt (codes "-X" ∷ chain ∷ [])
    ∷ ipt6 (jump (codes "-D") (codes "FORWARD") iface (codes "DROP"))
    ∷ []
