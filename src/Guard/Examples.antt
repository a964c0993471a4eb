-- ===== src/Guard/Examples.antt =====
-- The theorems of the guard at concrete requests, and tests of its names.
use vaultrun.Base.{All, Text, codes, text_eq, ◌≡◌, refl, true, false, none, some, List, [], ◌∷◌}
use vaultrun.Guard.Iptables.{selects_table, is_bridge_jump, check_rule, check_iptables, check_exec}
use vaultrun.Guard.Iptables.Rules.{RuleAllowed, NamesNoTable, check_iptables-RuleAllowed}
use vaultrun.Guard.Names.{
  split, after_hex, after_literal, is_workspace_name, is_session_net, is_bridge, hex_run, is_chain,
  contains,
}
use vaultrun.Guard.Policy.{
  ◌then_check◌, deny_if, check_each, is_nnp, is_seccomp, check_one_opt, check_security_opt,
  is_network_name, check_network_name, workspace_path, check_mount, check_host_config,
  check_attached, check_create,
}
use vaultrun.Guard.Policy.Sandboxed.{IsSandboxed, check_create-IsSandboxed}
use vaultrun.Guard.Proxy.{post, Request, Daemon, create_exec, does, strip_version}
use vaultrun.Guard.Proxy.Routing.{find_route, is_container_op, Execs, act, serve, after_outcome}
use vaultrun.Guard.Types.{
  Policy, bind, Mount, HostConfig, CreateRequest, ExecOptions, privileged_container, FileKind,
  directory,
}

abbrev same : Text → Text
same s = s

-- a file system with directories only, and paths whose directory is /ws and whose base is a session
abbrev all_dirs : Text → FileKind
all_dirs s = directory

abbrev session : Text
session = codes "0123abcd-0123-4567-89ab-0123456789ab"

abbrev base_of : Text → Text
base_of s = session

abbrev policy : Policy
policy = record {
  workspace_dir = codes "/ws";
  runtime = codes "runsc";
  seccomp = [];
  netpolicy = codes "net";
}

abbrev mount : Mount
mount = record { type = bind; source = codes "/ws"; driver_config = false; propagation = none }

abbrev host : HostConfig
host = record {
  privileged = false;
  cap_add = [];
  binds = [];
  volumes_from = [];
  links = [];
  devices = [];
  device_cgroup_rules = [];
  port_bindings = [];
  publish_all_ports = false;
  sysctls = [];
  cgroup_parent = [];
  cgroup = [];
  masked_paths = none;
  readonly_paths = none;
  pid_mode = [];
  ipc_mode = [];
  uts_mode = [];
  userns_mode = [];
  cgroupns_mode = [];
  runtime = codes "runsc";
  device_requests = [];
  security_opt = codes "no-new-privileges" ∷ [];
  network_mode = codes "none";
  mounts = mount ∷ [];
}

abbrev request : CreateRequest
request = record {
  config = some (record { managed = some (codes "true") });
  host_config = some host;
  endpoints = [];
}

check_create_passes : check_create same same base_of all_dirs policy request ≡ none
unfolding check_create check_host_config check_attached check_security_opt check_network_name
    check_mount workspace_path check_each ◌then_check◌ deny_if text_eq is_nnp is_network_name
    is_session_net is_workspace_name check_one_opt after_literal after_hex is_seccomp
check_create_passes = refl

check_create-IsSandboxed_example : IsSandboxed same same base_of all_dirs policy request
check_create-IsSandboxed_example =
    check_create-IsSandboxed same same base_of all_dirs policy request check_create_passes

privileged_refused :
    check_create same same base_of all_dirs policy
      (record request { host_config = some (record host { privileged = true }) })
    ≡ some privileged_container
unfolding check_create check_host_config ◌then_check◌ deny_if text_eq
privileged_refused = refl

abbrev jump : List Text
jump = codes "-i" ∷ codes "br-0123456789ab" ∷ codes "-j" ∷ codes "vr-0123-in" ∷ []

jump_passes : check_iptables (codes "-I" ∷ codes "FORWARD" ∷ jump) ≡ none
unfolding check_iptables check_rule is_bridge_jump selects_table is_bridge is_chain hex_run text_eq
    after_literal after_hex ◌then_check◌ deny_if
jump_passes = refl

check_iptables-RuleAllowed_example :
    All NamesNoTable (codes "-I" ∷ codes "FORWARD" ∷ jump)
    × RuleAllowed (codes "-I") (codes "FORWARD") jump
check_iptables-RuleAllowed_example =
    check_iptables-RuleAllowed (codes "-I") (codes "FORWARD") jump jump_passes

-- Options of one letter that are written together, and a long option that is cut short, pass.
hidden_table : check_iptables (codes "-A" ∷ codes "vr-0" ∷ codes "-vt" ∷ codes "nat" ∷ []) ≡ none
unfolding check_iptables check_rule selects_table is_chain hex_run text_eq after_literal deny_if
hidden_table = refl

short_table : check_iptables (codes "-A" ∷ codes "vr-0" ∷ codes "--tab" ∷ codes "nat" ∷ []) ≡ none
unfolding check_iptables check_rule selects_table is_chain hex_run text_eq after_literal deny_if
short_table = refl

-- a daemon that knows one sandbox, and gives every exec the ID e
abbrev exec_id : Text
exec_id = codes "e"

abbrev daemon : Daemon
daemon = record {
  inspect = λ id. some (record { name = codes "/box"; managed = some (codes "true"); host = none });
  network_managed = λ id. none;
  create_exec = λ id opts. some exec_id;
}

abbrev shell : ExecOptions
shell = record {
  privileged = false;
  user = [];
  env = [];
  working_dir = [];
  attach_stdin = false;
  tty = false;
  cmd = codes "sh" ∷ [];
}

abbrev exec_request : Request
exec_request = record {
  method = post;
  path = codes "/v1.45/containers/box/exec";
  from_image = [];
  from_src = [];
  create_body = none;
  exec_body = some shell;
  network_body = none;
  volume_body = none;
}

abbrev start_request : Request
start_request = record exec_request { path = codes "/exec/e/start"; exec_body = none }

serve_exec :
    serve same same base_of all_dirs daemon policy false [] exec_request
    ≡ does (create_exec (codes "box") shell false)
unfolding serve act find_route strip_version split contains is_container_op check_exec text_eq
    ◌then_check◌ deny_if
serve_exec = refl

abbrev execs : Execs
execs =
    after_outcome same same base_of all_dirs daemon policy 7 []
      (serve same same base_of all_dirs daemon policy false [] exec_request)
