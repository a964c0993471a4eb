-- ===== src/Guard/Proxy/Routing.antt =====
-- `route` of internal/dockerguard/guard.go: which endpoint a path and a method name, and what the guard
-- does there. The exec IDs that it made are a list of pairs of ID and time.
use vaultrun.Base.{
  length, all, any, null, keep_if, Text, codes, is_empty, text_eq, ℕ, ◌-◌, ◌*◌, String, Bool, true,
  false, ◌&&◌, ◌||◌, not, Option, none, some, List, [], ◌∷◌, ltb, ◌==◌, if◌then◌else◌,
}
use vaultrun.Guard.Iptables.{check_exec}
use vaultrun.Guard.Names.{is_hex, is_lower, contains}
use vaultrun.Guard.Policy.{check_each, text_in, is_true, check_mount, check_create}
use vaultrun.Guard.Proxy.{
  put, Method, get, head, post, delete, other_method, NetworkRequest, VolumeRequest, Request,
  ContainerInfo, Daemon, answer, forward, create_container, create_network, create_volume,
  create_exec, by_dirs, bad_path, only_pulling, not_allowed, not_sandbox, unknown_exec,
  not_our_network, bad_volume_request, bad_body, daemon_error, has_no_config, start_has_binds,
  Outcome, does, refuses, check_network_create, refuse_if_denied, segments, strip_version,
}
use vaultrun.Guard.Types.{Policy, Mount, CreateRequest, ExecOptions, FileKind}

pub data Route : Type 0 where
  probe pass_through pull_image containers_create networks_create volumes_create : Route
  dirs_endpoint : Route
  container : Text → Text → Route
  exec : Text → Text → Route
  network : Text → Route
  nowhere : Route

abbrev pub seg_eq : Text → String → Bool
seg_eq s lit = text_eq s (codes lit)

abbrev pub is_get : Method → Bool
is_get get = true
is_get _ = false

abbrev pub is_post : Method → Bool
is_post post = true
is_post _ = false

abbrev pub is_delete : Method → Bool
is_delete delete = true
is_delete _ = false

abbrev pub is_get_or_head : Method → Bool
is_get_or_head get = true
is_get_or_head head = true
is_get_or_head _ = false

-- /<a>/<b> of the first `switch`
unfoldable pub fixed_two : Method → (dirs : Bool) → Text → Text → Option Route
fixed_two m dirs a b =
    if seg_eq a "images" && seg_eq b "json" && is_get m
    then some pass_through
    else if seg_eq a "images" && seg_eq b "create" && is_post m
    then some pull_image
    else if seg_eq a "containers" && seg_eq b "create" && is_post m
    then some containers_create
    else if seg_eq a "networks" && seg_eq b "create" && is_post m
    then some networks_create
    else if seg_eq a "volumes" && seg_eq b "create" && is_post m
    then some volumes_create
    else if seg_eq a "vaultrun" && seg_eq b "guard" && is_get m
    then some probe
    else if seg_eq a "vaultrun"
        && (seg_eq b "workspaces" || seg_eq b "xfs-quota")
        && is_post m
        && dirs
    then some dirs_endpoint
    else none

unfoldable pub fixed_one : Method → Text → Option Route
fixed_one m a =
    if seg_eq a "_ping" && is_get_or_head m
    then some pass_through
    else if (seg_eq a "version" || seg_eq a "info") && is_get m
    then some pass_through
    else none

-- imageRe: something between /images/ and /json, with no newline in it
unfoldable pub ends_json : Bool → List Text → Bool
ends_json some_before [] = false
ends_json some_before (s ∷ []) = some_before && seg_eq s "json"
ends_json some_before (s ∷ t ∷ rest) =
    all (λ c. not (c == 10)) s && ends_json (some_before || not (is_empty s)) (t ∷ rest)

-- containerRe, execRe and networkRe, in the order of the source
unfoldable pub pattern_route : Method → Text → List Text → Route
pattern_route m a (x ∷ []) =
    if seg_eq a "containers" && not (is_empty x) && not (seg_eq x "create")
    then container x []
    else if seg_eq a "networks" && not (is_empty x) && (is_get m || is_delete m)
    then network x
    else nowhere
pattern_route m a (x ∷ op ∷ []) =
    if seg_eq a "containers"
      && not (is_empty x)
      && not (seg_eq x "create")
      && not (is_empty op)
      && all is_lower op
    then container x op
    else if seg_eq a "exec"
        && (length x == 64)
        && all is_hex x
        && (seg_eq op "start" || seg_eq op "resize" || seg_eq op "json")
    then exec x op
    else nowhere
pattern_route m a _ = nowhere

abbrev pub or_route : Option Route → Route → Route
or_route none r = r
or_route (some r) _ = r

-- workspaceRe
abbrev pub is_workspace_path : Text → List Text → Bool
is_workspace_path a (b ∷ c ∷ []) = seg_eq a "vaultrun" && seg_eq b "workspaces" && not (is_empty c)
is_workspace_path a _ = false

-- The endpoint of a path, given as its segments; `dirs` says that the guard has Dirs.
unfoldable pub find_route : Method → (dirs : Bool) → List Text → Route
unfolding fixed_one fixed_two ends_json pattern_route
find_route m dirs ([] ∷ a ∷ []) = or_route (fixed_one m a) nowhere
find_route m dirs ([] ∷ a ∷ b ∷ []) = or_route (fixed_two m dirs a b) (pattern_route m a (b ∷ []))
find_route m dirs ([] ∷ a ∷ b ∷ c ∷ rest) =
    if seg_eq a "images" && ends_json false (b ∷ c ∷ rest) && is_get m
    then pass_through
    else if is_workspace_path a (b ∷ c ∷ rest) && is_delete m && dirs
    then dirs_endpoint
    else pattern_route m a (b ∷ c ∷ rest)
find_route m dirs _ = nowhere

-- containerOps
unfoldable pub is_container_op : Method → Text → Bool
is_container_op get op =
    text_in op (codes "json" ∷ codes "logs" ∷ codes "stats" ∷ codes "archive" ∷ [])
is_container_op head op = seg_eq op "archive"
is_container_op put op = seg_eq op "archive"
is_container_op post op = text_in op (
    codes "start"
    ∷ codes "stop"
    ∷ codes "kill"
    ∷ codes "wait"
    ∷ codes "pause"
    ∷ codes "unpause"
    ∷ codes "exec"
    ∷ [])
is_container_op delete op = is_empty op
is_container_op (other_method m) op = false

abbrev pub Execs : Type 0
Execs = List (Text × ℕ)

unfoldable pub known_exec : Execs → Text → Bool
known_exec execs id = any (λ (e : Text × ℕ). text_eq e.0 id) execs

-- two days in nanoseconds
abbrev pub exec_ttl : ℕ
exec_ttl = 48 * 3600 * 1000000000

-- the map after an exec was made: old IDs go, the new one comes
unfoldable pub remember_exec : Execs → Text → ℕ → Execs
remember_exec execs id now =
    (id, now)
    ∷ keep_if (λ (e : Text × ℕ). not (text_eq e.0 id) && not (ltb exec_ttl (now - e.1))) execs

module _ (clean dir base : Text → Text) (lstat : Text → FileKind) (d : Daemon) (p : Policy) where
  -- checkStart: the mounts of a container about to start are checked again.
  unfoldable pub check_start : Option (List Text × List Mount) → Outcome
  check_start none = refuses has_no_config
  check_start (some (binds, mounts)) =
      if not (null binds)
      then refuses start_has_binds
      else refuse_if_denied (check_each (check_mount clean dir base lstat p) mounts) forward

  abbrev pub exec_request : Text → Bool → Option ExecOptions → Outcome
  exec_request id netpolicy none = refuses bad_body
  exec_request id netpolicy (some opts) =
      refuse_if_denied (check_exec opts netpolicy) (create_exec id opts netpolicy)

  abbrev pub on_container : Text → Text → Option ExecOptions → Option ContainerInfo → Outcome
  on_container id op body none = refuses daemon_error
  on_container id op body (some info) =
      let netpolicy = not (is_empty p.netpolicy) && text_eq info.name (b'/' ∷ p.netpolicy) in
      if seg_eq op "exec" && (is_true info.managed || netpolicy)
      then exec_request id netpolicy body
      else if not (is_true info.managed)
      then refuses not_sandbox
      else if seg_eq op "start"
      then check_start info.host
      else does forward

  abbrev pub on_network : Option (Option Text) → Outcome
  on_network none = refuses daemon_error
  on_network (some managed) = if is_true managed then does forward else refuses not_our_network

  abbrev pub container_body : Option CreateRequest → Outcome
  container_body none = refuses bad_body
  container_body (some body) =
      refuse_if_denied (check_create clean dir base lstat p body) (create_container body)

  abbrev pub network_body_of : Option NetworkRequest → Outcome
  network_body_of none = refuses bad_body
  network_body_of (some body) = refuse_if_denied (check_network_create body) (create_network body)

  abbrev pub volume_body_of : Option VolumeRequest → Outcome
  volume_body_of none = refuses bad_body
  volume_body_of (some v) =
      if not (seg_eq v.name "vaultrun-tools")
        || (not (is_empty v.driver) && not (seg_eq v.driver "local"))
        || not (null v.driver_opts)
        || v.cluster_spec
      then refuses bad_volume_request
      else does create_volume

  unfoldable pub act : Execs → Request → Route → Outcome
  unfolding check_start
  act execs req probe = does answer
  act execs req pass_through = does forward
  act execs req pull_image =
      if is_empty req.from_image || not (is_empty req.from_src)
      then refuses only_pulling
      else does forward
  act execs req containers_create = container_body req.create_body
  act execs req networks_create = network_body_of req.network_body
  act execs req volumes_create = volume_body_of req.volume_body
  act execs req dirs_endpoint = does by_dirs
  act execs req (container id op) =
      if is_container_op req.method op
      then on_container id op req.exec_body (d.inspect id)
      else refuses not_allowed
  act execs req (exec id op) =
      if (if seg_eq op "json" then is_get req.method else not (is_get req.method))
        && known_exec execs id
      then does forward
      else refuses unknown_exec
  act execs req (network id) = on_network (d.network_managed id)
  act execs req nowhere = refuses not_allowed

  -- ServeHTTP: the path is looked at first, then its version goes.
  unfoldable pub serve : (dirs : Bool) → Execs → Request → Outcome
  serve dirs execs req =
      if contains (codes "..") req.path || contains (codes "//") req.path
      then refuses bad_path
      else act execs req (find_route req.method dirs (strip_version (segments req.path)))

  abbrev pub remember_made : Option Text → ℕ → Execs → Execs
  remember_made none now execs = execs
  remember_made (some eid) now execs = remember_exec execs eid now

  -- The exec IDs behind a request: only a made exec adds one.
  unfoldable pub after_outcome : ℕ → Execs → Outcome → Execs
  after_outcome now execs (does (create_exec id opts netpolicy)) =
      remember_made (d.create_exec id opts) now execs
  after_outcome now execs _ = execs
