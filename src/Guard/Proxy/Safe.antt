-- ===== src/Guard/Proxy/Safe.antt =====
-- What reaches the Docker daemon through the guard: internal/dockerguard/guard.go.
use vaultrun.Base.{
  null, Text, codes, is_empty, text_eq, ◌≡◌, refl, subst, ◌⊎◌, inl, inr, Bool, true, false, ◌&&◌,
  ◌||◌, not, Option, none, some, List, ◌∷◌, arith, if◌then◌else◌, and-eq_true,
}
use vaultrun.Guard.Iptables.{check_exec}
use vaultrun.Guard.Names.{contains}
use vaultrun.Guard.Policy.{is_true, check_create}
use vaultrun.Guard.Policy.Sandboxed.{IsSandboxed, check_create-IsSandboxed}
use vaultrun.Guard.Proxy.{
  NetworkRequest, VolumeRequest, Request, ContainerInfo, Daemon, Action, forward, create_container,
  create_network, create_volume, create_exec, bad_path, only_pulling, not_allowed, not_sandbox,
  unknown_exec, bad_volume_request, Outcome, does, refuses, check_network_create, refuse_if_denied,
  segments, strip_version,
}
use vaultrun.Guard.Proxy.Creates.{creates, RouteOk, find_route-RouteOk}
use vaultrun.Guard.Proxy.Routing.{
  Route, probe, pass_through, pull_image, containers_create, networks_create, volumes_create,
  dirs_endpoint, container, exec, network, nowhere, is_get, find_route, is_container_op, Execs,
  known_exec, check_start, exec_request, on_container, on_network, container_body, network_body_of,
  volume_body_of, act, serve,
}
use vaultrun.Guard.Types.{Policy, Mount, CreateRequest, ExecOptions, Check, FileKind}

module _ (clean dir base : Text → Text) (lstat : Text → FileKind) (d : Daemon) (p : Policy) where
  refuse_if_denied-does :
      (c : Check) (a b : Action) → refuse_if_denied c a ≡ does b → (c ≡ none) × (a ≡ b)
  refuse_if_denied-does none a b h = (refl, cc)
  refuse_if_denied-does (some r) a b h = cc

  -- the netpolicy helper, by its name
  abbrev pub is_helper : ContainerInfo → Bool
  is_helper info = not (is_empty p.netpolicy) && text_eq info.name (b'/' ∷ p.netpolicy)

  -- An exec in a container: the daemon knows the container, which is a sandbox or the helper, and
  -- the command passes the check for the one it is.
  pub record IsChecked (id : Text) (opts : ExecOptions) (netpolicy : Bool) : Type 0 where
    pub info : ContainerInfo
    pub inspected : d.inspect id ≡ some info
    pub which : netpolicy ≡ is_helper info
    pub ours : (is_true info.managed || netpolicy) ≡ true
    pub checked : check_exec opts netpolicy ≡ none

  -- What is known of an action that the guard takes on a request.
  abbrev pub Safe : Request → Action → Type 0
  Safe req (create_container body) =
      (req.create_body ≡ some body) × (check_create clean dir base lstat p body ≡ none)
  Safe req (create_network body) =
      (req.network_body ≡ some body) × (check_network_create body ≡ none)
  Safe req (create_exec id opts netpolicy) =
      (req.exec_body ≡ some opts) × IsChecked id opts netpolicy
  Safe req forward = creates req.method (strip_version (segments req.path)) ≡ false
  Safe req _ = Unit

  abbrev pub SafeOutcome : Request → Outcome → Type 0
  SafeOutcome req (refuses r) = Unit
  SafeOutcome req (does a) = Safe req a

  refuse-SafeOutcome :
      (req : Request) (c : Check) (a : Action)
      → (c ≡ none → Safe req a)
      → SafeOutcome req (refuse_if_denied c a)
  refuse-SafeOutcome req none a h = h refl
  refuse-SafeOutcome req (some r) a h = tt

  if-SafeOutcome :
      (req : Request) (t : Bool) (x y : Outcome)
      → (t ≡ true → SafeOutcome req x)
      → (t ≡ false → SafeOutcome req y)
      → SafeOutcome req (if t then x else y)
  if-SafeOutcome req true x y hx hy = hx refl
  if-SafeOutcome req false x y hx hy = hy refl

  container_body-Safe :
      (req : Request) (b : Option CreateRequest)
      → req.create_body ≡ b
      → SafeOutcome req (container_body clean dir base lstat d p b)
  container_body-Safe req none e = tt
  container_body-Safe req (some body) e =
      refuse-SafeOutcome req (check_create clean dir base lstat p body) (create_container body)
        (λ h. (e, h))

  network_body-Safe :
      (req : Request) (b : Option NetworkRequest)
      → req.network_body ≡ b
      → SafeOutcome req (network_body_of clean dir base lstat d p b)
  network_body-Safe req none e = tt
  network_body-Safe req (some body) e =
      refuse-SafeOutcome req (check_network_create body) (create_network body) (λ h. (e, h))

  volume_body-Safe :
      (req : Request) (b : Option VolumeRequest)
      → SafeOutcome req (volume_body_of clean dir base lstat d p b)
  volume_body-Safe req none = tt
  volume_body-Safe req (some v) =
      if-SafeOutcome req _ (refuses bad_volume_request) (does create_volume) (λ h. tt) (λ h. tt)

  exec_request-Safe :
      (req : Request) (id : Text) (np : Bool) (info : ContainerInfo) (b : Option ExecOptions)
      → req.exec_body ≡ b
      → d.inspect id ≡ some info
      → np ≡ is_helper info
      → (is_true info.managed || np) ≡ true
      → SafeOutcome req (exec_request clean dir base lstat d p id np b)
  exec_request-Safe req id np info none e i w o = tt
  exec_request-Safe req id np info (some opts) e i w o =
      refuse-SafeOutcome req (check_exec opts np) (create_exec id opts np)
        (λ h. (e, record { info = info; inspected = i; which = w; ours = o; checked = h }))

  check_start-Safe :
      (req : Request) (h : Option (List Text × List Mount))
      → creates req.method (strip_version (segments req.path)) ≡ false
      → SafeOutcome req (check_start clean dir base lstat d p h)
  unfolding check_start
  check_start-Safe req none k = tt
  check_start-Safe req (some (binds, mounts)) k =
      if-SafeOutcome req (not (null binds)) _ _ (λ h. tt)
        (λ h. refuse-SafeOutcome req _ forward (λ h2. k))

  on_container-Safe :
      (req : Request) (id op : Text) (i : Option ContainerInfo)
      → d.inspect id ≡ i
      → (text_eq op (codes "exec") ≡ true)
        ⊎ (creates req.method (strip_version (segments req.path)) ≡ false)
      → SafeOutcome req (on_container clean dir base lstat d p id op req.exec_body i)
  on_container-Safe req id op none e k = tt
  on_container-Safe req id op (some info) e k =
      let np : Bool = is_helper info in
      let started : Outcome =
        (if text_eq op (codes "start")
          then check_start clean dir base lstat d p info.host
          else does forward) in
      let managed : Bool = is_true info.managed in
      let request : Outcome = exec_request clean dir base lstat d p id np req.exec_body in
      if-SafeOutcome req (text_eq op (codes "exec") && (managed || np)) request
        (if not managed then refuses not_sandbox else started)
        (λ h.
          exec_request-Safe req id np info req.exec_body refl e refl
            (and-eq_true (text_eq op (codes "exec")) (managed || np) h).1)
        (λ n.
          if-SafeOutcome req (not managed) (refuses not_sandbox) started (λ h. tt)
            (λ h.
              let none_made : creates req.method (strip_version (segments req.path)) ≡ false =
                not_exec (text_eq op (codes "exec")) managed np _ n h k in
              if-SafeOutcome req (text_eq op (codes "start"))
                (check_start clean dir base lstat d p info.host) (does forward)
                (λ s. check_start-Safe req info.host none_made) (λ s. none_made)))
    where
      not_exec :
          (is_exec managed np c : Bool)
          → (is_exec && (managed || np)) ≡ false
          → not managed ≡ false
          → (is_exec ≡ true) ⊎ (c ≡ false)
          → c ≡ false
      not_exec is_exec managed np c n h (inl e) =
          (let m : managed ≡ true = ground (arith, h) in
            let k : (is_exec && (managed || np)) ≡ true = ground (arith, e, m) in absurd cc)
      not_exec is_exec managed np c n h (inr f) = f

  on_network-Safe :
      (req : Request) (o : Option (Option Text))
      → creates req.method (strip_version (segments req.path)) ≡ false
      → SafeOutcome req (on_network clean dir base lstat d p o)
  on_network-Safe req none k = tt
  on_network-Safe req (some m) k = if-SafeOutcome req (is_true m) _ _ (λ h. k) (λ h. tt)

  act-Safe :
      (execs : Execs) (req : Request) (r : Route)
      → RouteOk req.method (strip_version (segments req.path)) r
      → SafeOutcome req (act clean dir base lstat d p execs req r)
  unfolding act RouteOk
  act-Safe execs req probe k = tt
  act-Safe execs req pass_through k = k
  act-Safe execs req pull_image k =
      if-SafeOutcome req (is_empty req.from_image || not (is_empty req.from_src))
        (refuses only_pulling) (does forward) (λ h. tt) (λ h. k)
  act-Safe execs req containers_create k = container_body-Safe req req.create_body refl
  act-Safe execs req networks_create k = network_body-Safe req req.network_body refl
  act-Safe execs req volumes_create k = volume_body-Safe req req.volume_body
  act-Safe execs req dirs_endpoint k = tt
  act-Safe execs req (container id op) k =
      if-SafeOutcome req (is_container_op req.method op)
        (on_container clean dir base lstat d p id op req.exec_body (d.inspect id))
        (refuses not_allowed) (λ h. on_container-Safe req id op (d.inspect id) refl k) (λ h. tt)
  act-Safe execs req (exec id op) k =
      if-SafeOutcome req
        ((if text_eq op (codes "json") then is_get req.method else not (is_get req.method))
          && known_exec execs id)
        (does forward) (refuses unknown_exec) (λ h. k) (λ h. tt)
  act-Safe execs req (network id) k = on_network-Safe req (d.network_managed id) k
  act-Safe execs req nowhere k = tt

  pub serve-Safe :
      (dirs : Bool) (execs : Execs) (req : Request)
      → SafeOutcome req (serve clean dir base lstat d p dirs execs req)
  unfolding serve
  serve-Safe dirs execs req =
      let path : List Text = strip_version (segments req.path) in
      let r : Route = find_route req.method dirs path in
      if-SafeOutcome req (contains (codes "..") req.path || contains (codes "//") req.path)
        (refuses bad_path) (act clean dir base lstat d p execs req r) (λ h. tt)
        (λ h. act-Safe execs req r (find_route-RouteOk req.method dirs path))

  -- A container that the guard has the daemon create is sandboxed.
  pub serve-IsSandboxed :
      (dirs : Bool) (execs : Execs) (req : Request) (body : CreateRequest)
      → serve clean dir base lstat d p dirs execs req ≡ does (create_container body)
      → IsSandboxed clean dir base lstat p body
  serve-IsSandboxed dirs execs req body h =
      check_create-IsSandboxed clean dir base lstat p body
        (subst (SafeOutcome req) h (serve-Safe dirs execs req)).1
