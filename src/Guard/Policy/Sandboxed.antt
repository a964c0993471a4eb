-- ===== src/Guard/Policy/Sandboxed.antt =====
-- What every container that the guard lets through is: CheckCreate of internal/dockerguard/policy.go.
use vaultrun.Base.{
  any, All, Text, codes, text_eq_iff, is_empty, text_eq, ◌≡◌, refl, ◌⊎◌, inl, inr, true, false,
  ◌||◌, not, Option, none, some, List, [], ◌∷◌, arith,
}
use vaultrun.Guard.Policy.{
  deny_if, check_each, text_in, is_true, is_nnp, check_security_opt, check_network_name,
  workspace_path, check_propagation, check_mount_type, check_mount, check_attached, check_configs,
  check_create,
}
use vaultrun.Guard.Policy.Confined.{IsConfined, check_host_config-IsConfined}
use vaultrun.Guard.Policy.Options.{OptAllowed, opts_allowed}
use vaultrun.Guard.Policy.Passed.{
  then_check-none, deny_if-none, or-false, or-true, is_empty-nil, not-false,
}
use vaultrun.Guard.Types.{
  Policy, MountType, bind, volume, tmpfs, other_type, Mount, HostConfig, Config, CreateRequest,
  other_device, not_a_directory, lstat_failed, FileKind, directory, other_file, lstat_error,
}
use vaultrun.Guard.Uuids.{
  IsWorkspaceName, IsNetworkName, is_workspace_name-IsWorkspaceName, is_network_name-IsNetworkName,
}

-- A bind mount that is let through names a directory directly in the workspace base, whose name is
-- that of a session or of a warm container.
abbrev pub IsSessionDir :
    (clean dir base : Text → Text) → (Text → FileKind) → Policy → Text → Type 0
IsSessionDir clean dir base lstat p source =
    (clean source ≡ source)
    × (dir source ≡ clean p.workspace_dir)
    × IsWorkspaceName (base source)
    × (lstat source ≡ directory)

-- the mount's propagation is not set, or private to the container
abbrev pub IsPrivate : Option Text → Type 0
IsPrivate none = Unit
IsPrivate (some s) = (s ≡ []) ⊎ (s ≡ codes "private") ⊎ (s ≡ codes "rprivate")

abbrev pub MountAllowed :
    (clean dir base : Text → Text) → (Text → FileKind) → Policy → MountType → Mount → Type 0
MountAllowed clean dir base lstat p tmpfs m = Unit
MountAllowed clean dir base lstat p volume m =
    (m.source ≡ codes "vaultrun-tools") × (m.driver_config ≡ false)
MountAllowed clean dir base lstat p bind m =
    IsPrivate m.propagation × IsSessionDir clean dir base lstat p m.source
MountAllowed clean dir base lstat p (other_type t) m = ⊥

module _ (clean dir base : Text → Text) (lstat : Text → FileKind) (p : Policy) where
  lstat_directory :
      (k : FileKind)
      → elim k [
        | lstat_error ↦ some lstat_failed
        | other_file ↦ some not_a_directory
        | directory ↦ none
      ]
        ≡ none
      → k ≡ directory
  lstat_directory directory h = refl
  lstat_directory other_file h = cc
  lstat_directory lstat_error h = cc

  pub workspace_path-IsSessionDir :
      (source : Text)
      → workspace_path clean dir base lstat p source ≡ none
      → IsSessionDir clean dir base lstat p source
  unfolding workspace_path
  workspace_path-IsSessionDir source h =
      let (a, r) = then_check-none _ _ h in
      let (b, c) = then_check-none _ _ r in
      let (a0, a1) = or-false _ _ (deny_if-none _ _ a) in
      (
        (text_eq_iff (clean source) source).0 (not-false _ a0),
        (text_eq_iff (dir source) (clean p.workspace_dir)).0 (not-false _ a1),
        is_workspace_name-IsWorkspaceName (base source) (not-false _ (deny_if-none _ _ b)),
        lstat_directory (lstat source) c,
      )

  propagation-IsPrivate :
      (o : Option Text) → check_propagation clean dir base lstat o ≡ none → IsPrivate o
  propagation-IsPrivate none h = tt
  propagation-IsPrivate (some s) h =
      elim (or-true (is_empty s) (text_in s (codes "private" ∷ codes "rprivate" ∷ []))
        (not-false _ (deny_if-none _ _ h))) [
          | inl none_ ↦ inl (is_empty-nil s none_)
          | inr one_ ↦
              elim (or-true (text_eq s (codes "private")) (text_eq s (codes "rprivate") || false)
                one_) [
                  | inl e ↦ inr (inl ((text_eq_iff s (codes "private")).0 e))
                  | inr e ↦ inr (inr ((text_eq_iff s (codes "rprivate")).0 (ground (arith, e))))
                ]
        ]

  check_mount_type-MountAllowed :
      (t : MountType) (m : Mount)
      → check_mount_type clean dir base lstat p t m ≡ none
      → MountAllowed clean dir base lstat p t m
  unfolding check_mount_type
  check_mount_type-MountAllowed tmpfs m h = tt
  check_mount_type-MountAllowed volume m h =
      let (a, b) = or-false _ _ (deny_if-none _ _ h) in
      ((text_eq_iff m.source (codes "vaultrun-tools")).0 (not-false _ a), b)
  check_mount_type-MountAllowed bind m h =
      let (a, b) = then_check-none _ _ h in
      (propagation-IsPrivate m.propagation a, workspace_path-IsSessionDir m.source b)
  check_mount_type-MountAllowed (other_type t) m h = cc

  mounts_allowed :
      (ms : List Mount)
      → check_each (check_mount clean dir base lstat p) ms ≡ none
      → All (λ (m : Mount). MountAllowed clean dir base lstat p m.type m) ms
  unfolding check_each check_mount
  mounts_allowed [] h = tt
  mounts_allowed (m ∷ ms) h =
      let (a, b) = then_check-none _ _ h in
      (check_mount_type-MountAllowed m.type m a, mounts_allowed ms b)

devices_allowed :
    (ds : List Text)
    → check_each (λ d. deny_if (not (text_eq d (codes "nvidia"))) other_device) ds ≡ none
    → All (λ d. d ≡ codes "nvidia") ds
unfolding check_each
devices_allowed [] h = tt
devices_allowed (d ∷ ds) h =
    let (a, b) = then_check-none _ _ h in
    ((text_eq_iff d (codes "nvidia")).0 (not-false _ (deny_if-none _ _ a)), devices_allowed ds b)

-- What the guard promises of a container: it carries VaultRun's label, is confined, cannot gain
-- privileges, is in no network but its session's or Docker's defaults, and mounts nothing but
-- session directories, the tools volume and memory.
pub record IsSandboxed (clean dir base : Text → Text) (lstat : Text → FileKind) (p : Policy)
    (req : CreateRequest) : Type 0 where
  pub config : Config
  pub host : HostConfig
  pub configured : (req.config ≡ some config) × (req.host_config ≡ some host)
  pub labelled : is_true config.managed ≡ true
  pub confined : IsConfined p host
  pub gpus : All (λ d. d ≡ codes "nvidia") host.device_requests
  pub options : All (OptAllowed p) host.security_opt
  pub unprivileged_for_good : any is_nnp host.security_opt ≡ true
  pub network : IsNetworkName host.network_mode
  pub networks : All IsNetworkName req.endpoints
  pub mounts : All (λ (m : Mount). MountAllowed clean dir base lstat p m.type m) host.mounts

networks_allowed : (ns : List Text) → check_each check_network_name ns ≡ none → All IsNetworkName ns
unfolding check_each check_network_name
networks_allowed [] h = tt
networks_allowed (n ∷ ns) h =
    let (a, b) = then_check-none _ _ h in
    (is_network_name-IsNetworkName n (not-false _ (deny_if-none _ _ a)), networks_allowed ns b)

module _ (clean dir base : Text → Text) (lstat : Text → FileKind) (p : Policy) where
  configs-IsSandboxed :
      (cfg : Option Config) (hc : Option HostConfig) (endpoints : List Text)
      → check_configs clean dir base lstat p cfg hc endpoints ≡ none
      → IsSandboxed clean dir base lstat p
          (record { config = cfg; host_config = hc; endpoints = endpoints })
  unfolding check_configs check_attached check_security_opt check_network_name
  configs-IsSandboxed (some c) (some h) endpoints e =
      let (a, r) = then_check-none _ _ e in
      let (b, r1) = then_check-none _ _ r in
      let (gpu, r2) = then_check-none _ _ r1 in
      let (opts, r3) = then_check-none _ _ r2 in
      let (net, r4) = then_check-none _ _ r3 in
      let (nets, ms) = then_check-none _ _ r4 in
      record {
        config = c;
        host = h;
        configured = (refl, refl);
        labelled = not-false _ (deny_if-none _ _ a);
        confined = check_host_config-IsConfined clean dir base lstat p h b;
        gpus = devices_allowed h.device_requests gpu;
        options = opts_allowed p h.security_opt (then_check-none _ _ opts).0;
        unprivileged_for_good = not-false _ (deny_if-none _ _ (then_check-none _ _ opts).1);
        network = is_network_name-IsNetworkName h.network_mode (not-false _ (deny_if-none _ _ net));
        networks = networks_allowed endpoints nets;
        mounts = mounts_allowed clean dir base lstat p h.mounts ms;
      }
  configs-IsSandboxed (some c) none endpoints e = cc
  configs-IsSandboxed none hc endpoints e = cc

  -- A container that CheckCreate does not refuse is sandboxed: it is labelled as ours, is confined
  -- (without privileges, added capabilities, binds, volumes or links of other containers, devices or
  -- rules for them, published ports, sysctls, or the host's process, IPC, UTS, user and cgroup
  -- namespaces and cgroups), asks for no device driver but nvidia, sets no security option but
  -- no-new-privileges, which it sets, and the configured seccomp profile, joins only networks called
  -- none, bridge, default or vaultrun-net- and a UUID, and mounts nothing but directories in the
  -- workspace base that are named by a UUID, with warm- before it or not, without shared propagation,
  -- the tools volume and memory.
  pub check_create-IsSandboxed :
      (req : CreateRequest)
      → check_create clean dir base lstat p req ≡ none
      → IsSandboxed clean dir base lstat p req
  unfolding check_create
  check_create-IsSandboxed req h = configs-IsSandboxed req.config req.host_config req.endpoints h
