-- ===== src/Guard/Policy/Confined.antt =====
-- What HostConfig a container may have: CheckCreate of internal/dockerguard/policy.go.
use vaultrun.Base.{
  Text, codes, text_eq_iff, is_empty, text_eq, ◌≡◌, refl, ◌⊎◌, inl, inr, false, ◌&&◌, not, Option,
  none, some, List, [], arith, Bool-cases,
}
use vaultrun.Guard.Policy.{is_set, check_host_config}
use vaultrun.Guard.Policy.Passed.{then_check-none, deny_if-none, null-nil, empty-nil, or-false}
use vaultrun.Guard.Types.{Policy, HostConfig, FileKind}

-- No privileges, no capabilities, nothing of the host: neither its devices, namespaces, cgroups nor
-- ports; the configured runtime; masked and read-only paths as Docker sets them.
pub record IsConfined (p : Policy) (hc : HostConfig) : Type 0 where
  pub unprivileged : hc.privileged ≡ false
  pub no_caps : hc.cap_add ≡ []
  pub no_binds : hc.binds ≡ []
  pub no_volumes_from : (hc.volumes_from ≡ []) × (hc.links ≡ [])
  pub no_devices : (hc.devices ≡ []) × (hc.device_cgroup_rules ≡ [])
  pub no_ports : hc.port_bindings ≡ []
  pub not_published : hc.publish_all_ports ≡ false
  pub no_sysctls : hc.sysctls ≡ []
  pub own_pids : hc.pid_mode ≡ []
  pub own_ipc : hc.ipc_mode ≡ []
  pub own_uts : hc.uts_mode ≡ []
  pub own_users : hc.userns_mode ≡ []
  pub own_cgroup : (hc.cgroup_parent ≡ []) × (hc.cgroup ≡ [])
  pub own_cgroup_namespace : (hc.cgroupns_mode ≡ []) ⊎ (hc.cgroupns_mode ≡ codes "private")
  pub masked : (hc.masked_paths ≡ none) × (hc.readonly_paths ≡ none)
  pub runtime : (hc.runtime ≡ p.runtime) ⊎ ((p.runtime ≡ []) × (hc.runtime ≡ codes "runc"))

set-none : (o : Option (List Text)) → is_set o ≡ false → o ≡ none
set-none none h = refl
set-none (some xs) h = cc

runtime_cases :
    (p : Policy) (r : Text)
    → (not (text_eq r p.runtime) && not (is_empty p.runtime && text_eq r (codes "runc"))) ≡ false
    → (r ≡ p.runtime) ⊎ ((p.runtime ≡ []) × (r ≡ codes "runc"))
runtime_cases p r h = elim (Bool-cases (text_eq r p.runtime)) [
  | inl same ↦ inl ((text_eq_iff r p.runtime).0 same)
  | inr other ↦ inr (
    empty-nil p.runtime (ground (arith, other)),
    (text_eq_iff r (codes "runc")).0 (ground (arith, other)),
  )
]

cgroupns_cases :
    (s : Text)
    → (not (is_empty s) && not (text_eq s (codes "private"))) ≡ false
    → (s ≡ []) ⊎ (s ≡ codes "private")
cgroupns_cases s h = elim (Bool-cases (text_eq s (codes "private"))) [
  | inl same ↦ inr ((text_eq_iff s (codes "private")).0 same)
  | inr other ↦ inl (empty-nil s (ground (arith, other)))
]

pub check_host_config-IsConfined :
    (clean dir base : Text → Text) (lstat : Text → FileKind) (p : Policy) (hc : HostConfig)
    → check_host_config clean dir base lstat p hc ≡ none
    → IsConfined p hc
unfolding check_host_config
check_host_config-IsConfined clean dir base lstat p hc h =
    let (c0, r0) = then_check-none _ _ h in
    let (c1, r1) = then_check-none _ _ r0 in
    let (c2, r2) = then_check-none _ _ r1 in
    let (c3, r3) = then_check-none _ _ r2 in
    let (c4, r4) = then_check-none _ _ r3 in
    let (c5, r5) = then_check-none _ _ r4 in
    let (c6, r6) = then_check-none _ _ r5 in
    let (c7, r7) = then_check-none _ _ r6 in
    let (c8, r8) = then_check-none _ _ r7 in
    let (c9, r9) = then_check-none _ _ r8 in
    let (c10, c11) = then_check-none _ _ r9 in
    let ns = or-false _ _ (deny_if-none _ _ c9) in
    let ns2 = or-false _ _ ns.0 in
    let ns3 = or-false _ _ ns2.0 in
    let paths = or-false _ _ (deny_if-none _ _ c8) in
    let froms = or-false _ _ (deny_if-none _ _ c3) in
    let devices = or-false _ _ (deny_if-none _ _ c4) in
    let cgroups = or-false _ _ (deny_if-none _ _ c7) in
    let ports = or-false _ _ (deny_if-none _ _ c5) in
    record {
      unprivileged = deny_if-none _ _ c0;
      no_caps = null-nil _ (deny_if-none _ _ c1);
      no_binds = null-nil _ (deny_if-none _ _ c2);
      no_volumes_from = (null-nil _ froms.0, null-nil _ froms.1);
      no_devices = (null-nil _ devices.0, null-nil _ devices.1);
      no_ports = null-nil _ ports.0;
      not_published = ports.1;
      no_sysctls = null-nil _ (deny_if-none _ _ c6);
      own_pids = empty-nil _ ns3.0;
      own_ipc = empty-nil _ ns3.1;
      own_uts = empty-nil _ ns2.1;
      own_users = empty-nil _ ns.1;
      own_cgroup = (empty-nil _ cgroups.0, empty-nil _ cgroups.1);
      own_cgroup_namespace = cgroupns_cases hc.cgroupns_mode (deny_if-none _ _ c10);
      masked = (set-none _ paths.0, set-none _ paths.1);
      runtime = runtime_cases p hc.runtime (deny_if-none _ _ c11);
    }
