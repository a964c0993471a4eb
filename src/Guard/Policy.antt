-- ===== src/Guard/Policy.antt =====
-- What the guard lets the API ask for: internal/dockerguard/policy.go. `clean`, `dir` and `base` are
-- path/filepath's functions, and `lstat` the file system.
pub mod Passed
pub mod Confined
pub mod Options
pub mod Sandboxed
use vaultrun.Base.{
  any, null, Text, codes, is_empty, starts_with, text_eq, ℕ, zero, suc, Bool, true, false, ◌&&◌,
  ◌||◌, not, Option, none, some, List, [], ◌∷◌, if◌then◌else◌,
}
use vaultrun.Guard.Names.{is_workspace_name, is_session_net}
use vaultrun.Guard.Types.{
  Policy, MountType, bind, volume, tmpfs, other_type, Mount, HostConfig, Config, CreateRequest,
  Denial, no_config, not_labelled, privileged_container, added_capability, has_binds,
  has_volumes_from, has_devices, publishes_ports, sets_sysctls, chooses_cgroup, changes_paths,
  shares_namespace, shares_cgroup_namespace, wrong_runtime, other_device, wrong_seccomp,
  bad_security_opt, no_new_privileges_missing, bad_network, bad_volume, bad_propagation,
  bad_mount_type, outside_workspace, not_a_session, not_a_directory, lstat_failed, Check, FileKind,
  directory, other_file, lstat_error,
}

-- The first refusal; the second check is made only where the first passes.
infixr 6 ◌then_check◌
unfoldable pub ◌then_check◌ : Check → Check → Check
none then_check d = d
some r then_check d = some r

unfoldable pub deny_if : Bool → Denial → Check
deny_if true r = some r
deny_if false r = none

unfoldable pub check_each {ℓ} : {A : Type ℓ} → (A → Check) → List A → Check
check_each f [] = none
check_each f (x ∷ xs) = f x then_check check_each f xs

abbrev pub text_in : Text → List Text → Bool
text_in s = any (text_eq s)

abbrev pub is_set : Option (List Text) → Bool
is_set none = false
is_set (some xs) = true

abbrev pub is_true : Option Text → Bool
is_true none = false
is_true (some v) = text_eq v (codes "true")

-- the security option no-new-privileges, in its three spellings
unfoldable pub is_nnp : Text → Bool
is_nnp o = text_in o (
    codes "no-new-privileges"
    ∷ codes "no-new-privileges:true"
    ∷ codes "no-new-privileges=true"
    ∷ [])

unfoldable pub is_seccomp : Text → Bool
is_seccomp o = starts_with (codes "seccomp=") o || starts_with (codes "seccomp:") o

abbrev pub drop_bytes : ℕ → Text → Text
drop_bytes zero s = s
drop_bytes (suc n) [] = []
drop_bytes (suc n) (c ∷ s) = drop_bytes n s

unfoldable pub check_one_opt : Policy → Text → Check
check_one_opt p o =
    if is_nnp o
    then none
    else if is_seccomp o
    then deny_if (is_empty p.seccomp || not (text_eq (drop_bytes 8 o) p.seccomp)) wrong_seccomp
    else some bad_security_opt

-- checkSecurityOpt: each option in turn, and no-new-privileges among them
unfoldable pub check_security_opt : Policy → List Text → Check
check_security_opt p opts =
    check_each (check_one_opt p) opts
    then_check deny_if (not (any is_nnp opts)) no_new_privileges_missing

unfoldable pub is_network_name : Text → Bool
is_network_name name =
    is_empty name
    || text_in name (codes "none" ∷ codes "bridge" ∷ codes "default" ∷ [])
    || is_session_net name

unfoldable pub check_network_name : Text → Check
check_network_name name = deny_if (not (is_network_name name)) bad_network

-- WorkspacePath, with the name as its result left out
module _ (clean dir base : Text → Text) (lstat : Text → FileKind) where
  unfoldable pub workspace_path : Policy → Text → Check
  workspace_path p source =
      deny_if
        (not (text_eq (clean source) source) || not (text_eq (dir source) (clean p.workspace_dir)))
        outside_workspace
      then_check deny_if (not (is_workspace_name (base source))) not_a_session
      then_check elim (lstat source) [
        | lstat_error ↦ some lstat_failed
        | other_file ↦ some not_a_directory
        | directory ↦ none
      ]

  abbrev pub check_propagation : Option Text → Check
  check_propagation none = none
  check_propagation (some s) =
      deny_if (not (is_empty s || text_in s (codes "private" ∷ codes "rprivate" ∷ [])))
        bad_propagation

  pub check_mount_type : Policy → MountType → Mount → Check
  check_mount_type p tmpfs m = none
  check_mount_type p volume m =
      deny_if (not (text_eq m.source (codes "vaultrun-tools")) || m.driver_config) bad_volume
  check_mount_type p bind m = check_propagation m.propagation then_check workspace_path p m.source
  check_mount_type p (other_type t) m = some bad_mount_type

  unfoldable pub check_mount : Policy → Mount → Check
  unfolding check_mount_type
  check_mount p m = check_mount_type p m.type m

  -- the `switch` of CheckCreate, case by case
  unfoldable pub check_host_config : Policy → HostConfig → Check
  check_host_config p hc =
      deny_if hc.privileged privileged_container
      then_check deny_if (not (null hc.cap_add)) added_capability
      then_check deny_if (not (null hc.binds)) has_binds
      then_check deny_if (not (null hc.volumes_from) || not (null hc.links)) has_volumes_from
      then_check deny_if (not (null hc.devices) || not (null hc.device_cgroup_rules)) has_devices
      then_check deny_if (not (null hc.port_bindings) || hc.publish_all_ports) publishes_ports
      then_check deny_if (not (null hc.sysctls)) sets_sysctls
      then_check deny_if (not (is_empty hc.cgroup_parent) || not (is_empty hc.cgroup))
          chooses_cgroup
      then_check deny_if (is_set hc.masked_paths || is_set hc.readonly_paths) changes_paths
      then_check deny_if
          (not (is_empty hc.pid_mode)
            || not (is_empty hc.ipc_mode)
            || not (is_empty hc.uts_mode)
            || not (is_empty hc.userns_mode))
          shares_namespace
      then_check deny_if
          (not (is_empty hc.cgroupns_mode) && not (text_eq hc.cgroupns_mode (codes "private")))
          shares_cgroup_namespace
      then_check deny_if
          (not (text_eq hc.runtime p.runtime)
            && not (is_empty p.runtime && text_eq hc.runtime (codes "runc")))
          wrong_runtime

  -- the checks of CheckCreate behind the `switch`
  unfoldable pub check_attached : Policy → HostConfig → List Text → Check
  check_attached p hc endpoints =
      check_each (λ d. deny_if (not (text_eq d (codes "nvidia"))) other_device) hc.device_requests
      then_check check_security_opt p hc.security_opt
      then_check check_network_name hc.network_mode
      then_check check_each check_network_name endpoints
      then_check check_each (check_mount p) hc.mounts

  pub check_configs : Policy → Option Config → Option HostConfig → List Text → Check
  check_configs p (some cfg) (some hc) endpoints =
      deny_if (not (is_true cfg.managed)) not_labelled
      then_check check_host_config p hc
      then_check check_attached p hc endpoints
  check_configs p _ _ endpoints = some no_config

  unfoldable pub check_create : Policy → CreateRequest → Check
  unfolding check_configs
  check_create p req = check_configs p req.config req.host_config req.endpoints
