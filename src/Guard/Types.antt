-- ===== src/Guard/Types.antt =====
-- What the guard reads of the requests of the Docker API, and its reasons to refuse:
-- internal/dockerguard/policy.go. A map is read as the list of its keys, where only they count; the
-- types of github.com/docker/docker are cut to the fields that the guard names.
use vaultrun.Base.{Text, Bool, Option, List}

pub record Policy : Type 0 where
  pub workspace_dir : Text
  pub runtime : Text
  pub seccomp : Text
  pub netpolicy : Text

pub data MountType : Type 0 where
  bind volume tmpfs : MountType
  other_type : Text → MountType

pub record Mount : Type 0 where
  pub type : MountType
  pub source : Text
  -- VolumeOptions is set and has a DriverConfig
  pub driver_config : Bool
  -- BindOptions.Propagation, if BindOptions is set
  pub propagation : Option Text

pub record HostConfig : Type 0 where
  pub privileged : Bool
  pub cap_add : List Text
  pub binds : List Text
  pub volumes_from : List Text
  pub links : List Text
  pub devices : List Text
  pub device_cgroup_rules : List Text
  pub port_bindings : List Text
  pub publish_all_ports : Bool
  pub sysctls : List Text
  pub cgroup_parent : Text
  pub cgroup : Text
  pub masked_paths : Option (List Text)
  pub readonly_paths : Option (List Text)
  pub pid_mode : Text
  pub ipc_mode : Text
  pub uts_mode : Text
  pub userns_mode : Text
  pub cgroupns_mode : Text
  pub runtime : Text
  -- the drivers of DeviceRequests
  pub device_requests : List Text
  pub security_opt : List Text
  pub network_mode : Text
  pub mounts : List Mount

-- Config: the label vaultrun.managed, if it is set.
pub record Config : Type 0 where
  pub managed : Option Text

-- A create request; `endpoints` are the keys of NetworkingConfig.EndpointsConfig, empty without one.
pub record CreateRequest : Type 0 where
  pub config : Option Config
  pub host_config : Option HostConfig
  pub endpoints : List Text

pub record ExecOptions : Type 0 where
  pub privileged : Bool
  pub user : Text
  pub env : List Text
  pub working_dir : Text
  pub attach_stdin : Bool
  pub tty : Bool
  pub cmd : List Text

pub data Denial : Type 0 where
  no_config not_labelled privileged_container added_capability has_binds : Denial
  has_volumes_from has_devices publishes_ports sets_sysctls chooses_cgroup : Denial
  changes_paths shares_namespace shares_cgroup_namespace wrong_runtime : Denial
  other_device wrong_seccomp bad_security_opt no_new_privileges_missing : Denial
  bad_network bad_volume bad_propagation bad_mount_type : Denial
  outside_workspace not_a_session not_a_directory lstat_failed : Denial
  privileged_exec not_plain not_iptables too_few other_table not_our_chain : Denial
  bad_jump bad_op : Denial

-- `nil` is `none`.
abbrev pub Check : Type 0
Check = Option Denial

-- os.Lstat of a path: a directory, something else, or an error.
pub data FileKind : Type 0 where
  directory other_file lstat_error : FileKind
