-- ===== src/Guard/Proxy.antt =====
-- The filtering proxy: `ServeHTTP` and `route` of internal/dockerguard/guard.go with its handlers, and
-- CheckNetworkCreate of policy.go. Bodies come decoded, `none` where the JSON does not decode; the
-- workspace endpoints of Dirs come as the answer that they give.
pub mod Routing
pub mod Creates
pub mod Safe
pub mod Made
use vaultrun.Base.{
  all, null, Text, codes, is_empty, text_eq, Bool, false, ◌&&◌, ◌||◌, not, Option, none, some, List,
  [], ◌∷◌, ◌==◌, if◌then◌else◌,
}
use vaultrun.Guard.Names.{is_digit, is_session_net, split}
use vaultrun.Guard.Policy.{◌then_check◌, deny_if, is_true}
use vaultrun.Guard.Types.{
  Mount, CreateRequest, ExecOptions, Denial, not_labelled, bad_network, Check,
}

pub data Method : Type 0 where
  get head post put delete : Method
  other_method : Text → Method

pub record NetworkRequest : Type 0 where
  pub name : Text
  pub driver : Text
  pub managed : Option Text
  pub options : List Text
  -- some setting of IPAM other than the default
  pub ipam_set : Bool
  pub config_from : Bool
  pub config_only : Bool
  pub ingress : Bool
  pub scope : Text

pub record VolumeRequest : Type 0 where
  pub name : Text
  pub driver : Text
  pub driver_opts : List Text
  pub cluster_spec : Bool

pub record Request : Type 0 where
  pub method : Method
  pub path : Text
  pub from_image : Text
  pub from_src : Text
  pub create_body : Option CreateRequest
  pub exec_body : Option ExecOptions
  pub network_body : Option NetworkRequest
  pub volume_body : Option VolumeRequest

-- What ContainerInspect tells the guard.
pub record ContainerInfo : Type 0 where
  pub name : Text
  pub managed : Option Text
  -- HostConfig: Binds and Mounts
  pub host : Option (List Text × List Mount)

-- The Docker daemon behind the guard: its answers, `none` for an error.
pub record Daemon : Type 0 where
  pub inspect : Text → Option ContainerInfo
  pub network_managed : Text → Option (Option Text)
  pub create_exec : Text → ExecOptions → Option Text

-- Dirs, if the guard has it, answers its endpoints by itself.
pub data Action : Type 0 where
  answer : Action
  -- the request goes to the daemon as it is
  forward : Action
  create_container : CreateRequest → Action
  create_network : NetworkRequest → Action
  create_volume : Action
  create_exec : Text → ExecOptions → Bool → Action
  by_dirs : Action

pub data Refusal : Type 0 where
  denied : Denial → Refusal
  bad_path only_pulling not_allowed not_sandbox unknown_exec not_our_network : Refusal
  bad_volume_request bad_body daemon_error has_no_config start_has_binds : Refusal

pub data Outcome : Type 0 where
  does : Action → Outcome
  refuses : Refusal → Outcome

-- CheckNetworkCreate
unfoldable pub check_network_create : NetworkRequest → Check
check_network_create r =
    deny_if (not (is_session_net r.name)) bad_network
    then_check deny_if (not (is_empty r.driver) && not (text_eq r.driver (codes "bridge")))
        bad_network
    then_check deny_if (not (is_true r.managed)) not_labelled
    then_check deny_if
        (not (null r.options)
          || r.ipam_set
          || r.config_from
          || r.config_only
          || r.ingress
          || (not (is_empty r.scope) && not (text_eq r.scope (codes "local"))))
        bad_network

abbrev pub refuse_if_denied : Check → Action → Outcome
refuse_if_denied none a = does a
refuse_if_denied (some r) a = refuses (denied r)

-- the segments of a path that begins with '/'
abbrev pub segments : Text → List Text
segments = split b'/'

abbrev all_digits : Text → Bool
all_digits s = not (is_empty s) && all is_digit s

-- v[0-9]+(\.[0-9]+)?
is_version : Text → Bool
is_version [] = false
is_version (v ∷ s) = (v == b'v') && numbers (split b'.' s)
  where
    numbers : List Text → Bool
    numbers (a ∷ []) = all_digits a
    numbers (a ∷ b ∷ []) = all_digits a && all_digits b
    numbers _ = false

-- A path with the API version in front loses it; `/v1.45` alone is `/`.
unfoldable pub strip_version : List Text → List Text
unfolding is_version
strip_version ([] ∷ v ∷ []) = if is_version v then [] ∷ [] ∷ [] else [] ∷ v ∷ []
strip_version ([] ∷ v ∷ rest) = if is_version v then [] ∷ rest else [] ∷ v ∷ rest
strip_version s = s
