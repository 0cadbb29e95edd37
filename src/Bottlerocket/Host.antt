-- ===== src/Bottlerocket/Host.antt =====
-- What pkg/ of the bootstrap container calls of its host: the commands of pkg/executables, the links
-- of pkg/files/system.go, and the decoders of the packages for Kubernetes, YAML and HTTP.
use eks_anywhere_build_tooli.Prelude.{ℕ, String, ◌<>◌, Bool, Option, List, [], ◌∷◌, split}
use eks_anywhere_build_tooli.Prelude.System.{Program, wrapped, attempt, run, exec}
use eks_anywhere_build_tooli.Prelude.Outcome.{Outcome}
use eks_anywhere_build_tooli.Bottlerocket.UserData.{Codec}

-- `corev1.HTTPGetAction`, a probe, whose handler may be missing, a container and a pod
pub record HttpGetAction : Type 0 where
  pub scheme : String
  pub host : String
  pub port : ℕ
  pub path : String

pub record Probe : Type 0 where
  pub http_get_action : Option HttpGetAction

pub record Container : Type 0 where
  pub liveness_probe : Option Probe
  pub readiness_probe : Option Probe

pub record Pod : Type 0 where
  pub name : String
  pub containers : List Container

pub record UnitStatus : Type 0 where
  pub active_state : String
  pub sub_state : String

-- A body is none where it cannot be read.
pub record HttpResponse : Type 0 where
  pub status_code : ℕ
  pub body : Option String

-- The fields of kubeadm's join configuration and of its cluster configuration.
pub record JoinConfig : Type 0 where
  pub api_server_endpoint : String
  pub token : String

pub record ClusterConfig : Type 0 where
  pub external : Option String

pub record Machine : Type 0 where
  pub codec : Codec
  pub decode_pod : String → Outcome Pod
  -- the server of each cluster of a kubeconfig
  pub decode_kubeconfig : String → Outcome (List String)
  pub decode_directory : String → List String
  pub decode_response : String → HttpResponse
  pub decode_units : String → List (String × UnitStatus)
  pub decode_join_config : String → Outcome JoinConfig
  pub decode_cluster_config : String → Outcome ClusterConfig
  -- `versionutil.ParseGeneric`, here the text of the version, and whether a version is before another
  pub parse_version : String → Outcome String
  pub version_before : String → String → Outcome Bool

abbrev pub apiclient_binary : String
apiclient_binary = "apiclient"

abbrev pub bootstrap_container_name : String
bootstrap_container_name = "kubeadm-bootstrap"

-- `exec.Command(binary, args...)` with `CombinedOutput`; an error's text leaves out the output.
unfoldable pub execute : String → List String → Program String
execute binary args = wrapped ("Error running command: " <> binary) (attempt (exec (binary ∷ args)))

unfoldable pub disable_bootstrap_container : Program (Unit {0})
disable_bootstrap_container = wrapped "Error disabling bootstrap container" (
    run (
      exec (
        apiclient_binary
        ∷ "set"
        ∷ ("host-containers." <> bootstrap_container_name <> ".enabled=false")
        ∷ [])))

-- `files.CreateSymLink`
unfoldable pub create_sym_link : String → String → Program (Unit {0})
create_sym_link from to =
    wrapped "error creating symlink"
      (run (exec ("bash" ∷ "-c" ∷ ("ln -sfn " <> from <> " " <> to) ∷ [])))

-- `filepath.Ext` of a name without slashes: what stands from the last dot on.
abbrev last_part : String → List String → String
last_part previous [] = ""
last_part previous (part ∷ []) = "." <> part
last_part previous (part ∷ next ∷ parts) = last_part part (next ∷ parts)

abbrev extension_of : List String → String
extension_of [] = ""
extension_of (part ∷ parts) = last_part part parts

unfoldable pub ext : String → String
ext name = extension_of (split name ".")
