-- ===== src/Bottlerocket/Pods.antt =====
-- pkg/utils/pods.go and pkg/utils/parsers.go: the static pods of a directory, and the API server of a
-- kubeconfig.
pub mod Enabled
use eks_anywhere_build_tooli.Prelude.{
  String, ◌<>◌, Bool, ◌||◌, List, [], ◌∷◌, if◌then◌else◌, ◌==◌, nat_eq, string_eq, trim_suffix,
  trim_prefix, Option, none,
}
use eks_anywhere_build_tooli.Prelude.System.{
  Program, ◌>>=◌, ◌>>◌, lift, wrapped, attempt, run, Call, exec, read_file, read_dir,
}
use eks_anywhere_build_tooli.Prelude.Outcome.{Outcome, ok, returned, errors_wrap}
use eks_anywhere_build_tooli.Bottlerocket.Host.{ext, Pod, Machine}

unfoldable pub is_pod_file : String → Bool
is_pod_file name = ext name == ".yaml" || ext name == ".manifest"

-- `strings.TrimSuffix(f.Name(), filepath.Ext(f.Name()))`
unfoldable pub base_file_name : String → String
base_file_name name = trim_suffix name (ext name)

-- The command that hands the encoded manifest of a static pod to the host.
unfoldable pub static_pod_command : String → String → Call
static_pod_command base manifest = exec (
    "bash"
    ∷ "-c"
    ∷ ("apiclient set \"kubernetes.static-pods." <> base <> ".manifest\"=\"" <> manifest
        <> "\" \"kubernetes.static-pods." <> base <> ".enabled\"=true")
    ∷ [])

-- The test of the clusters, with the error of the call before, which `errors.Wrap` is given
abbrev pub single_server : Option String → List String → Outcome String
single_server e [] =
    returned "" (errors_wrap "More than one cluster found in control-plane init admin.conf" e)
single_server e (server ∷ []) = ok server
single_server e (server ∷ other ∷ servers) =
    returned "" (errors_wrap "More than one cluster found in control-plane init admin.conf" e)

-- `filepath.Join` of a directory, which may start with "./", and a name in it
unfoldable pub join_path : String → String → String
join_path path name = trim_prefix path "./" <> "/" <> name

module _ (m : Machine) where
  -- One round of the loop, for a pod file.
  unfoldable pub enable_static_pod : String → String → Program Pod
  enable_static_pod path name = do
    file_data ← wrapped ("Error reading file " <> name) (attempt (read_file (join_path path name)))
    wrapped "error running apiclient command for static pod"
        (run (static_pod_command (base_file_name name) (m.codec.base64_encode file_data)))
    wrapped "Error getting pod def from manifest" (
        wrapped "Error getting unmarshalling pod spec into structs" (lift (m.decode_pod file_data)))

  unfoldable pub enable_pods : String → List String → Program (List Pod)
  enable_pods path [] = lift (ok [])
  enable_pods path (name ∷ names) =
      if is_pod_file name
      then (enable_static_pod path name >>= λ pod.
          enable_pods path names >>= λ pods. lift (ok (pod ∷ pods)))
      else enable_pods path names

  unfoldable pub enable_static_pods : String → Program (List Pod)
  enable_static_pods path = do
    listing ← wrapped "error reading from manifest path" (attempt (read_dir path))
    enable_pods path (m.decode_directory listing)

  unfoldable pub get_kube_config_raw : String → Program (List String)
  get_kube_config_raw path = do
    kube_data ← wrapped ("Error reading kubeconfig " <> path) (attempt (read_file path))
    wrapped "Error generating kubeconfig from clientset" (lift (m.decode_kubeconfig kube_data))

  unfoldable pub get_api_server_from_kube_config : String → Program String
  get_api_server_from_kube_config path = do
    clusters ← wrapped "Error getting kubeconfig parsed into raw config" (get_kube_config_raw path)
    lift (single_server none clusters)
