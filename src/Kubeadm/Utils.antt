-- ===== src/Kubeadm/Utils.antt =====
-- kubeadm/{utils,waiters}.go and the constants of kubeadm.go.
use eks_anywhere_build_tooli.Prelude.{
  ℕ, String, ◌<>◌, Bool, true, false, Option, none, some, List, [], ◌∷◌, if◌then◌else◌, ◌==◌,
  nat_eq, string_eq, trim_prefix, trim_suffix, replace_all, trim_quotes,
}
use eks_anywhere_build_tooli.Prelude.System.{
  Program, ◌>>=◌, ◌>>◌, lift, try, wrapped, attempt, run, ignore, stat_succeeds, exec, hostname,
  read_file, write_file, sleep, timer,
}
use eks_anywhere_build_tooli.Prelude.Outcome.{Outcome, ok, err, fatal, crash, unfinished}
use eks_anywhere_build_tooli.Bottlerocket.UserData.{write}
use eks_anywhere_build_tooli.Bottlerocket.Host.{HttpGetAction, Probe, Container, Machine}
use eks_anywhere_build_tooli.Bottlerocket.Waiters.{
  kubelet_service, wait_for_systemd_service, probe_url,
}

abbrev pub kubeadm_file : String
kubeadm_file = "/tmp/kubeadm.yaml"

abbrev pub kubectl : String
kubectl = "/opt/bin/kubectl"

abbrev pub kubeadm_binary : String
kubeadm_binary = "/opt/bin/kubeadm"

abbrev pub kubeconfig_path : String
kubeconfig_path = "/etc/kubernetes/admin.conf"

abbrev pub kubeadm_join_file : String
kubeadm_join_file = "/tmp/kubeadm-join-config.yaml"

abbrev pub kubelet_config_file : String
kubelet_config_file = "/var/lib/kubelet/config.yaml"

abbrev pub static_pod_manifests_path : String
static_pod_manifests_path = "/etc/kubernetes/manifests"

abbrev pub api_server_manifest_path : String
api_server_manifest_path = "/.bottlerocket/rootfs/etc/kubernetes/manifests/kube-apiserver"

abbrev pub ebs_init_marker : String
ebs_init_marker = "/tmp/run-ebs-init"

abbrev pub kubernetes_ca_cert_file : String
kubernetes_ca_cert_file = "/etc/kubernetes/pki/ca.crt"

abbrev pub kube_vip_manifest : String
kube_vip_manifest = static_pod_manifests_path <> "/kube-vip.yaml"

unfoldable pub get_bootstrap_token : Program String
get_bootstrap_token = do
  token ←
      wrapped "Error getting token"
        (attempt (exec (kubeadm_binary ∷ "token" ∷ "list" ∷ "-o" ∷ "jsonpath=\"{.token}\"" ∷ [])))
  lift (ok (replace_all token "\"" ""))

unfoldable pub get_dns : String → Program String
get_dns path = do
  dns ← wrapped "Error getting api server" (
      attempt (
        exec (
          kubectl ∷ "--kubeconfig" ∷ path ∷ "get" ∷ "svc" ∷ "kube-dns" ∷ "-n" ∷ "kube-system" ∷ "-o"
          ∷ "jsonpath='{..clusterIP}'" ∷ [])))
  lift (ok (replace_all dns "'" ""))

-- The file is read, and then read again by awk.
unfoldable pub get_dns_from_join_config : String → Program String
get_dns_from_join_config path = do
  contents ← attempt (read_file path)
  dns ←
      wrapped "Error getting api server" (
        attempt
          (exec ("bash" ∷ "-c" ∷ ("awk '/clusterDNS:/ { getline; print $2 }' " <> path) ∷ [])))
  lift (ok (trim_suffix dns "\n"))

-- The start of EBS in the background: is there something to wait for?
unfoldable pub start_ebs_init : Program Bool
start_ebs_init = stat_succeeds ebs_init_marker

-- The wait for the end of the background work, or for its timeout of two minutes, which is no error.
unfoldable pub check_ebs_init : Bool → Program (Unit {0})
check_ebs_init started = if started then ignore (timer 120) else lift (ok tt)

pub record KubeletTlsConfig : Type 0 where
  pub kubelet_serving_cert : String
  pub kubelet_serving_private_key : String

abbrev pub kubelet_serving_cert_file : String
kubelet_serving_cert_file = "/.bottlerocket/rootfs/var/lib/kubeadm/pki/kubelet-serving.crt"

abbrev pub kubelet_serving_private_key_file : String
kubelet_serving_private_key_file = "/.bottlerocket/rootfs/var/lib/kubeadm/pki/kubelet-serving.key"

abbrev pub tls_args : Option KubeletTlsConfig → List String
tls_args none = []
tls_args (some config) =
    (("settings.kubernetes.server-certificate=" <> config.kubelet_serving_cert)
      ∷ ("settings.kubernetes.server-key=" <> config.kubelet_serving_private_key)
      ∷ [])

abbrev as_tls_config : String → Outcome String → Option KubeletTlsConfig
as_tls_config cert (ok key) =
    some (record { kubelet_serving_cert = cert; kubelet_serving_private_key = key })
as_tls_config cert (err e) = none
as_tls_config cert (fatal e) = none
as_tls_config cert crash = none
as_tls_config cert unfinished = none

abbrev first_probe : List Container → Outcome Probe
first_probe [] = err "Cannot find readiness probe exists on pod definition"
first_probe (container ∷ containers) = probe_or container.readiness_probe (first_probe containers)
  where
    probe_or : Option Probe → Outcome Probe → Outcome Probe
    probe_or none rest = rest
    probe_or (some probe) rest = ok probe

-- A probe without a handler is a nil pointer.
abbrev readiness_url : Option HttpGetAction → Outcome String
readiness_url none = crash
readiness_url (some action) = ok (probe_url action.scheme action)

abbrev url_or_default : Outcome String → Outcome String
url_or_default (ok url) = ok url
url_or_default (err e) = ok "https://localhost:6443/healthz"
url_or_default (fatal e) = fatal e
url_or_default crash = crash
url_or_default unfinished = unfinished

abbrev is_some : Option String → Bool
is_some none = false
is_some (some x) = true

module _ (m : Machine) where
  unfoldable pub get_encoded_ca : Program String
  get_encoded_ca = do
    contents ← wrapped "Error reading the ca data" (attempt (read_file kubernetes_ca_cert_file))
    lift (ok (m.codec.base64_encode contents))

  unfoldable pub set_host_name : String → Program (Unit {0})
  set_host_name file = do
    name ← wrapped "Error getting hostname" (attempt hostname)
    contents ← wrapped "Error reading kubeadm file" (attempt (read_file file))
    wrapped "Error writing file"
        (write m.codec file (replace_all contents "{{ ds.meta_data.hostname }}" name) 0o640)

  unfoldable pub get_bootstrap_from_join_config : String → Program (String × String)
  get_bootstrap_from_join_config path = do
    contents ← wrapped "Error reading kubeadm join config file" (attempt (read_file path))
    config ←
        wrapped "failed unmarshalling yaml kubeadm join config to interfaces"
          (lift (m.decode_join_config (trim_quotes (trim_prefix contents "---"))))
    lift (ok ("https://" <> config.api_server_endpoint, config.token))

  unfoldable pub get_local_api_server_readiness_endpoint : Program String
  get_local_api_server_readiness_endpoint = do
    contents ←
        wrapped "Error reading ApiServer manifest file"
          (attempt (read_file api_server_manifest_path))
    pod ← wrapped "Error parsing pod def from manifest" (lift (m.decode_pod contents))
    probe ← lift (first_probe pod.containers)
    lift (readiness_url probe.http_get_action)

  -- With the address that is taken where there is none.
  unfoldable pub readiness_endpoint : Program String
  readiness_endpoint = do
    url ← try get_local_api_server_readiness_endpoint
    lift (url_or_default url)

  unfoldable pub is_cluster_with_external_etcd : String → Program Bool
  is_cluster_with_external_etcd path = do
    text ← wrapped "failed getting kubeadm-config configMap" (
        attempt (
          exec (
            kubectl ∷ "--kubeconfig" ∷ path ∷ "-n" ∷ "kube-system" ∷ "get" ∷ "cm" ∷ "kubeadm-config"
            ∷ "-o" ∷ "jsonpath='{..data.ClusterConfiguration}'" ∷ [])))
    config ←
        wrapped "error unmarshalling ClusterConfiguration"
          (lift (m.decode_cluster_config (trim_quotes text)))
    lift (ok (is_some config.external))

  abbrev encoded : String → Outcome String
  encoded contents =
      if contents == "" then err "empty contents" else ok (m.codec.base64_encode contents)

  unfoldable pub read_and_encode_file : String → Program String
  read_and_encode_file file = do contents ← attempt (read_file file); lift (encoded contents)

  abbrev read_key : Outcome String → Program (Option KubeletTlsConfig)
  read_key (ok cert) = do
    key ← try (read_and_encode_file kubelet_serving_private_key_file)
    lift (ok (as_tls_config cert key))
  read_key (err e) = lift (ok none)
  read_key (fatal e) = lift (fatal e)
  read_key crash = lift crash
  read_key unfinished = lift unfinished

  -- No error: without both files there is no configuration.
  unfoldable pub read_kubelet_tls_config : Program (Option KubeletTlsConfig)
  read_kubelet_tls_config = do
    cert ← try (read_and_encode_file kubelet_serving_cert_file)
    read_key cert

  unfoldable pub wait_for_kubelet : ℕ → Program (Unit {0})
  wait_for_kubelet fuel = wait_for_systemd_service m fuel kubelet_service 90

  unfoldable pub wait_for_active_kubelet : ℕ → Program (Unit {0})
  wait_for_active_kubelet fuel = do
    wrapped "Error waiting for kubelet to come up" (wait_for_kubelet fuel)
    ignore (sleep 20)
    wrapped "Error waiting for kubelet to come up" (wait_for_kubelet fuel)

abbrev pub join_files : List String
join_files =
    ("/var/lib/kubelet/config.yaml" ∷ "/var/lib/kubelet/kubeadm-flags.env"
      ∷ "/var/lib/kubeadm/pki/ca.crt" ∷ [])

-- The two replacements in the manifest of kube-vip.
unfoldable pub patched : String → String
patched contents =
    replace_all
      (replace_all contents "path: /etc/kubernetes/admin.conf"
        "path: /etc/kubernetes/super-admin.conf")
      "path: /var/lib/kubeadm/admin.conf" "path: /var/lib/kubeadm/super-admin.conf"

unfoldable pub patch_kube_vip_manifest : Program (Unit {0})
patch_kube_vip_manifest = do
  contents ←
      wrapped ("Error reading file " <> kube_vip_manifest) (attempt (read_file kube_vip_manifest))
  wrapped ("Error writing file " <> kube_vip_manifest)
      (run (write_file kube_vip_manifest (patched contents) 0o644))
