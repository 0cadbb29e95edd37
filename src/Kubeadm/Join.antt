-- ===== src/Kubeadm/Join.antt =====
-- kubeadm/{controlplane_join,worker_join}.go
use eks_anywhere_build_tooli.Prelude.{ℕ, String, ◌<>◌, Bool, List, [], ◌∷◌, ◌++◌, if◌then◌else◌}
use eks_anywhere_build_tooli.Prelude.System.{Program, ◌>>=◌, ◌>>◌, lift, wrapped, run, exec, start}
use eks_anywhere_build_tooli.Prelude.Outcome.{ok}
use eks_anywhere_build_tooli.Bottlerocket.Host.{apiclient_binary, Machine}
use eks_anywhere_build_tooli.Bottlerocket.Waiters.{
  wait_for_200, kill_cmd_after_files_generation, wait_for_pods,
}
use eks_anywhere_build_tooli.Bottlerocket.Pods.{enable_static_pods}
use eks_anywhere_build_tooli.Kubeadm.Utils.{
  kubeadm_binary, kubeconfig_path, kubeadm_join_file, kubelet_config_file,
  static_pod_manifests_path, get_dns_from_join_config, start_ebs_init, check_ebs_init, tls_args,
  get_encoded_ca, set_host_name, get_bootstrap_from_join_config, readiness_endpoint,
  is_cluster_with_external_etcd, read_kubelet_tls_config, wait_for_active_kubelet, join_files,
}

-- `kubeadm join phase ...`
abbrev pub join_phase : String → List String → List String
join_phase v phase =
    kubeadm_binary ∷ v ∷ "join" ∷ "phase" ∷ (phase ++ ("--config" ∷ kubeadm_join_file ∷ []))

abbrev pub join_args : String → String → String → String → List String
join_args api_server ca dns token =
    (apiclient_binary
      ∷ "set"
      ∷ ("kubernetes.api-server=" <> api_server)
      ∷ ("kubernetes.cluster-certificate=" <> ca)
      ∷ ("kubernetes.cluster-dns-ip=" <> dns)
      ∷ ("kubernetes.bootstrap-token=" <> token)
      ∷ "kubernetes.authentication-mode=tls"
      ∷ "kubernetes.standalone-mode=false"
      ∷ [])

module _ (m : Machine) (v : String) (fuel : ℕ) where
  -- kubeadm is started, and killed when its files are there.
  unfoldable pub start_and_kill : List String → List String → String → Program (Unit {0})
  start_and_kill cmd check_files message = do
    wrapped "Error running command" (run (start cmd))
    wrapped message (kill_cmd_after_files_generation fuel cmd check_files)

  unfoldable pub worker_join : Program (Unit {0})
  worker_join = do
    wrapped "Error replacing hostname on kubeadm" (set_host_name m kubeadm_join_file)
    start_and_kill (join_phase v ("kubelet-start" ∷ [])) join_files
        "Error waiting for worker join files"
    (api_server, token) ←
        wrapped "Error getting api server and token from kubeadm join config"
          (get_bootstrap_from_join_config m kubeadm_join_file)
    ca ← wrapped "Error reading the ca data" (get_encoded_ca m)
    dns ←
        wrapped "Error getting dns from kubelet config"
          (get_dns_from_join_config kubelet_config_file)
    wrapped "Error running command" (run (exec (join_args api_server ca dns token)))
    wait_for_active_kubelet m fuel

  unfoldable pub join_local_etcd : Program (Unit {0})
  join_local_etcd =
      start_and_kill (join_phase v ("control-plane-join" ∷ "etcd" ∷ []))
        ("/etc/kubernetes/manifests/etcd.yaml" ∷ []) "Error waiting for etcd manifest files"

  -- The files of the node, and the settings by which the host's kubelet joins.
  unfoldable pub join_kubelet : Program String
  join_kubelet = do
    wrapped "Error running command"
        (run (exec (join_phase v ("control-plane-prepare" ∷ "all" ∷ []))))
    start_and_kill (join_phase v ("kubelet-start" ∷ [])) join_files
        "Error waiting for worker join files"
    dns ← wrapped "Error getting api server" (get_dns_from_join_config kubelet_config_file)
    (api_server, token) ←
        wrapped "Error getting api server" (get_bootstrap_from_join_config m kubeadm_join_file)
    ca ← wrapped "Error reading the ca data" (get_encoded_ca m)
    tls ← read_kubelet_tls_config m
    wrapped "Error running command" (run (exec (join_args api_server ca dns token ++ tls_args tls)))
    wrapped "Error waiting for kubelet to come up" (wait_for_active_kubelet m fuel)
    lift (ok api_server)

  unfoldable pub join_etcd_if_local : Bool → Program (Unit {0})
  join_etcd_if_local is_external = if is_external then lift (ok tt) else join_local_etcd

  -- The static pods, and then the API server, as the host and from outside.
  unfoldable pub await_control_plane : String → Program (Unit {0})
  await_control_plane api_server = do
    pod_definitions ←
        wrapped "Error enabling static pods" (enable_static_pods m static_pod_manifests_path)
    wrapped "Error waiting for static pods to be up" (wait_for_pods m fuel pod_definitions)
    endpoint ← readiness_endpoint m
    wait_for_200 m fuel endpoint 30
    wait_for_200 m fuel (api_server <> "/healthz") 30

  unfoldable pub control_plane_join : Program (Unit {0})
  control_plane_join = do
    wrapped "Error replacing hostname on kubeadm" (set_host_name m kubeadm_join_file)
    started ← start_ebs_init
    api_server ← join_kubelet
    is_external ← is_cluster_with_external_etcd m kubeconfig_path
    join_etcd_if_local is_external
    await_control_plane api_server
    wrapped "Error running command" (
        run (
          exec (
            kubeadm_binary ∷ v ∷ "join" ∷ "--skip-phases"
            ∷ "preflight,control-plane-prepare,kubelet-start,control-plane-join/etcd" ∷ "--config"
            ∷ kubeadm_join_file ∷ [])))
    check_ebs_init started
