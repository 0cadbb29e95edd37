-- ===== src/Kubeadm/Init.antt =====
-- kubeadm/controlplane_init.go
use eks_anywhere_build_tooli.Prelude.{
  ℕ, String, ◌<>◌, Bool, true, false, Option, List, [], ◌∷◌, ◌++◌, if◌then◌else◌, trim_suffix,
}
use eks_anywhere_build_tooli.Prelude.System.{
  Program, ◌>>=◌, ◌>>◌, lift, wrapped, attempt, run, Call, exec,
}
use eks_anywhere_build_tooli.Prelude.Outcome.{ok}
use eks_anywhere_build_tooli.Bottlerocket.Host.{apiclient_binary, Machine}
use eks_anywhere_build_tooli.Bottlerocket.Waiters.{wait_for_200, wait_for_pods}
use eks_anywhere_build_tooli.Bottlerocket.Pods.{enable_static_pods, get_api_server_from_kube_config}
use eks_anywhere_build_tooli.Kubeadm.Utils.{
  kubeadm_file, kubeadm_binary, kubeconfig_path, static_pod_manifests_path, get_bootstrap_token,
  get_dns, start_ebs_init, check_ebs_init, tls_args, get_encoded_ca, set_host_name,
  readiness_endpoint, read_kubelet_tls_config, wait_for_active_kubelet, patch_kube_vip_manifest,
  KubeletTlsConfig,
}

abbrev pub init_phase : String → List String → Call
init_phase v phase =
    exec (kubeadm_binary ∷ v ∷ "init" ∷ "phase" ∷ (phase ++ ("--config" ∷ kubeadm_file ∷ [])))

-- The commands that write keys, configurations and manifests.
unfoldable pub run_init_phases : String → Program (Unit {0})
run_init_phases v = do
  wrapped "Error running command, out" (run (init_phase v ("certs" ∷ "all" ∷ [])))
  wrapped "Error running command" (run (init_phase v ("kubeconfig" ∷ "all" ∷ [])))
  wrapped "Error running command" (run (init_phase v ("control-plane" ∷ "all" ∷ [])))
  wrapped "Error running command" (run (init_phase v ("etcd" ∷ "local" ∷ [])))

-- The settings by which the host's kubelet joins the cluster.
abbrev pub init_args : String → String → String → Option KubeletTlsConfig → List String
init_args api_server ca token tls =
    apiclient_binary
    ∷ "set"
    ∷ ("kubernetes.api-server=" <> api_server)
    ∷ ("kubernetes.cluster-certificate=" <> ca)
    ∷ ("kubernetes.bootstrap-token=" <> token)
    ∷ "kubernetes.authentication-mode=tls"
    ∷ "kubernetes.standalone-mode=false"
    ∷ tls_args tls

-- The phases that the last command skips; one of them is new in 1.26.
abbrev pub skipped_phases : Bool → String
skipped_phases true = "preflight,kubelet-start,certs,kubeconfig,bootstrap-token,control-plane,etcd"
skipped_phases false =
    "preflight,kubelet-start,certs,kubeconfig,bootstrap-token,control-plane,etcd,show-join-command"

module _ (m : Machine) (v : String) (fuel : ℕ) where
  -- The version, parsed by `ParseGeneric`
  unfoldable pub get_kubeadm_version : Program String
  get_kubeadm_version = do
    out ←
        wrapped "Error running command"
          (attempt (exec (kubeadm_binary ∷ "version" ∷ "-o=short" ∷ [])))
    wrapped (out <> " is not a valid kubeadm version")
        (lift (m.parse_version (trim_suffix out "\n")))

  unfoldable pub is_before : String → String → Program Bool
  is_before version bound =
      wrapped ("Error comparing kubeadm version with v" <> bound)
        (lift (m.version_before version bound))

  -- From the first command to the API server, as the host and from outside.
  unfoldable pub start_control_plane : Program (String × String)
  start_control_plane = do
    run_init_phases v
    pod_definitions ←
        wrapped "Error enabling static pods" (enable_static_pods m static_pod_manifests_path)
    wrapped "Error waiting for static pods to be up" (wait_for_pods m fuel pod_definitions)
    api_server ←
        wrapped "Error getting api server" (get_api_server_from_kube_config m kubeconfig_path)
    ca ← wrapped "Error reading the ca data" (get_encoded_ca m)
    endpoint ← readiness_endpoint m
    wait_for_200 m fuel endpoint 30
    wait_for_200 m fuel (api_server <> "/healthz") 30
    lift (ok (api_server, ca))

  unfoldable pub start_kubelet : String → String → Program (Unit {0})
  start_kubelet api_server ca = do
    wrapped "Error running command" (run (init_phase v ("bootstrap-token" ∷ [])))
    token ← wrapped "Error getting token" get_bootstrap_token
    tls ← read_kubelet_tls_config m
    wrapped "Error running command" (run (exec (init_args api_server ca token tls)))
    wrapped "Error waiting for kubelet to come up" (wait_for_active_kubelet m fuel)

  unfoldable pub finish_init : String → Program (Unit {0})
  finish_init version = do
    before_126 ← is_before version "1.26.0"
    wrapped "Error running command" (
        run (
          exec (
            kubeadm_binary
            ∷ v
            ∷ "init"
            ∷ "--skip-phases"
            ∷ skipped_phases before_126
            ∷ "--config"
            ∷ kubeadm_file
            ∷ [])))
    dns ← wrapped "Error getting dns ip" (get_dns kubeconfig_path)
    wrapped "Error running command"
        (run (exec (apiclient_binary ∷ "set" ∷ ("kubernetes.cluster-dns-ip=" <> dns) ∷ [])))

  unfoldable pub patch_if_needed : Bool → Program (Unit {0})
  patch_if_needed before_129 =
      if before_129
      then lift (ok tt)
      else wrapped "Error patching kube-vip manifest" patch_kube_vip_manifest

  unfoldable pub control_plane_init : Program (Unit {0})
  control_plane_init = do
    wrapped "Error replacing hostname on kubeadm" (set_host_name m kubeadm_file)
    started ← start_ebs_init
    version ← get_kubeadm_version
    before_129 ← is_before version "1.29.0"
    patch_if_needed before_129
    (api_server, ca) ← start_control_plane
    start_kubelet api_server ca
    finish_init version
    check_ebs_init started
