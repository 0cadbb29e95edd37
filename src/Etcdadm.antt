-- ===== src/Etcdadm.antt =====
-- projects/aws/bottlerocket-bootstrap/pkg/etcdadm: the etcdadm command of the user data, run phase by
-- phase.
pub mod Parse
pub mod Phases
pub mod Order
mod Tests
use eks_anywhere_build_tooli.Prelude.{
  ℕ, String, ◌<>◌, List, [], ◌∷◌, ◌++◌, if◌then◌else◌, ◌==◌, nat_eq, string_eq, fields,
}
use eks_anywhere_build_tooli.Prelude.System.{
  Program, ◌>>=◌, ◌>>◌, lift, wrapped, run, for_each, exec, mkdir_all,
}
use eks_anywhere_build_tooli.Prelude.Outcome.{Outcome, ok, err}
use eks_anywhere_build_tooli.Bottlerocket.UserData.{UserData}
use eks_anywhere_build_tooli.Bottlerocket.Host.{create_sym_link, Machine}
use eks_anywhere_build_tooli.Bottlerocket.Pods.{enable_static_pods}
use eks_anywhere_build_tooli.Bottlerocket.Waiters.{wait_for_pods}

abbrev pub cmd_prefix : String
cmd_prefix = "Etcdadm"

abbrev pub rootfs_etcd_base_dir : String
rootfs_etcd_base_dir = "/.bottlerocket/rootfs/var/lib/etcd"

abbrev pub etcd_base_dir : String
etcd_base_dir = "/var/lib/etcd"

abbrev pub cert_dir : String
cert_dir = etcd_base_dir <> "/pki"

abbrev pub data_dir : String
data_dir = etcd_base_dir <> "/data"

abbrev pub pod_spec_dir : String
pod_spec_dir = "./manifests"

abbrev pub etcdadm_binary : String
etcdadm_binary = "/opt/bin/etcdadm"

abbrev pub init_cmd : String
init_cmd = "EtcdadmInit"

abbrev pub join_cmd : String
join_cmd = "EtcdadmJoin"

abbrev pub dirs : List String
dirs = (pod_spec_dir ∷ (rootfs_etcd_base_dir <> "/data") ∷ (rootfs_etcd_base_dir <> "/pki") ∷ [])

unfoldable pub initialize_directories : Program (Unit {0})
initialize_directories = do
  for_each
      (λ dir.
        wrapped ("error creating etcdadm directory [" <> dir <> "]") (run (mkdir_all dir 0o640)))
      dirs
  wrapped "failed init symlinks for etcdadm" (create_sym_link rootfs_etcd_base_dir etcd_base_dir)

-- `initCommand` and `joinCommand`
pub data Command : Type 0 where
  init_command : (repository version cipher_suites : String) → Command
  join_command : (repository version cipher_suites endpoint : String) → Command

abbrev invalid : String → String → Outcome Command
invalid message bootstrap_cmd = err (message <> " [" <> bootstrap_cmd <> "]")

abbrev pub parse_init : String → List String → Outcome Command
parse_init cmd (repository ∷ version ∷ cipher_suites ∷ []) =
    ok (init_command repository version cipher_suites)
parse_init cmd words = invalid "invalid bootstrap etcdadm init command" cmd

abbrev pub parse_join : String → List String → Outcome Command
parse_join cmd (repository ∷ version ∷ cipher_suites ∷ endpoint ∷ []) =
    ok (join_command repository version cipher_suites endpoint)
parse_join cmd words = invalid "invalid bootstrap etcdadm join command" cmd

abbrev pub parse_words : String → List String → Outcome Command
parse_words cmd [] = invalid "invalid bootstrap etcdadm command" cmd
parse_words cmd (word ∷ words) =
    if word == init_cmd
    then parse_init cmd words
    else if word == join_cmd
    then parse_join cmd words
    else err ("invalid etcdadm bootstrap command " <> cmd)

unfoldable pub parse_cmd : String → Outcome Command
parse_cmd bootstrap_cmd = parse_words bootstrap_cmd (fields bootstrap_cmd)

abbrev pub build_flags : String → String → String → List String
build_flags repository version cipher_suites =
    ("-l" ∷ "debug" ∷ "--version" ∷ version ∷ "--init-system" ∷ "kubelet" ∷ "--image-repository"
      ∷ repository ∷ "--certs-dir" ∷ cert_dir ∷ "--data-dir" ∷ data_dir
      ∷ "--kubelet-pod-manifest-path" ∷ pod_spec_dir ∷ "--cipher-suites" ∷ cipher_suites ∷ [])

-- `buildPhaseCmd(command, phase, args...).addFlags(flags...)`, with the binary before it
abbrev pub phase_cmd : String → String → List String → List String → List String
phase_cmd command phase args flags = etcdadm_binary ∷ command ∷ "phase" ∷ phase ∷ (args ++ flags)

unfoldable pub run_phases : String → List String → List String → List String → Program (Unit {0})
run_phases command phases flags args =
    for_each
      (λ phase.
        wrapped ("error running etcdadm phase '" <> command <> " " <> phase <> "'")
          (run (exec (phase_cmd command phase args flags))))
      phases

abbrev pub init_pre_kubelet_phases : List String
init_pre_kubelet_phases = ("install" ∷ "certificates" ∷ "snapshot" ∷ "configure" ∷ "start" ∷ [])

abbrev pub init_post_kubelet_phases : List String
init_post_kubelet_phases = ("health" ∷ [])

abbrev pub join_pre_kubelet_phases : List String
join_pre_kubelet_phases =
    ("stop" ∷ "certificates" ∷ "membership" ∷ "install" ∷ "configure" ∷ "start" ∷ [])

abbrev pub join_post_kubelet_phases : List String
join_post_kubelet_phases = ("health" ∷ [])

module _ (m : Machine) (fuel : ℕ) where
  -- What both commands do between their phases.
  unfoldable pub start_pods : Program (Unit {0})
  start_pods = do
    pod_definitions ← wrapped "error enabling etcd static pods" (enable_static_pods m pod_spec_dir)
    wrapped "error waiting for etcd static pods to be up" (wait_for_pods m fuel pod_definitions)

  unfoldable pub run_command : Command → Program (Unit {0})
  run_command (init_command repository version cipher_suites) = do
    let flags = build_flags repository version cipher_suites
    run_phases "init" init_pre_kubelet_phases flags []
    start_pods
    run_phases "init" init_post_kubelet_phases flags []
  run_command (join_command repository version cipher_suites endpoint) = do
    let flags = build_flags repository version cipher_suites
    run_phases "join" join_pre_kubelet_phases flags (endpoint ∷ [])
    start_pods
    run_phases "join" join_post_kubelet_phases flags (endpoint ∷ [])

  unfoldable pub run_etcdadm_cmd : UserData → Program (Unit {0})
  run_etcdadm_cmd user_data = do command ← lift (parse_cmd user_data.run_cmd); run_command command
