-- ===== src/Kubeadm/Run.antt =====
-- kubeadm/kubeadm.go: the directories, and the command of the user data.
use eks_anywhere_build_tooli.Prelude.{
  ℕ, String, ◌<>◌, [], ◌∷◌, if◌then◌else◌, ◌==◌, nat_eq, string_eq,
}
use eks_anywhere_build_tooli.Prelude.System.{
  Program, ◌>>◌, lift, wrapped, run, Call, exec, mkdir_all,
}
use eks_anywhere_build_tooli.Prelude.Outcome.{ok}
use eks_anywhere_build_tooli.Bottlerocket.UserData.{UserData}
use eks_anywhere_build_tooli.Bottlerocket.Host.{Machine}
use eks_anywhere_build_tooli.Kubeadm.Init.{control_plane_init}
use eks_anywhere_build_tooli.Kubeadm.Join.{worker_join, control_plane_join}

abbrev pub rootfs_kubeadm_pki_path : String
rootfs_kubeadm_pki_path = "/.bottlerocket/rootfs/var/lib/kubeadm/pki"

abbrev link : String → Call
link target =
    exec ("bash" ∷ "-c" ∷ ("ln -sfn /.bottlerocket/rootfs/var/lib/kubeadm " <> target) ∷ [])

unfoldable pub initialize_kubeadm_directories : Program (Unit {0})
initialize_kubeadm_directories = do
  wrapped "error creating directory" (run (mkdir_all rootfs_kubeadm_pki_path 0o640))
  wrapped "error running command" (run (link "/var/lib"))
  wrapped "error running command" (run (link "/etc/kubernetes"))

-- A command that is none of the three does nothing.
unfoldable pub run_kubeadm_cmd : Machine → String → ℕ → UserData → Program (Unit {0})
run_kubeadm_cmd m v fuel user_data =
    if user_data.run_cmd == "ControlPlaneInit"
    then wrapped "error initing controlplane" (control_plane_init m v fuel)
    else if user_data.run_cmd == "ControlPlaneJoin"
    then wrapped "error joining controlplane" (control_plane_join m v fuel)
    else if user_data.run_cmd == "WorkerJoin"
    then wrapped "error joining as worker" (worker_join m v fuel)
    else lift (ok tt)
