-- ===== src/Bootstrap.antt =====
-- projects/aws/bottlerocket-bootstrap/{main.go,pkg/bootstrap.go}: the bootstrap of a host, from the
-- wait for its services to the end of the bootstrap container.
pub mod Disabled
mod Tests
use eks_anywhere_build_tooli.Prelude.{ℕ, String, ◌<>◌, Bool, if◌then◌else◌, has_prefix}
use eks_anywhere_build_tooli.Prelude.System.{
  Program, ◌>>=◌, ◌>>◌, try, wrapped, or_exit, ignore, stat_succeeds, create, sleep,
}
use eks_anywhere_build_tooli.Bottlerocket.UserData.{
  resolve_host_container_user_data, write_user_data_files, UserData,
}
use eks_anywhere_build_tooli.Bottlerocket.Host.{
  bootstrap_container_name, disable_bootstrap_container, Machine,
}
use eks_anywhere_build_tooli.Bottlerocket.Waiters.{
  kubelet_service, multi_user_target, wait_for_systemd_service,
}
use eks_anywhere_build_tooli.Etcdadm.{cmd_prefix, initialize_directories, run_etcdadm_cmd}
use eks_anywhere_build_tooli.Kubeadm.Run.{initialize_kubeadm_directories, run_kubeadm_cmd}

abbrev pub marker : String
marker = "/.bottlerocket/host-containers/" <> bootstrap_container_name <> "/.ran"

-- With the marker there, the container is disabled, whether that works or not, and the code goes on
-- after 100,000 nanoseconds, here a sleep of none.
abbrev give_way : Program (Unit {0})
give_way = do disabled ← try disable_bootstrap_container; ignore (sleep 0)

unfoldable pub acquire_lock : Program (Unit {0})
acquire_lock = do taken ← stat_succeeds marker; if taken then give_way else ignore (create marker)

unfoldable pub wait_for_pre_reqs : Machine → ℕ → Program (Unit {0})
wait_for_pre_reqs m fuel = do
  wrapped "Error waiting for multi-user.target\n"
      (wait_for_systemd_service m fuel multi_user_target 300)
  wrapped "Error waiting for kubelet" (wait_for_systemd_service m fuel kubelet_service 30)

-- The two operations of `buildBootstrapper`'s result.
unfoldable pub uses_etcdadm : UserData → Bool
uses_etcdadm user_data = has_prefix user_data.run_cmd cmd_prefix

unfoldable pub initialize_bootstrapper : UserData → Program (Unit {0})
initialize_bootstrapper user_data =
    if uses_etcdadm user_data then initialize_directories else initialize_kubeadm_directories

unfoldable pub run_bootstrapper : Machine → String → ℕ → UserData → Program (Unit {0})
run_bootstrapper m v fuel user_data =
    if uses_etcdadm user_data
    then run_etcdadm_cmd m fuel user_data
    else run_kubeadm_cmd m v fuel user_data

-- `Bootstrap`; an error ends the process.
unfoldable pub bootstrap_host : Machine → String → ℕ → Program (Unit {0})
bootstrap_host m v fuel = do
  or_exit (wait_for_pre_reqs m fuel)
  acquire_lock
  user_data ← or_exit (resolve_host_container_user_data m.codec)
  or_exit (initialize_bootstrapper user_data)
  or_exit (write_user_data_files m.codec user_data)
  or_exit (run_bootstrapper m v fuel user_data)
  or_exit disable_bootstrap_container

-- `main`, with the flag for the verbosity
unfoldable pub main : Machine → ℕ → String → Program (Unit {0})
main m fuel verbosity = bootstrap_host m ("-v" <> verbosity) fuel
