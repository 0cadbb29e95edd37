-- ===== src/Bootstrap/Tests.antt =====
-- Runs of the theorems on samples.
use eks_anywhere_build_tooli.Prelude.{◌≡◌, refl, [], ◌∷◌, has_prefix, trim_suffix, fields}
use eks_anywhere_build_tooli.Prelude.System.{
  ◌>>=◌, lift, try, wrapped, or_exit, attempt, run, ignore, stat_succeeds, answered, for_each,
}
use eks_anywhere_build_tooli.Prelude.Outcome.{ok}
use eks_anywhere_build_tooli.Bottlerocket.UserData.{
  process_user_data, build_user_data, resolve_host_container_user_data, write_files_from,
  write_user_data_files,
}
use eks_anywhere_build_tooli.Bottlerocket.Host.{
  disable_bootstrap_container, create_sym_link, Machine,
}
use eks_anywhere_build_tooli.Bottlerocket.Waiters.{
  has_suffix, is_up, wait_for_unit, wait_for_systemd_service, wait_for_pods,
}
use eks_anywhere_build_tooli.Bottlerocket.Pods.{enable_pods, enable_static_pods}
use eks_anywhere_build_tooli.Etcdadm.{
  initialize_directories, parse_cmd, run_phases, start_pods, run_command, run_etcdadm_cmd,
}
use eks_anywhere_build_tooli.Bootstrap.{
  acquire_lock, wait_for_pre_reqs, uses_etcdadm, initialize_bootstrapper, run_bootstrapper,
  bootstrap_host,
}
use eks_anywhere_build_tooli.Bootstrap.Disabled.{bootstrap_host_ok, Done}
use eks_anywhere_build_tooli.Bottlerocket.Samples.{machine, good_machine}

-- A machine whose units are up.
abbrev booted : Machine
booted = record machine {
  decode_units = λ text.
      ("multi-user.target", record { active_state = "active"; sub_state = "active" })
      ∷ ("kubelet.service", record { active_state = "active"; sub_state = "running" })
      ∷ [];
}

booted_ok : (bootstrap_host booted "-v9" 2 good_machine []).0 ≡ ok tt
unfolding bootstrap_host wait_for_pre_reqs wait_for_systemd_service wait_for_unit is_up has_suffix
    trim_suffix acquire_lock disable_bootstrap_container resolve_host_container_user_data
    build_user_data process_user_data initialize_bootstrapper uses_etcdadm has_prefix
    initialize_directories for_each create_sym_link write_user_data_files write_files_from
    run_bootstrapper run_etcdadm_cmd parse_cmd fields run_command run_phases start_pods
    enable_static_pods enable_pods wait_for_pods ◌>>=◌ wrapped run attempt lift ignore or_exit try
    answered stat_succeeds
booted_ok = refl

bootstrap_host_ok_example :
    Done booted "-v9" 2 good_machine [] (bootstrap_host booted "-v9" 2 good_machine []).1
bootstrap_host_ok_example = bootstrap_host_ok booted "-v9" 2 good_machine [] booted_ok
