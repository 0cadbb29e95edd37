-- ===== src/Snow/Quiet.antt =====
-- The parts of the bootstrap that neither format a volume nor reboot.
use eks_anywhere_build_tooli.Prelude.{
  ℕ, zero, suc, String, ◌≡◌, Bool, true, false, not, ◌&&◌, List, ◌∷◌, ◌==◌, nat_eq, string_eq,
}
use eks_anywhere_build_tooli.Prelude.System.{History, Env, Call, exec}
use eks_anywhere_build_tooli.Prelude.System.Keeps.{
  KeepsCall, Keeps-or_exit, Keeps-bind, Keeps, keeps_rules,
}
use eks_anywhere_build_tooli.Bottlerocket.UserData.{
  read_chunks, load_user_data_from_secrets_manager, process_aws_secrets_manager_user_data,
  process_remote_user_data, process_user_data, build_user_data,
  resolve_bootstrap_container_user_data, write, Codec,
}
use eks_anywhere_build_tooli.Bottlerocket.Host.{apiclient_binary, execute, Machine}
use eks_anywhere_build_tooli.Snow.Network.{Netlink}
use eks_anywhere_build_tooli.Snow.Discovery.{
  get, instance_ip, instance_id, current_ip, default_gateway, dni_list, parse_network_file,
  get_device_ip, network_mapping, write_network_config, configure_dni,
}
use eks_anywhere_build_tooli.Snow.System.{
  execute_only, set_kubernetes_cloud_provider, set_kubernetes_node_ip, set_kubernetes_provider_id,
  configure_kernel_settings, mount_volume, set_provider_id, set_node_ip,
  configure_kubernetes_settings, create_partition, mount_containerd, mount_containerd_volume,
  reboot_instance_if_needed, bootstrap,
}

abbrev pub is_mkfs : Call → Bool
is_mkfs (exec (binary ∷ args)) = binary == "mkfs.ext4"
is_mkfs c = false

abbrev pub is_reboot : Call → Bool
is_reboot (exec (binary ∷ arg ∷ args)) = binary == apiclient_binary && arg == "reboot"
is_reboot c = false

abbrev pub is_quiet : Call → Bool
is_quiet c = not (is_mkfs c) && not (is_reboot c)

-- `P` is an invariant of the other calls.
module _ {env : Env} {P : History → Type 0}
    (keeps : (c : Call) → is_quiet c ≡ true → KeepsCall P c) where
  pub Keeps-execute_only :
      (binary : String) (args : List String)
      → is_quiet (exec (binary ∷ args)) ≡ true
      → Keeps env P (execute_only binary args)
  unfolding execute_only execute
  Keeps-execute_only binary args q = search (keeps_rules, keeps) depth 20

  pub Keeps-write :
      (c : Codec) (path content : String) (mode : ℕ) → Keeps env P (write c path content mode)
  unfolding write
  Keeps-write c path content mode = search (keeps_rules, keeps) depth 20

  pub Keeps-read_chunks :
      (prefix : String) (left i : ℕ) (binary : String)
      → Keeps env P (read_chunks prefix left i binary)
  unfolding read_chunks
  Keeps-read_chunks prefix zero i binary = search keeps_rules
  Keeps-read_chunks prefix (suc left) i binary =
      search (keeps_rules, keeps, Keeps-read_chunks prefix left) depth 20

  pub Keeps-resolve_bootstrap_container_user_data :
      (c : Codec) → Keeps env P (resolve_bootstrap_container_user_data c)
  unfolding resolve_bootstrap_container_user_data build_user_data process_user_data
      process_remote_user_data process_aws_secrets_manager_user_data
      load_user_data_from_secrets_manager
  Keeps-resolve_bootstrap_container_user_data c =
      search (keeps_rules, keeps, Keeps-read_chunks) depth 20

  module _ (m : Machine) (n : Netlink) where
    Keeps-get : (url : String) → Keeps env P (get m n url)
    unfolding get
    Keeps-get url = search (keeps_rules, keeps) depth 20

    pub Keeps-instance_ip : Keeps env P (instance_ip m n)
    unfolding instance_ip
    Keeps-instance_ip = search (keeps_rules, Keeps-get) depth 20

    pub Keeps-instance_id : Keeps env P (instance_id m n)
    unfolding instance_id
    Keeps-instance_id = search (keeps_rules, Keeps-get) depth 20

    pub Keeps-current_ip : Keeps env P (current_ip m n)
    unfolding current_ip
    Keeps-current_ip = search (keeps_rules, keeps) depth 20

    pub Keeps-default_gateway : Keeps env P (default_gateway m n)
    unfolding default_gateway
    Keeps-default_gateway = search (keeps_rules, keeps) depth 20

    pub Keeps-dni_list : Keeps env P (dni_list m n)
    unfolding dni_list
    Keeps-dni_list = search (keeps_rules, keeps) depth 20

    pub Keeps-parse_network_file : Keeps env P (parse_network_file m n)
    unfolding parse_network_file
    Keeps-parse_network_file =
        search (keeps_rules, Keeps-resolve_bootstrap_container_user_data) depth 20

    pub Keeps-get_device_ip : Keeps env P (get_device_ip m n)
    unfolding get_device_ip
    Keeps-get_device_ip = search (keeps_rules, Keeps-parse_network_file) depth 20

    pub Keeps-network_mapping : Keeps env P (network_mapping m n)
    unfolding network_mapping
    Keeps-network_mapping = search (keeps_rules, Keeps-dni_list, Keeps-parse_network_file) depth 20

    pub Keeps-write_network_config : Keeps env P (write_network_config m n)
    unfolding write_network_config
    Keeps-write_network_config =
        search
          (
            keeps_rules, Keeps-instance_ip, Keeps-default_gateway, Keeps-network_mapping,
            Keeps-write,
          )
          depth 20

    pub Keeps-configure_dni : Keeps env P (configure_dni m n)
    unfolding configure_dni
    Keeps-configure_dni = search (keeps_rules, keeps, Keeps-write_network_config) depth 20

    pub Keeps-set_provider_id : Keeps env P (set_provider_id m n)
    unfolding set_provider_id set_kubernetes_provider_id
    Keeps-set_provider_id =
        search (keeps_rules, Keeps-instance_id, Keeps-get_device_ip, Keeps-execute_only) depth 20

    pub Keeps-set_node_ip : Keeps env P (set_node_ip m n)
    unfolding set_node_ip set_kubernetes_node_ip
    Keeps-set_node_ip = search (keeps_rules, keeps, Keeps-current_ip, Keeps-execute_only) depth 20

    pub Keeps-configure_kubernetes_settings : Keeps env P (configure_kubernetes_settings m n)
    unfolding configure_kubernetes_settings set_kubernetes_cloud_provider
    Keeps-configure_kubernetes_settings =
        search (keeps_rules, Keeps-execute_only, Keeps-set_provider_id, Keeps-set_node_ip) depth 20

  pub Keeps-configure_kernel_settings : Keeps env P configure_kernel_settings
  unfolding configure_kernel_settings
  Keeps-configure_kernel_settings = search (keeps_rules, Keeps-execute_only) depth 20

  pub Keeps-mount_containerd : Keeps env P mount_containerd
  unfolding mount_containerd mount_volume
  Keeps-mount_containerd = search (keeps_rules, keeps, Keeps-execute_only) depth 20

  pub Keeps-bootstrap :
      (m : Machine) (n : Netlink)
      → Keeps env P create_partition
      → Keeps env P reboot_instance_if_needed
      → Keeps env P (bootstrap m n)
  unfolding bootstrap mount_containerd_volume
  Keeps-bootstrap m n kp kr =
      Keeps-bind _ _ (Keeps-or_exit _ (Keeps-configure_kubernetes_settings m n)) (λ _.
        Keeps-bind _ _ (Keeps-or_exit _ Keeps-configure_kernel_settings) (λ _.
          Keeps-bind _ _ (Keeps-or_exit _ (Keeps-configure_dni m n))
            (λ _. search (keeps_rules, Keeps-mount_containerd))))
