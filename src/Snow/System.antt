-- ===== src/Snow/System.antt =====
-- The other files of system/ and pkg/executables/{apiclient,filesystem}.go: the settings of Kubernetes
-- and of the kernel, the volume of containerd, the one reboot, and the whole bootstrap.
use eks_anywhere_build_tooli.Prelude.{String, ◌<>◌, List, [], ◌∷◌, if◌then◌else◌}
use eks_anywhere_build_tooli.Prelude.System.{
  Program, ◌>>=◌, ◌>>◌, lift, try, wrapped, or_exit, run, path_exists, create, mkdir_all,
}
use eks_anywhere_build_tooli.Prelude.Outcome.{Outcome, ok, err, fatal, crash, unfinished}
use eks_anywhere_build_tooli.Bottlerocket.Host.{apiclient_binary, execute, Machine}
use eks_anywhere_build_tooli.Snow.Network.{rootfs, Netlink}
use eks_anywhere_build_tooli.Snow.Discovery.{instance_id, current_ip, get_device_ip, configure_dni}

abbrev pub bootstrap_container_path : String
bootstrap_container_path = "/.bottlerocket/bootstrap-containers/current"

abbrev pub rebooted_path : String
rebooted_path = bootstrap_container_path <> "/rebooted"

abbrev pub node_ip_configured_path : String
node_ip_configured_path = bootstrap_container_path <> "/nodeip.configured"

abbrev pub partition_created_path : String
partition_created_path = bootstrap_container_path <> "/partition.created"

abbrev pub device : String
device = rootfs <> "/dev/vda"

abbrev pub containerd_dir : String
containerd_dir = rootfs <> "/var/lib/containerd"

-- The client of Bottlerocket's settings, the reboot and the file systems, whose output is not used.
unfoldable pub execute_only : String → List String → Program (Unit {0})
execute_only binary args = execute binary args >>= λ _. lift (ok tt)

-- `%q` of the empty text, the only one that is asked for
unfoldable pub set_kubernetes_cloud_provider : Program (Unit {0})
set_kubernetes_cloud_provider =
    execute_only apiclient_binary ("set" ∷ "kubernetes.cloud-provider=\"\"" ∷ [])

unfoldable pub set_kubernetes_node_ip : String → Program (Unit {0})
set_kubernetes_node_ip ip =
    execute_only apiclient_binary ("set" ∷ ("kubernetes.node-ip=" <> ip) ∷ [])

unfoldable pub set_kubernetes_provider_id : String → Program (Unit {0})
set_kubernetes_provider_id id =
    execute_only apiclient_binary ("set" ∷ ("kubernetes.provider-id=" <> id) ∷ [])

-- `json.Marshal` of the kernel settings; a map's keys are in their order.
abbrev pub kernel_settings : String
kernel_settings =
    "{\"kernel\":{\"sysctl\":{\"kernel.core_pattern\":\"/var/corefile/core.%e.%p.%h.%t\",\"net.core.rmem_max\":\"8388608\",\"net.core.wmem_max\":\"8388608\"}},\"kubernetes\":{\"allowed-unsafe-sysctls\":[\"net.ipv4.tcp_mtu_probing\"]}}"

unfoldable pub configure_kernel_settings : Program (Unit {0})
configure_kernel_settings = execute_only apiclient_binary ("set" ∷ "--json" ∷ kernel_settings ∷ [])

unfoldable pub reboot : Program (Unit {0})
reboot = execute_only apiclient_binary ("reboot" ∷ [])

unfoldable pub mount_volume : String → String → Program (Unit {0})
mount_volume source dir = execute_only "mount" (source ∷ dir ∷ [])

unfoldable pub partition : String → Program (Unit {0})
partition source = execute_only "mkfs.ext4" (source ∷ [])

abbrev text_or_empty : Outcome String → String
text_or_empty (ok text) = text
text_or_empty (err e) = ""
text_or_empty (fatal e) = ""
text_or_empty crash = ""
text_or_empty unfinished = ""

module _ (m : Machine) (n : Netlink) where
  -- The errors are dropped: an id or an address that is not known is empty.
  unfoldable pub set_provider_id : Program (Unit {0})
  set_provider_id = do
    id ← try (instance_id m n)
    ip ← try (get_device_ip m n)
    set_kubernetes_provider_id ("aws-snow:///" <> text_or_empty ip <> "/" <> text_or_empty id)

  abbrev configure_node_ip : Program (Unit {0})
  configure_node_ip = do
    ip ← wrapped "Error getting current ip address" (current_ip m n)
    set_kubernetes_node_ip ip
    wrapped ("Error writing " <> node_ip_configured_path <> " file")
        (run (create node_ip_configured_path))

  abbrev unless_configured : Program (Unit {0})
  unless_configured = do
    configured ← path_exists node_ip_configured_path
    if configured then lift (ok tt) else configure_node_ip

  unfoldable pub set_node_ip : Program (Unit {0})
  set_node_ip = do
    rebooted ← path_exists rebooted_path
    if rebooted then unless_configured else lift (ok tt)

  unfoldable pub configure_kubernetes_settings : Program (Unit {0})
  configure_kubernetes_settings = do
    wrapped "Error setting K8s cloud provider" set_kubernetes_cloud_provider
    wrapped "Error setting K8s provider id" set_provider_id
    wrapped "Error setting K8s node ip" set_node_ip

unfoldable pub make_partition : Program (Unit {0})
make_partition = do
  partition device
  wrapped "error writing partition created file" (run (create partition_created_path))

unfoldable pub create_partition : Program (Unit {0})
create_partition = do
  created ← path_exists partition_created_path
  if created then lift (ok tt) else make_partition

unfoldable pub mount_containerd : Program (Unit {0})
mount_containerd = do
  wrapped "error creating directory" (run (mkdir_all containerd_dir 0o640))
  mount_volume device containerd_dir

unfoldable pub mount_containerd_volume : Program (Unit {0})
mount_containerd_volume = do
  wrapped "error creating partition" create_partition
  wrapped "error mounting containerd directory" mount_containerd

-- The marker is written before the reboot.
unfoldable pub mark_and_reboot : Program (Unit {0})
mark_and_reboot = do wrapped "Error writing rebooted file" (run (create rebooted_path)); reboot

unfoldable pub reboot_instance_if_needed : Program (Unit {0})
reboot_instance_if_needed = do
  rebooted ← path_exists rebooted_path
  if rebooted then lift (ok tt) else mark_and_reboot

-- `Bootstrap`; an error ends the process.
unfoldable pub bootstrap : Machine → Netlink → Program (Unit {0})
bootstrap m n = do
  or_exit (configure_kubernetes_settings m n)
  or_exit configure_kernel_settings
  or_exit (configure_dni m n)
  or_exit mount_containerd_volume
  or_exit reboot_instance_if_needed
