-- ===== src/ImageBuilder/Checks.antt =====
-- cmd/build.go: the checks of single options. `SliceContains` is in builder/utils.go.
pub mod Firmware
use eks_anywhere_build_tooli.Prelude.{
  String, ◌<>◌, Bool, true, false, not, ◌&&◌, ◌||◌, List, [], ◌∷◌, ◌==◌, string_eq, if◌then◌else◌,
}
use eks_anywhere_build_tooli.Prelude.Text.{join}
use eks_anywhere_build_tooli.Prelude.Outcome.{Outcome, ok, err, fail_if, ◌>>=◌, ◌>>◌}
use eks_anywhere_build_tooli.ImageBuilder.Types.{RhsmConfig, RhelConfig, AirGappedConfig}
use eks_anywhere_build_tooli.ImageBuilder.Constants.{
  ubuntu, redhat, vsphere, baremetal, cloudstack, ami, efi, bios, supported_hypervisors,
  supported_ubuntu_versions, supported_redhat_versions, supported_redhat_efi_versions,
  supported_firmwares,
}

abbrev pub slice_contains : List String → String → Bool
slice_contains [] str = false
slice_contains (elem ∷ s) str = if elem == str then true else slice_contains s str

abbrev is_empty : String → Bool
is_empty s = s == ""

unfoldable pub validate_os_hypervisor_combinations : String → String → Outcome (Unit {0})
validate_os_hypervisor_combinations os hypervisor = do
  fail_if (hypervisor == cloudstack && not (os == redhat))
      "Invalid OS type. Only redhat OS is supported for CloudStack"
  fail_if (hypervisor == ami && not (os == ubuntu))
      "Invalid OS type. Only ubuntu OS is supported for AMI"
  ok tt

unfoldable pub validate_rhsm : String → RhsmConfig → Outcome (Unit {0})
validate_rhsm os rhsm = if is_empty rhsm.server_hostname then ok tt else do
  fail_if (not (os == redhat))
      "RedHat Subscription Manager Config (RHSM) cannot be provided when OS is not RedHat"
  fail_if (is_empty rhsm.server_release_version)
      "RHSM version required when satelite server hostname is set for RHSM"
  fail_if (is_empty rhsm.activation_key || is_empty rhsm.org_id)
      "Activation key and Org ID are required to use RHSM with satellite"
  ok tt

unfoldable pub validate_redhat : RhelConfig → String → Outcome (Unit {0})
validate_redhat rhel iso_url = do
  fail_if
      (is_empty rhel.server_hostname
        && (is_empty rhel.rhel_username || is_empty rhel.rhel_password))
      "\"rhel_username\" and \"rhel_password\" are required fields in config when os is redhat"
  fail_if (is_empty iso_url) "\"iso_url\" is a required field in config when os is redhat"
  ok tt

unfoldable pub validate_custom_iso : String → String → Outcome (Unit {0})
validate_custom_iso iso_checksum iso_checksum_type = do
  fail_if (is_empty iso_checksum)
      "Please provide a valid checksum for \"iso_checksum\" when providing \"iso_url\""
  fail_if (not (iso_checksum_type == "sha256") && not (iso_checksum_type == "sha512"))
      "\"iso_checksum_type\" is a required field when providing iso_checksum. Checksum type can be sha256 or sha512"
  ok tt

unfoldable pub validate_supported_hypervisors : String → Outcome (Unit {0})
validate_supported_hypervisors hypervisor =
    if slice_contains supported_hypervisors hypervisor
    then ok tt
    else err (
        hypervisor
        <> " is not supported yet. Please select one of "
        <> join supported_hypervisors ",")

unfoldable pub validate_os_version : String → String → Outcome (Unit {0})
validate_os_version os os_version = do
  fail_if (not (os == redhat) && not (os == ubuntu)) (os <> " is not a supported OS.")
  fail_if (os == ubuntu && not (slice_contains supported_ubuntu_versions os_version)) (
      os_version
      <> " is not a supported version of Ubuntu. Please select one of "
      <> join supported_ubuntu_versions ",")
  fail_if (os == redhat && not (slice_contains supported_redhat_versions os_version)) (
      os_version
      <> " is not a supported version of Redhat. Please select one of "
      <> join supported_redhat_versions ",")
  ok tt

-- The branch `firmware == builder.EFI`.
unfoldable pub validate_efi : String → String → String → Outcome (Unit {0})
validate_efi os os_version hypervisor = do
  fail_if (os == ubuntu && not (slice_contains (vsphere ∷ baremetal ∷ []) hypervisor))
      "For Ubuntu, EFI firmware is only supported for OVA and Raw builds"
  fail_if (os == redhat && not (hypervisor == baremetal))
      "For RedHat, EFI firmware is only supported for Raw builds"
  fail_if (os == redhat && not (slice_contains supported_redhat_efi_versions os_version))
      "Only RedHat version 9 supports EFI firmware"
  fail_if (not (slice_contains (redhat ∷ ubuntu ∷ []) os))
      "EFI firmware is only support for Ubuntu and Redhat OS"
  ok tt

unfoldable pub validate_firmware : String → String → String → String → Outcome (Unit {0})
validate_firmware firmware os os_version hypervisor = if is_empty firmware then ok tt else do
  fail_if (not (slice_contains supported_firmwares firmware))
      (firmware <> " is not a firmware. Please select one of " <> join supported_firmwares ",")
  if firmware == efi then validate_efi os os_version hypervisor else ok tt
  fail_if (firmware == bios && os == ubuntu && hypervisor == baremetal)
      "Ubuntu Raw builds only support EFI firmware."
  ok tt

unfoldable pub validate_air_gapped : AirGappedConfig → String → String → Outcome (Unit {0})
validate_air_gapped config extra_repos iso_url = do
  fail_if (is_empty config.eks_a_build_tooling_repo_url)
      "eksa_build_tooling_repo_url must be set when using air-gapped mode"
  fail_if (is_empty config.image_builder_repo_url)
      "image_builder_repo_url must be set when using air-gapped mode"
  fail_if (is_empty extra_repos)
      "Please set extra_repos to internal os package repo when using air-gapped mode"
  fail_if (is_empty config.private_server_eks_d_domain_url)
      "Please set private_artifacts_eksd_fqdn to internal artifacts server's eks-d endpoint"
  fail_if (is_empty config.private_server_eks_a_domain_url)
      "Please set private_artifacts_eksa_fqdn to internal artifacts server's eks-a endpoint"
  fail_if (is_empty iso_url) "Please provide iso_url when building in air-gapped mode"
  ok tt
