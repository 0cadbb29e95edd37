-- ===== src/ImageBuilder/Options.antt =====
-- cmd/build.go: the first half of `ValidateInputs`, checks and defaults of the flags. A call of
-- `log.Fatal` is the outcome `fatal`.
pub mod Accepted
use eks_anywhere_build_tooli.Prelude.{
  ℕ, String, ◌<>◌, Bool, true, false, not, ◌&&◌, ◌||◌, Option, none, some, List, [], ◌∷◌, ◌++◌,
  ◌==◌, string_eq, if◌then◌else◌,
}
use eks_anywhere_build_tooli.Prelude.Int.{is_negative, exceeds}
use eks_anywhere_build_tooli.Prelude.Text.{to_lower, replace_all}
use eks_anywhere_build_tooli.Prelude.Outcome.{
  Outcome, ok, err, fatal, crash, die_if, or_die, wrap, ◌>>=◌, ◌>>◌,
}
use eks_anywhere_build_tooli.ImageBuilder.Types.{
  BuildOptions, VsphereConfig, BaremetalConfig, NutanixConfig, CloudstackConfig, AmiConfig,
  AdditionalFilesConfig, File, ProxyConfig, ExtraPackagesConfig, ExtraOverridesConfig,
}
use eks_anywhere_build_tooli.ImageBuilder.Constants.{
  ubuntu, redhat, vsphere, baremetal, nutanix, cloudstack, ami, efi, bios,
}
use eks_anywhere_build_tooli.ImageBuilder.Files.{same_files_provided, process_additional_files}
use eks_anywhere_build_tooli.ImageBuilder.Checks.{
  validate_os_hypervisor_combinations, validate_rhsm, validate_redhat, validate_custom_iso,
  validate_supported_hypervisors, validate_os_version, validate_firmware, validate_air_gapped,
}

unfoldable pub default_os_version : BuildOptions → BuildOptions
default_os_version o =
    if o.os == ubuntu && o.os_version == ""
    then record o { os_version = "20.04" }
    else if o.os == redhat && o.os_version == ""
    then record o { os_version = "8" }
    else o

unfoldable pub default_firmware : BuildOptions → BuildOptions
default_firmware o =
    if o.firmware == ""
    then record o { firmware = if o.os == ubuntu && o.hypervisor == baremetal then efi else bios }
    else o

unfoldable pub check_air_gapped : BuildOptions → Outcome (Unit {0})
check_air_gapped o = if not o.air_gapped then ok tt else do
  die_if (o.manifest_tarball == "")
      "Please provide --manifest-tarball when running air-gapped builds"
  die_if (not (o.os == ubuntu)) "Only Ubuntu os is supported for air-gapped builds"
  die_if (o.hypervisor == ami) "AMI hypervisor not supported for air-gapped builds"
  ok tt

-- RedHat versions other than 8 are for Nutanix, CloudStack and Baremetal.
abbrev pub redhat_8_only : BuildOptions → Bool
redhat_8_only o =
    not (o.hypervisor == nutanix)
    && not (o.hypervisor == cloudstack)
    && not (o.hypervisor == baremetal)
    && o.os == redhat
    && not (o.os_version == "8")

-- The checks and defaults down to the air-gapped ones.
unfoldable pub check_options : BuildOptions → Outcome BuildOptions
check_options o = do
  die_if (not (o.os == ubuntu) && not (o.os == redhat))
      "Invalid OS type. Please choose ubuntu or redhat"
  or_die (validate_supported_hypervisors o.hypervisor)
  or_die (validate_os_hypervisor_combinations o.os o.hypervisor)
  die_if (is_negative o.ansible_verbosity || exceeds o.ansible_verbosity 6)
      "Invalid Ansible verbosity level. Please provide a value in the range 0 to 6"
  let p = default_os_version o
  die_if (redhat_8_only p) "Invalid OS version for RedHat. Please choose 8"
  or_die (validate_os_version p.os p.os_version)
  or_die (validate_firmware p.firmware p.os p.os_version p.hypervisor)
  let q = default_firmware p
  check_air_gapped q
  ok q

unfoldable pub normalise : BuildOptions → BuildOptions
normalise o = record o {
  os = to_lower o.os;
  hypervisor = to_lower o.hypervisor;
  os_version = replace_all o.os_version "." "";
}
