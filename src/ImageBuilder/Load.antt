-- ===== src/ImageBuilder/Load.antt =====
-- cmd/build.go: the configuration file of each provider is read and checked. A use of a nil
-- configuration is a panic, the outcome `crash`.
pub mod Frame
use eks_anywhere_build_tooli.Prelude.{
  ℕ, String, ◌<>◌, Bool, true, false, not, ◌&&◌, ◌||◌, Option, none, some, List, [], ◌∷◌, ◌++◌,
  ◌==◌, string_eq, if◌then◌else◌,
}
use eks_anywhere_build_tooli.Prelude.Int.{is_negative, exceeds, pos}
use eks_anywhere_build_tooli.Prelude.Text.{to_lower, replace_all}
use eks_anywhere_build_tooli.Prelude.Outcome.{
  Outcome, ok, err, fatal, crash, die_if, or_die, wrap, ◌>>=◌, ◌>>◌,
}
use eks_anywhere_build_tooli.ImageBuilder.Types.{
  BuildOptions, VsphereConfig, BaremetalConfig, NutanixConfig, CloudstackConfig, AmiConfig,
  AdditionalFilesConfig, File, ProxyConfig, ExtraPackagesConfig, ExtraOverridesConfig,
}
use eks_anywhere_build_tooli.ImageBuilder.Constants.{
  ubuntu, redhat, vsphere, baremetal, nutanix, cloudstack, ami, efi, bios,
}
use eks_anywhere_build_tooli.ImageBuilder.Files.{same_files_provided, process_additional_files}
use eks_anywhere_build_tooli.ImageBuilder.Checks.{
  validate_os_hypervisor_combinations, validate_rhsm, validate_redhat, validate_custom_iso,
  validate_supported_hypervisors, validate_os_version, validate_firmware, validate_air_gapped,
}

-- The file system, and `json.Unmarshal` into a pointer or a struct that holds a value already.
pub record Inputs : Type 0 where
  pub abs : String → Outcome String
  pub read_file : String → Outcome String
  pub decode_vsphere : String → Option VsphereConfig → Outcome (Option VsphereConfig)
  pub decode_baremetal : String → Option BaremetalConfig → Outcome (Option BaremetalConfig)
  pub decode_nutanix : String → Option NutanixConfig → Outcome (Option NutanixConfig)
  pub decode_cloudstack : String → Option CloudstackConfig → Outcome (Option CloudstackConfig)
  pub decode_ami : String → AmiConfig → Outcome AmiConfig
  pub decode_files : String → Option AdditionalFilesConfig → Outcome (Option AdditionalFilesConfig)

-- `*p`, and a field of `p`, at a pointer
abbrev pub deref {ℓ} : {A : Type ℓ} → Option A → Outcome A
deref none = crash
deref (some a) = ok a

-- `if test { return check }`
abbrev pub when : Bool → Outcome (Unit {0}) → Outcome (Unit {0})
when test check = if test then check else ok tt

module _ (i : Inputs) where
  unfoldable pub load_vsphere : String → BuildOptions → Outcome BuildOptions
  load_vsphere content o = do
    config ← i.decode_vsphere content o.vsphere_config
    c ← deref config
    when (o.os == redhat) (validate_redhat c.rhel c.iso_url)
    when (not (c.iso_url == "")) (validate_custom_iso c.iso_checksum c.iso_checksum_type)
    validate_rhsm o.os c.rhsm
    when o.air_gapped (validate_air_gapped c.air_gap c.extra_repos c.iso_url)
    ok (record o { vsphere_config = some c })

  unfoldable pub load_baremetal : String → BuildOptions → Outcome BuildOptions
  load_baremetal content o = do
    config ← i.decode_baremetal content o.baremetal_config
    c ← deref config
    when (o.os == redhat) (validate_redhat c.rhel c.iso_url)
    when (not (c.iso_url == "")) (validate_custom_iso c.iso_checksum c.iso_checksum_type)
    validate_rhsm o.os c.rhsm
    when o.air_gapped (validate_air_gapped c.air_gap c.extra_repos c.iso_url)
    ok (record o { baremetal_config = some c })

  unfoldable pub load_nutanix : String → BuildOptions → Outcome BuildOptions
  load_nutanix content o = do
    config ← i.decode_nutanix content o.nutanix_config
    c ← deref config
    when (o.os == redhat) (validate_redhat c.rhel "Don't check IsoUrl Param")
    die_if (c.nutanix_user_name == "" || c.nutanix_password == "")
        "\"nutanix_username\" and \"nutanix_password\" are required fields in nutanix-config"
    when o.air_gapped (validate_air_gapped c.air_gap c.extra_repos c.image_name)
    ok (record o { nutanix_config = some c })

  unfoldable pub load_cloudstack : String → BuildOptions → Outcome BuildOptions
  load_cloudstack content o = do
    config ← i.decode_cloudstack content o.cloudstack_config
    c ← deref config
    when (o.os == redhat) (validate_redhat c.rhel c.iso_url)
    when (not (c.iso_url == "")) (validate_custom_iso c.iso_checksum c.iso_checksum_type)
    validate_rhsm o.os c.rhsm
    when o.air_gapped (validate_air_gapped c.air_gap c.extra_repos c.iso_url)
    ok (record o { cloudstack_config = some c })

-- Default configuration for AMI builds.
abbrev pub no_proxy_config : ProxyConfig
no_proxy_config = record { http_proxy = ""; https_proxy = ""; no_proxy = "" }

abbrev pub no_packages : ExtraPackagesConfig
no_packages = record { extra_debs = ""; extra_repos = ""; extra_rpms = "" }

abbrev pub no_overrides : ExtraOverridesConfig
no_overrides = record {
  firstboot_custom_roles_pre = "";
  firstboot_custom_roles_post = "";
  node_custom_roles_pre = "";
  node_custom_roles_post = "";
  disable_public_repos = "";
  reenable_public_repos = "";
}

abbrev pub default_ami_manifest_output : String
default_ami_manifest_output = "manifest.json"

unfoldable pub default_ami_config : String → AmiConfig
default_ami_config os_version = record {
  ami_filter_name =
      if os_version == "2204"
      then "ubuntu/images/*ubuntu-jammy-22.04-amd64-server-*"
      else "ubuntu/images/*ubuntu-focal-20.04-amd64-server-*";
  ami_filter_owners = "679593333241";
  ami_regions = "us-west-2";
  aws_region = "us-west-2";
  builder_instance_type = "t3.small";
  manifest_output = default_ami_manifest_output;
  root_device_name = "/dev/sda1";
  subnet_id = "";
  volume_size = "25";
  volume_type = "gp3";
  proxy = no_proxy_config;
  packages = no_packages;
  overrides = no_overrides;
}

abbrev pub ami_script : String → File
ami_script source = record {
  source = source;
  destination = "/etc/eks/";
  owner = "root";
  group = "root";
  mode = pos 744;
}

abbrev pub default_ami_additional_files : List File
default_ami_additional_files =
    ami_script "packer/ami/additional_files/bootstrap.sh"
    ∷ ami_script "packer/ami/additional_files/logging.sh"
    ∷ []

abbrev pub default_ami_files_config : AdditionalFilesConfig
default_ami_files_config = record {
  file_vars = record {
    additional_files = "true";
    additional_files_list = default_ami_additional_files;
  };
  files_ansible_config = record {
    ansible_extra_vars = "";
    custom_role = "";
    custom_role_names = "";
  };
}

module _ (i : Inputs) where
  unfoldable pub load_ami : String → BuildOptions → Outcome BuildOptions
  unfolding default_ami_config
  load_ami content o = do
    c ← i.decode_ami content (default_ami_config o.os_version)
    ok (record o { ami_config = some c; files_config = some default_ami_files_config })
