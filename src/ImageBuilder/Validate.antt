-- ===== src/ImageBuilder/Validate.antt =====
-- cmd/build.go: `ValidateInputs`, the flags of the build command checked and completed.
pub mod Accepted
pub mod Defaults
use eks_anywhere_build_tooli.Prelude.{
  ℕ, String, ◌<>◌, Bool, true, false, not, ◌&&◌, ◌||◌, Option, none, some, List, [], ◌∷◌, ◌++◌,
  ◌==◌, string_eq, if◌then◌else◌,
}
use eks_anywhere_build_tooli.Prelude.Int.{is_negative, exceeds}
use eks_anywhere_build_tooli.Prelude.Text.{to_lower, replace_all}
use eks_anywhere_build_tooli.Prelude.Outcome.{
  Outcome, ok, err, fatal, crash, die_if, or_die, wrap, ◌>>=◌, ◌>>◌,
}
use eks_anywhere_build_tooli.ImageBuilder.Types.{
  BuildOptions, VsphereConfig, BaremetalConfig, NutanixConfig, CloudstackConfig, AmiConfig,
  AdditionalFilesConfig, File, ProxyConfig, ExtraPackagesConfig, ExtraOverridesConfig,
}
use eks_anywhere_build_tooli.ImageBuilder.Constants.{
  ubuntu, redhat, vsphere, baremetal, nutanix, cloudstack, ami, efi, bios,
}
use eks_anywhere_build_tooli.ImageBuilder.Options.{check_options, normalise}
use eks_anywhere_build_tooli.ImageBuilder.Load.{
  Inputs, deref, load_vsphere, load_baremetal, load_nutanix, load_cloudstack, load_ami,
  default_ami_additional_files,
}
use eks_anywhere_build_tooli.ImageBuilder.Files.{same_files_provided, process_additional_files}
use eks_anywhere_build_tooli.ImageBuilder.Checks.{
  validate_os_hypervisor_combinations, validate_rhsm, validate_redhat, validate_custom_iso,
  validate_supported_hypervisors, validate_os_version, validate_firmware, validate_air_gapped,
}

-- The flags that name configuration files.
pub record ConfigFlags : Type 0 where
  pub vsphere_config_file : String
  pub baremetal_config_file : String
  pub nutanix_config_file : String
  pub cloudstack_config_file : String
  pub ami_config_file : String
  pub additional_files_config_file : String

unfoldable pub config_path : ConfigFlags → String → String
config_path f hypervisor =
    if hypervisor == vsphere
    then f.vsphere_config_file
    else if hypervisor == baremetal
    then f.baremetal_config_file
    else if hypervisor == nutanix
    then f.nutanix_config_file
    else if hypervisor == cloudstack
    then f.cloudstack_config_file
    else if hypervisor == ami
    then f.ami_config_file
    else ""

-- No path is an error, but for AMI images and for raw Ubuntu images.
abbrev pub config_required : BuildOptions → Bool
config_required o =
    o.hypervisor == vsphere
    || (o.hypervisor == baremetal && o.os == redhat)
    || o.hypervisor == nutanix
    || o.hypervisor == cloudstack

-- The list of an AMI's files is the global list of the defaults until `json.Unmarshal` reads the
-- given files into it, over the files that stand there.
unfoldable pub overwritten : List File → List File → List File
overwritten files [] = []
overwritten [] (default ∷ defaults) = default ∷ defaults
overwritten (file ∷ files) (default ∷ defaults) = file ∷ overwritten files defaults

-- The default files of an AMI, as they are by then, are added, unless the given files are those.
unfoldable pub add_default_files : Option AmiConfig → AdditionalFilesConfig → AdditionalFilesConfig
add_default_files none f = f
add_default_files (some _) f =
    let defaults = overwritten f.additional_files_list default_ami_additional_files in
    if same_files_provided f.additional_files_list defaults then f else record f {
      file_vars = record f.file_vars {
        additional_files_list = f.additional_files_list ++ defaults;
      };
    }

module _ (i : Inputs) where
  -- The `switch` behind the reading of the file.
  unfoldable pub decode_config : String → BuildOptions → Outcome BuildOptions
  decode_config content o =
      if o.hypervisor == vsphere
      then load_vsphere i content o
      else if o.hypervisor == baremetal
      then load_baremetal i content o
      else if o.hypervisor == nutanix
      then load_nutanix i content o
      else if o.hypervisor == cloudstack
      then load_cloudstack i content o
      else if o.hypervisor == ami
      then load_ami i content o
      else ok o

  unfoldable pub absolute_path : String → BuildOptions → Outcome String
  absolute_path path o =
      wrap ("Error converting " <> o.hypervisor <> " config file path to absolute path")
        (i.abs path)

  unfoldable pub read_content : String → BuildOptions → Outcome String
  read_content path o = wrap ("Error reading " <> o.hypervisor <> " config file") (i.read_file path)

  unfoldable pub read_config : String → BuildOptions → Outcome BuildOptions
  read_config path o = do
    absolute ← absolute_path path o
    content ← read_content absolute o
    decode_config content o

  unfoldable pub load_config : String → BuildOptions → Outcome BuildOptions
  load_config path o =
      if path == ""
      then (if config_required o
          then err (
              o.hypervisor <> "-config is a required flag for " <> o.hypervisor
              <> " hypervisor or when os is redhat")
          else ok o)
      else read_config path o

  unfoldable pub load_files : String → BuildOptions → Outcome BuildOptions
  load_files path o = if path == "" then ok o else do
    content ← wrap "Error reading additional files config path" (i.read_file path)
    config ← i.decode_files content o.files_config
    f ← deref config
    ok (record o {
      files_config = some (add_default_files o.ami_config (process_additional_files f));
    })

  unfoldable pub validate_inputs : ConfigFlags → BuildOptions → Outcome BuildOptions
  validate_inputs f o = do
    checked ← check_options o
    loaded ← load_config (config_path f checked.hypervisor) (normalise checked)
    load_files f.additional_files_config_file loaded
