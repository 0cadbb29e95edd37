-- ===== src/ImageBuilder/Tests.antt =====
-- Runs of the theorems on samples.

use eks_anywhere_build_tooli.Prelude.Counter.{count}
use eks_anywhere_build_tooli.ImageBuilder.Files.{file_eq}
use eks_anywhere_build_tooli.Prelude.{
  some, contains, List, has_prefix, strip_prefix, to_lower, replace_all, String, ◌≡◌, refl, ◌↔◌,
  true, false, none, [], ◌∷◌,
}
use eks_anywhere_build_tooli.Prelude.Int.{pos}
use eks_anywhere_build_tooli.Prelude.Outcome.{ok, err}
use eks_anywhere_build_tooli.ImageBuilder.Types.{File, BuildOptions}
use eks_anywhere_build_tooli.ImageBuilder.Files.{same_files_provided}
use eks_anywhere_build_tooli.ImageBuilder.Files.Counts.{same_files_provided_iff}
use eks_anywhere_build_tooli.ImageBuilder.Checks.{
  validate_os_hypervisor_combinations, validate_supported_hypervisors, validate_os_version,
  validate_firmware,
}
use eks_anywhere_build_tooli.ImageBuilder.Checks.Firmware.{FirmwareAllowed, validate_firmware_iff}
use eks_anywhere_build_tooli.ImageBuilder.Options.{
  default_os_version, default_firmware, check_air_gapped, check_options, normalise,
}
use eks_anywhere_build_tooli.ImageBuilder.Options.Accepted.{
  check_options_sound, check_options_complete, check_options_idem, IsAccepted,
}
use eks_anywhere_build_tooli.ImageBuilder.Load.{Inputs}
use eks_anywhere_build_tooli.ImageBuilder.Validate.{
  config_path, load_config, load_files, validate_inputs, ConfigFlags,
}
use eks_anywhere_build_tooli.ImageBuilder.Validate.Accepted.{validate_inputs_sound, IsReady}
use eks_anywhere_build_tooli.ImageBuilder.Load.{default_ami_config}
use eks_anywhere_build_tooli.ImageBuilder.Types.{AmiConfig, AdditionalFilesConfig}
use eks_anywhere_build_tooli.ImageBuilder.Build.Setup.{EksaRelease}
use eks_anywhere_build_tooli.ImageBuilder.Build.Bundle.{find_release, bundle_url_of}
use eks_anywhere_build_tooli.ImageBuilder.Build.Commands.{build_command}
use eks_anywhere_build_tooli.ImageBuilder.Build.Runs.{Runs, build_command-Runs}
use eks_anywhere_build_tooli.ImageBuilder.Build.Release.{
  Chosen, NonePass, is_version, has_part, bundle_url_of-Chosen, bundle_url_of-none,
}

-- A raw image of Ubuntu, with the version and the firmware left to their defaults.
abbrev raw_ubuntu : BuildOptions
raw_ubuntu = record {
  os = "ubuntu";
  os_version = "";
  arch = "amd64";
  hypervisor = "baremetal";
  vsphere_config = none;
  baremetal_config = none;
  nutanix_config = none;
  cloudstack_config = none;
  ami_config = none;
  files_config = none;
  release_channel = "1-27";
  force = false;
  air_gapped = false;
  manifest_tarball = "";
  firmware = "";
  ansible_verbosity = pos 0;
  eksa_release_version = "";
}

abbrev checked : BuildOptions
checked = record raw_ubuntu { os_version = "20.04"; firmware = "efi" }

abbrev no_flags : ConfigFlags
no_flags = record {
  vsphere_config_file = "";
  baremetal_config_file = "";
  nutanix_config_file = "";
  cloudstack_config_file = "";
  ami_config_file = "";
  additional_files_config_file = "";
}

abbrev inputs : Inputs
inputs = record {
  abs = λ path. ok path;
  read_file = λ path. err "no such file";
  decode_vsphere = λ content config. ok config;
  decode_baremetal = λ content config. ok config;
  decode_nutanix = λ content config. ok config;
  decode_cloudstack = λ content config. ok config;
  decode_ami = λ content config. ok config;
  decode_files = λ content config. ok config;
}

checked_options : check_options raw_ubuntu ≡ ok checked
unfolding check_options default_os_version default_firmware check_air_gapped
    validate_supported_hypervisors validate_os_hypervisor_combinations validate_os_version
    validate_firmware
checked_options = refl

check_options_sound_example : IsAccepted checked
check_options_sound_example = check_options_sound raw_ubuntu checked_options

check_options_complete_example : check_options checked ≡ ok checked
check_options_complete_example = check_options_complete checked check_options_sound_example

check_options_idem_example : check_options checked ≡ ok checked
check_options_idem_example = check_options_idem raw_ubuntu checked_options

validated_inputs :
    validate_inputs inputs no_flags raw_ubuntu ≡ ok (record checked { os_version = "2004" })
unfolding validate_inputs config_path load_config load_files normalise to_lower replace_all
validated_inputs = rw checked_options refl

validate_inputs_sound_example : IsReady (record checked { os_version = "2004" })
validate_inputs_sound_example = validate_inputs_sound inputs no_flags raw_ubuntu validated_inputs

validate_firmware_iff_example :
    (validate_firmware "efi" "redhat" "9" "baremetal" ≡ ok tt)
    ↔ FirmwareAllowed "efi" "redhat" "9" "baremetal"
validate_firmware_iff_example = validate_firmware_iff "efi" "redhat" "9" "baremetal"

abbrev file : String → File
file name = record {
  source = name;
  destination = name;
  owner = "root";
  group = "root";
  mode = pos 420;
}

same_files_provided_iff_example :
    (same_files_provided (file "a" ∷ file "b" ∷ []) (file "b" ∷ file "a" ∷ []) ≡ true)
    ↔ ((f : File) → count f (file "a" ∷ file "b" ∷ []) ≡ count f (file "b" ∷ file "a" ∷ []))
same_files_provided_iff_example =
    same_files_provided_iff (file "a" ∷ file "b" ∷ []) (file "b" ∷ file "a" ∷ [])

abbrev built : BuildOptions
built = record checked { os_version = "2004" }

build_command-Runs_example : Runs "project" built (build_command "project" built)
build_command-Runs_example =
    build_command-Runs "project" inputs no_flags raw_ubuntu validated_inputs

-- A release whose version has that of the second as a part, listed first.
abbrev listed : List EksaRelease
listed =
    record { version = "v0.18.0-dev"; bundle_manifest_url = "dev.yaml" }
    ∷ record { version = "v0.18.0"; bundle_manifest_url = "prod.yaml" }
    ∷ []

selected : bundle_url_of "v0.18.0" listed ≡ some "prod.yaml"
unfolding bundle_url_of find_release contains has_prefix strip_prefix
selected = refl

bundle_url_of-Chosen_example : Chosen "v0.18.0" listed "prod.yaml"
bundle_url_of-Chosen_example = bundle_url_of-Chosen "v0.18.0" listed "prod.yaml" selected

not_selected : bundle_url_of "v0.19" listed ≡ none
unfolding bundle_url_of find_release contains has_prefix strip_prefix
not_selected = refl

bundle_url_of-none_example :
    NonePass (is_version "v0.19") listed × NonePass (has_part "v0.19") listed
bundle_url_of-none_example = bundle_url_of-none "v0.19" listed not_selected

-- Two files for an AMI, none of them a default file
abbrev two_given : AdditionalFilesConfig
two_given = record {
  file_vars = record {
    additional_files = "true";
    additional_files_list = file "a" ∷ file "b" ∷ [];
  };
  files_ansible_config = record {
    ansible_extra_vars = "";
    custom_role = "";
    custom_role_names = "";
  };
}

abbrev sample_ami : AmiConfig
sample_ami = default_ami_config "2204"
