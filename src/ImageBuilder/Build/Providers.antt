-- ===== src/ImageBuilder/Build/Providers.antt =====
-- builder/builder.go: the part of `BuildImage` for each hypervisor. The messages of the errors that end
-- the process leave out the kind of the configuration.
use mathlib.Core.Option
use eks_anywhere_build_tooli.Prelude.{
  String, ◌<>◌, Option, none, some, List, [], ◌∷◌, ◌++◌, if◌then◌else◌, string_eq, ◌==◌, nat_eq,
  replace_all, ◌⟨/⟩◌,
}
use eks_anywhere_build_tooli.Prelude.System.{
  Program, ◌>>=◌, ◌>>◌, lift, wrapped, or_exit, run, write_file,
}
use eks_anywhere_build_tooli.Prelude.Outcome.{Outcome, ok}
use eks_anywhere_build_tooli.ImageBuilder.Types.{
  RhsmConfig, RhelConfig, VsphereConfig, BaremetalConfig, CloudstackConfig, NutanixConfig,
  AmiConfig, BuildOptions,
}
use eks_anywhere_build_tooli.ImageBuilder.Constants.{
  redhat, vsphere, baremetal, nutanix, cloudstack, ami,
}
use eks_anywhere_build_tooli.ImageBuilder.Load.{deref, default_ami_manifest_output}
use eks_anywhere_build_tooli.ImageBuilder.Build.Names.{
  packer_vsphere_config_file, packer_baremetal_config_file, packer_nutanix_config_file,
  packer_cloudstack_config_file, packer_ami_config_file, eks_distro_manifest_file_name_format,
  eks_anywhere_bundles_file_name_format, eksa_bundles_url_env_var, eksd_manifest_url_env_var,
  rhel_username_env_var, rhel_password_env_var, rhel_image_url_nutanix_env_var,
  packer_type_var_files_env_var, clone_url_env_var,
}
use eks_anywhere_build_tooli.ImageBuilder.Build.Setup.{
  execute_make_build_command, get_manifest_root, Setup,
}
use eks_anywhere_build_tooli.ImageBuilder.Build.Bundle.{map_ok}
use eks_anywhere_build_tooli.ImageBuilder.Build.Commands.{
  build_command, variable, rhsm_of, redhat_env_vars, Access,
}

-- `filepath.Join` cleans the two slashes behind `file:` away.
unfoldable pub get_air_gap_cmd_env_vars : String → String → String → Program (List String)
get_air_gap_cmd_env_vars clone_url version release_branch = do
  manifest_root ← get_manifest_root
  let root = "file:" <> manifest_root
  lift (
      ok (
        variable eksa_bundles_url_env_var
          (root ⟨/⟩ replace_all eks_anywhere_bundles_file_name_format "%s" version)
        ∷ variable eksd_manifest_url_env_var
            (root ⟨/⟩ replace_all eks_distro_manifest_file_name_format "%s" release_branch)
        ∷ variable clone_url_env_var clone_url
        ∷ []))

-- Where the image is found when it is built, a glob, and where it is moved to; both are empty where
-- nothing is moved.
pub record Output : Type 0 where
  pub glob_pattern : String
  pub artifact_path : String

abbrev pub no_output : Output
no_output = record { glob_pattern = ""; artifact_path = "" }

abbrev pub artifact : String → BuildOptions → String → String
artifact cwd o extension =
    cwd ⟨/⟩ (o.os <> "-" <> o.os_version <> "-kube-" <> o.release_channel <> extension)

-- A configuration with the subscription that it gets, if it gets one
abbrev set_rhsm : Option RhsmConfig → RhelConfig → RhelConfig
set_rhsm none rhel = rhel
set_rhsm (some rhsm) rhel = record rhel { rhsm = rhsm }

abbrev pub vsphere_access : VsphereConfig → Access
vsphere_access c = record { air_gap = c.air_gap; rhel = c.rhel; proxy = c.proxy }

abbrev pub baremetal_access : BaremetalConfig → Access
baremetal_access c = record { air_gap = c.air_gap; rhel = c.rhel; proxy = c.proxy }

abbrev pub nutanix_access : NutanixConfig → Access
nutanix_access c = record { air_gap = c.air_gap; rhel = c.rhel; proxy = c.proxy }

abbrev pub cloudstack_access : CloudstackConfig → Access
cloudstack_access c = record { air_gap = c.air_gap; rhel = c.rhel; proxy = c.proxy }

-- `json.Marshal` of a pointer
abbrev encode_pointer : {A : Type 0} → (A → Outcome String) → Option A → Outcome String
encode_pointer encode none = ok "null"
encode_pointer encode (some a) = encode a

-- An error ends the process, with a message.
abbrev pub fatally : {A : Type 0} → String → Program A → Program A
fatally message m = or_exit (wrapped message m)

-- The variable for the file of a configuration that there is
abbrev file_var : {A : Type 0} → String → Option A → List String
file_var file none = []
file_var file (some c) = variable packer_type_var_files_env_var file ∷ []

module _ (s : Setup) (o : BuildOptions) where
  -- The variables of an air-gapped build
  unfoldable pub air_gap_env_vars : String → Option Access → Program (List String)
  air_gap_env_vars version access =
      if o.air_gapped
      then (lift (deref access) >>= λ a.
          fatally "Error getting air gapped env variables"
            (get_air_gap_cmd_env_vars a.air_gap.image_builder_repo_url version o.release_channel))
      else lift (ok [])

  unfoldable pub write_config : String → Outcome String → Program (Unit {0})
  write_config path encoded = do
    text ← fatally "Error marshalling config data" (lift encoded)
    fatally "Error writing config file to packer" (run (write_file path text 420))

  unfoldable pub make_image : String → List String → Program (Unit {0})
  make_image project_path env_vars =
      fatally "Error executing image-builder"
        (execute_make_build_command (build_command project_path o) env_vars)

  unfoldable pub build_vsphere : String → String → String → List String → Program Output
  build_vsphere cwd path version env_vars = do
    let access = Option.map vsphere_access o.vsphere_config
    air_gap ← air_gap_env_vars version access
    rhsm ← or_exit (lift (rhsm_of s o access))
    let config =
        Option.map {A = VsphereConfig} (λ c. record c { rhel = set_rhsm rhsm c.rhel })
          o.vsphere_config
    write_config (path ⟨/⟩ packer_vsphere_config_file) (encode_pointer s.encode_vsphere config)
    rhel ← lift (redhat_env_vars s o access)
    make_image path (env_vars ++ air_gap ++ rhel)
    lift (ok (record { glob_pattern = "output/*.ova"; artifact_path = artifact cwd o ".ova" }))

  abbrev write_baremetal : String → Option RhsmConfig → Option BaremetalConfig → Program (Unit {0})
  write_baremetal file rhsm none = lift (ok tt)
  write_baremetal file rhsm (some c) =
      write_config file (s.encode_baremetal (record c { rhel = set_rhsm rhsm c.rhel }))

  -- The configuration is written, and named in the variables, if there is one.
  unfoldable pub build_baremetal : String → String → String → List String → Program Output
  build_baremetal cwd path version env_vars = do
    let access = Option.map baremetal_access o.baremetal_config
    air_gap ← air_gap_env_vars version access
    rhsm ← or_exit (lift (rhsm_of s o access))
    let file = path ⟨/⟩ packer_baremetal_config_file
    write_baremetal file rhsm o.baremetal_config
    rhel ← lift (redhat_env_vars s o access)
    make_image path (env_vars ++ air_gap ++ rhel ++ file_var file o.baremetal_config)
    lift (ok (record { glob_pattern = "output/*.gz"; artifact_path = artifact cwd o ".gz" }))

  -- The variables of Nutanix for Red Hat
  abbrev nutanix_rhel_vars : NutanixConfig → List String
  nutanix_rhel_vars c =
      variable rhel_username_env_var c.rhel.rhel_username
      ∷ variable rhel_password_env_var c.rhel.rhel_password
      ∷ variable rhel_image_url_nutanix_env_var c.image_url
      ∷ []

  unfoldable pub build_nutanix : String → String → String → List String → Program Output
  build_nutanix cwd path version env_vars = do
    let access = Option.map nutanix_access o.nutanix_config
    rhsm ← or_exit (lift (rhsm_of s o access))
    air_gap ← air_gap_env_vars version access
    let config =
        Option.map {A = NutanixConfig} (λ c. record c { rhel = set_rhsm rhsm c.rhel })
          o.nutanix_config
    let file = path ⟨/⟩ packer_nutanix_config_file
    write_config file (encode_pointer s.encode_nutanix config)
    rhel ←
        if o.os == redhat
        then lift (map_ok nutanix_rhel_vars (deref o.nutanix_config))
        else lift (ok [])
    make_image path (env_vars ++ air_gap ++ rhel ++ file_var file o.nutanix_config)
    c ← lift (deref o.nutanix_config)
    lift (
        ok (
          if c.image_export == "true"
          then record { glob_pattern = "*.img"; artifact_path = artifact cwd o ".img" }
          else no_output))

  -- The configuration is changed before it is looked at, so a nil one is a panic.
  unfoldable pub build_cloudstack : String → String → String → List String → Program Output
  build_cloudstack cwd path version env_vars = do
    let access = Option.map cloudstack_access o.cloudstack_config
    air_gap ← air_gap_env_vars version access
    rhsm ← or_exit (lift (rhsm_of s o access))
    c ← lift (deref o.cloudstack_config)
    let file = path ⟨/⟩ packer_cloudstack_config_file
    write_config file (
        s.encode_cloudstack
          (record c { rhel = set_rhsm rhsm c.rhel; ansible_user_vars = "provider=cloudstack" }))
    rhel ← lift (redhat_env_vars s o access)
    make_image path
        (env_vars ++ air_gap ++ rhel ++ variable packer_type_var_files_env_var file ∷ [])
    lift (
        ok (record {
          glob_pattern = if o.os == redhat then "output/rhel-*/rhel-*" else "";
          artifact_path = artifact cwd o ".qcow2";
        }))

  abbrev write_ami : String → String → Option AmiConfig → Program (Unit {0})
  write_ami cwd file none = lift (ok tt)
  write_ami cwd file (some c) = write_config file (
      s.encode_ami (
        if c.manifest_output == default_ami_manifest_output
        then record c { manifest_output = cwd ⟨/⟩ c.manifest_output }
        else c))

  unfoldable pub build_ami : String → String → List String → Program Output
  build_ami cwd path env_vars = do
    write_ami cwd (path ⟨/⟩ packer_ami_config_file) o.ami_config
    make_image path env_vars
    lift (ok no_output)

  unfoldable pub build_for : String → String → String → List String → Program Output
  build_for cwd path version env_vars =
      if o.hypervisor == vsphere
      then build_vsphere cwd path version env_vars
      else if o.hypervisor == baremetal
      then build_baremetal cwd path version env_vars
      else if o.hypervisor == nutanix
      then build_nutanix cwd path version env_vars
      else if o.hypervisor == cloudstack
      then build_cloudstack cwd path version env_vars
      else if o.hypervisor == ami
      then build_ami cwd path env_vars
      else lift (ok no_output)
