-- ===== src/ImageBuilder/Build/Image.antt =====
-- builder/builder.go: `BuildImage`.
use eks_anywhere_build_tooli.Prelude.{
  String, ◌<>◌, Bool, ◌&&◌, Option, none, some, List, [], ◌∷◌, ◌++◌, map, if◌then◌else◌, string_eq,
  ◌==◌, nat_eq, ◌⟨/⟩◌,
}
use eks_anywhere_build_tooli.Prelude.System.{
  Program, ◌>>=◌, ◌>>◌, lift, or_exit, attempt, run, getwd, rename, glob,
}
use eks_anywhere_build_tooli.Prelude.Outcome.{Outcome, ok, crash}
use eks_anywhere_build_tooli.ImageBuilder.Types.{
  AirGappedConfig, File, AdditionalFilesConfig, BuildOptions,
}
use eks_anywhere_build_tooli.ImageBuilder.Build.Names.{
  image_builder_project_directory, image_builder_capi_directory,
  packer_additional_files_config_file, ansible_additional_files_custom_role,
  packer_additional_files_list, packer_additional_files_config_file_env_var,
}
use eks_anywhere_build_tooli.ImageBuilder.Build.Setup.{cleanup, get_build_tooling_path, Setup}
use eks_anywhere_build_tooli.ImageBuilder.Build.Bundle.{
  air_gap_of, get_eks_a_releases_manifest_url, prep_build_tooling_repo,
}
use eks_anywhere_build_tooli.ImageBuilder.Build.Manifests.{extract_and_prep_manifest_tarball}
use eks_anywhere_build_tooli.ImageBuilder.Build.Artifacts.{check_release_channel}
use eks_anywhere_build_tooli.ImageBuilder.Build.Commands.{
  variable, common_env_vars, verbosity_env_vars,
}
use eks_anywhere_build_tooli.ImageBuilder.Build.Providers.{fatally, write_config, build_for, Output}
use eks_anywhere_build_tooli.Prelude.Int.{same_int}

-- `==` of two files
unfoldable pub same_file : File → File → Bool
same_file f g =
    f.source == g.source
    && f.destination == g.destination
    && f.owner == g.owner
    && f.group == g.group
    && same_int f.mode g.mode

-- The source of a file behind the loop over the default files
unfoldable pub additional_source : String → File → List File → String → String
additional_source path file [] source = source
additional_source path file (default ∷ defaults) source =
    additional_source path file defaults
      (if same_file file default then path ⟨/⟩ source else source)

-- `defaults` are the default files of an AMI as `ValidateInputs` leaves them.
module _ (s : Setup) (o : BuildOptions) (defaults : List File) where
  -- `outputImageGlob[0]`
  abbrev first_file : List String → Outcome String
  first_file [] = crash
  first_file (file ∷ files) = ok file

  unfoldable pub move_image : String → Output → Program (Unit {0})
  move_image upstream_path output =
      if output.artifact_path == ""
      then lift (ok tt)
      else (fatally "Error getting glob for output files"
            (attempt (glob (upstream_path ⟨/⟩ output.glob_pattern)))
          >>= λ text. lift (first_file (s.decode_glob text)) >>= λ file.
              fatally "Error moving output file to current working directory"
                (run (rename file output.artifact_path)))

  -- The domains of the private servers of an air-gapped build, empty for an AMI
  abbrev domains : Option AirGappedConfig → String × String
  domains none = ("", "")
  domains (some c) = (c.private_server_eks_d_domain_url, c.private_server_eks_a_domain_url)

  unfoldable pub prep_air_gapped : Program (Unit {0})
  prep_air_gapped =
      if o.air_gapped
      then (lift (air_gap_of o) >>= λ config.
          let (eks_d, eks_a) = domains config in
          or_exit (extract_and_prep_manifest_tarball s o.manifest_tarball eks_d eks_a))
      else lift (ok tt)

  -- The files that a build adds: their source is in the project if they are defaults of an AMI.
  unfoldable pub additional_file : String → File → File
  additional_file path file = record file {
    source = additional_source path file defaults file.source;
  }

  abbrev files_of : String → AdditionalFilesConfig → List File
  files_of path config = elim o.ami_config [
    | none ↦ config.additional_files_list
    | some c ↦ map (additional_file path) config.additional_files_list
  ]

  -- The variable for the files, when their two configurations are written
  unfoldable pub write_files_config : String → AdditionalFilesConfig → Program (List String)
  write_files_config path config = do
    let list_file = path ⟨/⟩ packer_additional_files_list
    let config_file = path ⟨/⟩ packer_additional_files_config_file
    write_config s o config_file (
        s.encode_files (record config.files_ansible_config {
          custom_role_names = path ⟨/⟩ ansible_additional_files_custom_role;
          ansible_extra_vars = "@" <> list_file;
        }))
    write_config s o list_file (
        s.encode_file_vars
          (record config.file_vars { additional_files_list = files_of path config }))
    lift (ok (variable packer_additional_files_config_file_env_var config_file ∷ []))

  abbrev files_vars : String → Option AdditionalFilesConfig → Program (List String)
  files_vars path none = lift (ok [])
  files_vars path (some config) = write_files_config path config

  unfoldable pub build_image : Program (Unit {0})
  build_image = do
    cwd ← fatally "Error retrieving current working directory" (attempt getwd)
    prep_air_gapped
    repo_path ← get_build_tooling_path s cwd
    (bundles, version) ← or_exit (prep_build_tooling_repo s o repo_path)
    check_release_channel s o repo_path
    let path = repo_path ⟨/⟩ image_builder_project_directory
    url ← or_exit (get_eks_a_releases_manifest_url s o.air_gapped)
    verbosity ← lift (verbosity_env_vars o.ansible_verbosity)
    files ← files_vars path o.files_config
    output ← build_for s o cwd path version (common_env_vars o version url ++ verbosity ++ files)
    move_image (path ⟨/⟩ image_builder_capi_directory) output
    cleanup s repo_path
