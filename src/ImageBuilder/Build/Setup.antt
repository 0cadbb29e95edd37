-- ===== src/ImageBuilder/Build/Setup.antt =====
-- builder/utils.go: the commands of a build, and what it takes from outside: the variables of the
-- package, the formats of its files, and the types of the releases of EKS Anywhere and EKS Distro.
use eks_anywhere_build_tooli.Prelude.{
  ℕ, String, ◌<>◌, Bool, List, [], ◌∷◌, if◌then◌else◌, replace_all, split, trim_space, ◌⟨/⟩◌,
}
use eks_anywhere_build_tooli.Prelude.System.{
  Program, ◌>>=◌, ◌>>◌, lift, wrapped, or_exit, attempt, run, ignore, path_exists, answered, Call,
  exec, exec_env, getwd, getenv, read_file, write_file, create, mkdir_all, remove_all, remove_file,
  http_get, copy_to, Answer, good, absent, bad,
}
use eks_anywhere_build_tooli.Prelude.Outcome.{wrap, Outcome, ok}
use eks_anywhere_build_tooli.ImageBuilder.Types.{
  VsphereConfig, BaremetalConfig, CloudstackConfig, NutanixConfig, AmiConfig, FileVars,
  FilesAnsibleConfig,
}
use eks_anywhere_build_tooli.ImageBuilder.Build.Names.{
  manifests_dir_name, supported_release_branches_file_name, eksd_latest_releases_file_name,
  codebuild_source_directory_env_var,
}

-- A release of EKS Anywhere, and the releases of its manifest
pub record EksaRelease : Type 0 where
  pub version : String
  pub bundle_manifest_url : String

pub record EksaReleases : Type 0 where
  pub latest_version : String
  pub releases : List EksaRelease

-- A bundle of EKS Anywhere, with the fields of its EKS Distro part
pub record VersionsBundle : Type 0 where
  pub kube_version : String
  pub git_commit : String
  pub eks_d_release_url : String
  pub containerd_uri : String
  pub crictl_uri : String
  pub etcdadm_uri : String

pub record EksdAsset : Type 0 where
  pub name : String
  pub archive_uri : String

pub record EksdComponent : Type 0 where
  pub name : String
  pub git_tag : String
  pub assets : List EksdAsset

-- An entry of a tarball, and how the reading of a tarball ends
pub record TarEntry : Type 0 where
  pub name : String
  pub mode : ℕ

pub record TarFile : Type 0 where
  pub entries : List TarEntry
  pub at_end : Outcome (Unit {0})

pub record Setup : Type 0 where
  -- `codebuild == "true"`, and the variables that are set when the program is built
  pub in_codebuild : Bool
  pub eksa_version : String
  pub eksa_release_manifest : String
  -- JSON and YAML
  pub encode_vsphere : VsphereConfig → Outcome String
  pub encode_baremetal : BaremetalConfig → Outcome String
  pub encode_nutanix : NutanixConfig → Outcome String
  pub encode_cloudstack : CloudstackConfig → Outcome String
  pub encode_ami : AmiConfig → Outcome String
  pub encode_files : FilesAnsibleConfig → Outcome String
  pub encode_file_vars : FileVars → Outcome String
  pub decode_releases : String → Outcome EksaReleases
  pub decode_bundles : String → Outcome (List VersionsBundle)
  pub decode_components : String → Outcome (List EksdComponent)
  -- each release branch of EKS Distro with its number
  pub decode_eks_d_releases : String → Outcome (List (String × String))
  -- the host and the port of a URL, and its path
  pub host_and_port : String → Outcome (String × String)
  pub url_path : String → Outcome String
  pub join_url : String → String → Outcome String
  pub untar : String → TarFile
  -- the files of a directory that are no directories, and those that a glob gives
  pub decode_directory : String → List String
  pub decode_glob : String → List String
  pub dir : String → String
  -- `filepath.Match`
  pub matches : String → String → Outcome Bool

abbrev pub bash : String → List String
bash sequence = ("bash" ∷ "-c" ∷ sequence ∷ [])

-- `os.Getenv`
unfoldable pub env_text : String → Program String
env_text name = do
  value ← answered (getenv name)
  lift (ok (elim value [ good text ↦ text | _ ↦ "" ]))

abbrev pub exec_command_with_stream_output : Call → Program (Unit {0})
exec_command_with_stream_output c = wrapped "failed to run command" (run c)

unfoldable pub clone_repo : String → String → Program (Unit {0})
clone_repo clone_url destination =
    exec_command_with_stream_output (exec (bash ("git clone " <> clone_url <> " " <> destination)))

unfoldable pub checkout_repo : String → String → Program (Unit {0})
checkout_repo git_root commit =
    exec_command_with_stream_output (exec (bash ("git -C " <> git_root <> " checkout " <> commit)))

unfoldable pub execute_make_build_command : String → List String → Program (Unit {0})
execute_make_build_command build_command env_vars =
    exec_command_with_stream_output (exec_env env_vars (bash build_command))

unfoldable pub get_manifest_root : Program String
get_manifest_root = do
  cwd ← wrapped "error retrieving current working directory" (attempt getwd)
  lift (ok (cwd ⟨/⟩ manifests_dir_name))

unfoldable pub read_file_from_url : String → Program String
read_file_from_url url =
    wrapped ("failed reading file from URL [" <> url <> "]") (attempt (http_get url))

-- The error of the call that makes the leading directories is dropped.
unfoldable pub download_file : (String → String) → String → String → Program (Unit {0})
download_file dir path url = do
  run (http_get url)
  exists ← path_exists (dir path)
  if exists then lift (ok tt) else ignore (mkdir_all (dir path) 493)
  run (create path)
  run (copy_to path)

-- The file gets the permissions 0755.
unfoldable pub replace_string_in_file : String → String → String → Program (Unit {0})
replace_string_in_file file_path old_string new_string = do
  contents ← attempt (read_file file_path)
  run (remove_file file_path)
  run (write_file file_path (replace_all contents old_string new_string) 493)

module _ (s : Setup) where
  unfoldable pub cleanup : String → Program (Unit {0})
  cleanup build_tooling_dir =
      if s.in_codebuild
      then lift (ok tt)
      else or_exit
          (wrapped "Error cleaning up build tooling dir" (run (remove_all build_tooling_dir)))

  unfoldable pub get_build_tooling_path : String → Program String
  get_build_tooling_path cwd =
      if s.in_codebuild
      then env_text codebuild_source_directory_env_var
      else lift (ok (cwd ⟨/⟩ "eks-anywhere-build-tooling"))

  unfoldable pub get_repo_root : Program String
  get_repo_root = do
    cwd ← wrapped "error retrieving current working directory" (attempt getwd)
    path ← get_build_tooling_path cwd
    output ←
        wrapped "failed to run command"
          (attempt (exec ("git" ∷ "-C" ∷ path ∷ "rev-parse" ∷ "--show-toplevel" ∷ [])))
    lift (ok (trim_space output))

  -- The errors of these two reads are dropped; there is no text then.
  abbrev text_or_none : Answer → String
  text_or_none (good text) = text
  text_or_none absent = ""
  text_or_none (bad e) = ""

  unfoldable pub supported_release_branches : Program (List String)
  supported_release_branches = do
    path ← or_exit get_repo_root
    answer ← answered (read_file (path ⟨/⟩ supported_release_branches_file_name))
    lift (ok (split (text_or_none answer) "\n"))

  unfoldable pub get_eks_d_release_branches_with_number : Program (List (String × String))
  get_eks_d_release_branches_with_number = do
    path ← or_exit get_repo_root
    answer ← answered (read_file (path ⟨/⟩ eksd_latest_releases_file_name))
    lift (
        wrap "unmarshalling EKSD_LATEST_RELEASES file"
          (s.decode_eks_d_releases (text_or_none answer)))
