-- ===== src/ImageBuilder/Build/Manifests.antt =====
-- builder/manifests.go: the manifests that a build without a network reads.
use eks_anywhere_build_tooli.Prelude.{String, ◌<>◌, false, if◌then◌else◌, replace_all, ◌⟨/⟩◌}
use eks_anywhere_build_tooli.Prelude.System.{
  Program, ◌>>=◌, ◌>>◌, lift, try, wrapped, attempt, run, ignore, is_good, answered, for_each,
  getwd, read_file, create, mkdir_all, remove_all, chmod, read_dir, open_file, copy_to,
}
use eks_anywhere_build_tooli.Prelude.Outcome.{Outcome, ok, err, fatal, crash, unfinished}
use eks_anywhere_build_tooli.ImageBuilder.Types.{BuildOptions}
use eks_anywhere_build_tooli.ImageBuilder.Build.Names.{
  eks_distro_prod_domain, eks_anywhere_assets_prod_domain, eks_distro_manifest_file_name_format,
  eks_anywhere_manifest_file_name, eks_anywhere_bundles_file_name_format, manifests_tarball_name,
}
use eks_anywhere_build_tooli.ImageBuilder.Build.Setup.{
  get_manifest_root, download_file, replace_string_in_file, cleanup, get_build_tooling_path,
  get_eks_d_release_branches_with_number, TarEntry, Setup,
}
use eks_anywhere_build_tooli.ImageBuilder.Build.Bundle.{
  get_eks_a_releases_manifest_url, prep_build_tooling_repo,
}

module _ (s : Setup) where
  unfoldable pub eks_d_manifest_url : String → String → String
  eks_d_manifest_url branch number =
      "https://" <> eks_distro_prod_domain <> "/kubernetes-" <> branch <> "/kubernetes-" <> branch
      <> "-eks-" <> number <> ".yaml"

  unfoldable pub download_eks_d_manifests : String → Program (Unit {0})
  download_eks_d_manifests output_path = do
    branches ← get_eks_d_release_branches_with_number s
    run (mkdir_all output_path 493)
    for_each
        (λ (branch, number).
          download_file s.dir
            (output_path ⟨/⟩ replace_all eks_distro_manifest_file_name_format "%s" branch)
            (eks_d_manifest_url branch number))
        branches

  unfoldable pub download_eks_a_manifests : String → Program (Unit {0})
  download_eks_a_manifests output_path = do
    url ← get_eks_a_releases_manifest_url s false
    run (mkdir_all output_path 493)
    let path = output_path ⟨/⟩ eks_anywhere_manifest_file_name
    download_file s.dir path url
    text ← attempt (read_file path)
    releases ← lift (s.decode_releases text)
    for_each
        (λ r.
          download_file s.dir
            (output_path ⟨/⟩ replace_all eks_anywhere_bundles_file_name_format "%s" r.version)
            r.bundle_manifest_url)
        releases.releases

  unfoldable pub extract_tar_entry : String → TarEntry → Program (Unit {0})
  extract_tar_entry path entry = do
    run (create (path ⟨/⟩ entry.name))
    run (copy_to (path ⟨/⟩ entry.name))
    ignore (chmod (path ⟨/⟩ entry.name) entry.mode)

  unfoldable pub extract_tarball : String → String → Program (Unit {0})
  extract_tarball tarball path = do
    text ← attempt (open_file tarball)
    run (remove_all path)
    run (mkdir_all path 493)
    for_each (extract_tar_entry path) (s.untar text).entries
    lift (s.untar text).at_end

  unfoldable pub prep_manifest : String → String → String → String → Program (Unit {0})
  prep_manifest manifest_dir private_eks_d_domain private_eks_a_domain name = do
    is_eks_d ← lift (s.matches (replace_all eks_distro_manifest_file_name_format "%s" "*") name)
    if is_eks_d
        then replace_string_in_file (manifest_dir ⟨/⟩ name) ("https://" <> eks_distro_prod_domain)
            private_eks_d_domain
        else lift (ok tt)
    is_eks_a ← lift (s.matches (replace_all eks_anywhere_bundles_file_name_format "%s" "*") name)
    if is_eks_a
        then replace_string_in_file (manifest_dir ⟨/⟩ name)
            ("https://" <> eks_anywhere_assets_prod_domain) private_eks_a_domain
        else lift (ok tt)

  abbrev root_or_error : Outcome String → Outcome String
  root_or_error (ok root) = ok root
  root_or_error (err e) = err "Error retrieving manifest root"
  root_or_error (fatal e) = fatal e
  root_or_error crash = crash
  root_or_error unfinished = unfinished

  unfoldable pub extract_and_prep_manifest_tarball : String → String → String → Program (Unit {0})
  extract_and_prep_manifest_tarball tarball_file private_eks_d_domain private_eks_a_domain = do
    root ← try get_manifest_root
    manifest_dir ← lift (root_or_error root)
    wrapped "Error extracting tarball" (extract_tarball tarball_file manifest_dir)
    text ← attempt (read_dir manifest_dir)
    for_each (prep_manifest manifest_dir private_eks_d_domain private_eks_a_domain)
        (s.decode_directory text)

  -- The creation of the file ends the process in an error; the errors of the walk are dropped, and
  -- what it writes is one copy to the tarball.
  unfoldable pub create_tarball : String → String → Program (Unit {0})
  create_tarball file_name path = do
    created ← answered (create file_name)
    if is_good created then ignore (copy_to file_name) else lift crash

  unfoldable pub download_manifests : BuildOptions → Program (Unit {0})
  download_manifests o = do
    cwd ← wrapped "Error retrieving current working directory" (attempt getwd)
    path ← get_build_tooling_path s cwd
    bundles ← prep_build_tooling_repo s o path
    download_eks_d_manifests (cwd ⟨/⟩ "manifests")
    download_eks_a_manifests (cwd ⟨/⟩ "manifests")
    create_tarball manifests_tarball_name (cwd ⟨/⟩ "manifests")
    run (remove_all (cwd ⟨/⟩ "manifests"))
    cleanup s path
