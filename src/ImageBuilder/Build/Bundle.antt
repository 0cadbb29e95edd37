-- ===== src/ImageBuilder/Build/Bundle.antt =====
-- builder/utils.go: which release and which bundle a build uses.
use eks_anywhere_build_tooli.Prelude.{
  String, ◌<>◌, Bool, not, Option, none, some, List, [], ◌∷◌, if◌then◌else◌, string_eq, ◌==◌,
  nat_eq, contains, replace_all, ◌⟨/⟩◌,
}
use eks_anywhere_build_tooli.Prelude.System.{
  Program, ◌>>=◌, ◌>>◌, lift, try, wrapped, attempt, answered, read_file, lookup_env, Answer, good,
  absent, bad,
}
use eks_anywhere_build_tooli.Prelude.Outcome.{wrap, Outcome, ok, err, fatal, crash, unfinished}
use eks_anywhere_build_tooli.ImageBuilder.Types.{AirGappedConfig, BuildOptions}
use eks_anywhere_build_tooli.ImageBuilder.Constants.{vsphere, baremetal, nutanix, cloudstack}
use eks_anywhere_build_tooli.ImageBuilder.Load.{deref}
use eks_anywhere_build_tooli.ImageBuilder.Build.Names.{
  build_tooling_repo_url, prod_eksa_release_manifest_url, dev_eksa_release_manifest_url,
  dev_branch_eksa_release_manifest_url, eks_anywhere_manifest_file_name,
  eks_anywhere_bundles_file_name_format, branch_name_env_var, codebuild_source_directory_env_var,
  eksa_use_dev_release_env_var, main_branch,
}
use eks_anywhere_build_tooli.ImageBuilder.Build.Setup.{
  env_text, clone_repo, checkout_repo, get_manifest_root, read_file_from_url, cleanup, EksaRelease,
  VersionsBundle, Setup,
}

abbrev pub is_true : String → Bool
is_true text = text == "true"

abbrev branch_or_main : Answer → String
branch_or_main (good text) = text
branch_or_main absent = main_branch
branch_or_main (bad e) = main_branch

-- The manifest of a branch of the development releases
unfoldable pub dev_manifest_url : String → String
dev_manifest_url branch_name =
    if not (branch_name == main_branch)
    then replace_all dev_branch_eksa_release_manifest_url "%s" branch_name
    else dev_eksa_release_manifest_url

-- The version of the release: that of a development build, of the options, of the program's own
-- build, or the latest one.
unfoldable pub choose_version : Bool → String → String → String → String
choose_version use_dev_release from_options from_build latest =
    if use_dev_release
    then latest
    else if not (from_options == "")
    then from_options
    else if not (from_build == "")
    then from_build
    else latest

-- The URL of the first release that passes a test
unfoldable pub find_release : (String → Bool) → List EksaRelease → Option String
find_release test [] = none
find_release test (r ∷ releases) =
    let rest = find_release test releases in
    if test r.version then some r.bundle_manifest_url else rest

-- The release of this very version, or the first whose version has it as a part.
unfoldable pub bundle_url_of : String → List EksaRelease → Option String
bundle_url_of version releases = elim (find_release (λ v. v == version) releases) [
  | some url ↦ some url
  | none ↦ find_release (λ v. contains v version) releases
]

abbrev found_url : String → Option String → Outcome String
found_url version none = err ("version " <> version <> " is not a valid EKS-A release")
found_url version (some url) = ok url

abbrev pub map_ok {ℓ κ} : {A : Type ℓ} {B : Type κ} → (A → B) → Outcome A → Outcome B
map_ok f (ok a) = ok (f a)
map_ok f (err e) = err e
map_ok f (fatal e) = fatal e
map_ok f crash = crash
map_ok f unfinished = unfinished

-- The air-gapped part of the hypervisor's configuration, which may be nil; an AMI has none.
unfoldable pub air_gap_of : BuildOptions → Outcome (Option AirGappedConfig)
air_gap_of o =
    if o.hypervisor == vsphere
    then map_ok (λ c. some c.air_gap) (deref o.vsphere_config)
    else if o.hypervisor == baremetal
    then map_ok (λ c. some c.air_gap) (deref o.baremetal_config)
    else if o.hypervisor == nutanix
    then map_ok (λ c. some c.air_gap) (deref o.nutanix_config)
    else if o.hypervisor == cloudstack
    then map_ok (λ c. some c.air_gap) (deref o.cloudstack_config)
    else ok none

module _ (s : Setup) where
  -- An error of the manifest's directory gives an empty URL and no error.
  abbrev file_url : Outcome String → Outcome String
  file_url (ok manifest_root) =
      ok ("file://" <> manifest_root <> "/" <> eks_anywhere_manifest_file_name)
  file_url (err e) = ok ""
  file_url (fatal e) = fatal e
  file_url crash = crash
  file_url unfinished = unfinished

  unfoldable pub get_eks_a_releases_manifest_url : Bool → Program String
  get_eks_a_releases_manifest_url airgapped = do
    use_dev ← env_text eksa_use_dev_release_env_var
    if not (is_true use_dev)
        then (if not (s.eksa_release_manifest == "")
            then lift (ok s.eksa_release_manifest)
            else if airgapped
            then (try get_manifest_root >>= λ root. lift (file_url root))
            else lift (ok prod_eksa_release_manifest_url))
        else (answered (lookup_env branch_name_env_var) >>= λ branch.
            lift (ok (dev_manifest_url (branch_or_main branch))))

  module _ (o : BuildOptions) where
    -- The manifest of the releases, from the tarball's files or from its URL
    unfoldable pub read_releases_manifest : String → String → Program String
    read_releases_manifest manifest_dir url =
        if not (o.manifest_tarball == "")
        then attempt (read_file (manifest_dir ⟨/⟩ eks_anywhere_manifest_file_name))
        else read_file_from_url url

    unfoldable pub read_bundle_manifest : String → String → String → Program String
    read_bundle_manifest manifest_dir version url =
        if o.manifest_tarball == ""
        then read_file_from_url url
        else attempt (
            read_file
              (manifest_dir ⟨/⟩ replace_all eks_anywhere_bundles_file_name_format "%s" version))

    -- The bundles, and the version of the release
    unfoldable pub get_bundle : Program (List VersionsBundle × String)
    get_bundle = do
      manifest_dir ← get_manifest_root
      url ← get_eks_a_releases_manifest_url o.air_gapped
      contents ← read_releases_manifest manifest_dir url
      releases ← lift (
          wrap ("failed to unmarshal release manifest from [" <> url <> "]")
            (s.decode_releases contents))
      use_dev ← env_text eksa_use_dev_release_env_var
      let version =
          choose_version (is_true use_dev) o.eksa_release_version s.eksa_version
            releases.latest_version
      bundle_url ← lift (found_url version (bundle_url_of version releases.releases))
      bundle_contents ← read_bundle_manifest manifest_dir version bundle_url
      bundles ← lift (
          wrap ("failed to unmarshal bundles manifest from [" <> bundle_url <> "]")
            (s.decode_bundles bundle_contents))
      lift (ok (bundles, version))

    -- `bundles.Spec.VersionsBundles[0].EksD.GitCommit`
    abbrev first_commit_of : List VersionsBundle → Outcome String
    first_commit_of [] = crash
    first_commit_of (bundle ∷ bundles) = ok bundle.git_commit

    -- The repository of an air-gapped build is that of the configuration, which may be nil.
    abbrev repo_url_in : Option AirGappedConfig → String
    repo_url_in none = build_tooling_repo_url
    repo_url_in (some config) = config.eks_a_build_tooling_repo_url

    unfoldable pub get_build_tooling_repo_url : Outcome String
    get_build_tooling_repo_url =
        if o.air_gapped then map_ok repo_url_in (air_gap_of o) else ok build_tooling_repo_url

    -- The bundles and the version of the release; the repository is at the commit of the first one.
    unfoldable pub prep_build_tooling_repo : String → Program (List VersionsBundle × String)
    prep_build_tooling_repo build_tooling_repo_path = do
      if o.force then cleanup s build_tooling_repo_path else lift (ok tt)
      (bundles, version) ← wrapped "Error getting git commit from bundle" get_bundle
      commit ← lift (first_commit_of bundles)
      if not s.in_codebuild
          then (lift get_build_tooling_repo_url >>= λ url.
              wrapped "Error cloning build tooling repo" (clone_repo url build_tooling_repo_path)
              >>= λ _.
                  wrapped ("Error checking out build tooling repo at commit " <> commit)
                    (checkout_repo build_tooling_repo_path commit))
          else (env_text codebuild_source_directory_env_var >>= λ path. lift (ok tt))
      lift (ok (bundles, version))
