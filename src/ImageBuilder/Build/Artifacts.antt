-- ===== src/ImageBuilder/Build/Artifacts.antt =====
-- builder/artifacts.go: the artifacts that a build without a network needs.
use eks_anywhere_build_tooli.Prelude.{
  String, ◌<>◌, not, ◌||◌, List, [], ◌∷◌, if◌then◌else◌, string_eq, ◌==◌, nat_eq, trim_prefix,
  replace_all, ◌⟨/⟩◌,
}
use eks_anywhere_build_tooli.Prelude.System.{
  Program, ◌>>=◌, ◌>>◌, lift, wrapped, attempt, for_each, getwd,
}
use eks_anywhere_build_tooli.Prelude.Outcome.{wrap, Outcome, ok, fatal}
use eks_anywhere_build_tooli.ImageBuilder.Types.{BuildOptions}
use eks_anywhere_build_tooli.ImageBuilder.Checks.{slice_contains}
use eks_anywhere_build_tooli.ImageBuilder.Build.Names.{
  eks_anywhere_artifacts_dir_name, eks_distro_artifacts_dir_name, amd64,
}
use eks_anywhere_build_tooli.ImageBuilder.Build.Setup.{
  read_file_from_url, download_file, cleanup, get_build_tooling_path, supported_release_branches,
  VersionsBundle, EksdAsset, EksdComponent, Setup,
}
use eks_anywhere_build_tooli.ImageBuilder.Build.Bundle.{map_ok, prep_build_tooling_repo}

abbrev no_bundle : VersionsBundle
no_bundle = record {
  kube_version = "";
  git_commit = "";
  eks_d_release_url = "";
  containerd_uri = "";
  crictl_uri = "";
  etcdadm_uri = "";
}

-- The first bundle for a version of Kubernetes, and the zero value where there is none.
unfoldable pub bundle_for : String → List VersionsBundle → VersionsBundle
bundle_for kube_version [] = no_bundle
bundle_for kube_version (bundle ∷ bundles) =
    let rest = bundle_for kube_version bundles in
    if bundle.kube_version == kube_version then bundle else rest

abbrev pub eks_d_kube_artifacts : List String
eks_d_kube_artifacts =
    ("kube-apiserver.tar" ∷ "kube-scheduler.tar" ∷ "kube-controller-manager.tar" ∷ "kube-proxy.tar"
      ∷ "pause.tar" ∷ "coredns.tar" ∷ "etcd.tar" ∷ "kubeadm" ∷ "kubelet" ∷ "kubectl" ∷ [])

-- The base URL in the assets of the component `kubernetes`: that of the last API server of the
-- architecture, or the one that was found before.
unfoldable pub base_url_of_assets : String → List EksdAsset → String → String
base_url_of_assets arch [] base = base
base_url_of_assets arch (asset ∷ assets) base = base_url_of_assets arch assets (
    if asset.name == "bin/linux/" <> arch <> "/kube-apiserver.tar"
    then replace_all asset.archive_uri "/kube-apiserver.tar" ""
    else base)

module _ (s : Setup) where
  unfoldable pub get_artifact_file_path_from_url : String → Outcome String
  get_artifact_file_path_from_url artifact_url =
      map_ok (λ path. trim_prefix path "/") (s.url_path artifact_url)

  unfoldable pub download_artifact : String → String → Program (Unit {0})
  download_artifact output_path artifact_url = do
    path ← lift (
        wrap "failed to get artifacts path from url" (get_artifact_file_path_from_url artifact_url))
    download_file s.dir (output_path ⟨/⟩ path) artifact_url

  -- The artifacts are those of a map, which has no order.
  unfoldable pub download_eks_a_artifacts :
      String → String → List VersionsBundle → Program VersionsBundle
  download_eks_a_artifacts output_path kube_version bundles = do
    let bundle = bundle_for kube_version bundles
    for_each (download_artifact output_path)
        (bundle.containerd_uri ∷ bundle.crictl_uri ∷ bundle.etcdadm_uri ∷ [])
    lift (ok bundle)

  unfoldable pub download_asset : String → String → EksdComponent → EksdAsset → Program (Unit {0})
  download_asset output_path arch component asset =
      if asset.name == component.name <> "-linux-" <> arch <> "-" <> component.git_tag <> ".tar.gz"
      then download_artifact output_path asset.archive_uri
      else lift (ok tt)

  -- The loop over the components, with `eksDBaseUrl`
  unfoldable pub download_components :
      String → String → List EksdComponent → String → Program String
  download_components output_path arch [] base = lift (ok base)
  download_components output_path arch (component ∷ components) base = do
    if component.name == "etcd" || component.name == "cni-plugins"
        then for_each (download_asset output_path arch component) component.assets
        else lift (ok tt)
    download_components output_path arch components (
        if component.name == "kubernetes"
        then base_url_of_assets arch component.assets base
        else base)

  unfoldable pub download_kube_artifact : String → String → String → Program (Unit {0})
  download_kube_artifact output_path base_url artifact = do
    url ←
        lift (
          wrap ("failed to construct url for artifact " <> artifact) (s.join_url base_url artifact))
    download_artifact output_path url

  unfoldable pub download_eks_d_artifacts : String → String → String → Program (Unit {0})
  download_eks_d_artifacts output_path arch manifest_url = do
    text ← wrapped "failed to read manifest file from url" (read_file_from_url manifest_url)
    components ← lift (s.decode_components text)
    base ← download_components output_path arch components ""
    for_each (download_kube_artifact output_path base) eks_d_kube_artifacts

  unfoldable pub default_arch : String → String
  default_arch arch = if arch == "" then amd64 else arch

  -- A channel that is not supported ends the process, when the repository has been removed.
  unfoldable pub check_release_channel : BuildOptions → String → Program (Unit {0})
  check_release_channel o build_tooling_repo_path = do
    supported ← supported_release_branches s
    if not (slice_contains supported o.release_channel)
        then (cleanup s build_tooling_repo_path >>= λ _.
            lift (fatal "release-channel should be one of the supported ones"))
        else lift (ok tt)

  unfoldable pub download_artifacts : BuildOptions → Program (Unit {0})
  download_artifacts o = do
    let arch = default_arch o.arch
    cwd ← wrapped "Error retrieving current working directory" (attempt getwd)
    repo_path ← get_build_tooling_path s cwd
    (bundles, version) ← prep_build_tooling_repo s o repo_path
    check_release_channel o repo_path
    let eks_a_path = cwd ⟨/⟩ eks_anywhere_artifacts_dir_name
    let eks_d_path = cwd ⟨/⟩ eks_distro_artifacts_dir_name
    if o.force then cleanup s eks_a_path else lift (ok tt)
    if o.force then cleanup s eks_d_path else lift (ok tt)
    bundle ←
        wrapped "failed to download eks-a artifacts"
          (download_eks_a_artifacts eks_a_path (replace_all o.release_channel "-" ".") bundles)
    wrapped "failed to download eks-d artifacts"
        (download_eks_d_artifacts eks_d_path arch bundle.eks_d_release_url)
    cleanup s repo_path
