-- ===== src/VersionTracker/Constants.antt =====
-- tools/version-tracker/pkg/constants/constants.go
use eks_anywhere_build_tooli.Prelude.{ℕ, String, Bool, true, false, List, [], ◌∷◌}
use eks_anywhere_build_tooli.VersionTracker.Types.{ReleaseTarball, GoVersionSourceOfTruth}

abbrev pub base_repo_owner_envvar : String
base_repo_owner_envvar = "BASE_REPO_OWNER"

abbrev pub head_repo_owner_envvar : String
head_repo_owner_envvar = "HEAD_REPO_OWNER"

abbrev pub github_token_envvar : String
github_token_envvar = "GITHUB_TOKEN"

abbrev pub commit_author_name_envvar : String
commit_author_name_envvar = "COMMIT_AUTHOR_NAME"

abbrev pub commit_author_email_envvar : String
commit_author_email_envvar = "COMMIT_AUTHOR_EMAIL"

abbrev pub default_commit_author_name : String
default_commit_author_name = "EKS Distro PR Bot"

abbrev pub default_commit_author_email : String
default_commit_author_email = "aws-model-rocket-bots+eksdistroprbot@amazon.com"

abbrev pub build_tooling_repo_name : String
build_tooling_repo_name = "eks-anywhere-build-tooling"

abbrev pub default_base_repo_owner : String
default_base_repo_owner = "aws"

abbrev pub build_tooling_repo_url : String
build_tooling_repo_url = "https://github.com/%s/eks-anywhere-build-tooling"

abbrev pub readme_file : String
readme_file = "README.md"

abbrev pub readme_update_script_file : String
readme_update_script_file = "build/lib/readme_check.sh"

abbrev pub license_boilerplate_file : String
license_boilerplate_file = "hack/boilerplate.yq.txt"

abbrev pub eks_distro_latest_releases_file : String
eks_distro_latest_releases_file = "EKSD_LATEST_RELEASES"

abbrev pub eks_distro_prod_release_number_file_format : String
eks_distro_prod_release_number_file_format = "release/%s/production/RELEASE"

abbrev pub kubernetes_git_tag_file_format : String
kubernetes_git_tag_file_format = "projects/kubernetes/kubernetes/%s/GIT_TAG"

abbrev pub skipped_projects_file : String
skipped_projects_file = "SKIPPED_PROJECTS"

abbrev pub upstream_projects_tracker_file : String
upstream_projects_tracker_file = "UPSTREAM_PROJECTS.yaml"

abbrev pub supported_release_branches_file : String
supported_release_branches_file = "release/SUPPORTED_RELEASE_BRANCHES"

abbrev pub git_tag_file : String
git_tag_file = "GIT_TAG"

abbrev pub go_version_file : String
go_version_file = "GOLANG_VERSION"

abbrev pub checksums_file : String
checksums_file = "CHECKSUMS"

abbrev pub attributions_file_pattern : String
attributions_file_pattern = "*ATTRIBUTION.txt"

abbrev pub patches_directory : String
patches_directory = "patches"

abbrev pub failed_patch_apply_marker : String
failed_patch_apply_marker = "patch does not apply"

abbrev pub failed_patch_apply_regex : String
failed_patch_apply_regex = "Patch failed at .*"

abbrev pub failed_patch_files_regex : String
failed_patch_files_regex = "error: (.*): patch does not apply"

abbrev pub bottlerocket_releases_file : String
bottlerocket_releases_file = "BOTTLEROCKET_RELEASES"

abbrev pub bottlerocket_container_metadata_file_format : String
bottlerocket_container_metadata_file_format = "BOTTLEROCKET_%s_CONTAINER_METADATA"

abbrev pub bottlerocket_host_containers_toml_file : String
bottlerocket_host_containers_toml_file =
    "sources/models/shared-defaults/public-host-containers.toml"

abbrev pub cilium_image_repository : String
cilium_image_repository = "public.ecr.aws/isovalent/cilium"

abbrev pub main_branch_name : String
main_branch_name = "main"

abbrev pub base_repo_head_revision : String
base_repo_head_revision = "refs/remotes/origin/main"

-- The numbers of pages and of the items on each are the server's part of the model.
abbrev pub github_per_page : ℕ
github_per_page = 100

-- `ProjectReleaseAssets`, each with its asset, its binary, the URL that overrides it, and whether it is
-- extracted and whether the version loses its prefix.
abbrev tarball : String → String → String → Bool → Bool → ReleaseTarball
tarball asset binary url extract trim = record {
  asset_name = asset;
  binary_name = binary;
  extract = extract;
  override_asset_url = url;
  trim_leading_version_prefix = trim;
}

unfoldable pub project_release_assets : List (String × ReleaseTarball)
project_release_assets =
    ("apache/cloudstack-cloudmonkey", tarball "cmk.linux.x86-64" "cmk.linux.x86-64" "" false false)
    ∷ (
      "aquasecurity/harbor-scanner-trivy",
      tarball "harbor-scanner-trivy_%s_Linux_x86_64.tar.gz" "scanner-trivy" "" true true,
    )
    ∷ ("aquasecurity/trivy", tarball "trivy_%s_Linux-64bit.tar.gz" "trivy" "" true true)
    ∷ (
      "aws/rolesanywhere-credential-helper",
      tarball "aws_signing_helper" "aws_signing_helper"
          "https://rolesanywhere.amazonaws.com/releases/%s/X86_64/Linux/aws_signing_helper" false
          true,
    )
    ∷ ("cert-manager/cert-manager", tarball "cmctl-linux-amd64.tar.gz" "cmctl" "" true false)
    ∷ (
      "containerd/containerd",
      tarball "containerd-%s-linux-amd64.tar.gz" "bin/containerd" "" true true,
    )
    ∷ (
      "distribution/distribution",
      tarball "registry_%s_linux_amd64.tar.gz" "registry" "" true true,
    )
    ∷ ("fluxcd/flux2", tarball "flux_%s_linux_amd64.tar.gz" "flux" "" true true)
    ∷ (
      "helm/helm",
      tarball "helm-%s-linux-amd64.tar.gz" "linux-amd64/helm"
          "https://get.helm.sh/helm-%s-linux-amd64.tar.gz" true false,
    )
    ∷ (
      "kubernetes-sigs/cluster-api",
      tarball "clusterctl-linux-amd64" "clusterctl-linux-amd64" "" false false,
    )
    ∷ ("kubernetes-sigs/cri-tools", tarball "crictl-%s-linux-amd64.tar.gz" "crictl" "" true false)
    ∷ ("kubernetes-sigs/kind", tarball "kind-linux-amd64" "kind-linux-amd64" "" false false)
    ∷ ("opencontainers/runc", tarball "runc.amd64" "runc.amd64" "" false false)
    ∷ (
      "prometheus/prometheus",
      tarball "prometheus-%s.linux-amd64.tar.gz" "prometheus-%s.linux-amd64/prometheus" "" true
          true,
    )
    ∷ (
      "prometheus/node_exporter",
      tarball "node_exporter-%s.linux-amd64.tar.gz" "node_exporter-%s.linux-amd64/node_exporter" ""
          true true,
    )
    ∷ (
      "rancher/local-path-provisioner",
      tarball "local-path-provisioner-amd64" "local-path-provisioner-amd64" "" false false,
    )
    ∷ (
      "replicatedhq/troubleshoot",
      tarball "support-bundle_linux_amd64.tar.gz" "support-bundle" "" true false,
    )
    ∷ ("vmware/govmomi", tarball "govc_Linux_x86_64.tar.gz" "govc" "" true false)
    ∷ []

abbrev source_of_truth : String → String → GoVersionSourceOfTruth
source_of_truth file pattern = record {
  source_of_truth_file = file;
  go_version_search_string = pattern;
}

unfoldable pub project_go_version_source_of_truth : List (String × GoVersionSourceOfTruth)
project_go_version_source_of_truth =
    ("aws/etcdadm-bootstrap-provider", source_of_truth "go.mod" "go (1\\.\\d\\d)")
    ∷ ("aws/etcdadm-controller", source_of_truth "go.mod" "go (1\\.\\d\\d)")
    ∷ (
      "brancz/kube-rbac-proxy",
      source_of_truth ".github/workflows/build.yml" "go-version: '(1\\.\\d\\d)\\.\\d+'",
    )
    ∷ ("emissary-ingress/emissary", source_of_truth "go.mod" "go (1\\.\\d\\d)")
    ∷ ("goharbor/harbor", source_of_truth "Makefile" "GOBUILDIMAGE=golang:(1\\.\\d\\d)")
    ∷ ("fluxcd/helm-controller", source_of_truth "Dockerfile" "ARG GO_VERSION=(1\\.\\d\\d)")
    ∷ ("fluxcd/kustomize-controller", source_of_truth "Dockerfile" "ARG GO_VERSION=(1\\.\\d\\d)")
    ∷ ("fluxcd/notification-controller", source_of_truth "Dockerfile" "ARG GO_VERSION=(1\\.\\d\\d)")
    ∷ ("fluxcd/source-controller", source_of_truth "Dockerfile" "ARG GO_VERSION=(1\\.\\d\\d)")
    ∷ ("kube-vip/kube-vip", source_of_truth "Dockerfile" "golang:(1\\.\\d\\d)")
    ∷ (
      "kubernetes-sigs/cluster-api-provider-cloudstack",
      source_of_truth "go.mod" "go (1\\.\\d\\d)",
    )
    ∷ (
      "kubernetes-sigs/cluster-api-provider-vsphere",
      source_of_truth "Makefile" "GO_VERSION \\?= (1\\.\\d\\d)\\.\\d+",
    )
    ∷ ("kubernetes-sigs/etcdadm", source_of_truth "Makefile" "GO_IMAGE \\?= golang:(1\\.\\d\\d)")
    ∷ (
      "nutanix-cloud-native/cluster-api-provider-nutanix",
      source_of_truth "go.mod" "go (1\\.\\d\\d)",
    )
    ∷ ("metallb/metallb", source_of_truth "go.mod" "go (1\\.\\d\\d)")
    ∷ ("tinkerbell/boots", source_of_truth "go.mod" "go (1\\.\\d\\d)")
    ∷ (
      "tinkerbell/cluster-api-provider-tinkerbell",
      source_of_truth "Makefile" "GOLANG_VERSION := (1\\.\\d\\d)",
    )
    ∷ (
      "tinkerbell/hegel",
      source_of_truth ".github/workflows/ci.yaml" "GO_VERSION: \"(1\\.\\d\\d)\"",
    )
    ∷ (
      "tinkerbell/tink",
      source_of_truth ".github/workflows/ci.yaml" "GO_VERSION: \"(1\\.\\d\\d)\"",
    )
    ∷ []

abbrev pub projects_with_unconventional_upgrade_flows : List String
projects_with_unconventional_upgrade_flows = "cilium/cilium" ∷ "kubernetes-sigs/image-builder" ∷ []

abbrev pub bottlerocket_image_formats : List String
bottlerocket_image_formats = "ami" ∷ "ova" ∷ "raw" ∷ []

abbrev pub bottlerocket_host_containers : List String
bottlerocket_host_containers = "admin" ∷ "control" ∷ []

abbrev pub cilium_image_directories : List String
cilium_image_directories = "cilium" ∷ "operator-generic" ∷ "cilium-chart" ∷ []
