-- ===== src/ImageBuilder/Build/Names.antt =====
-- builder/constants.go: the paths, URLs and environment variables of a build.
use eks_anywhere_build_tooli.Prelude.{String}

abbrev pub build_tooling_repo_url : String
build_tooling_repo_url = "https://github.com/aws/eks-anywhere-build-tooling.git"

abbrev pub image_builder_project_directory : String
image_builder_project_directory = "projects/kubernetes-sigs/image-builder"

abbrev pub image_builder_capi_directory : String
image_builder_capi_directory = "image-builder/images/capi"

abbrev pub packer_additional_files_config_file : String
packer_additional_files_config_file = "packer/config/files.json"

abbrev pub ansible_additional_files_custom_role : String
ansible_additional_files_custom_role = "ansible/roles/load_additional_files"

abbrev pub packer_additional_files_list : String
packer_additional_files_list = "packer/config/additional_files.yaml"

abbrev pub packer_vsphere_config_file : String
packer_vsphere_config_file = "packer/ova/vsphere.json"

abbrev pub packer_baremetal_config_file : String
packer_baremetal_config_file = "packer/config/baremetal.json"

abbrev pub packer_nutanix_config_file : String
packer_nutanix_config_file = "packer/nutanix/nutanix.json"

abbrev pub packer_cloudstack_config_file : String
packer_cloudstack_config_file = "packer/config/cloudstack.json"

abbrev pub packer_ami_config_file : String
packer_ami_config_file = "packer/ami/ami.json"

abbrev pub prod_eksa_release_manifest_url : String
prod_eksa_release_manifest_url =
    "https://anywhere-assets.eks.amazonaws.com/releases/eks-a/manifest.yaml"

abbrev pub dev_eksa_release_manifest_url : String
dev_eksa_release_manifest_url =
    "https://dev-release-assets.eks-anywhere.model-rocket.aws.dev/eks-a-release.yaml"

abbrev pub dev_branch_eksa_release_manifest_url : String
dev_branch_eksa_release_manifest_url =
    "https://dev-release-assets.eks-anywhere.model-rocket.aws.dev/%s/eks-a-release.yaml"

abbrev pub eks_distro_prod_domain : String
eks_distro_prod_domain = "distro.eks.amazonaws.com"

abbrev pub eks_anywhere_assets_prod_domain : String
eks_anywhere_assets_prod_domain = "anywhere-assets.eks.amazonaws.com"

abbrev pub eks_distro_manifest_file_name_format : String
eks_distro_manifest_file_name_format = "eks-d-%s.yaml"

abbrev pub eks_anywhere_manifest_file_name : String
eks_anywhere_manifest_file_name = "eks-a-manifest.yaml"

abbrev pub eks_anywhere_bundles_file_name_format : String
eks_anywhere_bundles_file_name_format = "eks-a-bundles-%s.yaml"

abbrev pub manifests_tarball_name : String
manifests_tarball_name = "eks-a-manifests.tar"

abbrev pub manifests_dir_name : String
manifests_dir_name = "eks-a-d-manifests"

abbrev pub eks_anywhere_artifacts_dir_name : String
eks_anywhere_artifacts_dir_name = "eks-a-artifacts"

abbrev pub eks_distro_artifacts_dir_name : String
eks_distro_artifacts_dir_name = "eks-d-artifacts"

abbrev pub supported_release_branches_file_name : String
supported_release_branches_file_name = "release/SUPPORTED_RELEASE_BRANCHES"

abbrev pub eksd_latest_releases_file_name : String
eksd_latest_releases_file_name = "EKSD_LATEST_RELEASES"

abbrev pub branch_name_env_var : String
branch_name_env_var = "BRANCH_NAME"

abbrev pub codebuild_source_directory_env_var : String
codebuild_source_directory_env_var = "CODEBUILD_SRC_DIR"

abbrev pub release_branch_env_var : String
release_branch_env_var = "RELEASE_BRANCH"

abbrev pub eksa_release_version_env_var : String
eksa_release_version_env_var = "EKSA_RELEASE_VERSION"

abbrev pub eksa_release_manifest_url_env_var : String
eksa_release_manifest_url_env_var = "EKSA_RELEASE_MANIFEST_URL"

abbrev pub eksa_bundles_url_env_var : String
eksa_bundles_url_env_var = "EKSA_BUNDLE_MANIFEST_URL"

abbrev pub eksd_manifest_url_env_var : String
eksd_manifest_url_env_var = "EKSD_MANIFEST_URL"

abbrev pub packer_additional_files_config_file_env_var : String
packer_additional_files_config_file_env_var = "PACKER_ADDITIONAL_FILES_VAR_FILES"

abbrev pub rhel_username_env_var : String
rhel_username_env_var = "RHSM_USERNAME"

abbrev pub rhel_password_env_var : String
rhel_password_env_var = "RHSM_PASSWORD"

abbrev pub rhel_image_url_nutanix_env_var : String
rhel_image_url_nutanix_env_var = "RHEL_IMAGE_URL"

abbrev pub rhsm_activation_key_env_var : String
rhsm_activation_key_env_var = "RHSM_ACTIVATION_KEY"

abbrev pub rhsm_org_id_env_var : String
rhsm_org_id_env_var = "RHSM_ORG_ID"

abbrev pub packer_type_var_files_env_var : String
packer_type_var_files_env_var = "PACKER_TYPE_VAR_FILES"

abbrev pub eksa_use_dev_release_env_var : String
eksa_use_dev_release_env_var = "EKSA_USE_DEV_RELEASE"

abbrev pub clone_url_env_var : String
clone_url_env_var = "CLONE_URL"

abbrev pub eksa_ansible_verbosity_env_var : String
eksa_ansible_verbosity_env_var = "EKSA_ANSIBLE_VERBOSITY"

abbrev pub main_branch : String
main_branch = "main"

abbrev pub amd64 : String
amd64 = "amd64"
