-- ===== src/ImageBuilder/Types.antt =====
-- builder/types.go and builder/files.go: the options of a build and the provider configurations.
-- An embedded struct is a field that is opened; a pointer that may be nil is an `Option`.
use eks_anywhere_build_tooli.Prelude.{String, Bool, Option, List}
use eks_anywhere_build_tooli.Prelude.Int.{ℤ}

pub record IsoConfig : Type 0 where
  pub iso_url : String
  pub iso_checksum : String
  pub iso_checksum_type : String

pub record RhsmConfig : Type 0 where
  pub proxy_hostname : String
  pub proxy_port : String
  pub server_hostname : String
  pub server_release_version : String
  pub activation_key : String
  pub org_id : String

pub record RhelConfig : Type 0 where
  pub rhel_username : String
  pub rhel_password : String
  pub rhsm : RhsmConfig
  pub open rhsm use *

pub record ProxyConfig : Type 0 where
  pub http_proxy : String
  pub https_proxy : String
  pub no_proxy : String

pub record ExtraPackagesConfig : Type 0 where
  pub extra_debs : String
  pub extra_repos : String
  pub extra_rpms : String

pub record ExtraOverridesConfig : Type 0 where
  pub firstboot_custom_roles_pre : String
  pub firstboot_custom_roles_post : String
  pub node_custom_roles_pre : String
  pub node_custom_roles_post : String
  pub disable_public_repos : String
  pub reenable_public_repos : String

pub record AirGappedConfig : Type 0 where
  pub eks_a_build_tooling_repo_url : String
  pub image_builder_repo_url : String
  pub private_server_eks_d_domain_url : String
  pub private_server_eks_a_domain_url : String

pub record VsphereConfig : Type 0 where
  pub cluster : String
  pub convert_to_template : String
  pub create_snapshot : String
  pub datacenter : String
  pub datastore : String
  pub folder : String
  pub insecure_connection : String
  pub linked_clone : String
  pub network : String
  pub resource_pool : String
  pub template : String
  pub vcenter_server : String
  pub username : String
  pub password : String
  pub iso : IsoConfig
  pub open iso use *
  pub rhel : RhelConfig
  pub open rhel use *
  pub proxy : ProxyConfig
  pub open proxy use *
  pub packages : ExtraPackagesConfig
  pub open packages use *
  pub overrides : ExtraOverridesConfig
  pub air_gap : AirGappedConfig
  pub open air_gap use *

pub record BaremetalConfig : Type 0 where
  pub iso : IsoConfig
  pub open iso use *
  pub rhel : RhelConfig
  pub open rhel use *
  pub proxy : ProxyConfig
  pub open proxy use *
  pub packages : ExtraPackagesConfig
  pub open packages use *
  pub overrides : ExtraOverridesConfig
  pub air_gap : AirGappedConfig
  pub open air_gap use *

pub record CloudstackConfig : Type 0 where
  pub ansible_user_vars : String
  pub iso : IsoConfig
  pub open iso use *
  pub rhel : RhelConfig
  pub open rhel use *
  pub proxy : ProxyConfig
  pub open proxy use *
  pub packages : ExtraPackagesConfig
  pub open packages use *
  pub overrides : ExtraOverridesConfig
  pub air_gap : AirGappedConfig
  pub open air_gap use *

pub record NutanixConfig : Type 0 where
  pub cluster_name : String
  pub image_name : String
  pub image_url : String
  pub image_export : String
  pub source_image_name : String
  pub nutanix_endpoint : String
  pub nutanix_insecure : String
  pub nutanix_port : String
  pub nutanix_user_name : String
  pub nutanix_password : String
  pub nutanix_subnet_name : String
  pub rhel : RhelConfig
  pub open rhel use *
  pub proxy : ProxyConfig
  pub open proxy use *
  pub packages : ExtraPackagesConfig
  pub open packages use *
  pub overrides : ExtraOverridesConfig
  pub air_gap : AirGappedConfig
  pub open air_gap use *

pub record AmiConfig : Type 0 where
  pub ami_filter_name : String
  pub ami_filter_owners : String
  pub ami_regions : String
  pub aws_region : String
  pub builder_instance_type : String
  pub manifest_output : String
  pub root_device_name : String
  pub subnet_id : String
  pub volume_size : String
  pub volume_type : String
  pub proxy : ProxyConfig
  pub packages : ExtraPackagesConfig
  pub overrides : ExtraOverridesConfig

pub record File : Type 0 where
  pub source : String
  pub destination : String
  pub owner : String
  pub group : String
  pub mode : ℤ

pub record FileVars : Type 0 where
  pub additional_files : String
  pub additional_files_list : List File

pub record FilesAnsibleConfig : Type 0 where
  pub ansible_extra_vars : String
  pub custom_role : String
  pub custom_role_names : String

pub record AdditionalFilesConfig : Type 0 where
  pub file_vars : FileVars
  pub open file_vars use *
  pub files_ansible_config : FilesAnsibleConfig
  pub open files_ansible_config use *

pub record BuildOptions : Type 0 where
  pub os : String
  pub os_version : String
  pub arch : String
  pub hypervisor : String
  pub vsphere_config : Option VsphereConfig
  pub baremetal_config : Option BaremetalConfig
  pub nutanix_config : Option NutanixConfig
  pub cloudstack_config : Option CloudstackConfig
  pub ami_config : Option AmiConfig
  pub files_config : Option AdditionalFilesConfig
  pub release_channel : String
  pub force : Bool
  pub air_gapped : Bool
  pub manifest_tarball : String
  pub firmware : String
  pub ansible_verbosity : ℤ
  pub eksa_release_version : String
