-- ===== src/ImageBuilder/Build/Commands.antt =====
-- builder/builder.go: the command of a build, and the variables of its environment.
use eks_anywhere_build_tooli.Prelude.{
  zero, suc, String, ◌<>◌, Bool, not, ◌&&◌, Option, none, some, List, [], ◌∷◌, if◌then◌else◌,
  string_eq, ◌==◌, nat_eq, split, repeat,
}
use eks_anywhere_build_tooli.Prelude.Int.{ℤ, pos, negsuc}
use eks_anywhere_build_tooli.Prelude.Outcome.{◌>>=◌, wrap, Outcome, ok, crash}
use eks_anywhere_build_tooli.ImageBuilder.Types.{
  RhsmConfig, RhelConfig, ProxyConfig, AirGappedConfig, BuildOptions,
}
use eks_anywhere_build_tooli.ImageBuilder.Constants.{
  ubuntu, redhat, vsphere, baremetal, nutanix, cloudstack, ami, efi,
}
use eks_anywhere_build_tooli.ImageBuilder.Checks.{slice_contains}
use eks_anywhere_build_tooli.ImageBuilder.Load.{deref}
use eks_anywhere_build_tooli.ImageBuilder.Build.Names.{
  release_branch_env_var, eksa_release_version_env_var, eksa_release_manifest_url_env_var,
  rhel_username_env_var, rhel_password_env_var, rhsm_activation_key_env_var, rhsm_org_id_env_var,
  eksa_ansible_verbosity_env_var,
}
use eks_anywhere_build_tooli.ImageBuilder.Build.Setup.{Setup}
use eks_anywhere_build_tooli.ImageBuilder.Build.Bundle.{map_ok}

-- The commands of the hypervisors for an operating system, none where there is none for it; the
-- firmware counts for OVA images of Ubuntu and raw images of Red Hat.
abbrev pub target : String → String → String → String
target path name os_version = "make -C " <> path <> " local-build-" <> name <> "-" <> os_version

abbrev if_efi : BuildOptions → String → String
if_efi o command = if o.firmware == efi then command <> "-efi" else command

unfoldable pub vsphere_command : String → BuildOptions → String
vsphere_command path o =
    if o.os == ubuntu
    then if_efi o (target path "ova-ubuntu" o.os_version)
    else if o.os == redhat
    then target path "ova-redhat" o.os_version
    else ""

unfoldable pub baremetal_command : String → BuildOptions → String
baremetal_command path o =
    if o.os == ubuntu
    then target path "raw-ubuntu" o.os_version
    else if o.os == redhat
    then if_efi o (target path "raw-redhat" o.os_version)
    else ""

unfoldable pub nutanix_command : String → BuildOptions → String
nutanix_command path o =
    if o.os == ubuntu
    then target path "nutanix-ubuntu" o.os_version
    else if o.os == redhat
    then target path "nutanix-redhat" o.os_version
    else ""

unfoldable pub cloudstack_command : String → BuildOptions → String
cloudstack_command path o =
    if o.os == redhat then target path "cloudstack-redhat" o.os_version else ""

unfoldable pub ami_command : String → BuildOptions → String
ami_command path o = target path "ami-ubuntu" o.os_version

-- The command of the options' hypervisor
unfoldable pub build_command : String → BuildOptions → String
build_command path o =
    if o.hypervisor == vsphere
    then vsphere_command path o
    else if o.hypervisor == baremetal
    then baremetal_command path o
    else if o.hypervisor == nutanix
    then nutanix_command path o
    else if o.hypervisor == cloudstack
    then cloudstack_command path o
    else if o.hypervisor == ami
    then ami_command path o
    else ""

-- What the configurations have in common
pub record Access : Type 0 where
  pub air_gap : AirGappedConfig
  pub rhel : RhelConfig
  pub proxy : ProxyConfig

abbrev pub variable : String → String → String
variable name value = name <> "=" <> value

-- The variables of a build for Red Hat
unfoldable pub rhel_env_vars : RhelConfig → List String
rhel_env_vars rhel =
    variable rhel_username_env_var rhel.rhel_username
    ∷ variable rhel_password_env_var rhel.rhel_password
    ∷ variable rhsm_activation_key_env_var rhel.rhsm.activation_key
    ∷ variable rhsm_org_id_env_var rhel.rhsm.org_id
    ∷ []

-- The variables of every build
unfoldable pub common_env_vars : BuildOptions → String → String → List String
common_env_vars o version manifest_url =
    variable release_branch_env_var o.release_channel
    ∷ variable eksa_release_version_env_var version
    ∷ variable eksa_release_manifest_url_env_var manifest_url
    ∷ []

-- The verbosity, unless it is zero; `strings.Repeat` panics for a negative one.
unfoldable pub verbosity_env_vars : ℤ → Outcome (List String)
verbosity_env_vars (pos zero) = ok []
verbosity_env_vars (pos (suc n)) =
    ok (variable eksa_ansible_verbosity_env_var ("-" <> repeat "v" (suc n)) ∷ [])
verbosity_env_vars (negsuc n) = crash

-- Is the server of the subscription one that no proxy is used for?
unfoldable pub skips_proxy : ProxyConfig → RhsmConfig → Bool
skips_proxy proxy rhsm =
    not (proxy.no_proxy == "") && slice_contains (split proxy.no_proxy ",") rhsm.server_hostname

module _ (s : Setup) where
  unfoldable pub set_rhsm_proxy : ProxyConfig → RhsmConfig → Outcome RhsmConfig
  set_rhsm_proxy proxy rhsm =
      if skips_proxy proxy rhsm
      then ok rhsm
      else if not (proxy.http_proxy == "")
      then map_ok (λ (host, port). record rhsm { proxy_hostname = host; proxy_port = port })
          (s.host_and_port proxy.http_proxy)
      else ok rhsm

  -- The subscription of a configuration that is about to be written; a nil one is read for Red Hat.
  unfoldable pub rhsm_of : BuildOptions → Option Access → Outcome (Option RhsmConfig)
  rhsm_of o access =
      if o.os == redhat
      then (deref access >>= λ a.
          if not (a.proxy.http_proxy == "")
          then map_ok some (
              wrap "Error parsing proxy host and port for RHSM"
                (set_rhsm_proxy a.proxy a.rhel.rhsm))
          else ok (some a.rhel.rhsm))
      else ok none

  abbrev rhel_vars_of : Option Access → Outcome (List String)
  rhel_vars_of access = map_ok (λ a. rhel_env_vars a.rhel) (deref access)

  unfoldable pub redhat_env_vars : BuildOptions → Option Access → Outcome (List String)
  redhat_env_vars o access = if o.os == redhat then rhel_vars_of access else ok []
