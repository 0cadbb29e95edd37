-- ===== src/ImageBuilder/Load/Frame.antt =====
-- What reading a provider's configuration changes in the options: that configuration alone.
use eks_anywhere_build_tooli.Prelude.{String, ◌≡◌, ◌≢◌, none, arith}
use eks_anywhere_build_tooli.Prelude.Outcome.{ok}
use eks_anywhere_build_tooli.ImageBuilder.Types.{BuildOptions}
use eks_anywhere_build_tooli.ImageBuilder.Load.{
  Inputs, load_vsphere, load_baremetal, load_nutanix, load_cloudstack, load_ami,
}

module _ (i : Inputs) (content : String) (o : BuildOptions) {r : BuildOptions} where
  pub load_vsphere_frame :
      load_vsphere i content o ≡ ok r
      → (r ≡ record o { vsphere_config = r.vsphere_config }) × (r.vsphere_config ≢ none)
  unfolding load_vsphere
  load_vsphere_frame h = ground arith

  pub load_baremetal_frame :
      load_baremetal i content o ≡ ok r
      → (r ≡ record o { baremetal_config = r.baremetal_config }) × (r.baremetal_config ≢ none)
  unfolding load_baremetal
  load_baremetal_frame h = ground arith

  pub load_nutanix_frame :
      load_nutanix i content o ≡ ok r
      → (r ≡ record o { nutanix_config = r.nutanix_config }) × (r.nutanix_config ≢ none)
  unfolding load_nutanix
  load_nutanix_frame h = ground arith

  pub load_cloudstack_frame :
      load_cloudstack i content o ≡ ok r
      → (r ≡ record o { cloudstack_config = r.cloudstack_config }) × (r.cloudstack_config ≢ none)
  unfolding load_cloudstack
  load_cloudstack_frame h = ground arith

  pub load_ami_frame :
      load_ami i content o ≡ ok r
      → (r ≡ record o { ami_config = r.ami_config; files_config = r.files_config })
        × (r.ami_config ≢ none)
  unfolding load_ami
  load_ami_frame h = ground arith
