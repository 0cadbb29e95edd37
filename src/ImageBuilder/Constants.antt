-- ===== src/ImageBuilder/Constants.antt =====
-- builder/types.go and builder/constants.go: names of operating systems, hypervisors and firmwares.
use eks_anywhere_build_tooli.Prelude.{String, List, [], ◌∷◌}

abbrev pub ubuntu : String
ubuntu = "ubuntu"

abbrev pub redhat : String
redhat = "redhat"

abbrev pub vsphere : String
vsphere = "vsphere"

abbrev pub baremetal : String
baremetal = "baremetal"

abbrev pub nutanix : String
nutanix = "nutanix"

abbrev pub cloudstack : String
cloudstack = "cloudstack"

abbrev pub ami : String
ami = "ami"

abbrev pub efi : String
efi = "efi"

abbrev pub bios : String
bios = "bios"

abbrev pub supported_hypervisors : List String
supported_hypervisors = vsphere ∷ baremetal ∷ nutanix ∷ cloudstack ∷ ami ∷ []

abbrev pub supported_ubuntu_versions : List String
supported_ubuntu_versions = "20.04" ∷ "22.04" ∷ []

abbrev pub supported_redhat_versions : List String
supported_redhat_versions = "8" ∷ "9" ∷ []

abbrev pub supported_redhat_efi_versions : List String
supported_redhat_efi_versions = "9" ∷ []

abbrev pub supported_firmwares : List String
supported_firmwares = bios ∷ efi ∷ []
