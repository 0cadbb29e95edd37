-- ===== src/ImageBuilder/Checks/Firmware.antt =====
-- Which firmwares `validate_firmware` lets pass.
use eks_anywhere_build_tooli.Prelude.{String, ◌≡◌, ◌↔◌, ◌⊎◌, arith, str_beq_iff}
use eks_anywhere_build_tooli.Prelude.Outcome.{ok}
use eks_anywhere_build_tooli.ImageBuilder.Constants.{ubuntu, redhat, vsphere, baremetal, efi, bios}
use eks_anywhere_build_tooli.ImageBuilder.Checks.{validate_efi, validate_firmware}

-- EFI is for Ubuntu OVA and raw images, and for raw images of RHEL 9.
abbrev pub EfiAllowed : String → String → String → Type 0
EfiAllowed os os_version hypervisor =
    ((os ≡ ubuntu) × ((hypervisor ≡ vsphere) ⊎ (hypervisor ≡ baremetal)))
    ⊎ ((os ≡ redhat) × (hypervisor ≡ baremetal) × (os_version ≡ "9"))

abbrev pub FirmwareAllowed : String → String → String → String → Type 0
FirmwareAllowed firmware os os_version hypervisor =
    (firmware ≡ "")
    ⊎ (((firmware ≡ bios) × ((os ≡ ubuntu) → (hypervisor ≡ baremetal) → ⊥))
        ⊎ ((firmware ≡ efi) × EfiAllowed os os_version hypervisor))

validate_efi_iff :
    (os os_version hypervisor : String)
    → (validate_efi os os_version hypervisor ≡ ok tt) ↔ EfiAllowed os os_version hypervisor
unfolding validate_efi
validate_efi_iff os ver hv = ground (
  arith,
  str_beq_iff os ubuntu,
  str_beq_iff os redhat,
  str_beq_iff ubuntu os,
  str_beq_iff redhat os,
  str_beq_iff vsphere hv,
  str_beq_iff baremetal hv,
  str_beq_iff hv baremetal,
  str_beq_iff "9" ver,
  str_beq_iff ubuntu redhat,
)

-- `validate_firmware` accepts exactly: no firmware; BIOS, but not for Ubuntu raw images; EFI for
-- Ubuntu OVA and raw images and for raw images of RHEL 9.
pub validate_firmware_iff :
    (firmware os os_version hypervisor : String)
    → (validate_firmware firmware os os_version hypervisor ≡ ok tt)
      ↔ FirmwareAllowed firmware os os_version hypervisor
unfolding validate_firmware
validate_firmware_iff fw os ver hv = ground (
  arith,
  validate_efi_iff os ver hv,
  str_beq_iff fw "",
  str_beq_iff bios fw,
  str_beq_iff efi fw,
  str_beq_iff fw efi,
  str_beq_iff fw bios,
  str_beq_iff efi bios,
  str_beq_iff os ubuntu,
  str_beq_iff hv baremetal,
  str_beq_iff ubuntu redhat,
)
