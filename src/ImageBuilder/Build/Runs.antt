-- ===== src/ImageBuilder/Build/Runs.antt =====
-- builder/builder.go: the build command of options that were checked.
use eks_anywhere_build_tooli.Prelude.{
  String, ◌<>◌, ◌≡◌, ◌⊎◌, refl, inl, inr, string_eq, str_beq_iff, ◌==◌, Bool-cases,
}
use eks_anywhere_build_tooli.ImageBuilder.Types.{BuildOptions}
use eks_anywhere_build_tooli.ImageBuilder.Constants.{
  ubuntu, redhat, vsphere, baremetal, nutanix, cloudstack, ami, efi,
}
use eks_anywhere_build_tooli.Prelude.Outcome.{ok}
use eks_anywhere_build_tooli.ImageBuilder.Options.Accepted.{AllowedPair}
use eks_anywhere_build_tooli.ImageBuilder.Load.{Inputs}
use eks_anywhere_build_tooli.ImageBuilder.Validate.{validate_inputs, ConfigFlags}
use eks_anywhere_build_tooli.ImageBuilder.Validate.Accepted.{
  IsReady, KnownTarget, validate_inputs_sound,
}
use eks_anywhere_build_tooli.ImageBuilder.Build.Commands.{
  build_command, target, baremetal_command, nutanix_command, vsphere_command, cloudstack_command,
  ami_command,
}

-- What the project's targets call the images of a hypervisor
abbrev pub Kind : String → String → Type 0
Kind hypervisor kind =
    ((hypervisor ≡ vsphere) × (kind ≡ "ova"))
    ⊎ (((hypervisor ≡ baremetal) × (kind ≡ "raw"))
        ⊎ (((hypervisor ≡ nutanix) × (kind ≡ "nutanix"))
            ⊎ (((hypervisor ≡ cloudstack) × (kind ≡ "cloudstack"))
                ⊎ ((hypervisor ≡ ami) × (kind ≡ "ami")))))

-- A command makes the target of the project for the images of the hypervisor and the version of the
-- operating system, or the one for the same image with EFI.
abbrev pub Runs : String → BuildOptions → String → Type 0
Runs path o command =
    (kind : String) × Kind o.hypervisor kind
    × ((command ≡ target path (kind <> "-" <> o.os) o.os_version)
        ⊎ ((o.firmware ≡ efi)
            × (command ≡ target path (kind <> "-" <> o.os) o.os_version <> "-efi")))

module _ (path : String) (o : BuildOptions) where
  Runs-vsphere :
      (o.os ≡ ubuntu) ⊎ (o.os ≡ redhat)
      → o.hypervisor ≡ vsphere
      → Runs path o (build_command path o)
  unfolding build_command vsphere_command
  Runs-vsphere (inl os) h = elim (Bool-cases (o.firmware == efi)) [
    | inl e ↦ ("ova", inl (h, refl), inr ((str_beq_iff o.firmware efi).0 e, rw (h, os, e)))
    | inr e ↦ ("ova", inl (h, refl), inl (rw (h, os, e)))
  ]
  Runs-vsphere (inr os) h = ("ova", inl (h, refl), inl (rw (h, os)))

  Runs-baremetal :
      (o.os ≡ ubuntu) ⊎ (o.os ≡ redhat)
      → o.hypervisor ≡ baremetal
      → Runs path o (build_command path o)
  unfolding build_command baremetal_command
  Runs-baremetal (inl os) h = ("raw", inr (inl (h, refl)), inl (rw (h, os)))
  Runs-baremetal (inr os) h = elim (Bool-cases (o.firmware == efi)) [
    | inl e ↦ ("raw", inr (inl (h, refl)), inr ((str_beq_iff o.firmware efi).0 e, rw (h, os, e)))
    | inr e ↦ ("raw", inr (inl (h, refl)), inl (rw (h, os, e)))
  ]

  Runs-others :
      (o.os ≡ ubuntu) ⊎ (o.os ≡ redhat)
      → AllowedPair o.os o.hypervisor
      → (o.hypervisor ≡ nutanix) ⊎ ((o.hypervisor ≡ cloudstack) ⊎ (o.hypervisor ≡ ami))
      → Runs path o (build_command path o)
  unfolding build_command nutanix_command cloudstack_command ami_command
  Runs-others (inl os) pair (inl h) = ("nutanix", inr (inr (inl (h, refl))), inl (rw (h, os)))
  Runs-others (inr os) pair (inl h) = ("nutanix", inr (inr (inl (h, refl))), inl (rw (h, os)))
  Runs-others os pair (inr (inl h)) =
      ("cloudstack", inr (inr (inr (inl (h, refl)))), inl (rw (h, pair.0 h)))
  Runs-others os pair (inr (inr h)) =
      ("ami", inr (inr (inr (inr (h, refl)))), inl (rw (h, pair.1 h)))

  KnownTarget-os : KnownTarget o.os o.os_version → (o.os ≡ ubuntu) ⊎ (o.os ≡ redhat)
  KnownTarget-os (inl p) = inl p.0
  KnownTarget-os (inr p) = inr p.0

  IsReady-Runs : IsReady o → Runs path o (build_command path o)
  IsReady-Runs ready = elim ready.hypervisor [
    | inl h ↦ Runs-vsphere (KnownTarget-os ready.target) h
    | inr (inl h) ↦ Runs-baremetal (KnownTarget-os ready.target) h
    | inr (inr h) ↦ Runs-others (KnownTarget-os ready.target) ready.pair h
  ]

-- When `validate_inputs` succeeds, `build_command` for its options is a make command in the project,
-- for the target that is named for the images of the hypervisor, the operating system and its version;
-- with `-efi` behind it only where EFI is the firmware.
pub build_command-Runs :
    (path : String) (i : Inputs) (f : ConfigFlags) (o : BuildOptions) {r : BuildOptions}
    → validate_inputs i f o ≡ ok r
    → Runs path r (build_command path r)
build_command-Runs path i f o {r} valid = IsReady-Runs path r (validate_inputs_sound i f o valid)
