-- ===== src/ImageBuilder/Validate/Accepted.antt =====
-- What `validate_inputs` guarantees to `BuildImage`.
use mathlib.Core.Path.{sym, subst, subst₂, ◌∙◌}
use eks_anywhere_build_tooli.Prelude.{
  String, ◌≡◌, refl, ◌≢◌, ◌⊎◌, inl, inr, none, true, false, arith, ◌==◌, string_eq, str_beq_iff,
  if◌then◌else◌, ◌||◌, ◌<>◌, Bool-cases,
}
use eks_anywhere_build_tooli.Prelude.Int.{is_negative, exceeds}
use eks_anywhere_build_tooli.Prelude.Text.{to_lower, replace_all}
use eks_anywhere_build_tooli.Prelude.Outcome.{ok, err, >>=-elim, ◌>>=◌}
use eks_anywhere_build_tooli.ImageBuilder.Types.{BuildOptions}
use eks_anywhere_build_tooli.ImageBuilder.Constants.{
  ubuntu, redhat, vsphere, baremetal, nutanix, cloudstack, ami, efi, bios,
}
use eks_anywhere_build_tooli.ImageBuilder.Options.{check_options, normalise}
use eks_anywhere_build_tooli.ImageBuilder.Options.Accepted.{
  KnownHypervisor, KnownOs, AllowedPair, IsAccepted, check_options_sound,
}
use eks_anywhere_build_tooli.ImageBuilder.Load.{Inputs}
use eks_anywhere_build_tooli.ImageBuilder.Load.Frame.{
  load_vsphere_frame, load_baremetal_frame, load_nutanix_frame, load_cloudstack_frame,
  load_ami_frame,
}
use eks_anywhere_build_tooli.ImageBuilder.Validate.{
  ConfigFlags, config_required, config_path, decode_config, absolute_path, read_content,
  read_config, load_config, load_files, validate_inputs,
}

-- The fields that neither reading a configuration nor adding files changes.
abbrev pub SameTarget : BuildOptions → BuildOptions → Type 0
SameTarget r o =
    (r.os ≡ o.os)
    × (r.os_version ≡ o.os_version)
    × (r.hypervisor ≡ o.hypervisor)
    × (r.firmware ≡ o.firmware)
    × (r.air_gapped ≡ o.air_gapped)
    × (r.manifest_tarball ≡ o.manifest_tarball)
    × (r.ansible_verbosity ≡ o.ansible_verbosity)

-- The configuration that the provider needs is there.
abbrev pub HasConfig : BuildOptions → Type 0
HasConfig r =
    (r.hypervisor ≡ vsphere → r.vsphere_config ≢ none)
    × (r.hypervisor ≡ baremetal → r.os ≡ redhat → r.baremetal_config ≢ none)
    × (r.hypervisor ≡ nutanix → r.nutanix_config ≢ none)
    × (r.hypervisor ≡ cloudstack → r.cloudstack_config ≢ none)

module _ (i : Inputs) (o r : BuildOptions) where
  decode_config_frame :
      (content : String) → decode_config i content o ≡ ok r → SameTarget r o × HasConfig r
  unfolding decode_config
  decode_config_frame content h = ground (
    arith,
    load_vsphere_frame i content o {r = r},
    load_baremetal_frame i content o {r = r},
    load_nutanix_frame i content o {r = r},
    load_cloudstack_frame i content o {r = r},
    load_ami_frame i content o {r = r},
    str_beq_iff o.hypervisor vsphere,
    str_beq_iff o.hypervisor baremetal,
    str_beq_iff o.hypervisor nutanix,
    str_beq_iff o.hypervisor cloudstack,
    str_beq_iff vsphere baremetal,
    str_beq_iff vsphere nutanix,
    str_beq_iff vsphere cloudstack,
    str_beq_iff baremetal nutanix,
    str_beq_iff baremetal cloudstack,
    str_beq_iff nutanix cloudstack,
    str_beq_iff ami vsphere,
    str_beq_iff ami baremetal,
    str_beq_iff ami nutanix,
    str_beq_iff ami cloudstack,
    str_beq_iff o.hypervisor ami,
  )

  no_config :
      (if config_required o
          then err (
              o.hypervisor <> "-config is a required flag for " <> o.hypervisor
              <> " hypervisor or when os is redhat")
          else ok o)
        ≡ ok r
      → SameTarget r o × HasConfig r
  no_config h = ground (
    arith,
    str_beq_iff o.hypervisor vsphere,
    str_beq_iff o.hypervisor baremetal,
    str_beq_iff o.hypervisor nutanix,
    str_beq_iff o.hypervisor cloudstack,
    str_beq_iff o.os redhat,
  )

  read_config_frame : (path : String) → read_config i path o ≡ ok r → SameTarget r o × HasConfig r
  unfolding read_config
  read_config_frame path h =
      >>=-elim (absolute_path i path o) (λ p. read_content i p o >>= λ c. decode_config i c o) h
        λ p _ h'.
          >>=-elim (read_content i p o) (λ c. decode_config i c o) h' λ c _. decode_config_frame c

  load_config_frame : (path : String) → load_config i path o ≡ ok r → SameTarget r o × HasConfig r
  unfolding load_config
  load_config_frame path h = elim (Bool-cases (path == "")) [
    | inl e ↦ no_config (rw e at h)
    | inr e ↦ read_config_frame path (rw e at h)
  ]

  load_files_frame :
      (path : String)
      → load_files i path o ≡ ok r
      → SameTarget r o
        × (r.vsphere_config ≡ o.vsphere_config)
        × (r.baremetal_config ≡ o.baremetal_config)
        × (r.nutanix_config ≡ o.nutanix_config)
        × (r.cloudstack_config ≡ o.cloudstack_config)
  unfolding load_files
  load_files_frame path h = ground arith

-- The spelling that the make targets use.
abbrev pub KnownTarget : String → String → Type 0
KnownTarget os version =
    ((os ≡ ubuntu) × ((version ≡ "2004") ⊎ (version ≡ "2204")))
    ⊎ ((os ≡ redhat) × ((version ≡ "8") ⊎ (version ≡ "9")))

-- What `BuildImage` is given.
pub record IsReady (r : BuildOptions) : Type 0 where
  pub target : KnownTarget r.os r.os_version
  pub hypervisor : KnownHypervisor r.hypervisor
  pub pair : AllowedPair r.os r.hypervisor
  pub firmware : (r.firmware ≡ bios) ⊎ (r.firmware ≡ efi)
  pub raw_ubuntu : r.os ≡ ubuntu → r.hypervisor ≡ baremetal → r.firmware ≡ efi
  pub verbosity : (is_negative r.ansible_verbosity || exceeds r.ansible_verbosity 6) ≡ false
  pub air_gapped :
      r.air_gapped ≡ true → (r.manifest_tarball ≢ "") × (r.os ≡ ubuntu) × (r.hypervisor ≢ ami)
  pub config : HasConfig r

-- Lower case changes no name, and the dots leave the version numbers.
normalise_hypervisor : (h : String) → KnownHypervisor h → to_lower h ≡ h
unfolding to_lower
normalise_hypervisor h (inl e) = rw e
normalise_hypervisor h (inr (inl e)) = rw e
normalise_hypervisor h (inr (inr (inl e))) = rw e
normalise_hypervisor h (inr (inr (inr (inl e)))) = rw e
normalise_hypervisor h (inr (inr (inr (inr e)))) = rw e

normalise_os :
    (os v : String) → KnownOs os v → (to_lower os ≡ os) × KnownTarget os (replace_all v "." "")
unfolding to_lower replace_all
normalise_os os v (inl (p, inl q)) = rw (p, q) (refl, inl (refl, inl refl))
normalise_os os v (inl (p, inr q)) = rw (p, q) (refl, inl (refl, inr refl))
normalise_os os v (inr (p, inl q)) = rw (p, q) (refl, inr (refl, inl refl))
normalise_os os v (inr (p, inr q)) = rw (p, q) (refl, inr (refl, inr refl))

-- The options behind the checks, behind the provider's configuration and behind the files.
module _ (q l r : BuildOptions) (a : IsAccepted q) where
  IsReady-of_parts :
      SameTarget l (normalise q)
      → HasConfig l
      → SameTarget r l
      → (r.vsphere_config ≡ l.vsphere_config)
        × (r.baremetal_config ≡ l.baremetal_config)
        × (r.nutanix_config ≡ l.nutanix_config)
        × (r.cloudstack_config ≡ l.cloudstack_config)
      → IsReady r
  unfolding normalise
  IsReady-of_parts s c t k =
      let os = normalise_os q.os q.os_version a.os in
      let hv = normalise_hypervisor q.hypervisor a.hypervisor in
      let e : r.os ≡ q.os = t.0 ∙ s.0 ∙ os.0 in
      let v : r.os_version ≡ replace_all q.os_version "." "" = t.1 ∙ s.1 in
      let h : r.hypervisor ≡ q.hypervisor = t.2 ∙ s.2 ∙ hv in
      let f : r.firmware ≡ q.firmware = t.3 ∙ s.3 in
      let g : r.air_gapped ≡ q.air_gapped = t.4 ∙ s.4 in
      let m : r.manifest_tarball ≡ q.manifest_tarball = t.5 ∙ s.5 in
      let b : r.ansible_verbosity ≡ q.ansible_verbosity = t.6 ∙ s.6 in
      record {
        target = subst₂ KnownTarget (sym e) (sym v) os.1;
        hypervisor = subst KnownHypervisor (sym h) a.hypervisor;
        pair = subst₂ AllowedPair (sym e) (sym h) a.pair;
        firmware = rw f a.firmware;
        raw_ubuntu = ground (
          arith,
          a.firmware,
          a.firmware_fits,
          str_beq_iff bios "",
          str_beq_iff efi "",
          str_beq_iff bios efi,
          str_beq_iff ubuntu redhat,
        );
        verbosity = rw b a.verbosity;
        air_gapped = rw (e, h, g, m) a.air_gapped;
        config = ground (arith, c);
      }

-- When `validate_inputs` succeeds, the options name a supported operating system in the spelling of
-- the make targets, a supported hypervisor that fits it and a firmware (EFI for raw Ubuntu images),
-- the verbosity is between 0 and 6, an air-gapped build is for Ubuntu, not for AMI, and has its
-- tarball, and the provider's configuration has been read wherever it is required.
pub validate_inputs_sound :
    (i : Inputs) (f : ConfigFlags) (o : BuildOptions) {r : BuildOptions}
    → validate_inputs i f o ≡ ok r
    → IsReady r
unfolding validate_inputs
validate_inputs_sound i f o {r} h =
    >>=-elim (check_options o)
      (λ q.
        load_config i (config_path f q.hypervisor) (normalise q)
        >>= load_files i f.additional_files_config_file)
      h
      λ q checked h'.
        >>=-elim (load_config i (config_path f q.hypervisor) (normalise q))
          (load_files i f.additional_files_config_file) h'
          λ l loaded done.
            let c = load_config_frame i (normalise q) l (config_path f q.hypervisor) loaded in
            let d = load_files_frame i l r f.additional_files_config_file done in
            IsReady-of_parts q l r (check_options_sound o checked) c.0 c.1 d.0 (d.1, d.2, d.3, d.4)
