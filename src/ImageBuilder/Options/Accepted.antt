-- ===== src/ImageBuilder/Options/Accepted.antt =====
-- Which options `check_options` accepts.
use eks_anywhere_build_tooli.Prelude.{
  String, ◌≡◌, ◌≢◌, ◌↔◌, ◌⊎◌, true, false, ◌||◌, arith, str_beq_iff, str_beq, string_eq,
}
use eks_anywhere_build_tooli.Prelude.Int.{is_negative, exceeds}
use eks_anywhere_build_tooli.Prelude.Outcome.{ok}
use eks_anywhere_build_tooli.ImageBuilder.Types.{BuildOptions}
use eks_anywhere_build_tooli.ImageBuilder.Constants.{
  ubuntu, redhat, vsphere, baremetal, nutanix, cloudstack, ami, efi, bios,
}
use eks_anywhere_build_tooli.ImageBuilder.Checks.{
  validate_os_hypervisor_combinations, validate_supported_hypervisors, validate_os_version,
  validate_firmware,
}
use eks_anywhere_build_tooli.ImageBuilder.Checks.Firmware.{FirmwareAllowed, validate_firmware_iff}
use eks_anywhere_build_tooli.ImageBuilder.Options.{
  default_os_version, default_firmware, check_air_gapped, check_options, redhat_8_only,
}

abbrev pub KnownHypervisor : String → Type 0
KnownHypervisor h =
    (h ≡ vsphere) ⊎ ((h ≡ baremetal) ⊎ ((h ≡ nutanix) ⊎ ((h ≡ cloudstack) ⊎ (h ≡ ami))))

-- The operating systems with their versions.
abbrev pub KnownOs : String → String → Type 0
KnownOs os version =
    ((os ≡ ubuntu) × ((version ≡ "20.04") ⊎ (version ≡ "22.04")))
    ⊎ ((os ≡ redhat) × ((version ≡ "8") ⊎ (version ≡ "9")))

abbrev pub AllowedPair : String → String → Type 0
AllowedPair os hypervisor =
    (hypervisor ≡ cloudstack → os ≡ redhat) × (hypervisor ≡ ami → os ≡ ubuntu)

hypervisors_iff : (h : String) → (validate_supported_hypervisors h ≡ ok tt) ↔ KnownHypervisor h
unfolding validate_supported_hypervisors
hypervisors_iff h = ground (
  arith,
  str_beq_iff vsphere h,
  str_beq_iff baremetal h,
  str_beq_iff nutanix h,
  str_beq_iff cloudstack h,
  str_beq_iff ami h,
)

os_version_iff : (os v : String) → (validate_os_version os v ≡ ok tt) ↔ KnownOs os v
unfolding validate_os_version
os_version_iff os v = ground (
  arith,
  str_beq_iff os ubuntu,
  str_beq_iff os redhat,
  str_beq_iff redhat ubuntu,
  str_beq_iff "20.04" v,
  str_beq_iff "22.04" v,
  str_beq_iff "8" v,
  str_beq_iff "9" v,
)

combinations_iff :
    (os h : String) → (validate_os_hypervisor_combinations os h ≡ ok tt) ↔ AllowedPair os h
unfolding validate_os_hypervisor_combinations
combinations_iff os h = ground (
  arith,
  str_beq_iff os ubuntu,
  str_beq_iff os redhat,
  str_beq_iff h cloudstack,
  str_beq_iff h ami,
)

-- The options that the rest of the build relies on.
pub record IsAccepted (o : BuildOptions) : Type 0 where
  pub os : KnownOs o.os o.os_version
  pub hypervisor : KnownHypervisor o.hypervisor
  pub pair : AllowedPair o.os o.hypervisor
  pub redhat_version : redhat_8_only o ≡ false
  pub firmware : (o.firmware ≡ bios) ⊎ (o.firmware ≡ efi)
  pub firmware_fits : FirmwareAllowed o.firmware o.os o.os_version o.hypervisor
  pub verbosity : (is_negative o.ansible_verbosity || exceeds o.ansible_verbosity 6) ≡ false
  pub air_gapped :
      o.air_gapped ≡ true → (o.manifest_tarball ≢ "") × (o.os ≡ ubuntu) × (o.hypervisor ≢ ami)

check_air_gapped_iff :
    (o : BuildOptions)
    → (check_air_gapped o ≡ ok tt)
      ↔ (o.air_gapped ≡ true → (o.manifest_tarball ≢ "") × (o.os ≡ ubuntu) × (o.hypervisor ≢ ami))
unfolding check_air_gapped
check_air_gapped_iff o = ground (
  arith,
  str_beq_iff o.manifest_tarball "",
  str_beq_iff o.os ubuntu,
  str_beq_iff o.hypervisor ami,
)

module _ (o : BuildOptions) where
  -- What the two defaults leave alone.
  default_os_version_keeps :
      default_os_version o ≡ record o { os_version = (default_os_version o).os_version }
  unfolding default_os_version
  default_os_version_keeps = ground arith

  default_firmware_keeps :
      default_firmware o ≡ record o { firmware = (default_firmware o).firmware }
  unfolding default_firmware
  default_firmware_keeps = ground arith

  default_firmware_cases :
      FirmwareAllowed o.firmware o.os o.os_version o.hypervisor
      → let f = (default_firmware o).firmware in
        ((f ≡ bios) ⊎ (f ≡ efi)) × FirmwareAllowed f o.os o.os_version o.hypervisor
  unfolding default_firmware
  default_firmware_cases h = ground (
    arith,
    str_beq_iff o.firmware "",
    str_beq_iff o.os ubuntu,
    str_beq_iff o.hypervisor baremetal,
  )

-- The fields of accepted options from the tests that were passed.
module _ (p : BuildOptions) where
  IsAccepted-of_tests :
      KnownHypervisor p.hypervisor
      → AllowedPair p.os p.hypervisor
      → (is_negative p.ansible_verbosity || exceeds p.ansible_verbosity 6) ≡ false
      → redhat_8_only p ≡ false
      → KnownOs p.os p.os_version
      → FirmwareAllowed p.firmware p.os p.os_version p.hypervisor
      → check_air_gapped (default_firmware p) ≡ ok tt
      → IsAccepted (default_firmware p)
  IsAccepted-of_tests hv pair verb red os fw air =
      let fits = default_firmware_cases p fw in
      let gap = (check_air_gapped_iff (default_firmware p)).0 air in
      rw (default_firmware_keeps p) (record {
        os = os;
        hypervisor = hv;
        pair = pair;
        redhat_version = red;
        firmware = fits.0;
        firmware_fits = fits.1;
        verbosity = verb;
        air_gapped = rw default_firmware_keeps at gap;
      })

-- The tests that a successful `check_options` has passed.
passed_tests :
    (o q : BuildOptions)
    → check_options o ≡ ok q
    → let p = default_os_version o in
      (validate_supported_hypervisors o.hypervisor ≡ ok tt)
      × (validate_os_hypervisor_combinations o.os o.hypervisor ≡ ok tt)
      × ((is_negative o.ansible_verbosity || exceeds o.ansible_verbosity 6) ≡ false)
      × (redhat_8_only p ≡ false)
      × (validate_os_version p.os p.os_version ≡ ok tt)
      × (validate_firmware p.firmware p.os p.os_version p.hypervisor ≡ ok tt)
      × (check_air_gapped (default_firmware p) ≡ ok tt)
      × (default_firmware p ≡ q)
unfolding check_options
passed_tests o q h = ground arith steps 40000000

-- Options that `check_options` returns are accepted: a known operating system, version and hypervisor
-- that fit each other, a firmware that fits them, a verbosity from 0 to 6, and, for an air-gapped
-- build, Ubuntu, a tarball of manifests and no AMI.
pub check_options_sound :
    (o : BuildOptions) {q : BuildOptions} → check_options o ≡ ok q → IsAccepted q
check_options_sound o {q} h =
    let t = passed_tests o q h in
    let p = default_os_version o in
    let hv = (hypervisors_iff o.hypervisor).0 t.0 in
    let pair = (combinations_iff o.os o.hypervisor).0 t.1 in
    rw t.7 at (
      IsAccepted-of_tests p (rw default_os_version_keeps hv) (rw default_os_version_keeps pair)
        (rw default_os_version_keeps t.2) t.3 ((os_version_iff p.os p.os_version).0 t.4)
        ((validate_firmware_iff p.firmware p.os p.os_version p.hypervisor).0 t.5) t.6)

-- Accepted options, which name their version and their firmware, pass `check_options` as they are.
pub check_options_complete : (o : BuildOptions) → IsAccepted o → check_options o ≡ ok o
unfolding check_options
check_options_complete o a =
    let os : default_os_version o ≡ o =
      unfold default_os_version in
      ground (
        arith,
        a.os,
        str_beq_iff o.os_version "",
        str_beq_iff "20.04" "",
        str_beq_iff "22.04" "",
        str_beq_iff "8" "",
        str_beq_iff "9" "",
      ) in
    let fw : default_firmware o ≡ o =
      unfold default_firmware in
      ground
        (arith, a.firmware, str_beq_iff o.firmware "", str_beq_iff bios "", str_beq_iff efi "") in
    let known : (str_beq o.os ubuntu || str_beq o.os redhat) ≡ true =
      ground (arith, a.os, str_beq_iff o.os ubuntu, str_beq_iff o.os redhat) in
    rw
      (
        os,
        fw,
        (hypervisors_iff o.hypervisor).1 a.hypervisor,
        (combinations_iff o.os o.hypervisor).1 a.pair,
        a.verbosity,
        a.redhat_version,
        (os_version_iff o.os o.os_version).1 a.os,
        (validate_firmware_iff o.firmware o.os o.os_version o.hypervisor).1 a.firmware_fits,
        (check_air_gapped_iff o).1 a.air_gapped,
      )
      (ground (arith, known))

-- The options that `check_options` returns for some options pass it again, unchanged.
pub check_options_idem :
    (o : BuildOptions) {q : BuildOptions} → check_options o ≡ ok q → check_options q ≡ ok q
check_options_idem o {q} h = check_options_complete q (check_options_sound o h)
