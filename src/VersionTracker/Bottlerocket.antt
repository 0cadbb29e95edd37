-- ===== src/VersionTracker/Bottlerocket.antt =====
-- tools/version-tracker/pkg/commands/upgrade/upgrade.go: the versions of Bottlerocket that
-- image-builder uses. A Go map has no order; the model visits the channels in that of the decoder.
use eks_anywhere_build_tooli.Prelude.{
  ℕ, String, ◌<>◌, Bool, true, false, Option, none, some, List, [], ◌∷◌, if◌then◌else◌, string_eq,
  ◌==◌, nat_eq, replace_all, ◌⟨/⟩◌, find_key,
}
use eks_anywhere_build_tooli.Prelude.System.{
  Program, ◌>>=◌, lift, wrapped, attempt, run, read_file, write_file,
}
use eks_anywhere_build_tooli.Prelude.Outcome.{wrap, ok}
use eks_anywhere_build_tooli.VersionTracker.Types.{Tools}
use eks_anywhere_build_tooli.VersionTracker.Constants.{
  bottlerocket_releases_file, bottlerocket_image_formats,
}
use eks_anywhere_build_tooli.VersionTracker.Commands.{read_url}
use eks_anywhere_build_tooli.VersionTracker.Github.{get_latest_revision}
use eks_anywhere_build_tooli.VersionTracker.HostContainers.{
  update_bottlerocket_host_container_metadata,
}

abbrev pub Channels : Type 0
Channels = List (String × List (String × String))

abbrev pub release_key : String → String
release_key format = format <> "-release-version"

-- The version of the first format that a channel has one of, empty where it has none.
unfoldable pub version_of_formats : List String → List (String × String) → String
version_of_formats [] settings = ""
version_of_formats (format ∷ formats) settings =
    let rest = version_of_formats formats settings in
    elim (find_key (release_key format) settings) [ none ↦ rest | some version ↦ version ]

unfoldable pub current_bottlerocket_version : Channels → String
current_bottlerocket_version [] = ""
current_bottlerocket_version ((channel, settings) ∷ channels) =
    let rest = current_bottlerocket_version channels in
    let version = version_of_formats bottlerocket_image_formats settings in
    if version == "" then rest else version

-- The value of a key that a map has is replaced.
unfoldable pub set_key : String → String → List (String × String) → List (String × String)
set_key key value [] = []
set_key key value ((k, v) ∷ entries) =
    let rest = set_key key value entries in if k == key then (k, value) ∷ rest else (k, v) ∷ rest

unfoldable pub variant_of : String → String
variant_of format =
    if format == "ami"
    then "aws"
    else if format == "ova"
    then "vmware"
    else if format == "raw"
    then "metal"
    else ""

unfoldable pub image_target : String → String → String → String
image_target format kube_version bottlerocket_version =
    let stem =
      "bottlerocket-"
      <> variant_of format
      <> "-k8s-"
      <> kube_version
      <> "-x86_64-"
      <> bottlerocket_version in
    if format == "ami"
    then stem <> ".img.lz4"
    else if format == "ova"
    then stem <> ".ova"
    else if format == "raw"
    then stem <> ".img.lz4"
    else ""

unfoldable pub has_target_file : String → List String → Bool
has_target_file name [] = false
has_target_file name (target ∷ targets) =
    let rest = has_target_file name targets in if target == name then true else rest

module _ {V : Type 0} (t : Tools V) where
  unfoldable pub verify_br_image_exists : String → String → String → Program Bool
  verify_br_image_exists channel format bottlerocket_version = do
    let kube_version = replace_all channel "-" "."
    let base =
        "https://updates.bottlerocket.aws/2020-07-07/"
        <> variant_of format
        <> "-k8s-"
        <> kube_version
        <> "/x86_64/"
    manifest ← wrapped "reading Bottlerocket timestamp URL" (read_url (base <> "timestamp.json"))
    version ←
        lift (wrap "unmarshalling Bottlerocket timestamp manifest" (t.decode_timestamp manifest))
    targets_manifest ←
        wrapped "reading Bottlerocket targets URL" (read_url (base <> version <> ".targets.json"))
    targets ←
        lift
          (wrap "unmarshalling Bottlerocket targets manifest" (t.decode_targets targets_manifest))
    lift (ok (has_target_file (image_target format kube_version bottlerocket_version) targets))

  -- The setting of a format that a channel has gets the latest version, if there is an image of it.
  abbrev pub update_setting :
      String
      → String
      → List (String × String)
      → String
      → Option String
      → Program (List (String × String))
  update_setting latest_version channel settings format none = lift (ok settings)
  update_setting latest_version channel settings format (some version) = do
    exists ←
        wrapped
          ("checking if Bottlerocket " <> format <> " image exists for " <> channel
            <> " release branch")
          (verify_br_image_exists channel format latest_version)
    lift (ok (if exists then set_key (release_key format) latest_version settings else settings))

  unfoldable pub update_format :
      String → String → List (String × String) → String → Program (List (String × String))
  update_format latest_version channel settings format =
      update_setting latest_version channel settings format (find_key (release_key format) settings)

  unfoldable pub update_formats :
      String → String → List (String × String) → List String → Program (List (String × String))
  update_formats latest_version channel settings [] = lift (ok settings)
  update_formats latest_version channel settings (format ∷ formats) = do
    updated ← update_format latest_version channel settings format
    update_formats latest_version channel updated formats

  unfoldable pub update_channels : String → Channels → Program Channels
  update_channels latest_version [] = lift (ok [])
  update_channels latest_version ((channel, settings) ∷ channels) = do
    updated ← update_formats latest_version channel settings bottlerocket_image_formats
    rest ← update_channels latest_version channels
    lift (ok ((channel, updated) ∷ rest))

  unfoldable pub update_bottlerocket_releases_file : Channels → String → String → Program (Unit {0})
  update_bottlerocket_releases_file releases releases_file_path latest_version = do
    updated ← update_channels latest_version releases
    text ← lift (wrap "marshalling Bottlerocket releases" (t.encode_bottlerocket_releases updated))
    wrapped "writing Bottlerocket releases file" (run (write_file releases_file_path text 420))

  -- The current version, the latest one, and the files that were written.
  unfoldable pub update_bottlerocket_version_files :
      ℕ → String → String → Program (String × String × List String)
  update_bottlerocket_version_files fuel project_root_filepath project_path = do
    let releases_file_path = project_root_filepath ⟨/⟩ bottlerocket_releases_file
    contents ← wrapped "reading Bottlerocket releases file" (attempt (read_file releases_file_path))
    releases ←
        lift (
          wrap "unmarshalling Bottlerocket releases file" (t.decode_bottlerocket_releases contents))
    let current = current_bottlerocket_version releases
    (latest, needs_upgrade) ←
        wrapped "getting latest Bottlerocket version from GitHub"
          (get_latest_revision t "bottlerocket-os" "bottlerocket" fuel current)
    if needs_upgrade
        then (wrapped "updating Bottlerocket releases file"
              (update_bottlerocket_releases_file releases releases_file_path latest)
            >>= λ _.
                wrapped "updating Bottlerocket host containers metadata files" (
                  update_bottlerocket_host_container_metadata t project_root_filepath project_path
                    latest)
                >>= λ files.
                    lift
                      (ok (current, latest, (project_path ⟨/⟩ bottlerocket_releases_file) ∷ files)))
        else lift (ok (current, latest, []))
