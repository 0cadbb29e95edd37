-- ===== src/VersionTracker/Local/Bottlerocket.antt =====
-- The releases of EKS Distro and of Bottlerocket are brought up to date without a change on GitHub.
-- `P` is an invariant of the other calls.
use eks_anywhere_build_tooli.Prelude.{
  ℕ, String, ◌≡◌, false, Option, none, some, List, [], ◌∷◌, find_key,
}
use eks_anywhere_build_tooli.Prelude.System.{History, Env, Call}
use eks_anywhere_build_tooli.Prelude.System.Keeps.{KeepsCall, Keeps-bind, Keeps, keeps_rules}
use eks_anywhere_build_tooli.VersionTracker.Types.{EksDistroRelease, Tools}
use eks_anywhere_build_tooli.VersionTracker.Constants.{bottlerocket_image_formats}
use eks_anywhere_build_tooli.VersionTracker.Commands.{read_url}
use eks_anywhere_build_tooli.VersionTracker.EksDistro.{
  get_supported_release_branches, get_latest_eks_distro_release, update_release, update_releases,
  update_eks_distro_releases_file,
}
use eks_anywhere_build_tooli.VersionTracker.HostContainers.{
  update_host_container, update_host_containers, update_bottlerocket_host_container_metadata,
}
use eks_anywhere_build_tooli.VersionTracker.Bottlerocket.{
  Channels, release_key, verify_br_image_exists, update_setting, update_format, update_formats,
  update_channels, update_bottlerocket_releases_file, update_bottlerocket_version_files,
}
use eks_anywhere_build_tooli.VersionTracker.Local.{is_remote_write}
use eks_anywhere_build_tooli.VersionTracker.Local.Lists.{
  Keeps-get_file_contents, Keeps-get_latest_revision,
}

module _ {V : Type 0} (t : Tools V) {env : Env} {P : History → Type 0}
    (keeps : (c : Call) → is_remote_write c ≡ false → KeepsCall P c) where
  Keeps-update_release :
      (supported : List String) (release : EksDistroRelease)
      → Keeps env P (update_release t supported release)
  unfolding update_release get_latest_eks_distro_release
  Keeps-update_release supported release =
      search (keeps_rules, Keeps-get_file_contents t keeps) depth 20

  Keeps-update_releases :
      (supported : List String) (releases : List EksDistroRelease)
      → Keeps env P (update_releases t supported releases)
  unfolding update_releases
  Keeps-update_releases supported [] = search keeps_rules
  Keeps-update_releases supported (release ∷ releases) =
      Keeps-bind _ _ (Keeps-update_release supported release) λ first.
        Keeps-bind _ _ (Keeps-update_releases supported releases) λ rest. search keeps_rules

  pub Keeps-update_eks_distro_releases_file :
      (path : String) → Keeps env P (update_eks_distro_releases_file t path)
  unfolding update_eks_distro_releases_file get_supported_release_branches is_remote_write
  Keeps-update_eks_distro_releases_file path =
      search (keeps_rules, keeps, Keeps-update_releases) depth 30

  Keeps-verify_br_image_exists :
      (channel format version : String)
      → Keeps env P (verify_br_image_exists t channel format version)
  unfolding verify_br_image_exists read_url is_remote_write
  Keeps-verify_br_image_exists channel format version = search (keeps_rules, keeps) depth 20

  Keeps-update_setting :
      (latest channel : String) (settings : List (String × String)) (format : String)
      (version : Option String)
      → Keeps env P (update_setting t latest channel settings format version)
  Keeps-update_setting latest channel settings format none = search keeps_rules
  Keeps-update_setting latest channel settings format (some version) =
      search (keeps_rules, Keeps-verify_br_image_exists) depth 20

  Keeps-update_format :
      (latest channel : String) (settings : List (String × String)) (format : String)
      → Keeps env P (update_format t latest channel settings format)
  unfolding update_format
  Keeps-update_format latest channel settings format =
      Keeps-update_setting latest channel settings format (find_key (release_key format) settings)

  Keeps-update_formats :
      (latest channel : String) (settings : List (String × String)) (formats : List String)
      → Keeps env P (update_formats t latest channel settings formats)
  unfolding update_formats
  Keeps-update_formats latest channel settings [] = search keeps_rules
  Keeps-update_formats latest channel settings (format ∷ formats) =
      Keeps-bind _ _ (Keeps-update_format latest channel settings format)
        λ updated. Keeps-update_formats latest channel updated formats

  Keeps-update_channels :
      (latest : String) (channels : Channels) → Keeps env P (update_channels t latest channels)
  unfolding update_channels
  Keeps-update_channels latest [] = search keeps_rules
  Keeps-update_channels latest ((channel, settings) ∷ channels) =
      Keeps-bind _ _ (Keeps-update_formats latest channel settings bottlerocket_image_formats)
        λ updated. Keeps-bind _ _ (Keeps-update_channels latest channels) λ rest. search keeps_rules

  Keeps-update_host_container :
      (root path : String) (sources : List (String × String)) (container : String × String)
      → Keeps env P (update_host_container t root path sources container)
  unfolding update_host_container is_remote_write
  Keeps-update_host_container root path sources (container, upper) =
      search (keeps_rules, keeps) depth 30

  Keeps-update_host_containers :
      (root path : String) (sources containers : List (String × String))
      → Keeps env P (update_host_containers t root path sources containers)
  unfolding update_host_containers
  Keeps-update_host_containers root path sources [] = search keeps_rules
  Keeps-update_host_containers root path sources (container ∷ containers) =
      Keeps-bind _ _ (Keeps-update_host_container root path sources container) λ files.
        Keeps-bind _ _ (Keeps-update_host_containers root path sources containers)
          λ rest. search keeps_rules

  pub Keeps-update_bottlerocket_version_files :
      (fuel : ℕ) (root path : String)
      → Keeps env P (update_bottlerocket_version_files t fuel root path)
  unfolding update_bottlerocket_version_files update_bottlerocket_releases_file
      update_bottlerocket_host_container_metadata is_remote_write
  Keeps-update_bottlerocket_version_files fuel root path =
      search
        (
          keeps_rules,
          keeps,
          Keeps-update_channels,
          Keeps-update_host_containers,
          Keeps-get_latest_revision t keeps,
          Keeps-get_file_contents t keeps,
        )
        depth 30
