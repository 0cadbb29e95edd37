-- ===== src/VersionTracker/GoVersion.antt =====
-- tools/version-tracker/pkg/github/github.go: the Go version that a revision is built with.
use eks_anywhere_build_tooli.Prelude.{
  String, ◌<>◌, Option, none, some, List, [], ◌∷◌, if◌then◌else◌, string_eq, ◌==◌, nat_eq, contains,
  replace_all, ◌⟨/⟩◌, find_key,
}
use eks_anywhere_build_tooli.Prelude.System.{
  Program, ◌>>=◌, ◌>>◌, lift, wrapped, attempt, run, get_release_by_tag, getwd, mkdir_all,
  remove_all, open_file, github,
}
use eks_anywhere_build_tooli.Prelude.Outcome.{Outcome, ok, crash}
use eks_anywhere_build_tooli.VersionTracker.Types.{
  ReleaseTarball, GoVersionSourceOfTruth, Asset, Tools,
}
use eks_anywhere_build_tooli.VersionTracker.Constants.{
  project_release_assets, project_go_version_source_of_truth,
}
use eks_anywhere_build_tooli.VersionTracker.Commands.{
  download, extract_file_from_tarball, group_1, get_go_version, Tarball,
}
use eks_anywhere_build_tooli.VersionTracker.Github.{of_repository, get_file_contents}

-- `fmt.Sprintf(format, value)`, where the format has a `%s`
unfoldable pub fill : String → String → String
fill format value = if contains format "%s" then replace_all format "%s" value else format

-- `s[1:]`, of an empty text a panic
abbrev tail_of : String → Outcome String
tail_of String.[] = crash
tail_of (String.◌∷◌ c s) = ok s

unfoldable pub asset_version : ReleaseTarball → String → Outcome String
asset_version asset latest_revision =
    if asset.trim_leading_version_prefix then tail_of latest_revision else ok latest_revision

-- The name and the URL of the first asset of this name; both are empty where there is none.
unfoldable pub find_asset : String → List Asset → String × String
find_asset search_name [] = ("", "")
find_asset search_name (asset ∷ assets) =
    let rest = find_asset search_name assets in
    if asset.name == search_name then (asset.name, asset.browser_download_url) else rest

unfoldable pub tarball_source : ReleaseTarball → String → List Asset → String × String
tarball_source asset version assets =
    let search_name = fill asset.asset_name version in
    if asset.override_asset_url == ""
    then find_asset search_name assets
    else (search_name, fill asset.override_asset_url version)

module _ {V : Type 0} (t : Tools V) (dir : String → String) (untar : String → Outcome Tarball) where
  -- The version in the binary of a release.
  unfoldable pub released_go_version :
      String → String → String → String → ReleaseTarball → Program String
  released_go_version cwd org repo latest_revision asset = do
    text ←
        wrapped
          ("calling GetReleaseByTag for tag "
            <> latest_revision
            <> " in "
            <> of_repository org repo)
          (attempt (github (get_release_by_tag org repo latest_revision)))
    version ← lift (asset_version asset latest_revision)
    let (tarball_name, tarball_url) = tarball_source asset version (t.decode_release text).assets
    let download_path = cwd ⟨/⟩ "github-release-downloads"
    wrapped "failed to create GitHub release downloads folder" (run (mkdir_all download_path 493))
    wrapped ("downloading release tarball from URL [" <> tarball_url <> "]")
        (download tarball_url (download_path ⟨/⟩ tarball_name))
    let binary_name = fill asset.binary_name version
    if asset.extract
        then (wrapped "opening tarball filepath"
              (attempt (open_file (download_path ⟨/⟩ tarball_name)))
            >>= λ content.
                wrapped "extracting tarball file"
                  (extract_file_from_tarball dir download_path (untar content) binary_name))
        else lift (ok tt)
    go_version ←
        wrapped
          ("getting Go version embedded in binary [" <> (download_path ⟨/⟩ binary_name) <> "]")
          (get_go_version t (download_path ⟨/⟩ binary_name))
    wrapped "removing tarball download path" (run (remove_all download_path))
    lift (ok go_version)

  -- The version that a file of the repository names.
  unfoldable pub stated_go_version :
      String → String → String → GoVersionSourceOfTruth → Program String
  stated_go_version org repo latest_revision source = do
    contents ←
        wrapped ("getting contents of file [" <> source.source_of_truth_file <> "]")
          (get_file_contents t org repo source.source_of_truth_file latest_revision)
    lift (group_1 (t.find_submatch source.go_version_search_string contents))

  abbrev pub go_version_from :
      String
      → String
      → String
      → String
      → Option ReleaseTarball
      → Option GoVersionSourceOfTruth
      → Program String
  go_version_from cwd org repo latest_revision (some asset) source =
      released_go_version cwd org repo latest_revision asset
  go_version_from cwd org repo latest_revision none (some source) =
      stated_go_version org repo latest_revision source
  go_version_from cwd org repo latest_revision none none = lift (ok "")

  unfoldable pub get_go_version_for_latest_revision : String → String → String → Program String
  get_go_version_for_latest_revision org repo latest_revision = do
    cwd ← wrapped "retrieving current working directory" (attempt getwd)
    let name = org <> "/" <> repo
    go_version_from cwd org repo latest_revision (find_key name project_release_assets)
        (find_key name project_go_version_source_of_truth)
