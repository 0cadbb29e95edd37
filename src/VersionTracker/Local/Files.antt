-- ===== src/VersionTracker/Local/Files.antt =====
-- The files of a project are brought up to date without a change on GitHub. `P` is an invariant of
-- the other calls.
use eks_anywhere_build_tooli.Prelude.{
  ℕ, String, ◌≡◌, Bool, false, Option, none, some, List, [], ◌∷◌,
}
use eks_anywhere_build_tooli.Prelude.System.{History, Env, Call}
use eks_anywhere_build_tooli.Prelude.Outcome.{Outcome}
use eks_anywhere_build_tooli.Prelude.System.Keeps.{KeepsCall, Keeps-bind, Keeps, keeps_rules}
use eks_anywhere_build_tooli.VersionTracker.Types.{
  Version, ProjectsList, ReleaseTarball, GoVersionSourceOfTruth, Tools,
}
use eks_anywhere_build_tooli.VersionTracker.Commands.{
  download, extract_entry, extract_file_from_tarball, get_go_version, Tarball,
}
use eks_anywhere_build_tooli.VersionTracker.GoVersion.{
  released_go_version, stated_go_version, go_version_from, get_go_version_for_latest_revision,
}
use eks_anywhere_build_tooli.VersionTracker.Tracker.{
  update_project_version_file, load_upstream_projects_tracker_file,
  update_upstream_projects_tracker_file,
}
use eks_anywhere_build_tooli.VersionTracker.Updates.{
  quoted_files, failed_patches, patches_after, apply_patches_to_repo,
  update_checksums_attribution_files, update_project_readme_version,
  update_cilium_image_digest_files,
}
use eks_anywhere_build_tooli.VersionTracker.Upgrade.Project.{
  update_go_version, update_patches, relative_paths, update_checksums, update_cilium,
  update_project, Context,
}
use eks_anywhere_build_tooli.VersionTracker.Local.{is_remote_write}
use eks_anywhere_build_tooli.VersionTracker.Local.Lists.{Keeps-get_file_contents}

module _ {V : Type 0} (t : Tools V) {env : Env} {P : History → Type 0}
    (keeps : (c : Call) → is_remote_write c ≡ false → KeepsCall P c) where
  module _ (dir : String → String) (untar : String → Outcome Tarball) where
    Keeps-extract_entry :
        (path target name : String) → Keeps env P (extract_entry dir path target name)
    unfolding extract_entry is_remote_write
    Keeps-extract_entry path target name = search (keeps_rules, keeps) depth 30

    Keeps-released_go_version :
        (cwd org repo latest : String) (asset : ReleaseTarball)
        → Keeps env P (released_go_version t dir untar cwd org repo latest asset)
    unfolding released_go_version download extract_file_from_tarball get_go_version is_remote_write
    Keeps-released_go_version cwd org repo latest asset =
        search (keeps_rules, keeps, Keeps-extract_entry) depth 30

    Keeps-stated_go_version :
        (org repo latest : String) (source : GoVersionSourceOfTruth)
        → Keeps env P (stated_go_version t dir untar org repo latest source)
    unfolding stated_go_version
    Keeps-stated_go_version org repo latest source =
        search (keeps_rules, Keeps-get_file_contents t keeps) depth 20

    Keeps-go_version_from :
        (cwd org repo latest : String) (asset : Option ReleaseTarball)
        (source : Option GoVersionSourceOfTruth)
        → Keeps env P (go_version_from t dir untar cwd org repo latest asset source)
    Keeps-go_version_from cwd org repo latest (some asset) source =
        Keeps-released_go_version cwd org repo latest asset
    Keeps-go_version_from cwd org repo latest none (some source) =
        Keeps-stated_go_version org repo latest source
    Keeps-go_version_from cwd org repo latest none none = search keeps_rules

    Keeps-get_go_version_for_latest_revision :
        (org repo latest : String)
        → Keeps env P (get_go_version_for_latest_revision t dir untar org repo latest)
    unfolding get_go_version_for_latest_revision is_remote_write
    Keeps-get_go_version_for_latest_revision org repo latest =
        search (keeps_rules, keeps, Keeps-go_version_from) depth 20

  Keeps-quoted_files : (matches : List (List String)) → Keeps env P (quoted_files matches)
  unfolding quoted_files
  Keeps-quoted_files [] = search keeps_rules
  Keeps-quoted_files (groups ∷ matches) =
      Keeps-bind _ _ (search keeps_rules)
        λ file. search (keeps_rules, Keeps-quoted_files matches) depth 20

  Keeps-patches_after :
      (root repo latest : String) (total : ℕ) (failed : Option String)
      → Keeps env P (patches_after t root repo latest total failed)
  unfolding failed_patches is_remote_write
  Keeps-patches_after root repo latest total none = search keeps_rules
  Keeps-patches_after root repo latest total (some output) =
      search (keeps_rules, keeps, Keeps-quoted_files) depth 20

  module _ (dir : String → String) (untar : String → Outcome Tarball) (c : Context) where
    Keeps-update_go_version :
        (current : Version) (latest : String) (list : ProjectsList)
        → Keeps env P (update_go_version t dir untar c current latest list)
    unfolding update_go_version update_project_version_file is_remote_write
    Keeps-update_go_version current latest list =
        search (keeps_rules, keeps, Keeps-get_go_version_for_latest_revision dir untar) depth 20

    Keeps-update_patches :
        (has_patches : Bool) (total : ℕ) (latest : String)
        → Keeps env P (update_patches t dir untar c has_patches total latest)
    unfolding update_patches apply_patches_to_repo is_remote_write
    Keeps-update_patches has_patches total latest =
        search (keeps_rules, keeps, Keeps-patches_after) depth 20

    Keeps-relative_paths : (files : List String) → Keeps env P (relative_paths t dir untar c files)
    unfolding relative_paths
    Keeps-relative_paths [] = search keeps_rules
    Keeps-relative_paths (file ∷ files) =
        Keeps-bind _ _ (search keeps_rules)
          λ path. search (keeps_rules, Keeps-relative_paths files) depth 20

    Keeps-update_checksums : Keeps env P (update_checksums t dir untar c)
    unfolding update_checksums update_checksums_attribution_files is_remote_write
    Keeps-update_checksums = search (keeps_rules, keeps, Keeps-relative_paths) depth 20

    Keeps-update_cilium : Keeps env P (update_cilium t dir untar c)
    unfolding update_cilium update_cilium_image_digest_files is_remote_write
    Keeps-update_cilium = search (keeps_rules, keeps) depth 20

    pub Keeps-update_project :
        (current : Version) (latest : String) (has_patches : Bool) (total : ℕ)
        → Keeps env P (update_project t dir untar c current latest has_patches total)
    unfolding update_project load_upstream_projects_tracker_file update_project_version_file
        update_upstream_projects_tracker_file update_project_readme_version is_remote_write
    Keeps-update_project current latest has_patches total =
        search
          (
            keeps_rules, keeps, Keeps-update_go_version, Keeps-update_patches,
            Keeps-update_checksums, Keeps-update_cilium,
          )
          depth 40
