-- ===== src/VersionTracker/Upgrade/Project.antt =====
-- tools/version-tracker/pkg/commands/upgrade/upgrade.go: the files of a project that is out of date.
use eks_anywhere_build_tooli.Prelude.{
  ℕ, String, ◌<>◌, Bool, true, false, not, ◌||◌, Option, none, some, List, [], ◌∷◌, ◌++◌,
  if◌then◌else◌, string_eq, ◌==◌, nat_eq, split, ◌⟨/⟩◌,
}
use eks_anywhere_build_tooli.Prelude.Int.{rounds, is_above, same_int, ℤ, pos}
use eks_anywhere_build_tooli.Prelude.Number.{atoi}
use eks_anywhere_build_tooli.Prelude.System.{
  Program, ◌>>=◌, ◌>>◌, lift, wrapped, attempt, stat_succeeds, glob,
}
use eks_anywhere_build_tooli.Prelude.Outcome.{wrap, Outcome, ok, err, crash}
use eks_anywhere_build_tooli.VersionTracker.Types.{Version, Repo, ProjectsList, Tools}
use eks_anywhere_build_tooli.VersionTracker.Constants.{
  readme_file, upstream_projects_tracker_file, git_tag_file, go_version_file, checksums_file,
  attributions_file_pattern,
}
use eks_anywhere_build_tooli.VersionTracker.Bodies.{patches_comment_body}
use eks_anywhere_build_tooli.VersionTracker.Commands.{Tarball}
use eks_anywhere_build_tooli.VersionTracker.GoVersion.{get_go_version_for_latest_revision}
use eks_anywhere_build_tooli.VersionTracker.Tracker.{
  update_project_version_file, load_upstream_projects_tracker_file, set_tag, set_go_version,
  write_target, update_upstream_projects_tracker_file,
}
use eks_anywhere_build_tooli.VersionTracker.Updates.{
  apply_patches_to_repo, update_checksums_attribution_files, update_project_readme_version,
  update_cilium_image_digest_files,
}

-- What `Run` knows of the upgrade when it comes to the project.
pub record Context : Type 0 where
  pub project_name : String
  pub project_org : String
  pub project_repo : String
  pub base_repo_owner : String
  pub head_repo_owner : String
  pub github_token : String
  pub build_tooling_repo_path : String
  pub head_commit : String
  pub dry_run : Bool

abbrev pub project_path : Context → String
project_path c = "projects/" <> c.project_name

abbrev pub project_root : Context → String
project_root c = c.build_tooling_repo_path ⟨/⟩ project_path c

abbrev pub tracker_path : Context → String
tracker_path c = c.build_tooling_repo_path ⟨/⟩ upstream_projects_tracker_file

-- `targetRepo.Versions[0]`
unfoldable pub first_version : Repo → Outcome Version
first_version repo = elim repo.versions [ [] ↦ crash | version ∷ versions ↦ ok version ]

abbrev valid_number : String → Option ℤ → Outcome ℤ
valid_number message none = err (message <> ": invalid syntax")
valid_number message (some n) = ok n

-- `strconv.Atoi(strings.Split(version, ".")[1])`
unfoldable pub go_minor_version : String → String → Outcome ℤ
go_minor_version message version = elim (split version ".") [
  | [] ↦ crash
  | major ∷ [] ↦ crash
  | major ∷ minor ∷ rest ↦ valid_number message (atoi minor)
]

-- The files that were written, and the warning if not all patches were applied.
pub record Updated : Type 0 where
  pub files : List String
  pub warning : Option String

module _ {V : Type 0} (t : Tools V) (dir : String → String) (untar : String → Outcome Tarball)
    (c : Context) where
  -- The list of projects with the Go version of the latest revision, and the file if it was written.
  unfoldable pub update_go_version :
      Version → String → ProjectsList → Program (ProjectsList × List String)
  update_go_version current latest_revision list =
      if current.go_version == "N/A"
      then lift (ok (write_target c.project_org c.project_repo (set_go_version "N/A") list, []))
      else (wrapped ("getting latest Go version for release " <> latest_revision) (
            get_go_version_for_latest_revision t dir untar c.project_org c.project_repo
              latest_revision)
          >>= λ latest.
              lift (go_minor_version "getting current Go minor version" current.go_version)
              >>= λ current_minor.
                  lift (go_minor_version "getting latest Go minor version" latest)
                  >>= λ latest_minor.
                      if is_above latest_minor current_minor
                      then (wrapped "updating project GOLANG_VERSION file" (
                            update_project_version_file t c.build_tooling_repo_path go_version_file
                              c.project_name latest)
                          >>= λ file. lift (
                              ok (
                                write_target c.project_org c.project_repo (set_go_version latest)
                                    list,
                                file ∷ [],
                              )))
                      else lift (ok (list, [])))

  -- The patches: was each of them applied, and the warning if not.
  unfoldable pub update_patches : Bool → ℕ → String → Program (Bool × Option String)
  update_patches has_patches total latest_revision =
      if has_patches
      then (wrapped "applying patches to repository"
            (apply_patches_to_repo t (project_root c) c.project_repo latest_revision total)
          >>= λ result.
              if same_int result.patches_applied (pos total)
              then lift (ok (true, none))
              else lift (
                  ok (
                    false,
                    some (
                        patches_comment_body (rounds result.patches_applied) total
                          result.failed_patch result.failed_files),
                  )))
      else lift (ok (false, none))

  -- `filepath.Rel` of each attribution file
  unfoldable pub relative_paths : List String → Program (List String)
  relative_paths [] = lift (ok [])
  relative_paths (file ∷ files) = do
    path ← lift (
        wrap "getting relative path for attribution file"
          (t.relative_path c.build_tooling_repo_path file))
    rest ← relative_paths files
    lift (ok (path ∷ rest))

  unfoldable pub update_checksums : Program (List String)
  update_checksums = do
    exists ← stat_succeeds (project_root c ⟨/⟩ checksums_file)
    if exists
        then (wrapped "updating project checksums and attribution files"
              (update_checksums_attribution_files (project_root c))
            >>= λ _.
                wrapped
                  ("finding filenames matching attribution file pattern ["
                    <> attributions_file_pattern <> "]")
                  (attempt (glob (project_root c ⟨/⟩ attributions_file_pattern)))
                >>= λ text. relative_paths (t.decode_glob text) >>= λ attributions.
                    lift (ok ((project_path c ⟨/⟩ checksums_file) ∷ attributions)))
        else lift (ok [])

  unfoldable pub update_cilium : Program (List String)
  update_cilium =
      if c.project_name == "cilium/cilium"
      then wrapped "updating Cilium image digest files"
          (update_cilium_image_digest_files (project_root c) (project_path c))
      else lift (ok [])

  -- The block of `Run` under `if needsUpgrade`.
  unfoldable pub update_project : Version → String → Bool → ℕ → Program Updated
  update_project current latest_revision has_patches total_patch_count = do
    (list, target) ←
        wrapped "reloading upstream projects tracker file"
          (load_upstream_projects_tracker_file t (tracker_path c) c.project_org c.project_repo)
    version ← lift (first_version target)
    let tagged = write_target c.project_org c.project_repo (set_tag latest_revision) list
    tag_file ← wrapped "updating project GIT_TAG file" (
        update_project_version_file t c.build_tooling_repo_path git_tag_file c.project_name
          latest_revision)
    (projects_list, go_files) ← update_go_version current latest_revision tagged
    wrapped "updating upstream projects tracker file" (
        update_upstream_projects_tracker_file t projects_list c.build_tooling_repo_path
          (tracker_path c))
    wrapped "updating version in project README"
        (update_project_readme_version c.build_tooling_repo_path c.project_org c.project_repo)
    (succeeded, warning) ← update_patches has_patches total_patch_count latest_revision
    checksums ← if not has_patches || succeeded then update_checksums else lift (ok [])
    cilium ← update_cilium
    lift (
        ok (record {
          files =
              (tag_file ∷ go_files)
              ++ upstream_projects_tracker_file ∷ (project_path c ⟨/⟩ readme_file) ∷ checksums
              ++ cilium;
          warning = warning;
        }))
