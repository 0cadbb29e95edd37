-- ===== src/VersionTracker/Updates.antt =====
-- tools/version-tracker/pkg/commands/upgrade/upgrade.go: the patches of a project, and the files that
-- make and scripts bring up to date. The answer to a command that fails is its output, which
-- `ExecCommand` gives back beside the error.
use eks_anywhere_build_tooli.Prelude.{
  ℕ, String, ◌<>◌, Option, none, some, List, [], ◌∷◌, map, if◌then◌else◌, string_eq, ◌==◌, nat_eq,
  contains, join, ◌⟨/⟩◌,
}
use eks_anywhere_build_tooli.Prelude.Int.{ℤ, pos}
use eks_anywhere_build_tooli.Prelude.Number.{atoi}
use eks_anywhere_build_tooli.Prelude.System.{
  Program, ◌>>=◌, ◌>>◌, lift, wrapped, attempt, run, answered, Call, exec, Answer, good, absent,
  bad,
}
use eks_anywhere_build_tooli.Prelude.Outcome.{Outcome, ok, err, crash}
use eks_anywhere_build_tooli.VersionTracker.Types.{Tools}
use eks_anywhere_build_tooli.VersionTracker.Constants.{
  readme_update_script_file, failed_patch_apply_marker, failed_patch_apply_regex,
  failed_patch_files_regex, cilium_image_directories,
}
use eks_anywhere_build_tooli.VersionTracker.Commands.{group_1}

abbrev pub bash : String → Call
bash sequence = exec ("bash" ∷ "-c" ∷ sequence ∷ [])

-- How many patches were applied, the patch that failed, and the files that it failed on.
pub record PatchResult : Type 0 where
  pub patches_applied : ℤ
  pub failed_patch : String
  pub failed_files : String

-- `make patch-repo`: is it through, or did a patch fail, with which output?
unfoldable pub patch_output : Answer → Outcome (Option String)
patch_output (good text) = ok none
patch_output absent = err "running patch-repo Make command: no such file or directory"
patch_output (bad output) =
    if contains output failed_patch_apply_marker
    then ok (some output)
    else err ("running patch-repo Make command: " <> output)

abbrev converted : Option ℤ → Outcome ℤ
converted none = err "converting patch count to integer invalid syntax"
converted (some n) = ok n

-- The groups of `git describe`: behind the tag, the number of patches, if there are any.
unfoldable pub patch_count : List String → Outcome ℤ
patch_count [] = crash
patch_count (match ∷ []) = crash
patch_count (match ∷ described ∷ []) = if described == "" then ok (pos 0) else crash
patch_count (match ∷ described ∷ number ∷ groups) =
    if described == "" then ok (pos 0) else converted (atoi number)

-- A pattern that matches gives the match first; none is an empty text.
abbrev first_match : List String → String
first_match [] = ""
first_match (match ∷ groups) = match

unfoldable pub quoted_files : List (List String) → Program (List String)
quoted_files [] = lift (ok [])
quoted_files (groups ∷ matches) = do
  file ← lift (group_1 groups)
  files ← quoted_files matches
  lift (ok (("`" <> file <> "`") ∷ files))

module _ {V : Type 0} (t : Tools V) (project_root_filepath : String) where
  -- The part of `applyPatchesToRepo` behind a patch that failed.
  unfoldable pub failed_patches : String → String → String → Program PatchResult
  failed_patches project_repo latest_version output = do
    described ← wrapped "running git describe command" (
        attempt (
          exec
            ("git" ∷ "-C" ∷ (project_root_filepath ⟨/⟩ project_repo) ∷ "describe" ∷ "--tag" ∷ [])))
    patches_applied ←
        lift (patch_count (t.find_submatch (latest_version <> "(-([0-9]+)-g.*)?") described))
    files ← quoted_files (t.find_all_submatch failed_patch_files_regex output)
    lift (
        ok (record {
          patches_applied = patches_applied;
          failed_patch = first_match (t.find_submatch failed_patch_apply_regex output);
          failed_files = join files ",";
        }))

  abbrev pub patches_after : String → String → ℕ → Option String → Program PatchResult
  patches_after project_repo latest_version total_patch_count none = lift (
      ok (record { patches_applied = pos total_patch_count; failed_patch = ""; failed_files = "" }))
  patches_after project_repo latest_version total_patch_count (some output) =
      failed_patches project_repo latest_version output

  unfoldable pub apply_patches_to_repo : String → String → ℕ → Program PatchResult
  apply_patches_to_repo project_repo latest_version total_patch_count = do
    answer ← answered (bash ("make -C " <> project_root_filepath <> " patch-repo"))
    failed ← lift (patch_output answer)
    patches_after project_repo latest_version total_patch_count failed

unfoldable pub update_checksums_attribution_files : String → Program (Unit {0})
update_checksums_attribution_files project_root_filepath =
    wrapped "running checksums-attribution Make command"
      (run (bash ("make -C " <> project_root_filepath <> " attribution-checksums")))

unfoldable pub update_project_readme_version : String → String → String → Program (Unit {0})
update_project_readme_version build_tooling_repo_path project_org project_repo =
    wrapped "running README update command" (
      run (
        bash (
          (build_tooling_repo_path ⟨/⟩ readme_update_script_file)
          <> " "
          <> build_tooling_repo_path
          <> " "
          <> project_org
          <> "/"
          <> project_repo)))

unfoldable pub update_cilium_image_digest_files : String → String → Program (List String)
update_cilium_image_digest_files project_root_filepath project_path = do
  wrapped "running update-digests Make command"
      (run (bash ("make -C " <> project_root_filepath <> " update-digests")))
  lift (
      ok (
        map (λ directory. project_path <> "/images/" <> directory <> "/IMAGE_DIGEST")
          cilium_image_directories))
