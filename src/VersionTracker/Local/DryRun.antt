-- ===== src/VersionTracker/Local/DryRun.antt =====
-- A dry run changes nothing on GitHub.
use eks_anywhere_build_tooli.Prelude.{
  ℕ, String, ◌≡◌, refl, Bool, true, false, List, [], ◌∷◌, if◌then◌else◌,
}
use eks_anywhere_build_tooli.Prelude.System.{History, Env, Call}
use eks_anywhere_build_tooli.Prelude.Outcome.{Outcome}
use eks_anywhere_build_tooli.Prelude.System.Keeps.{KeepsCall, Keeps, keeps_rules}
use eks_anywhere_build_tooli.VersionTracker.Types.{UpgradeOptions, Version, Tools}
use eks_anywhere_build_tooli.VersionTracker.Commands.{Tarball}
use eks_anywhere_build_tooli.VersionTracker.Git.{
  clone_repo, reset_to_main, checkout, add, create_commit,
}
use eks_anywhere_build_tooli.VersionTracker.Tracker.{load_upstream_projects_tracker_file}
use eks_anywhere_build_tooli.VersionTracker.Upgrade.Project.{Context}
use eks_anywhere_build_tooli.VersionTracker.Upgrade.Planning.{
  open_branch, plan_eks_distro, count_patches, latest_revision_of, add_bottlerocket,
  update_bottlerocket, upgrade_project, plan_project, Plan,
}
use eks_anywhere_build_tooli.VersionTracker.Upgrade.{
  required_env, after_commit, publish_files, publish, upgrade, run_upgrade,
}
use eks_anywhere_build_tooli.VersionTracker.Local.{is_remote_write}
use eks_anywhere_build_tooli.VersionTracker.Local.Lists.{
  Keeps-get_latest_revision, Keeps-get_latest_image_revision,
}
use eks_anywhere_build_tooli.VersionTracker.Local.Files.{Keeps-update_project}
use eks_anywhere_build_tooli.VersionTracker.Local.Bottlerocket.{
  Keeps-update_eks_distro_releases_file, Keeps-update_bottlerocket_version_files,
}

-- The calls of a history that change a repository on GitHub.
unfoldable pub remote_writes : History → List Call
remote_writes [] = []
remote_writes (c ∷ h) = let rest = remote_writes h in if is_remote_write c then c ∷ rest else rest

module _ {V : Type 0} (t : Tools V) (dir : String → String) (untar : String → Outcome Tarball)
    (fuel : ℕ) {env : Env} {P : History → Type 0}
    (keeps : (c : Call) → is_remote_write c ≡ false → KeepsCall P c) where
  Keeps-open_branch :
      (c : Context) (branch : String) → Keeps env P (open_branch t dir untar fuel c branch)
  unfolding open_branch checkout reset_to_main is_remote_write
  Keeps-open_branch c branch = search (keeps_rules, keeps) depth 20

  pub Keeps-plan_eks_distro : (c : Context) → Keeps env P (plan_eks_distro t dir untar fuel c)
  unfolding plan_eks_distro
  Keeps-plan_eks_distro c =
      search (keeps_rules, Keeps-open_branch, Keeps-update_eks_distro_releases_file t keeps) depth
        20

  Keeps-add_bottlerocket :
      (c : Context) (current latest : String) (plan : Plan)
      (updated : String × String × List String)
      → Keeps env P (add_bottlerocket t dir untar fuel c current latest plan updated)
  unfolding add_bottlerocket checkout is_remote_write
  Keeps-add_bottlerocket c current latest plan (cb, lb, []) = search keeps_rules
  Keeps-add_bottlerocket c current latest plan (cb, lb, file ∷ files) =
      search (keeps_rules, keeps) depth 20

  Keeps-upgrade_project :
      (c : Context) (current : Version) (latest : String) (needs : Bool) (patches : Bool × ℕ)
      (plan : Plan)
      → Keeps env P (upgrade_project t dir untar fuel c current latest needs patches plan)
  unfolding upgrade_project update_bottlerocket
  Keeps-upgrade_project c current latest needs (has_patches, total) plan =
      search
        (
          keeps_rules,
          Keeps-open_branch,
          Keeps-add_bottlerocket,
          Keeps-update_project t keeps,
          Keeps-update_bottlerocket_version_files t keeps,
        )
        depth 30

  pub Keeps-plan_project : (c : Context) → Keeps env P (plan_project t dir untar fuel c)
  unfolding plan_project count_patches latest_revision_of load_upstream_projects_tracker_file
      is_remote_write
  Keeps-plan_project c =
      search
        (
          keeps_rules,
          keeps,
          Keeps-upgrade_project,
          Keeps-get_latest_revision t keeps,
          Keeps-get_latest_image_revision t keeps,
        )
        depth 40

  Keeps-publish_files :
      (c : Context) (plan : Plan) (files : List String)
      → c.dry_run ≡ true
      → Keeps env P (publish_files t dir untar fuel c plan files)
  unfolding add create_commit after_commit is_remote_write
  Keeps-publish_files c plan [] dry = search keeps_rules
  Keeps-publish_files c plan (file ∷ files) dry = rw dry (search (keeps_rules, keeps) depth 30)

  pub Keeps-upgrade : (c : Context) → c.dry_run ≡ true → Keeps env P (upgrade t dir untar fuel c)
  unfolding upgrade publish
  Keeps-upgrade c dry =
      search (keeps_rules, Keeps-plan_eks_distro, Keeps-plan_project, Keeps-publish_files, dry)
        depth 30

  pub Keeps-run_upgrade :
      (options : UpgradeOptions)
      → options.dry_run ≡ true
      → Keeps env P (run_upgrade t dir untar fuel options)
  unfolding run_upgrade required_env clone_repo is_remote_write
  Keeps-run_upgrade options dry = search (keeps_rules, keeps, Keeps-upgrade, dry) depth 40

quiet-remote_writes :
    (before : List Call) (c : Call)
    → is_remote_write c ≡ false
    → KeepsCall (λ h. remote_writes h ≡ before) c
unfolding remote_writes
quiet-remote_writes before c q h e = rw q e

-- A dry run pushes nothing, and neither opens nor edits a pull request, nor adds a comment: the calls
-- of GitHub that change something are those that were made before it, whatever the answers to its
-- calls and however it ends.
pub run_upgrade_dry :
    {V : Type 0} (t : Tools V) (dir : String → String) (untar : String → Outcome Tarball) (fuel : ℕ)
    (options : UpgradeOptions) (env : Env) (h : History)
    → options.dry_run ≡ true
    → remote_writes (run_upgrade t dir untar fuel options env h).1 ≡ remote_writes h
run_upgrade_dry t dir untar fuel options env h dry =
    (Keeps-run_upgrade t dir untar fuel (quiet-remote_writes (remote_writes h)) options dry).at h
      refl
