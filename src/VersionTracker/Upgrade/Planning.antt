-- ===== src/VersionTracker/Upgrade/Planning.antt =====
-- tools/version-tracker/pkg/commands/upgrade/upgrade.go: the branch, the files and the texts of an
-- upgrade.
use eks_anywhere_build_tooli.Prelude.{
  ℕ, String, ◌<>◌, Bool, true, false, not, ◌||◌, Option, none, List, [], ◌∷◌, ◌++◌, if◌then◌else◌,
  ltb, string_eq, ◌==◌, nat_eq, ◌⟨/⟩◌, length,
}
use eks_anywhere_build_tooli.Prelude.System.{
  Program, ◌>>=◌, ◌>>◌, lift, wrapped, attempt, path_exists, stat_succeeds, read_dir,
}
use eks_anywhere_build_tooli.Prelude.Outcome.{fail_if, Outcome, ok}
use eks_anywhere_build_tooli.VersionTracker.Types.{Version, Tools}
use eks_anywhere_build_tooli.VersionTracker.Constants.{
  eks_distro_latest_releases_file, patches_directory, cilium_image_repository,
  projects_with_unconventional_upgrade_flows,
}
use eks_anywhere_build_tooli.VersionTracker.Slices.{contains_elem}
use eks_anywhere_build_tooli.VersionTracker.Bodies.{
  eks_distro_upgrade_pull_request_body, default_upgrade_pull_request_body,
  bottlerocket_upgrade_pull_request_body,
  combined_image_builder_bottlerocket_upgrade_pull_request_body,
}
use eks_anywhere_build_tooli.VersionTracker.Commands.{Tarball}
use eks_anywhere_build_tooli.VersionTracker.Github.{get_latest_revision}
use eks_anywhere_build_tooli.VersionTracker.Git.{reset_to_main, checkout}
use eks_anywhere_build_tooli.VersionTracker.EcrPublic.{get_latest_image_revision}
use eks_anywhere_build_tooli.VersionTracker.EksDistro.{update_eks_distro_releases_file}
use eks_anywhere_build_tooli.VersionTracker.Tracker.{load_upstream_projects_tracker_file}
use eks_anywhere_build_tooli.VersionTracker.Bottlerocket.{update_bottlerocket_version_files}
use eks_anywhere_build_tooli.VersionTracker.Upgrade.Project.{
  project_path, project_root, tracker_path, first_version, update_project, Context,
}

-- The branch, the texts and the files of an upgrade; without files nothing is committed.
pub record Plan : Type 0 where
  pub head_branch_name : String
  pub commit_message : String
  pub pull_request_body : String
  pub updated_files : List String
  pub warning : Option String

module _ {V : Type 0} (t : Tools V) (dir : String → String) (untar : String → Outcome Tarball)
    (fuel : ℕ) where
  -- A new branch with a clean index
  unfoldable pub open_branch : Context → String → Program (Unit {0})
  open_branch c head_branch_name = do
    wrapped ("checking out worktree at branch " <> head_branch_name) (checkout head_branch_name)
    wrapped "resetting new branch to [origin/main] HEAD" (reset_to_main c.head_commit)

  unfoldable pub plan_eks_distro : Context → Program Plan
  plan_eks_distro c = do
    open_branch c "update-eks-d-latest-releases"
    is_updated ←
        wrapped "updating EKS Distro releases file  "
          (update_eks_distro_releases_file t c.build_tooling_repo_path)
    lift (
        ok (record {
          head_branch_name = "update-eks-d-latest-releases";
          commit_message = "Bump EKS-D releases to latest";
          pull_request_body = eks_distro_upgrade_pull_request_body;
          updated_files = if is_updated then eks_distro_latest_releases_file ∷ [] else [];
          warning = none;
        }))

  -- How many patches the project has, if it has any.
  unfoldable pub count_patches : Context → Program (Bool × ℕ)
  count_patches c = do
    has_patches ← stat_succeeds (project_root c ⟨/⟩ patches_directory)
    if has_patches
        then (wrapped "reading patch directory"
              (attempt (read_dir (project_root c ⟨/⟩ patches_directory)))
            >>= λ text. lift (ok (true, length (t.decode_directory text))))
        else lift (ok (false, 0))

  unfoldable pub latest_revision_of : Context → String → Program (String × Bool)
  latest_revision_of c current_revision =
      if c.project_name == "cilium/cilium"
      then wrapped "getting latest revision from ECR Public"
          (get_latest_image_revision t cilium_image_repository current_revision)
      else wrapped "getting latest revision from GitHub"
          (get_latest_revision t c.project_org c.project_repo fuel current_revision)

  -- The plan with Bottlerocket's files, where it has any; the branch is another one then.
  unfoldable pub bottlerocket_plan :
      Context → String → String → String → String → List String → Plan → Plan
  bottlerocket_plan c current latest current_bottlerocket latest_bottlerocket files plan =
      elim plan.updated_files [
        | [] ↦ record plan {
          updated_files = files;
          head_branch_name = "update-bottlerocket-releases";
          commit_message = "Bump Bottlerocket versions to latest release";
          pull_request_body =
              bottlerocket_upgrade_pull_request_body current_bottlerocket latest_bottlerocket;
        }
        | updated ∷ rest ↦ record plan {
          updated_files = (updated ∷ rest) ++ files;
          head_branch_name =
              "update-" <> c.project_org <> "-" <> c.project_repo <> "-and-bottlerocket";
          commit_message =
              "Bump " <> c.project_name <> " and Bottlerocket versions to latest release";
          pull_request_body =
              combined_image_builder_bottlerocket_upgrade_pull_request_body current latest
                current_bottlerocket latest_bottlerocket;
        }
      ]

  unfoldable pub add_bottlerocket :
      Context → String → String → Plan → String × String × List String → Program Plan
  add_bottlerocket c current latest plan (current_bottlerocket, latest_bottlerocket, []) =
      lift (ok plan)
  add_bottlerocket c current latest plan (current_bottlerocket, latest_bottlerocket, file ∷ files) =
      do
        let both =
            bottlerocket_plan c current latest current_bottlerocket latest_bottlerocket
              (file ∷ files) plan
        wrapped ("checking out worktree at branch " <> both.head_branch_name)
            (checkout both.head_branch_name)
        lift (ok both)

  unfoldable pub update_bottlerocket : Context → String → String → Plan → Program Plan
  update_bottlerocket c current latest plan =
      if c.project_name == "kubernetes-sigs/image-builder"
      then (wrapped "updating Bottlerocket version and metadata files"
            (update_bottlerocket_version_files t fuel (project_root c) (project_path c))
          >>= λ updated. add_bottlerocket c current latest plan updated)
      else lift (ok plan)

  -- The block of `Run` for a project that is out of date, or that has a flow of its own.
  unfoldable pub upgrade_project :
      Context → Version → String → Bool → Bool × ℕ → Plan → Program Plan
  upgrade_project c current latest needs_upgrade (has_patches, total_patch_count) plan = do
    open_branch c plan.head_branch_name
    updated ←
        if needs_upgrade
        then update_project t dir untar c current latest has_patches total_patch_count
        else lift (ok (record { files = []; warning = none }))
    update_bottlerocket c current.tag latest
        (record plan { updated_files = updated.files; warning = updated.warning })

  unfoldable pub default_plan : Context → String → String → Plan
  default_plan c current latest = record {
    head_branch_name = "update-" <> c.project_org <> "-" <> c.project_repo;
    commit_message = "Bump " <> c.project_name <> " to latest release";
    pull_request_body =
        default_upgrade_pull_request_body c.project_org c.project_repo current latest;
    updated_files = [];
    warning = none;
  }

  unfoldable pub plan_project : Context → Program Plan
  plan_project c = do
    exists ← path_exists (project_root c)
    lift (fail_if (not exists) ("invalid project name " <> c.project_name))
    patches ← count_patches c
    (list, target) ←
        wrapped "loading upstream projects tracker file"
          (load_upstream_projects_tracker_file t (tracker_path c) c.project_org c.project_repo)
    lift (
        fail_if (ltb 1 (length target.versions))
          "release-branched projects not supported at this time")
    current ← lift (first_version target)
    lift (
        fail_if (current.tag == "")
          "projects tracked with commit hashes not supported at this time")
    (latest, needs_upgrade) ← latest_revision_of c current.tag
    let plan = default_plan c current.tag latest
    if needs_upgrade || contains_elem projects_with_unconventional_upgrade_flows c.project_name
        then upgrade_project c current latest needs_upgrade patches plan
        else lift (ok plan)
