-- ===== src/VersionTracker/Upgrade.antt =====
-- tools/version-tracker/pkg/commands/upgrade/upgrade.go: `Run`, the upgrade of one project.
pub mod Project
pub mod Planning
use eks_anywhere_build_tooli.Prelude.{
  ℕ, String, ◌<>◌, Bool, true, false, Option, none, some, List, [], ◌∷◌, if◌then◌else◌, replace_all,
  split, ◌⟨/⟩◌,
}
use eks_anywhere_build_tooli.Prelude.System.{
  Program, ◌>>=◌, ◌>>◌, lift, wrapped, attempt, run, answered, open_worktree, getwd, read_file,
  lookup_env, git, good,
}
use eks_anywhere_build_tooli.Prelude.Outcome.{Outcome, ok, err, crash}
use eks_anywhere_build_tooli.VersionTracker.Types.{UpgradeOptions, Tools}
use eks_anywhere_build_tooli.VersionTracker.Constants.{
  base_repo_owner_envvar, head_repo_owner_envvar, github_token_envvar, build_tooling_repo_name,
  build_tooling_repo_url, skipped_projects_file, main_branch_name,
}
use eks_anywhere_build_tooli.VersionTracker.Slices.{contains_elem}
use eks_anywhere_build_tooli.VersionTracker.Commands.{Tarball}
use eks_anywhere_build_tooli.VersionTracker.Pulls.{create_pull_request, PullRequestOptions}
use eks_anywhere_build_tooli.VersionTracker.Git.{clone_repo, add, create_commit, push}
use eks_anywhere_build_tooli.VersionTracker.EksDistro.{is_eks_distro_upgrade}
use eks_anywhere_build_tooli.VersionTracker.Upgrade.Project.{Context}
use eks_anywhere_build_tooli.VersionTracker.Upgrade.Planning.{plan_eks_distro, plan_project, Plan}

abbrev or_empty : Option String → String
or_empty none = ""
or_empty (some text) = text

abbrev is_set : Option String → Bool
is_set none = false
is_set (some text) = true

abbrev pub pull_request_of : Context → Plan → PullRequestOptions
pull_request_of c plan = record {
  title = plan.commit_message;
  body = plan.pull_request_body;
  base_repo_owner = c.base_repo_owner;
  base_branch = main_branch_name;
  head_repo_owner = c.head_repo_owner;
  head_branch = plan.head_branch_name;
  add_patch_warning_comment = is_set plan.warning;
  patches_warning_comment = or_empty plan.warning;
}

-- The names of the organization and the repository
unfoldable pub org_and_repo : List String → Outcome (String × String)
org_and_repo [] = crash
org_and_repo (org ∷ []) = crash
org_and_repo (org ∷ repo ∷ parts) = ok (org, repo)

-- `os.LookupEnv`
unfoldable pub required_env : String → Program String
required_env name = do
  value ← answered (lookup_env name)
  lift (elim value [ good text ↦ ok text | _ ↦ err (name <> " environment variable is not set") ])

module _ {V : Type 0} (t : Tools V) (dir : String → String) (untar : String → Outcome Tarball)
    (fuel : ℕ) where
  -- The push of what was committed, unless the run is dry.
  unfoldable pub after_commit : Context → Plan → Program (Unit {0})
  after_commit c plan =
      if c.dry_run
      then lift (ok tt)
      else (wrapped ("pushing updated project version files for [" <> c.project_name <> "] project")
            (push c.head_repo_owner plan.head_branch_name c.github_token)
          >>= λ _.
              wrapped ("creating pull request to " <> build_tooling_repo_name <> " repository")
                (create_pull_request t (pull_request_of c plan)))

  -- What `Run` does with the files, if there are any.
  abbrev pub publish_files : Context → Plan → List String → Program (Unit {0})
  publish_files c plan [] = lift (ok tt)
  publish_files c plan (file ∷ files) = do
    wrapped "adding updated files to index" (add (file ∷ files))
    wrapped ("committing updated project version files for [" <> c.project_name <> "] project")
        (create_commit plan.commit_message)
    after_commit c plan

  unfoldable pub publish : Context → Plan → Program (Unit {0})
  publish c plan = publish_files c plan plan.updated_files

  unfoldable pub upgrade : Context → Program (Unit {0})
  upgrade c = do
    plan ←
        if is_eks_distro_upgrade c.project_name
        then plan_eks_distro t dir untar fuel c
        else plan_project t dir untar fuel c
    publish c plan

  unfoldable pub run_upgrade : UpgradeOptions → Program (Unit {0})
  run_upgrade options = do
    (org, repo) ← lift (org_and_repo (split options.project_name "/"))
    base_repo_owner ← required_env base_repo_owner_envvar
    head_repo_owner ← required_env head_repo_owner_envvar
    github_token ← required_env github_token_envvar
    cwd ← wrapped "retrieving current working directory" (attempt getwd)
    contents ←
        wrapped "reading skipped projects file"
          (attempt (read_file (cwd ⟨/⟩ skipped_projects_file)))
    if contains_elem (split contents "\n") options.project_name
        then lift (ok tt)
        else (wrapped "cloning build-tooling repo" (
              clone_repo (replace_all build_tooling_repo_url "%s" base_repo_owner)
                (cwd ⟨/⟩ build_tooling_repo_name) head_repo_owner)
            >>= λ head_commit.
                wrapped "getting repo's current worktree" (run (git open_worktree)) >>= λ _.
                upgrade (record {
                  project_name = options.project_name;
                  project_org = org;
                  project_repo = repo;
                  base_repo_owner = base_repo_owner;
                  head_repo_owner = head_repo_owner;
                  github_token = github_token;
                  build_tooling_repo_path = cwd ⟨/⟩ build_tooling_repo_name;
                  head_commit = head_commit;
                  dry_run = options.dry_run;
                }))
