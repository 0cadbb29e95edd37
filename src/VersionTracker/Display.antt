-- ===== src/VersionTracker/Display.antt =====
-- tools/version-tracker/pkg/commands/display/display.go: the current and the latest revisions.
use eks_anywhere_build_tooli.Prelude.{
  ℕ, String, ◌<>◌, not, ◌&&◌, List, [], ◌∷◌, ◌++◌, map, if◌then◌else◌, string_eq, ◌==◌, nat_eq,
  replace_all, ◌⟨/⟩◌,
}
use eks_anywhere_build_tooli.Prelude.System.{
  Program, ◌>>=◌, ◌>>◌, lift, wrapped, attempt, path_exists, answered, getwd, getenv, read_file,
  Answer, good, absent, bad,
}
use eks_anywhere_build_tooli.Prelude.Outcome.{fail_if, wrap, Outcome, ok, crash}
use eks_anywhere_build_tooli.VersionTracker.Types.{
  DisplayOptions, Version, Repo, Project, ProjectVersionInfo, Tools,
}
use eks_anywhere_build_tooli.VersionTracker.Constants.{
  base_repo_owner_envvar, github_token_envvar, build_tooling_repo_name, default_base_repo_owner,
  build_tooling_repo_url, upstream_projects_tracker_file,
}
use eks_anywhere_build_tooli.VersionTracker.Github.{get_latest_revision}
use eks_anywhere_build_tooli.VersionTracker.Git.{clone_repo}
use eks_anywhere_build_tooli.VersionTracker.Upgrade.{required_env}

-- `repo.Versions[len(repo.Versions)-1]`
unfoldable pub last_version : List Version → Outcome Version
last_version [] = crash
last_version (version ∷ []) = ok version
last_version (version ∷ next ∷ versions) = last_version (next ∷ versions)

unfoldable pub revision_of : Version → String
revision_of version =
    if not (version.tag == "")
    then version.tag
    else if not (version.commit == "")
    then version.commit
    else ""

-- A line of the table, or the one text that is printed.
pub data Shown : Type 0 where
  shown_table : List ProjectVersionInfo → Shown
  shown_revision : String → Shown

abbrev one_more : ProjectVersionInfo → Shown → Shown
one_more info (shown_table rows) = shown_table (info ∷ rows)
one_more info (shown_revision revision) = shown_revision revision

module _ {V : Type 0} (t : Tools V) (fuel : ℕ) (o : DisplayOptions) where
  -- The two loops as one over the repositories with their organizations.
  unfoldable pub display_repos : List (String × Repo) → Program Shown
  display_repos [] = lift (ok (shown_table []))
  display_repos ((org, repo) ∷ repos) = do
    version ← lift (last_version repo.versions)
    let current_revision = revision_of version
    if not (o.project_name == "") && not (o.project_name == org <> "/" <> repo.name)
        then display_repos repos
        else (wrapped "getting latest revision from GitHub"
              (get_latest_revision t org repo.name fuel current_revision)
            >>= λ latest.
                if o.print_latest_version
                then lift (ok (shown_revision latest.0))
                else (display_repos repos >>= λ rest. lift (
                    ok (
                      one_more
                        (record {
                          org = org;
                          repo = repo.name;
                          current_version = current_revision;
                          latest_version = latest.0;
                        })
                        rest))))

unfoldable pub repos_with_org : List Project → List (String × Repo)
repos_with_org [] = []
repos_with_org (project ∷ projects) =
    map (λ repo. (project.org, repo)) project.repos ++ repos_with_org projects

-- `os.Getenv` with a default for an empty text
abbrev owner_or_default : String → String
owner_or_default owner = if owner == "" then default_base_repo_owner else owner

abbrev text_of : Answer → String
text_of (good text) = text
text_of absent = ""
text_of (bad e) = ""

unfoldable pub check_project_name : String → DisplayOptions → Program (Unit {0})
check_project_name build_tooling_repo_path o =
    if o.project_name == ""
    then lift (ok tt)
    else (path_exists (build_tooling_repo_path <> "/projects/" <> o.project_name) >>= λ exists.
        lift (fail_if (not exists) ("invalid project name " <> o.project_name)))

unfoldable pub run_display : {V : Type 0} → Tools V → ℕ → DisplayOptions → Program Shown
run_display t fuel o = do
  github_token ← required_env github_token_envvar
  cwd ← wrapped "retrieving current working directory" (attempt getwd)
  owner ← answered (getenv base_repo_owner_envvar)
  let repo_path = cwd ⟨/⟩ build_tooling_repo_name
  head_commit ← wrapped "cloning build-tooling repo" (
      clone_repo (replace_all build_tooling_repo_url "%s" (owner_or_default (text_of owner)))
        repo_path "")
  check_project_name repo_path o
  contents ←
      wrapped "reading upstream projects tracker file"
        (attempt (read_file (repo_path ⟨/⟩ upstream_projects_tracker_file)))
  list ← lift (wrap "unmarshalling upstream projects tracker file" (t.decode_projects contents))
  display_repos t fuel o (repos_with_org list.projects)
