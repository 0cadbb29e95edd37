-- ===== src/VersionTracker/Tracker.antt =====
-- tools/version-tracker/pkg/commands/upgrade/upgrade.go: the file of the upstream projects, and the
-- version files of a project. A `Repo` that is copied shares its versions with the list that it
-- comes from, so the target is its place in the list and what stands there.
use eks_anywhere_build_tooli.Prelude.{
  String, ◌<>◌, Option, none, some, List, [], ◌∷◌, if◌then◌else◌, string_eq, ◌==◌, nat_eq,
  replace_all, split, ◌⟨/⟩◌,
}
use eks_anywhere_build_tooli.Prelude.System.{
  Program, ◌>>=◌, ◌>>◌, lift, wrapped, attempt, run, stat, read_file, write_file,
}
use eks_anywhere_build_tooli.Prelude.Outcome.{wrap, ok}
use eks_anywhere_build_tooli.VersionTracker.Types.{Version, Repo, Project, ProjectsList, Tools}
use eks_anywhere_build_tooli.VersionTracker.Constants.{license_boilerplate_file}

-- The files of a project: the new text is the value and a newline; the permissions stay.
unfoldable pub update_project_version_file :
    {V : Type 0} → Tools V → String → String → String → String → Program String
update_project_version_file t build_tooling_repo_path filename project_name value = do
  let relative_path = "projects/" <> project_name <> "/" <> filename
  let absolute_path = build_tooling_repo_path ⟨/⟩ relative_path
  status ←
      wrapped ("unable to stat project " <> filename <> " file [" <> absolute_path <> "]")
        (attempt (stat absolute_path))
  wrapped ("writing project " <> filename <> " file [" <> absolute_path <> "]")
      (run (write_file absolute_path (value <> "\n") (t.decode_mode status)))
  lift (ok relative_path)

-- The last repository of this name, `targetRepo` behind the inner loop.
unfoldable pub last_repo : String → List Repo → Option Repo → Option Repo
last_repo repository [] target = target
last_repo repository (repo ∷ repos) target =
    last_repo repository repos (if repo.name == repository then some repo else target)

unfoldable pub last_in_projects : String → String → List Project → Option Repo → Option Repo
last_in_projects org repository [] target = target
last_in_projects org repository (project ∷ projects) target =
    last_in_projects org repository projects
      (if project.org == org then last_repo repository project.repos target else target)

-- The zero value of a `Repo`, where no repository has the name.
abbrev pub or_zero : Option Repo → Repo
or_zero none = record { name = ""; versions = [] }
or_zero (some repo) = repo

unfoldable pub target_repo : String → String → ProjectsList → Repo
target_repo org repository list = or_zero (last_in_projects org repository list.projects none)

unfoldable pub load_upstream_projects_tracker_file :
    {V : Type 0} → Tools V → String → String → String → Program (ProjectsList × Repo)
load_upstream_projects_tracker_file t tracker_file_path org repository = do
  contents ←
      wrapped "reading upstream projects tracker file" (attempt (read_file tracker_file_path))
  projects_list ←
      lift (wrap "unmarshalling upstream projects tracker file" (t.decode_projects contents))
  lift (ok (projects_list, target_repo org repository projects_list))

-- A write to `Versions[0]`; it is for a list that has one.
abbrev pub write_first : (Version → Version) → List Version → List Version
write_first write [] = []
write_first write (version ∷ versions) = write version ∷ versions

-- `targetRepo.Versions[0].Tag = tag` and `targetRepo.Versions[0].GoVersion = version`
unfoldable pub set_tag : String → Version → Version
set_tag tag version = record version { tag = tag }

unfoldable pub set_go_version : String → Version → Version
set_go_version go_version version = record version { go_version = go_version }

-- A write to the first version of the target, in the list that shares it: to the last repository of the
-- name, `none` if there is none; and to the last one in the organizations of the name.
unfoldable pub write_repo : String → (Version → Version) → List Repo → Option (List Repo)
write_repo repository write [] = none
write_repo repository write (repo ∷ repos) = elim (write_repo repository write repos) [
  | some rest ↦ some (repo ∷ rest)
  | none ↦
      if repo.name == repository
      then some (record repo { versions = write_first write repo.versions } ∷ repos)
      else none
]

abbrev pub with_repos : Project → Option (List Repo) → List Project → Option (List Project)
with_repos project none projects = none
with_repos project (some repos) projects = some (record project { repos = repos } ∷ projects)

unfoldable pub write_projects :
    String → String → (Version → Version) → List Project → Option (List Project)
write_projects org repository write [] = none
write_projects org repository write (project ∷ projects) =
    elim (write_projects org repository write projects) [
      | some rest ↦ some (project ∷ rest)
      | none ↦
          if project.org == org
          then with_repos project (write_repo repository write project.repos) projects
          else none
    ]

abbrev pub or_unchanged : ProjectsList → Option (List Project) → ProjectsList
or_unchanged list none = list
or_unchanged list (some projects) = record { projects = projects }

unfoldable pub write_target : String → String → (Version → Version) → ProjectsList → ProjectsList
write_target org repository write list =
    or_unchanged list (write_projects org repository write list.projects)

-- A line of the license as a comment of YAML
unfoldable pub comment_line : String → String
comment_line line = if line == "" then "\n" else "# " <> line <> "\n"

unfoldable pub comment_lines : List String → String
comment_lines [] = ""
comment_lines (line ∷ lines) = comment_line line <> comment_lines lines

abbrev pub drop_last_empty : List String → List String
drop_last_empty [] = []
drop_last_empty (line ∷ []) = if line == "" then [] else line ∷ []
drop_last_empty (line ∷ next ∷ lines) = line ∷ drop_last_empty (next ∷ lines)

-- The lines of a scanner, of a text without carriage returns: a last line that is empty is none.
unfoldable pub scan_lines : String → List String
scan_lines text = drop_last_empty (split text "\n")

-- The error of the YAML encoder is dropped.
unfoldable pub update_upstream_projects_tracker_file :
    {V : Type 0} → Tools V → ProjectsList → String → String → Program (Unit {0})
update_upstream_projects_tracker_file t projects_list build_tooling_repo_path tracker_file_path = do
  license ←
      wrapped "reading license boilerplate file"
        (attempt (read_file (build_tooling_repo_path ⟨/⟩ license_boilerplate_file)))
  let header = comment_lines (scan_lines (replace_all license "\\\"" "\""))
  wrapped "writing upstream projects tracker file"
      (run (write_file tracker_file_path (header <> "\n" <> t.encode_projects projects_list) 420))
