-- ===== src/VersionTracker/Git.antt =====
-- tools/version-tracker/pkg/git/git.go. The errors of `go-git` that the code tells from others are
-- the answers with their texts.
use eks_anywhere_build_tooli.Prelude.{
  String, ◌<>◌, Bool, false, List, if◌then◌else◌, string_eq, ◌==◌, nat_eq,
}
use eks_anywhere_build_tooli.Prelude.System.{
  Program, ◌>>=◌, ◌>>◌, lift, wrapped, attempt, run, answered, for_each, plain_clone, plain_open,
  resolve_revision, create_remote, hard_reset, checkout_branch, add_path, commit_index, push_refs,
  lookup_env, git, Answer, good, absent, bad,
}
use eks_anywhere_build_tooli.Prelude.Outcome.{Outcome, ok, err}
use eks_anywhere_build_tooli.VersionTracker.Constants.{
  commit_author_name_envvar, commit_author_email_envvar, default_commit_author_name,
  default_commit_author_email, build_tooling_repo_name, base_repo_head_revision,
}

abbrev pub repository_already_exists : String
repository_already_exists = "repository already exists"

abbrev pub remote_exists : String
remote_exists = "remote already exists"

abbrev pub already_up_to_date : String
already_up_to_date = "already up-to-date"

-- `err == known`, where the answer is an error
abbrev pub is_error : String → Answer → Bool
is_error known (bad e) = e == known
is_error known absent = false
is_error known (good text) = false

abbrev pub unless_good : Outcome (Unit {0}) → Answer → Outcome (Unit {0})
unless_good other (good text) = ok tt
unless_good other absent = other
unless_good other (bad e) = other

-- `%v` of an answer's error
abbrev pub error_of : Answer → String
error_of (bad e) = e
error_of absent = "no such file or directory"
error_of (good text) = ""

-- The hash of the head of `main` at the origin.
unfoldable pub clone_repo : String → String → String → Program String
clone_repo clone_url destination head_repo_owner = do
  cloned ← answered (git (plain_clone clone_url destination))
  if is_error repository_already_exists cloned
      then wrapped ("opening repo from " <> destination <> " directory")
          (run (git (plain_open destination)))
      else lift (
          unless_good
            (err (
              "cloning repo "
              <> clone_url
              <> " to "
              <> destination
              <> " directory: "
              <> error_of cloned))
            cloned)
  head ←
      wrapped ("resolving revision [" <> base_repo_head_revision <> "] to commit hash")
        (attempt (git (resolve_revision base_repo_head_revision)))
  if head_repo_owner == ""
      then lift (ok tt)
      else (answered (
            git (
              create_remote head_repo_owner (
                "https://github.com/" <> head_repo_owner <> "/" <> build_tooling_repo_name
                <> ".git")))
          >>= λ remote.
              if is_error remote_exists remote
              then lift (ok tt)
              else lift (
                  unless_good
                    (err ("creating remote " <> head_repo_owner <> ": " <> error_of remote))
                    remote))
  lift (ok head)

unfoldable pub reset_to_main : String → Program (Unit {0})
reset_to_main base_repo_head_commit =
    wrapped ("resetting to origin HEAD commit " <> base_repo_head_commit)
      (run (git (hard_reset base_repo_head_commit)))

unfoldable pub checkout : String → Program (Unit {0})
checkout branch =
    wrapped ("checking out branch [" <> branch <> "]") (run (git (checkout_branch branch)))

unfoldable pub add : List String → Program (Unit {0})
add paths =
    for_each
      (λ path. wrapped ("adding file [" <> path <> "] to the index") (run (git (add_path path))))
      paths

-- `os.LookupEnv` with a default
abbrev or_default : String → Answer → String
or_default default (good text) = text
or_default default absent = default
or_default default (bad e) = default

unfoldable pub create_commit : String → Program (Unit {0})
create_commit commit_message = do
  name ← answered (lookup_env commit_author_name_envvar)
  email ← answered (lookup_env commit_author_email_envvar)
  wrapped "committing file(s) in the index" (
      run (
        git (
          commit_index commit_message (or_default default_commit_author_name name)
            (or_default default_commit_author_email email))))

unfoldable pub push : String → String → String → Program (Unit {0})
push head_repo_owner branch github_token = do
  pushed ← answered (git (push_refs head_repo_owner github_token))
  if is_error already_up_to_date pushed
      then lift (ok tt)
      else lift (
          unless_good
            (err ("pushing changes to remote " <> head_repo_owner <> ": " <> error_of pushed))
            pushed)
