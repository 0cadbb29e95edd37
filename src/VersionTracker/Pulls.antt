-- ===== src/VersionTracker/Pulls.antt =====
-- tools/version-tracker/pkg/github/github.go: the pull request of an upgrade.
use eks_anywhere_build_tooli.Prelude.{
  ℕ, suc, ◌+◌, String, ◌<>◌, Bool, true, false, not, ◌&&◌, List, [], ◌∷◌, if◌then◌else◌, string_eq,
  ◌==◌, nat_eq,
}
use eks_anywhere_build_tooli.Prelude.System.{
  absent, Program, ◌>>=◌, lift, wrapped, attempt, run, list_pulls, create_pull, edit_pull,
  list_comments, create_comment, github, Answer, answered, good, bad,
}
use eks_anywhere_build_tooli.Prelude.Outcome.{ok, Outcome, crash}
use eks_anywhere_build_tooli.VersionTracker.Types.{PullRequest, Pointer, Tools}
use eks_anywhere_build_tooli.VersionTracker.Constants.{build_tooling_repo_name}

-- An address at which none of the pointers points: `github.String` makes a new one at each call.
unfoldable pub fresh_address : List Pointer → ℕ
fresh_address [] = 0
fresh_address (p ∷ ps) = let rest = fresh_address ps in suc (p.address + rest)

-- `==` of two pointers
abbrev pub same_pointer : Pointer → Pointer → Bool
same_pointer p q = p.address == q.address

-- `github.String(s)`, while these pointers are in use
unfoldable pub new_string : List Pointer → String → Pointer
unfolding fresh_address
new_string used s = record { address = fresh_address used; target = s }

-- `patchWarningCommentExists`, as the loop over the comments leaves it
unfoldable pub warning_among : String → List Pointer → List Pointer → Bool
unfolding new_string
warning_among warning used [] = false
warning_among warning used (body ∷ bodies) =
    let rest = warning_among warning used bodies in
    if same_pointer body (new_string used warning) then true else rest

-- What a call of `CreatePullRequest` asks for.
pub record PullRequestOptions : Type 0 where
  pub title : String
  pub body : String
  pub base_repo_owner : String
  pub base_branch : String
  pub head_repo_owner : String
  pub head_branch : String
  pub add_patch_warning_comment : Bool
  pub patches_warning_comment : String

module _ {V : Type 0} (t : Tools V) (o : PullRequestOptions) where
  abbrev pub pull_head : String
  pull_head = o.head_repo_owner <> ":" <> o.head_branch

  -- The comments are listed only to look for the warning.
  unfoldable pub warning_exists : PullRequest → Program Bool
  warning_exists pull_request =
      if o.add_patch_warning_comment
      then (wrapped ("listing comments on pull request [" <> pull_request.html_url <> "]") (
            attempt (
              github (list_comments o.base_repo_owner build_tooling_repo_name pull_request.number)))
          >>= λ text.
              let bodies = t.decode_comments text in
              lift (ok (warning_among o.patches_warning_comment bodies bodies)))
      else lift (ok false)

  -- The message of the error reads the URL of the pull request, which is nil then.
  abbrev edited_text : Answer → Outcome String
  edited_text (good text) = ok text
  edited_text absent = crash
  edited_text (bad e) = crash

  -- The pull request, and whether it has a comment with the warning.
  unfoldable pub edit_existing : PullRequest → Program (PullRequest × Bool)
  edit_existing pull_request = do
    answer ←
        answered
          (github (edit_pull o.base_repo_owner build_tooling_repo_name pull_request.number o.body))
    text ← lift (edited_text answer)
    let edited = t.decode_pull text
    exists ← warning_exists edited
    lift (ok (edited, exists))

  unfoldable pub open_new : Program (PullRequest × Bool)
  open_new = do
    text ←
        wrapped
          ("creating pull request with updated versions from " <> o.head_branch <> " to "
            <> o.base_branch)
          (attempt (
            github (
              create_pull o.base_repo_owner build_tooling_repo_name o.title pull_head o.base_branch
                o.body)))
    lift (ok (t.decode_pull text, false))

  unfoldable pub edit_or_open : List PullRequest → Program (PullRequest × Bool)
  edit_or_open [] = open_new
  edit_or_open (pull_request ∷ pull_requests) = edit_existing pull_request

  -- The end of `CreatePullRequest`: the pull request gets the warning, unless it has it.
  unfoldable pub add_warning : PullRequest × Bool → Program (Unit {0})
  add_warning (pull_request, warned) =
      if o.add_patch_warning_comment && not warned
      then wrapped
          ("commenting failed patch apply warning on pull request [" <> pull_request.html_url
            <> "]")
          (run (
            github (
              create_comment o.base_repo_owner build_tooling_repo_name pull_request.number
                o.patches_warning_comment)))
      else lift (ok tt)

  unfoldable pub create_pull_request : Program (Unit {0})
  create_pull_request = do
    text ←
        wrapped
          ("listing pull requests from " <> pull_head <> " -> " <> o.base_repo_owner <> ":"
            <> o.base_branch)
          (attempt
            (github (list_pulls o.base_repo_owner build_tooling_repo_name o.base_branch pull_head)))
    warned ← edit_or_open (t.decode_pulls text)
    add_warning warned
