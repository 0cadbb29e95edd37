-- ===== src/VersionTracker/Local.antt =====
-- What keeps the upgrade of a project from changing anything on GitHub.
pub mod Lists
pub mod Files
pub mod Bottlerocket
pub mod DryRun
use eks_anywhere_build_tooli.Prelude.{Bool, true, false}
use eks_anywhere_build_tooli.Prelude.System.{
  create_pull, edit_pull, create_comment, push_refs, Call, github, git,
}

-- Does a call change a repository on GitHub? A push, a pull request or a comment does.
unfoldable pub is_remote_write : Call → Bool
is_remote_write (git (push_refs owner token)) = true
is_remote_write (github (create_pull org repo title head base body)) = true
is_remote_write (github (edit_pull org repo number body)) = true
is_remote_write (github (create_comment org repo number body)) = true
is_remote_write c = false
