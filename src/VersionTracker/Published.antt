-- ===== src/VersionTracker/Published.antt =====
-- What is pushed has been committed.
use eks_anywhere_build_tooli.Prelude.{
  ℕ, String, ◌≡◌, refl, Bool, true, false, ◌&&◌, ◌||◌, List, [], ◌∷◌, arith,
}
use eks_anywhere_build_tooli.Prelude.System.{
  History, ◌▹◌, Env, ◌>>=◌, wrapped, unit_of, run, is_good, answered, commit_index, push_refs, Call,
  git, Answer, good, absent, bad,
}
use eks_anywhere_build_tooli.Prelude.Outcome.{Outcome, ok}
use eks_anywhere_build_tooli.Prelude.System.Keeps.{KeepsCall, Keeps-bind, Keeps, keeps_rules}
use eks_anywhere_build_tooli.VersionTracker.Types.{UpgradeOptions, PullRequest, Tools}
use eks_anywhere_build_tooli.VersionTracker.Commands.{Tarball}
use eks_anywhere_build_tooli.VersionTracker.Pulls.{
  warning_exists, edit_existing, open_new, edit_or_open, add_warning, create_pull_request,
  PullRequestOptions,
}
use eks_anywhere_build_tooli.VersionTracker.Git.{clone_repo, add, create_commit, push}
use eks_anywhere_build_tooli.VersionTracker.Upgrade.Project.{Context}
use eks_anywhere_build_tooli.VersionTracker.Upgrade.Planning.{Plan}
use eks_anywhere_build_tooli.VersionTracker.Upgrade.{
  required_env, after_commit, publish_files, publish, upgrade, run_upgrade,
}
use eks_anywhere_build_tooli.VersionTracker.Local.{is_remote_write}
use eks_anywhere_build_tooli.VersionTracker.Local.DryRun.{Keeps-plan_eks_distro, Keeps-plan_project}
use eks_anywhere_build_tooli.Prelude.System.Steps.{unwrap-ok}
use eks_anywhere_build_tooli.Prelude.System.After.{Keeps-after}

abbrev is_commit : Call → Bool
is_commit (git (commit_index message name email)) = true
is_commit c = false

abbrev pub is_push : Call → Bool
is_push (git (push_refs owner token)) = true
is_push c = false

-- Has there been a commit, with success?
unfoldable pub committed : Env → History → Bool
committed env [] = false
committed env (c ∷ h) = let rest = committed env h in rest || (is_commit c && is_good (env h c))

-- Every push comes after a commit that succeeded.
unfoldable pub IsOrdered : Env → History → Type 0
IsOrdered env [] = Unit {0}
IsOrdered env (c ∷ h) = (is_push c ≡ true → committed env h ≡ true) × IsOrdered env h

module _ (env : Env) where
  AfterCommit : History → Type 0
  AfterCommit h = IsOrdered env h × (committed env h ≡ true)

  KeepsCall-AfterCommit : (c : Call) → KeepsCall AfterCommit c
  unfolding AfterCommit IsOrdered committed
  KeepsCall-AfterCommit c h p = (((λ _. p.1), p.0), rw (p.1) refl)

  KeepsCall-IsOrdered : (c : Call) → is_push c ≡ false → KeepsCall (IsOrdered env) c
  unfolding IsOrdered
  KeepsCall-IsOrdered c q h p = ((λ e. absurd cc), p)

  local-push : (c : Call) → is_remote_write c ≡ false → is_push c ≡ false
  unfolding is_remote_write
  local-push c q = ground arith

  commit_index-AfterCommit :
      (message name email : String) (h : History) (answer : Answer)
      → env h (git (commit_index message name email)) ≡ answer
      → unit_of answer ≡ ok tt
      → committed env (h ▹ git (commit_index message name email)) ≡ true
  unfolding committed
  commit_index-AfterCommit message name email h (good t) e q = rw e (ground arith)
  commit_index-AfterCommit message name email h absent e q = cc
  commit_index-AfterCommit message name email h (bad x) e q = cc

  commit-AfterCommit :
      (message : String) (h : History) (u : Unit {0})
      → IsOrdered env h
      → (create_commit message env h).0 ≡ ok u
      → AfterCommit (create_commit message env h).1
  unfolding create_commit AfterCommit ◌>>=◌ answered wrapped run
  commit-AfterCommit message h u p e = (
    KeepsCall-IsOrdered _ refl _ (KeepsCall-IsOrdered _ refl _ (KeepsCall-IsOrdered _ refl h p)),
    commit_index-AfterCommit message _ _ _ _ refl (unwrap-ok _ _ e),
  )

module _ {V : Type 0} (t : Tools V) (dir : String → String) (untar : String → Outcome Tarball)
    (fuel : ℕ) (env : Env) where
  Keeps-edit_or_open :
      (o : PullRequestOptions) (pulls : List PullRequest)
      → Keeps env (AfterCommit env) (edit_or_open t o pulls)
  unfolding edit_or_open open_new edit_existing warning_exists
  Keeps-edit_or_open o [] = search (keeps_rules, KeepsCall-AfterCommit env) depth 20
  Keeps-edit_or_open o (pull ∷ pulls) = search (keeps_rules, KeepsCall-AfterCommit env) depth 20

  Keeps-create_pull_request :
      (o : PullRequestOptions) → Keeps env (AfterCommit env) (create_pull_request t o)
  unfolding create_pull_request add_warning
  Keeps-create_pull_request o =
      search (keeps_rules, KeepsCall-AfterCommit env, Keeps-edit_or_open) depth 20

  Keeps-after_commit :
      (c : Context) (plan : Plan)
      → Keeps env (AfterCommit env) (after_commit t dir untar fuel c plan)
  unfolding after_commit push
  Keeps-after_commit c plan =
      search (keeps_rules, KeepsCall-AfterCommit env, Keeps-create_pull_request) depth 20

  wrapped-AfterCommit :
      (message text : String) (h : History) (u : Unit {0})
      → IsOrdered env h
      → (wrapped text (create_commit message) env h).0 ≡ ok u
      → AfterCommit env (wrapped text (create_commit message) env h).1
  unfolding wrapped
  wrapped-AfterCommit message text h u p e =
      commit-AfterCommit env message h u p (unwrap-ok text _ e)

  AfterCommit-IsOrdered : (h : History) → AfterCommit env h → IsOrdered env h
  unfolding AfterCommit
  AfterCommit-IsOrdered h q = q.0

  Keeps-commit : (message : String) → Keeps env (IsOrdered env) (create_commit message)
  unfolding create_commit
  Keeps-commit message = search (keeps_rules, KeepsCall-IsOrdered env) depth 20

  Keeps-add : (files : List String) → Keeps env (IsOrdered env) (add files)
  unfolding add
  Keeps-add files = search (keeps_rules, KeepsCall-IsOrdered env) depth 20

  Keeps-published :
      (c : Context) (plan : Plan) (files : List String)
      → Keeps env (IsOrdered env) (publish_files t dir untar fuel c plan files)
  Keeps-published c plan [] = search keeps_rules
  Keeps-published c plan (file ∷ files) =
      Keeps-bind _ _ (search (keeps_rules, Keeps-add) depth 20) λ _.
        Keeps-after AfterCommit-IsOrdered _ _ (search (keeps_rules, Keeps-commit) depth 20)
          (wrapped-AfterCommit plan.commit_message _) (λ _. Keeps-after_commit c plan)

  keeps_local : (c : Call) → is_remote_write c ≡ false → KeepsCall (IsOrdered env) c
  keeps_local c q = KeepsCall-IsOrdered env c (local-push env c q)

  Keeps-IsOrdered-upgrade : (c : Context) → Keeps env (IsOrdered env) (upgrade t dir untar fuel c)
  unfolding upgrade publish
  Keeps-IsOrdered-upgrade c =
      search
        (
          keeps_rules,
          Keeps-plan_eks_distro t dir untar fuel keeps_local,
          Keeps-plan_project t dir untar fuel keeps_local,
          Keeps-published,
        )
        depth 30

  Keeps-IsOrdered-run_upgrade :
      (options : UpgradeOptions) → Keeps env (IsOrdered env) (run_upgrade t dir untar fuel options)
  unfolding run_upgrade required_env clone_repo
  Keeps-IsOrdered-run_upgrade options =
      search (keeps_rules, KeepsCall-IsOrdered env, Keeps-IsOrdered-upgrade) depth 40

-- Every push of an upgrade comes after a commit that succeeded, if that was so before it, whatever the
-- answers to its calls and however it ends.
pub run_upgrade-IsOrdered :
    {V : Type 0} (t : Tools V) (dir : String → String) (untar : String → Outcome Tarball) (fuel : ℕ)
    (options : UpgradeOptions) (env : Env) (h : History)
    → IsOrdered env h
    → IsOrdered env (run_upgrade t dir untar fuel options env h).1
run_upgrade-IsOrdered t dir untar fuel options env h ordered =
    (Keeps-IsOrdered-run_upgrade t dir untar fuel env options).at h ordered
