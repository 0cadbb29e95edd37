-- ===== src/VersionTracker/Warnings.antt =====
-- The comment that warns of patches that failed.
use eks_anywhere_build_tooli.Prelude.{
  ℕ, ◌≤◌, ◌<◌, String, ◌≡◌, refl, sym, ap, ◌∙◌, Bool, true, false, List, [], ◌∷◌, arith,
  if◌then◌else◌, nat_beq,
}
use eks_anywhere_build_tooli.Prelude.System.{
  History, ◌▹◌, Env, Program, ◌>>=◌, lift, wrapped, run, create_comment, github,
}
use eks_anywhere_build_tooli.Prelude.Outcome.{ok-injective, ok}
use eks_anywhere_build_tooli.VersionTracker.Types.{PullRequest, Pointer, Tools}
use eks_anywhere_build_tooli.VersionTracker.Constants.{build_tooling_repo_name}
use eks_anywhere_build_tooli.VersionTracker.Pulls.{
  fresh_address, new_string, warning_among, warning_exists, edit_existing, open_new, edit_or_open,
  add_warning, create_pull_request, PullRequestOptions,
}
use eks_anywhere_build_tooli.VersionTracker.Git.{add}
use eks_anywhere_build_tooli.Prelude.System.Steps.{bind-ok, lift-ok}

-- No pointer in use points to the fresh address.
pub FreshFor : ℕ → List Pointer → Type 0
FreshFor a [] = Unit {0}
FreshFor a (p ∷ ps) = (p.address < a) × FreshFor a ps

FreshFor-weaken : (a b : ℕ) (ps : List Pointer) → a ≤ b → FreshFor a ps → FreshFor b ps
unfolding FreshFor
FreshFor-weaken a b [] le f = tt
FreshFor-weaken a b (p ∷ ps) le f = (omega arith, FreshFor-weaken a b ps le f.1)

fresh_address-FreshFor : (ps : List Pointer) → FreshFor (fresh_address ps) ps
unfolding fresh_address FreshFor
fresh_address-FreshFor [] = tt
fresh_address-FreshFor (p ∷ ps) =
    (omega arith, FreshFor-weaken (fresh_address ps) _ ps (omega arith) (fresh_address-FreshFor ps))

different_address : (a b : ℕ) → a < b → nat_beq a b ≡ false
different_address a b lt = ground arith

warning_among-FreshFor :
    (warning : String) (used bodies : List Pointer)
    → FreshFor (fresh_address used) bodies
    → warning_among warning used bodies ≡ false
unfolding warning_among new_string FreshFor
warning_among-FreshFor warning used [] f = refl
warning_among-FreshFor warning used (body ∷ bodies) f =
    rw
      (
        different_address body.address (fresh_address used) f.0,
        warning_among-FreshFor warning used bodies f.1,
      )
      refl

-- Whatever comments there are, the search for the warning does not find it.
warning_among-false :
    (warning : String) (bodies : List Pointer) → warning_among warning bodies bodies ≡ false
warning_among-false warning bodies =
    warning_among-FreshFor warning bodies bodies (fresh_address-FreshFor bodies)

module _ {V : Type 0} (t : Tools V) (o : PullRequestOptions) (env : Env) where
  search-false :
      (add : Bool) (m : Program String) (h : History) (b : Bool)
      → ((if add
            then (m >>= λ text.
                let bodies = t.decode_comments text in
                lift (ok (warning_among o.patches_warning_comment bodies bodies)))
            else lift (ok false))
          env h).0
        ≡ ok b
      → b ≡ false
  search-false true m h b e =
      let (text, e1, e2, _) = bind-ok env _ _ h e in
      sym (ok-injective (lift-ok env _ _ e2))
      ∙ warning_among-false o.patches_warning_comment (t.decode_comments text)
  search-false false m h b e = sym (ok-injective (lift-ok env _ _ e))

  warning_exists-false :
      (pull : PullRequest) (h : History) (b : Bool)
      → (warning_exists t o pull env h).0 ≡ ok b
      → b ≡ false
  unfolding warning_exists
  warning_exists-false pull h b e = search-false o.add_patch_warning_comment _ h b e

  add_warning-history :
      (pull : PullRequest) (warned : Bool) (h : History)
      → o.add_patch_warning_comment ≡ true
      → warned ≡ false
      → (add_warning t o (pull, warned) env h).1
        ≡ h
          ▹ github (
              create_comment o.base_repo_owner build_tooling_repo_name pull.number
                o.patches_warning_comment)
  unfolding add_warning wrapped run
  add_warning-history pull warned h add unwarned = rw (add, unwarned) refl

  edit_or_open-false :
      (pulls : List PullRequest) (h : History) (pull : PullRequest) (warned : Bool)
      → (edit_or_open t o pulls env h).0 ≡ ok (pull, warned)
      → warned ≡ false
  unfolding edit_or_open open_new edit_existing
  edit_or_open-false [] h pull warned e =
      let (text, e1, e2, _) = bind-ok env _ _ h e in
      sym (ap (λ p. p.1) (ok-injective (lift-ok env _ _ e2)))
  edit_or_open-false (p ∷ pulls) h pull warned e =
      let (answer, e1, e2, _) = bind-ok env _ _ h e in
      let (text, e3, e4, _) = bind-ok env _ _ _ e2 in
      let (b, e5, e6, _) = bind-ok env _ _ _ e4 in
      sym (ap (λ p. p.1) (ok-injective (lift-ok env _ _ e6))) ∙ warning_exists-false _ _ b e5

-- If the patches of a project failed and its pull request is created or edited without an error, the
-- last call adds a comment with the warning, whatever comments the pull request has already: a
-- warning that stands there is not found.
pub create_pull_request-comment :
    {V : Type 0} (t : Tools V) (o : PullRequestOptions) (env : Env) (h : History)
    → o.add_patch_warning_comment ≡ true
    → (create_pull_request t o env h).0 ≡ ok tt
    → (number : ℕ) × (h' : History) × ((create_pull_request t o env h).1
        ≡ h'
          ▹ github (
              create_comment o.base_repo_owner build_tooling_repo_name number
                o.patches_warning_comment))
unfolding create_pull_request
create_pull_request-comment t o env h add e =
    let (text, e1, e2, s1) = bind-ok env _ _ h e in
    let ((pull, warned), e3, e4, s2) = bind-ok env _ _ _ e2 in
    let unwarned = edit_or_open-false t o env _ _ pull warned e3 in
    (pull.number, _, s1 ∙ s2 ∙ add_warning-history t o env pull warned _ add unwarned)
