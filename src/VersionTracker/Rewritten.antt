-- ===== src/VersionTracker/Rewritten.antt =====
-- When the file of the EKS Distro releases is written again.
use mathlib.Core.Path.{subst₂, sym}
use eks_anywhere_build_tooli.Prelude.{
  ap, String, ◌≡◌, refl, ◌∙◌, ◌≢◌, ◌⊎◌, inl, inr, Bool, true, false, List, map, if◌then◌else◌,
  ◌⟨/⟩◌,
}
use eks_anywhere_build_tooli.Prelude.System.{
  History, ◌▹◌, Env, Call, Program, ◌>>◌, ◌>>=◌, lift, wrapped, run, read_file, write_file, good,
  is_good,
}
use eks_anywhere_build_tooli.Prelude.System.Steps.{
  bind-ok, wrapped-ok, lift-ok, attempt-ok, run-ok, unwrap-ok,
}
use eks_anywhere_build_tooli.Prelude.Outcome.{ok, wrap, ok-injective}
use eks_anywhere_build_tooli.VersionTracker.Types.{EksDistroRelease, EksDistroLatestReleases, Tools}
use eks_anywhere_build_tooli.VersionTracker.Constants.{eks_distro_latest_releases_file}
use eks_anywhere_build_tooli.VersionTracker.EksDistro.{
  update_releases, update_eks_distro_releases_file,
}
use eks_anywhere_build_tooli.VersionTracker.Changed.{Tells, releases-Tells}

run_after :
    (message : String) (c : Call) (env : Env) (h : History)
    → (wrapped message (run c) env h).1 ≡ h ▹ c
unfolding wrapped run
run_after message c env h = refl

module _ {V : Type 0} (t : Tools V) (path : String) (env : Env) where
  -- The last call is the write of the changed list, which succeeded; or nothing has changed, and
  -- nothing is written behind the search for the latest releases.
  abbrev pub Written :
      EksDistroLatestReleases → List EksDistroRelease → History → History → Bool → Type 0
  Written latest after searched end changed =
      ((changed ≡ true)
        × (after ≢ latest.releases)
        × ((text : String) × (t.encode_eks_distro (record latest { releases = after }) ≡ ok text)
            × (is_good
                  (env searched (write_file (path ⟨/⟩ eks_distro_latest_releases_file) text 420))
                ≡ true)
            × (end ≡ searched ▹ write_file (path ⟨/⟩ eks_distro_latest_releases_file) text 420)))
      ⊎ ((changed ≡ false) × (after ≡ latest.releases) × (end ≡ searched))

  pub record Rewritten (h end : History) (changed : Bool) : Type 0 where
    pub contents : String
    pub latest : EksDistroLatestReleases
    pub supported : List String
    pub after : List EksDistroRelease
    pub before_search : History
    pub read : env h (read_file (path ⟨/⟩ eks_distro_latest_releases_file)) ≡ good contents
    pub decoded : t.decode_eks_distro contents ≡ ok latest
    pub looked_through :
        (update_releases t supported latest.releases env before_search).0 ≡ ok (after, changed)
    pub same_branches : map (λ r. r.branch) after ≡ map (λ r. r.branch) latest.releases
    pub written :
        Written latest after
          (update_releases t supported latest.releases env before_search).1
          end
          changed

  -- The end of `update_eks_distro_releases_file`
  abbrev write_changed : EksDistroLatestReleases → List EksDistroRelease → Bool → Program Bool
  write_changed latest after changed = do
    if changed
        then (lift (
              wrap "marshalling EKS Distro latest releases"
                (t.encode_eks_distro (record latest { releases = after })))
            >>= λ text.
                wrapped "writing EKS Distro latest releases file"
                  (run (write_file (path ⟨/⟩ eks_distro_latest_releases_file) text 420)))
        else lift (ok tt)
    lift (ok changed)

  Written-or_not :
      (latest : EksDistroLatestReleases) (after : List EksDistroRelease) (changed result : Bool)
      (searched : History)
      → Tells latest.releases after changed
      → (write_changed latest after changed env searched).0 ≡ ok result
      → (changed ≡ result)
        × Written latest after searched (write_changed latest after changed env searched).1 changed
  unfolding lift
  Written-or_not latest after true result searched tells e =
      let (_, first, last, f1) = bind-ok env _ _ searched e in
      let (text, encoded, put, f2) = bind-ok env _ _ searched first in
      (
        ok-injective last,
        inl (
          refl,
          tells.0 refl,
          (
            text,
            unwrap-ok _ _ encoded,
            run-ok env _ searched (
                wrapped-ok env "writing EKS Distro latest releases file"
                  (run (write_file (path ⟨/⟩ eks_distro_latest_releases_file) text 420)) searched
                  put),
            f1 ∙ (f2 ∙ run_after _ _ env searched),
          ),
        ),
      )
  Written-or_not latest after false result searched tells e =
      let (_, first, last, f1) = bind-ok env _ _ searched e in
      (ok-injective last, inr (refl, tells.1 refl, f1))

  moved :
      (latest : EksDistroLatestReleases) (after : List EksDistroRelease)
      {searched end end' : History} {c c' : Bool}
      → end' ≡ end
      → c ≡ c'
      → Written latest after searched end c
      → Written latest after searched end' c'
  moved latest after {searched} e d w =
      subst₂ (λ x y. Written latest after searched x y) (sym e) d w

-- If `update_eks_distro_releases_file` succeeds, the file was read and decoded, and its releases were
-- looked through without an error, each keeping its branch, in their order. Either some release has
-- changed: then the result is true, and the last call, which succeeded, writes the encoded list of the
-- changed releases; or none has: then the result is false, and nothing is called behind the search.
pub update_eks_distro_releases_file-Rewritten :
    {V : Type 0} (t : Tools V) (path : String) (env : Env) (h : History) (changed : Bool)
    → (update_eks_distro_releases_file t path env h).0 ≡ ok changed
    → Rewritten t path env h (update_eks_distro_releases_file t path env h).1 changed
unfolding update_eks_distro_releases_file
update_eks_distro_releases_file-Rewritten t path env h changed e =
    let (contents, read, e1, f1) = bind-ok env _ _ h e in
    let (latest, decoded, e2, f2) = bind-ok env _ _ _ e1 in
    let (supported, listed, e3, f3) = bind-ok env _ _ _ e2 in
    let ((after, is_new), looked, e4, f4) = bind-ok env _ _ _ e3 in
    let (branches, tells) = releases-Tells t env supported latest.releases after is_new _ looked in
    let (same, written) = Written-or_not t path env latest after is_new changed _ tells e4 in
    record {
      contents = contents;
      latest = latest;
      supported = supported;
      after = after;
      before_search = _;
      read =
          attempt-ok env (read_file (path ⟨/⟩ eks_distro_latest_releases_file)) h
            (wrapped-ok env _ _ h read);
      decoded = unwrap-ok _ _ (lift-ok env _ _ decoded);
      looked_through = looked ∙ ap (λ c. ok (after, c)) same;
      same_branches = branches;
      written = moved t path env latest after (f1 ∙ (f2 ∙ (f3 ∙ f4))) same written;
    }
