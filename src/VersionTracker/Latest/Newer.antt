-- ===== src/VersionTracker/Latest/Newer.antt =====
-- A revision that is called an upgrade is a later one.
use mathlib.Core.List.{Mem, mem-cons_self, mem-cons_of_mem}
use eks_anywhere_build_tooli.Prelude.{
  ℕ, String, ◌≡◌, sym, ap, ◌∙◌, Bool, true, false, List, [], ◌∷◌, map, arith, if◌then◌else◌,
}
use eks_anywhere_build_tooli.Prelude.Int.{is_above, ℤ}
use eks_anywhere_build_tooli.Prelude.System.{History, Env, lift, get_commit, github, good}
use eks_anywhere_build_tooli.Prelude.Outcome.{ok-injective, ok}
use eks_anywhere_build_tooli.VersionTracker.Types.{Release, Tag, Tools}
use eks_anywhere_build_tooli.VersionTracker.Github.{
  get_releases_for_repo, get_tags_for_repo, get_commits_for_repo, get_commit_date_epoch,
  get_commit_for_tag, compare_revisions, is_upgrade_required, latest_among, first_commit,
  latest_from, get_latest_revision,
}
use eks_anywhere_build_tooli.Prelude.System.Steps.{
  bind-ok, unwrap-ok, wrapped-ok, lift-ok, attempt-ok,
}

-- A revision of the list whose version is greater than the current one, and whose commit, that of the
-- first tag of its name, has a later date by an answer of GitHub.
pub record IsUpgrade {V : Type 0} (t : Tools V) (env : Env) (org repo : String) (tags : List Tag)
    (epoch : ℤ) (current : V) (revision : String) : Type 0 where
  pub semver : V
  pub asked : History
  pub date : String
  pub is_version : t.new_semver revision ≡ ok semver
  pub is_greater : t.greater_than semver current ≡ true
  pub is_answer :
      env asked (github (get_commit org repo (get_commit_for_tag tags revision))) ≡ good date
  pub is_later : is_above (t.decode_commit_date date) epoch ≡ true

module _ {V : Type 0} (t : Tools V) (env : Env) (org repo : String) (tags : List Tag) (epoch : ℤ)
    (current : V) where
  compare_revisions-true :
      (latest_epoch : ℤ) (latest : V) (b : Bool)
      → compare_revisions t org repo latest_epoch latest epoch current ≡ (true, b)
      → (is_above latest_epoch epoch ≡ true) × (t.greater_than latest current ≡ true)
  unfolding compare_revisions
  compare_revisions-true latest_epoch latest b e = ground arith

  epoch-ok :
      (sha : String) (h : History) (latest_epoch : ℤ)
      → (get_commit_date_epoch t org repo sha env h).0 ≡ ok latest_epoch
      → (text : String) × (env h (github (get_commit org repo sha)) ≡ good text)
        × (latest_epoch ≡ t.decode_commit_date text)
  unfolding get_commit_date_epoch
  epoch-ok sha h latest_epoch e =
      let (text, e1, e2, _) = bind-ok env _ _ h e in
      (text, attempt-ok env _ h (wrapped-ok env _ _ h e1), sym (ok-injective (lift-ok env _ _ e2)))

  -- What `isUpgradeRequired` says of a revision that it calls an upgrade.
  is_upgrade_required-IsUpgrade :
      (revision : String) (h : History) (b : Bool)
      → (is_upgrade_required t org repo revision epoch current tags env h).0 ≡ ok (true, b)
      → IsUpgrade t env org repo tags epoch current revision
  unfolding is_upgrade_required
  is_upgrade_required-IsUpgrade revision h b e =
      let (u, e1, e2, _) = bind-ok env _ _ h e in
      let (latest_epoch, e3, e4, _) = bind-ok env _ _ _ e2 in
      let (semver, e5, e6, _) = bind-ok env _ _ _ e4 in
      let (text, answered_by, dated) = epoch-ok _ _ latest_epoch (wrapped-ok env _ _ _ e3) in
      let (later, greater) =
        compare_revisions-true latest_epoch semver b (ok-injective (lift-ok env _ _ e6)) in
      record {
        semver = semver;
        asked = _;
        date = text;
        is_version = unwrap-ok _ _ (lift-ok env _ _ e5);
        is_greater = greater;
        is_answer = answered_by;
        is_later = rw (sym dated) later;
      }

  -- A round of the loop, with the flags that it gets and what is known of the rest.
  round-IsUpgrade :
      (r : String) (revisions : List String) (revision : String) (flags : Bool × Bool)
      (h h' : History)
      → (is_upgrade_required t org repo r epoch current tags env h).0 ≡ ok flags
      → ((if flags.1
            then lift (ok (r, flags.0))
            else latest_among t org repo r revisions epoch current tags)
          env h').0
        ≡ ok (revision, true)
      → ((latest_among t org repo r revisions epoch current tags env h').0 ≡ ok (revision, true)
          → Mem revision revisions × IsUpgrade t env org repo tags epoch current revision)
      → Mem revision (r ∷ revisions) × IsUpgrade t env org repo tags epoch current revision
  unfolding lift
  round-IsUpgrade r revisions revision (required, false) h h' e final rest =
      let (m, u) = rest final in (mem-cons_of_mem r m, u)
  round-IsUpgrade r revisions revision (required, true) h h' e final rest =
      let same : (r, required) ≡ (revision, true) = ok-injective final in
      let at_r : r ≡ revision = ap (λ p. p.0) same in
      let needed : required ≡ true = ap (λ p. p.1) same in
      (
        rw at_r mem-cons_self,
        rw (sym at_r) (is_upgrade_required-IsUpgrade r h true (e ∙ ap (λ b. ok (b, true)) needed)),
      )

  -- If the loop over the revisions ends with an upgrade, the revision is one of the list.
  pub latest_among-IsUpgrade :
      (latest : String) (revisions : List String) (h : History) (revision : String)
      → (latest_among t org repo latest revisions epoch current tags env h).0 ≡ ok (revision, true)
      → Mem revision revisions × IsUpgrade t env org repo tags epoch current revision
  unfolding latest_among lift
  latest_among-IsUpgrade latest [] h revision e = cc
  latest_among-IsUpgrade latest (r ∷ revisions) h revision e =
      let (flags, e1, e2, _) = bind-ok env _ _ h e in
      round-IsUpgrade r revisions revision flags h _ (wrapped-ok env _ _ h e1) e2
        (latest_among-IsUpgrade r revisions _ revision)

-- What was read before the revisions are compared: the releases and the tags of the repository, the
-- version of the current revision, and the date of its commit.
pub record Read {V : Type 0} (t : Tools V) (env : Env) (org repo current : String) (fuel : ℕ)
    (releases : List Release) (tags : List Tag) (epoch : ℤ) (semver : V) : Type 0 where
  pub before_releases : History
  pub are_releases : (get_releases_for_repo t fuel org repo env before_releases).0 ≡ ok releases
  pub before_tags : History
  pub are_tags : (get_tags_for_repo t fuel org repo env before_tags).0 ≡ ok tags
  pub before_date : History
  pub date : String
  pub is_date :
      env before_date (github (get_commit org repo (get_commit_for_tag tags current))) ≡ good date
  pub is_epoch : epoch ≡ t.decode_commit_date date
  pub is_version : t.new_semver current ≡ ok semver

-- Where a latest revision comes from: it is an upgrade among the releases, or among the tags of a
-- repository without releases; or there are neither, and it is the first commit that is listed.
pub data Source {V : Type 0} (t : Tools V) (env : Env) (org repo : String) (fuel : ℕ) (epoch : ℤ)
    (semver : V) (revision : String) : List Release → List Tag → Type 0 where
  from_release :
      (releases : List Release) (tags : List Tag)
      → Mem revision (map (λ release. release.tag_name) releases)
      → IsUpgrade t env org repo tags epoch semver revision
      → Source t env org repo fuel epoch semver revision releases tags
  from_tag :
      (tags : List Tag)
      → Mem revision (map (λ tag. tag.name) tags)
      → IsUpgrade t env org repo tags epoch semver revision
      → Source t env org repo fuel epoch semver revision [] tags
  from_commit :
      (h : History) (commits : List String)
      → (get_commits_for_repo t fuel org repo env h).0 ≡ ok (revision ∷ commits)
      → Source t env org repo fuel epoch semver revision [] []

module _ {V : Type 0} (t : Tools V) (env : Env) (org repo : String) (fuel : ℕ) (epoch : ℤ)
    (semver : V) (revision : String) where
  first_commit-Source :
      (commits : List String) (h : History)
      → (get_commits_for_repo t fuel org repo env h).0 ≡ ok commits
      → first_commit t org repo commits ≡ ok (revision, true)
      → Source t env org repo fuel epoch semver revision [] []
  first_commit-Source [] h listed first = cc
  first_commit-Source (c ∷ commits) h listed first =
      let same : c ≡ revision = ap (λ p. p.0) (ok-injective first) in
      from_commit h commits (listed ∙ ap (λ r. ok (r ∷ commits)) same)

  latest_from-Source :
      (releases : List Release) (tags : List Tag) (h : History)
      → (latest_from t org repo fuel releases tags epoch semver env h).0 ≡ ok (revision, true)
      → Source t env org repo fuel epoch semver revision releases tags
  unfolding latest_from
  latest_from-Source [] [] h e =
      let (commits, e1, e2, _) = bind-ok env _ _ h e in
      first_commit-Source commits h (wrapped-ok env _ _ h e1) (lift-ok env _ _ e2)
  latest_from-Source [] (tag ∷ tags) h e =
      let (m, u) =
        latest_among-IsUpgrade t env org repo (tag ∷ tags) epoch semver _ _ h revision e in
      from_tag (tag ∷ tags) m u
  latest_from-Source (release ∷ releases) tags h e =
      let (m, u) = latest_among-IsUpgrade t env org repo tags epoch semver _ _ h revision e in
      from_release (release ∷ releases) tags m u

-- If a revision is found that calls for an upgrade, it is a release, or where there are none a tag,
-- whose version is greater than the current one and whose commit has, by the answers of GitHub, a
-- later date than the current revision's; only in a repository with neither releases nor tags is it
-- the first commit that is listed.
pub get_latest_revision-Source :
    {V : Type 0} (t : Tools V) (env : Env) (org repo : String) (fuel : ℕ)
    (current revision : String) (h : History)
    → (get_latest_revision t org repo fuel current env h).0 ≡ ok (revision, true)
    → (releases : List Release) × (tags : List Tag) × (epoch : ℤ) × (semver : V) × Read t env org
        repo current fuel releases tags epoch semver
      × Source t env org repo fuel epoch semver revision releases tags
unfolding get_latest_revision
get_latest_revision-Source t env org repo fuel current revision h e =
    let (releases, e1, e2, _) = bind-ok env _ _ h e in
    let (tags, e3, e4, _) = bind-ok env _ _ _ e2 in
    let (epoch, e5, e6, _) = bind-ok env _ _ _ e4 in
    let (semver, e7, e8, _) = bind-ok env _ _ _ e6 in
    let (date, answered_by, dated) =
      epoch-ok t env org repo tags epoch semver _ _ epoch (wrapped-ok env _ _ _ e5) in
    (
      releases,
      tags,
      epoch,
      semver,
      record {
        before_releases = h;
        are_releases = wrapped-ok env _ _ h e1;
        before_tags = _;
        are_tags = wrapped-ok env _ _ _ e3;
        before_date = _;
        date = date;
        is_date = answered_by;
        is_epoch = dated;
        is_version = unwrap-ok _ _ (lift-ok env _ _ e7);
      },
      latest_from-Source t env org repo fuel epoch semver revision releases tags _ e8,
    )
