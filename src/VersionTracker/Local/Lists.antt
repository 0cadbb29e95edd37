-- ===== src/VersionTracker/Local/Lists.antt =====
-- The latest revision of a repository is read without a change on GitHub. `P` is an invariant of
-- the other calls.
use eks_anywhere_build_tooli.Prelude.{ℕ, zero, suc, String, ◌≡◌, false, List, [], ◌∷◌, map}
use eks_anywhere_build_tooli.Prelude.Int.{ℤ}
use eks_anywhere_build_tooli.Prelude.System.{History, Env, lift, Call}
use eks_anywhere_build_tooli.Prelude.Outcome.{ok}
use eks_anywhere_build_tooli.Prelude.System.Keeps.{
  KeepsCall, Keeps-if, Keeps-bind, Keeps, keeps_rules,
}
use eks_anywhere_build_tooli.VersionTracker.Types.{Release, Tag, Tools}
use eks_anywhere_build_tooli.VersionTracker.Github.{
  releases_from, get_releases_for_repo, tags_from, get_tags_for_repo, commits_from,
  get_commits_for_repo, get_commit_date_epoch, get_file_contents, is_upgrade_required, latest_among,
  latest_from, get_latest_revision,
}
use eks_anywhere_build_tooli.VersionTracker.EcrPublic.{get_latest_image_revision}
use eks_anywhere_build_tooli.VersionTracker.Local.{is_remote_write}

module _ {V : Type 0} (t : Tools V) {env : Env} {P : History → Type 0}
    (keeps : (c : Call) → is_remote_write c ≡ false → KeepsCall P c) where
  pub Keeps-releases_from :
      (fuel : ℕ) (org repo : String) (page : ℕ) (all : List Release)
      → Keeps env P (releases_from t fuel org repo page all)
  unfolding releases_from is_remote_write
  Keeps-releases_from zero org repo page all = search keeps_rules
  Keeps-releases_from (suc fuel) org repo page all =
      search (keeps_rules, keeps, Keeps-releases_from fuel) depth 20

  pub Keeps-tags_from :
      (fuel : ℕ) (org repo : String) (page : ℕ) (all : List Tag)
      → Keeps env P (tags_from t fuel org repo page all)
  unfolding tags_from is_remote_write
  Keeps-tags_from zero org repo page all = search keeps_rules
  Keeps-tags_from (suc fuel) org repo page all =
      search (keeps_rules, keeps, Keeps-tags_from fuel) depth 20

  pub Keeps-commits_from :
      (fuel : ℕ) (org repo : String) (page : ℕ) (all : List String)
      → Keeps env P (commits_from t fuel org repo page all)
  unfolding commits_from is_remote_write
  Keeps-commits_from zero org repo page all = search keeps_rules
  Keeps-commits_from (suc fuel) org repo page all =
      search (keeps_rules, keeps, Keeps-commits_from fuel) depth 20

  pub Keeps-get_commit_date_epoch :
      (org repo sha : String) → Keeps env P (get_commit_date_epoch t org repo sha)
  unfolding get_commit_date_epoch is_remote_write
  Keeps-get_commit_date_epoch org repo sha = search (keeps_rules, keeps) depth 20

  pub Keeps-get_file_contents :
      (org repo path ref : String) → Keeps env P (get_file_contents t org repo path ref)
  unfolding get_file_contents is_remote_write
  Keeps-get_file_contents org repo path ref = search (keeps_rules, keeps) depth 20

  module _ (org repo : String) where
    pub Keeps-is_upgrade_required :
        (latest : String) (epoch : ℤ) (semver : V) (tags : List Tag)
        → Keeps env P (is_upgrade_required t org repo latest epoch semver tags)
    unfolding is_upgrade_required
    Keeps-is_upgrade_required latest epoch semver tags =
        search (keeps_rules, Keeps-get_commit_date_epoch) depth 20

    pub Keeps-latest_among :
        (latest : String) (revisions : List String) (epoch : ℤ) (semver : V) (tags : List Tag)
        → Keeps env P (latest_among t org repo latest revisions epoch semver tags)
    unfolding latest_among
    Keeps-latest_among latest [] epoch semver tags = search keeps_rules
    Keeps-latest_among latest (revision ∷ revisions) epoch semver tags =
        Keeps-bind _ _ (search (keeps_rules, Keeps-is_upgrade_required) depth 20) λ flags.
          Keeps-if flags.1 (lift (ok (revision, flags.0))) _ (search keeps_rules)
            (Keeps-latest_among revision revisions epoch semver tags)

    pub Keeps-latest_from :
        (fuel : ℕ) (releases : List Release) (tags : List Tag) (epoch : ℤ) (semver : V)
        → Keeps env P (latest_from t org repo fuel releases tags epoch semver)
    unfolding latest_from get_commits_for_repo
    Keeps-latest_from fuel [] [] epoch semver = search (keeps_rules, Keeps-commits_from) depth 20
    Keeps-latest_from fuel [] (tag ∷ tags) epoch semver =
        Keeps-latest_among "" (map (λ tag. tag.name) (tag ∷ tags)) epoch semver (tag ∷ tags)
    Keeps-latest_from fuel (release ∷ releases) tags epoch semver =
        Keeps-latest_among "" (map (λ release. release.tag_name) (release ∷ releases)) epoch semver
          tags

    pub Keeps-get_latest_revision :
        (fuel : ℕ) (current : String) → Keeps env P (get_latest_revision t org repo fuel current)
    unfolding get_latest_revision get_releases_for_repo get_tags_for_repo
    Keeps-get_latest_revision fuel current =
        search
          (
            keeps_rules, Keeps-releases_from, Keeps-tags_from, Keeps-get_commit_date_epoch,
            Keeps-latest_from,
          )
          depth 20

  pub Keeps-get_latest_image_revision :
      (image current : String) → Keeps env P (get_latest_image_revision t image current)
  unfolding get_latest_image_revision is_remote_write
  Keeps-get_latest_image_revision image current = search (keeps_rules, keeps) depth 20
