-- ===== src/VersionTracker/Github.antt =====
-- tools/version-tracker/pkg/github/github.go: the lists of a repository, page by page, and whether a
-- revision is an upgrade. `fuel` bounds the number of pages.
use eks_anywhere_build_tooli.Prelude.{
  ℕ, zero, suc, String, ◌<>◌, Bool, true, false, not, ◌&&◌, List, [], ◌∷◌, ◌++◌, map, if◌then◌else◌,
  string_eq, ◌==◌, nat_eq, keep,
}
use eks_anywhere_build_tooli.Prelude.Int.{is_above, ℤ}
use eks_anywhere_build_tooli.Prelude.System.{
  Program, ◌>>=◌, ◌>>◌, lift, wrapped, attempt, list_releases, list_tags, list_commits, get_commit,
  get_contents, github,
}
use eks_anywhere_build_tooli.Prelude.Outcome.{fail_if, wrap, Outcome, ok, crash, unfinished}
use eks_anywhere_build_tooli.VersionTracker.Types.{Release, Tag, Tools}

abbrev pub of_repository : String → String → String
of_repository org repo = "[" <> org <> "/" <> repo <> "] repository"

module _ {V : Type 0} (t : Tools V) where
  -- The loop of `getReleasesForRepo` from a page on; the list is `allReleases`.
  unfoldable pub releases_from : ℕ → String → String → ℕ → List Release → Program (List Release)
  releases_from zero org repo page all_releases = lift unfinished
  releases_from (suc fuel) org repo page all_releases = do
    text ←
        wrapped ("calling ListReleases API for " <> of_repository org repo)
          (attempt (github (list_releases org repo page)))
    let releases = t.decode_releases text
    let all = all_releases ++ keep (λ release. not release.prerelease) releases.items
    if releases.next_page == 0
        then lift (ok all)
        else releases_from fuel org repo releases.next_page all

  unfoldable pub get_releases_for_repo : ℕ → String → String → Program (List Release)
  get_releases_for_repo fuel org repo = releases_from fuel org repo 0 []

  -- The loop of `getTagsForRepo`, and that of `getCommitsForRepo`
  unfoldable pub tags_from : ℕ → String → String → ℕ → List Tag → Program (List Tag)
  tags_from zero org repo page all_tags = lift unfinished
  tags_from (suc fuel) org repo page all_tags = do
    text ←
        wrapped ("calling ListTags API for " <> of_repository org repo)
          (attempt (github (list_tags org repo page)))
    let tags = t.decode_tags text
    let all = all_tags ++ tags.items
    if tags.next_page == 0 then lift (ok all) else tags_from fuel org repo tags.next_page all

  unfoldable pub get_tags_for_repo : ℕ → String → String → Program (List Tag)
  get_tags_for_repo fuel org repo = tags_from fuel org repo 0 []

  unfoldable pub commits_from : ℕ → String → String → ℕ → List String → Program (List String)
  commits_from zero org repo page all_commits = lift unfinished
  commits_from (suc fuel) org repo page all_commits = do
    text ←
        wrapped ("calling ListCommits for " <> of_repository org repo)
          (attempt (github (list_commits org repo page)))
    let commits = t.decode_commits text
    let all = all_commits ++ commits.items
    if commits.next_page == 0
        then lift (ok all)
        else commits_from fuel org repo commits.next_page all

  unfoldable pub get_commits_for_repo : ℕ → String → String → Program (List String)
  get_commits_for_repo fuel org repo = commits_from fuel org repo 0 []

  unfoldable pub get_commit_date_epoch : String → String → String → Program ℤ
  get_commit_date_epoch org repo commit_sha = do
    text ←
        wrapped ("getting date for commit <nil> in " <> of_repository org repo)
          (attempt (github (get_commit org repo commit_sha)))
    lift (ok (t.decode_commit_date text))

  unfoldable pub get_file_contents : String → String → String → String → Program String
  get_file_contents org repo file_path ref = do
    text ←
        wrapped ("getting contents of file [" <> file_path <> "]")
          (attempt (github (get_contents org repo file_path ref)))
    lift (
        wrap ("decoding contents of file [" <> file_path <> "]")
          (t.base64_decode (t.decode_content text)))

-- The commit of the first tag with this name, empty where there is none.
unfoldable pub get_commit_for_tag : List Tag → String → String
get_commit_for_tag [] search_tag = ""
get_commit_for_tag (tag ∷ all_tags) search_tag =
    let rest = get_commit_for_tag all_tags search_tag in
    if search_tag == tag.name then tag.sha else rest

module _ {V : Type 0} (t : Tools V) (org repo : String) where
  -- The two flags of `isUpgradeRequired`: is an upgrade needed, and is the search over?
  unfoldable pub compare_revisions : ℤ → V → ℤ → V → Bool × Bool
  compare_revisions latest_epoch latest_semver current_epoch current_semver =
      if is_above latest_epoch current_epoch && t.greater_than latest_semver current_semver
      then (true, true)
      else if t.equal latest_semver current_semver
      then (false, true)
      else (false, false)

  unfoldable pub is_upgrade_required : String → ℤ → V → List Tag → Program (Bool × Bool)
  is_upgrade_required latest_revision current_epoch current_semver all_tags = do
    let latest_commit = get_commit_for_tag all_tags latest_revision
    lift (
        fail_if (latest_commit == "")
          ("empty commit hash for latest revision: " <> latest_revision))
    latest_epoch ←
        wrapped "getting epoch time corresponding to latest revision commit"
          (get_commit_date_epoch t org repo latest_commit)
    latest_semver ← lift (wrap "getting semver for latest version" (t.new_semver latest_revision))
    lift (ok (compare_revisions latest_epoch latest_semver current_epoch current_semver))

  -- The loop over the names of releases or tags; the first argument is `latestRevision`.
  unfoldable pub latest_among : String → List String → ℤ → V → List Tag → Program (String × Bool)
  latest_among latest [] current_epoch current_semver all_tags = lift (ok (latest, false))
  latest_among latest (revision ∷ revisions) current_epoch current_semver all_tags = do
    (upgrade_required, should_break) ←
        wrapped "determining if upgrade is required for project"
          (is_upgrade_required revision current_epoch current_semver all_tags)
    if should_break
        then lift (ok (revision, upgrade_required))
        else latest_among revision revisions current_epoch current_semver all_tags

  -- `allCommits[0]`
  abbrev pub first_commit : List String → Outcome (String × Bool)
  first_commit [] = crash
  first_commit (commit ∷ commits) = ok (commit, true)

  unfoldable pub latest_from : ℕ → List Release → List Tag → ℤ → V → Program (String × Bool)
  latest_from fuel [] [] current_epoch current_semver = do
    all_commits ←
        wrapped ("getting all commits for " <> of_repository org repo)
          (get_commits_for_repo t fuel org repo)
    lift (first_commit all_commits)
  latest_from fuel [] (tag ∷ tags) current_epoch current_semver =
      latest_among "" (map (λ tag. tag.name) (tag ∷ tags)) current_epoch current_semver (tag ∷ tags)
  latest_from fuel (release ∷ releases) all_tags current_epoch current_semver =
      latest_among "" (map (λ release. release.tag_name) (release ∷ releases)) current_epoch
        current_semver all_tags

  unfoldable pub get_latest_revision : ℕ → String → Program (String × Bool)
  get_latest_revision fuel current_revision = do
    all_releases ←
        wrapped ("getting all releases for " <> of_repository org repo)
          (get_releases_for_repo t fuel org repo)
    all_tags ←
        wrapped ("getting all tags for " <> of_repository org repo)
          (get_tags_for_repo t fuel org repo)
    current_epoch ←
        wrapped "getting epoch time corresponding to current revision commit"
          (get_commit_date_epoch t org repo (get_commit_for_tag all_tags current_revision))
    current_semver ←
        lift (wrap "getting semver for current version" (t.new_semver current_revision))
    latest_from fuel all_releases all_tags current_epoch current_semver
