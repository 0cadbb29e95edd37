-- ===== src/VersionTracker/Tests.antt =====
-- Runs of the theorems on samples.
use eks_anywhere_build_tooli.Prelude.{
  ℕ, String, ◌≡◌, refl, true, false, List, [], ◌∷◌, arith, has_prefix, trim_newlines, keep, split,
}
use eks_anywhere_build_tooli.Prelude.Int.{ℤ}
use eks_anywhere_build_tooli.Prelude.Number.{atoi}
use eks_anywhere_build_tooli.Prelude.System.{
  History, ◌▹◌, ◌>>=◌, lift, wrapped, attempt, run, create_comment, github, Env, good, answered,
}
use eks_anywhere_build_tooli.Prelude.Outcome.{ok}
use eks_anywhere_build_tooli.VersionTracker.Types.{Release, Tag}
use eks_anywhere_build_tooli.VersionTracker.Constants.{build_tooling_repo_name}
use eks_anywhere_build_tooli.VersionTracker.Slices.{contains_elem}
use eks_anywhere_build_tooli.VersionTracker.Github.{
  releases_from, get_releases_for_repo, tags_from, get_tags_for_repo, get_commit_date_epoch,
  get_file_contents, get_commit_for_tag, compare_revisions, is_upgrade_required, latest_among,
  latest_from, get_latest_revision,
}
use eks_anywhere_build_tooli.VersionTracker.Pulls.{
  fresh_address, new_string, warning_among, warning_exists, edit_existing, edit_or_open,
  add_warning, create_pull_request,
}
use eks_anywhere_build_tooli.VersionTracker.EcrPublic.Tags.{next_tag, latest_tag}
use eks_anywhere_build_tooli.VersionTracker.EksDistro.{
  updated_release, get_latest_eks_distro_release, update_release, update_releases,
}
use eks_anywhere_build_tooli.VersionTracker.Upgrade.{run_upgrade}
use eks_anywhere_build_tooli.VersionTracker.Local.DryRun.{remote_writes, run_upgrade_dry}
use eks_anywhere_build_tooli.VersionTracker.Latest.Newer.{get_latest_revision-Source, Read, Source}
use eks_anywhere_build_tooli.VersionTracker.Latest.Pages.{
  full_releases, get_releases_for_repo_all, Serves, last_page,
}
use eks_anywhere_build_tooli.VersionTracker.Warnings.{create_pull_request-comment}
use eks_anywhere_build_tooli.VersionTracker.Published.{IsOrdered, run_upgrade-IsOrdered}
use eks_anywhere_build_tooli.VersionTracker.Rewritten.{
  Rewritten, update_eks_distro_releases_file-Rewritten,
}
use eks_anywhere_build_tooli.VersionTracker.EksDistro.{
  update_eks_distro_releases_file, get_supported_release_branches,
}
use eks_anywhere_build_tooli.Prelude.System.{read_file}
use eks_anywhere_build_tooli.VersionTracker.EcrPublic.Greatest.{
  IsBounded, latest_tag-IsBounded, IsOrder, Found,
}
use eks_anywhere_build_tooli.VersionTracker.Samples.{
  sample_releases, tools, hub, flux, no_dir, empty_tarball, warned,
}

run_upgrade_dry_example :
    remote_writes (run_upgrade tools no_dir empty_tarball 2 flux hub []).1 ≡ remote_writes []
run_upgrade_dry_example = run_upgrade_dry tools no_dir empty_tarball 2 flux hub [] refl

run_upgrade-IsOrdered_example :
    IsOrdered hub
      (run_upgrade tools no_dir empty_tarball 2 (record flux { dry_run = false }) hub []).1
unfolding IsOrdered
run_upgrade-IsOrdered_example =
    run_upgrade-IsOrdered tools no_dir empty_tarball 2 (record flux { dry_run = false }) hub [] tt

latest_of_flux :
    (get_latest_revision tools "fluxcd" "flux2" 2 "v1.0.0" hub []).0 ≡ ok ("v1.1.0", true)
unfolding get_latest_revision get_releases_for_repo releases_from get_tags_for_repo tags_from
    get_commit_date_epoch latest_from latest_among is_upgrade_required get_commit_for_tag
    compare_revisions keep ◌>>=◌ wrapped attempt lift
latest_of_flux = refl

get_latest_revision-Source_example :
    (releases : List Release) × (tags : List Tag) × (epoch : ℤ) × (semver : ℕ) × Read tools hub
      "fluxcd" "flux2" "v1.0.0" 2 releases tags epoch semver
    × Source tools hub "fluxcd" "flux2" 2 epoch semver "v1.1.0" releases tags
get_latest_revision-Source_example =
    get_latest_revision-Source tools hub "fluxcd" "flux2" 2 "v1.0.0" "v1.1.0" [] latest_of_flux

served : Serves tools hub "fluxcd" "flux2" 0 (sample_releases ∷ [])
served = last_page 0 sample_releases (λ h. ("", refl, refl))

get_releases_for_repo_all_example :
    (get_releases_for_repo tools 1 "fluxcd" "flux2" hub []).0
    ≡ ok (full_releases (sample_releases ∷ []))
get_releases_for_repo_all_example =
    get_releases_for_repo_all tools hub "fluxcd" "flux2" 1 (sample_releases ∷ []) [] served
      (omega arith)

warned_again : (create_pull_request tools warned hub []).0 ≡ ok tt
unfolding create_pull_request add_warning edit_or_open edit_existing warning_exists warning_among
    new_string fresh_address ◌>>=◌ wrapped attempt lift run answered
warned_again = refl

create_pull_request-comment_example :
    (number : ℕ) × (h' : History) × ((create_pull_request tools warned hub []).1
      ≡ h' ▹ github (create_comment "aws" build_tooling_repo_name number "a warning"))
create_pull_request-comment_example =
    create_pull_request-comment tools warned hub [] refl warned_again

-- The file of the supported branches has one, whose release is not the latest.
abbrev distro_hub : Env
distro_hub h (read_file path) = good "1-27\n"
distro_hub h c = hub h c

one_updated : (update_eks_distro_releases_file tools "/repo" distro_hub []).0 ≡ ok true
unfolding update_eks_distro_releases_file get_supported_release_branches split update_releases
    update_release get_latest_eks_distro_release get_file_contents contains_elem updated_release
    trim_newlines atoi ◌>>=◌ wrapped attempt lift run
one_updated = refl

update_eks_distro_releases_file-Rewritten_example :
    Rewritten tools "/repo" distro_hub []
      (update_eks_distro_releases_file tools "/repo" distro_hub []).1
      true
update_eks_distro_releases_file-Rewritten_example =
    update_eks_distro_releases_file-Rewritten tools "/repo" distro_hub [] true one_updated

sample-IsOrder : IsOrder tools
sample-IsOrder = record {
  trans = λ a b c g k. ground arith;
  asym = λ a b g. ground arith;
  not_greater = λ a b c g k. ground arith;
}

abbrev image_tags : List String
image_tags = "v1.0.0" ∷ "v1.1.0" ∷ "latest" ∷ []

latest_of_image : latest_tag tools ("", 1) image_tags ≡ ok ("v1.1.0", 2)
unfolding latest_tag next_tag has_prefix
latest_of_image = refl

latest_tag-IsBounded_example :
    Found tools image_tags ("", 1) ("v1.1.0", 2) × IsBounded tools 2 image_tags
latest_tag-IsBounded_example =
    latest_tag-IsBounded tools sample-IsOrder ("", 1) ("v1.1.0", 2) image_tags latest_of_image
