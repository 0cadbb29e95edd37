-- ===== src/VersionTracker/Samples.antt =====
-- A repository for the tests, with two releases, a list of tracked projects, and an environment in
-- which no call fails.
use eks_anywhere_build_tooli.Prelude.{
  ℕ, String, true, false, none, List, [], ◌∷◌, if◌then◌else◌, nat_beq, ltb, string_eq, ◌==◌, nat_eq,
}
use eks_anywhere_build_tooli.Prelude.Int.{pos}
use eks_anywhere_build_tooli.Prelude.System.{Env, get_commit, get_contents, github, good}
use eks_anywhere_build_tooli.Prelude.Outcome.{Outcome, ok}
use eks_anywhere_build_tooli.VersionTracker.Types.{
  UpgradeOptions, ProjectsList, EksDistroRelease, Release, Tag, Tools,
}
use eks_anywhere_build_tooli.VersionTracker.Commands.{Tarball}
use eks_anywhere_build_tooli.VersionTracker.Pulls.{PullRequestOptions}

abbrev version_number : String → ℕ
version_number tag = if tag == "v1.1.0" then 2 else if tag == "v1.0.0" then 1 else 0

abbrev full : String → Release
full tag = record { tag_name = tag; prerelease = false; assets = [] }

abbrev pub sample_releases : List Release
sample_releases =
    record { tag_name = "v2.0.0-rc1"; prerelease = true; assets = [] }
    ∷ full "v1.1.0"
    ∷ full "v1.0.0"
    ∷ []

abbrev pub sample_tags : List Tag
sample_tags = record { name = "v1.1.0"; sha = "b2" } ∷ record { name = "v1.0.0"; sha = "a1" } ∷ []

abbrev pub sample_projects : ProjectsList
sample_projects = record {
  projects =
      record {
        org = "fluxcd";
        repos =
            record {
              name = "flux2";
              versions = record { tag = "v1.0.0"; commit = ""; go_version = "N/A" } ∷ [];
            }
            ∷ [];
      }
      ∷ [];
}

abbrev pub eks_release : EksDistroRelease
eks_release = record { branch = "1-27"; kube_version = "v1.27.1"; number = pos 3; dev = none }

abbrev pub tools : Tools ℕ
tools = record {
  decode_releases = λ text. record { items = sample_releases; next_page = 0 };
  decode_tags = λ text. record { items = sample_tags; next_page = 0 };
  decode_commits = λ text. record { items = "c3" ∷ []; next_page = 0 };
  decode_commit_date = λ text. if text == "b2" then pos 200 else pos 100;
  decode_content = λ text. text;
  decode_release = λ text. full text;
  decode_pulls = λ text. record { number = 7; html_url = "url" } ∷ [];
  decode_pull = λ text. record { number = 7; html_url = "url" };
  decode_comments = λ text. record { address = 4; target = "a warning" } ∷ [];
  new_semver = λ tag. ok (version_number tag);
  greater_than = λ a b. ltb b a;
  equal = λ a b. nat_beq a b;
  base64_decode = λ text. ok text;
  find_submatch = λ pattern text. text ∷ text ∷ [];
  find_all_submatch = λ pattern text. [];
  decode_projects = λ text. ok sample_projects;
  encode_projects = λ list. "projects";
  decode_eks_distro = λ text. ok (record { releases = eks_release ∷ []; latest = "1-27" });
  encode_eks_distro = λ releases. ok "releases";
  decode_image_metadata = λ text. ok (record { tag = "v1"; image_digest = "sha" });
  encode_image_metadata = λ metadata. ok metadata.tag;
  decode_bottlerocket_releases = λ text. ok [];
  encode_bottlerocket_releases = λ channels. ok "";
  decode_host_containers = λ text. ok [];
  decode_timestamp = λ text. ok "1";
  decode_targets = λ text. ok [];
  decode_image_tags = λ text. ok ("v1.0.0" ∷ "v1.1.0" ∷ "latest" ∷ []);
  decode_directory = λ text. [];
  decode_glob = λ text. [];
  relative_path = λ base path. ok path;
  decode_mode = λ text. 420;
}

-- The date of a commit is told by its hash; a file of EKS Distro holds a number.
abbrev pub hub : Env
hub h (github (get_commit org repo sha)) = good sha
hub h (github (get_contents org repo path ref)) = good "4"
hub h c = good ""

abbrev pub flux : UpgradeOptions
flux = record { project_name = "fluxcd/flux2"; dry_run = true }

abbrev pub no_dir : String → String
no_dir path = "."

abbrev pub empty_tarball : String → Outcome Tarball
empty_tarball text = ok (record { entries = []; at_end = ok tt })

abbrev pub warned : PullRequestOptions
warned = record {
  title = "Bump";
  body = "body";
  base_repo_owner = "aws";
  base_branch = "main";
  head_repo_owner = "bot";
  head_branch = "update";
  add_patch_warning_comment = true;
  patches_warning_comment = "a warning";
}
