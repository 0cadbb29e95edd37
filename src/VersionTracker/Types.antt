-- ===== src/VersionTracker/Types.antt =====
-- tools/version-tracker/pkg/types/types.go, and what the version tracker uses of its packages: the
-- fields of GitHub's answers that it reads, versions, regular expressions and encodings.
use eks_anywhere_build_tooli.Prelude.{ℕ, String, Bool, Option, List}
use eks_anywhere_build_tooli.Prelude.Int.{ℤ}
use eks_anywhere_build_tooli.Prelude.Outcome.{Outcome}

pub record UpgradeOptions : Type 0 where
  pub project_name : String
  pub dry_run : Bool

pub record DisplayOptions : Type 0 where
  pub project_name : String
  pub print_latest_version : Bool

pub record Version : Type 0 where
  pub tag : String
  pub commit : String
  pub go_version : String

pub record Repo : Type 0 where
  pub name : String
  pub versions : List Version

pub record Project : Type 0 where
  pub org : String
  pub repos : List Repo

pub record ProjectsList : Type 0 where
  pub projects : List Project

pub record ProjectVersionInfo : Type 0 where
  pub org : String
  pub repo : String
  pub current_version : String
  pub latest_version : String

pub record ReleaseTarball : Type 0 where
  pub asset_name : String
  pub binary_name : String
  pub extract : Bool
  pub override_asset_url : String
  pub trim_leading_version_prefix : Bool

pub record GoVersionSourceOfTruth : Type 0 where
  pub source_of_truth_file : String
  pub go_version_search_string : String

pub record ImageMetadata : Type 0 where
  pub tag : String
  pub image_digest : String

pub record EksDistroRelease : Type 0 where
  pub branch : String
  pub kube_version : String
  pub number : ℤ
  pub dev : Option Bool

pub record EksDistroLatestReleases : Type 0 where
  pub releases : List EksDistroRelease
  pub latest : String

-- A page of a list that GitHub gives, with the number of the next page, 0 on the last one.
pub record Page {ℓ} (A : Type ℓ) : Type ℓ where
  pub items : List A
  pub next_page : ℕ

-- `github.RepositoryRelease` and its assets, `github.RepositoryTag`, `github.PullRequest`
pub record Asset : Type 0 where
  pub name : String
  pub browser_download_url : String

pub record Release : Type 0 where
  pub tag_name : String
  pub prerelease : Bool
  pub assets : List Asset

pub record Tag : Type 0 where
  pub name : String
  pub sha : String

pub record PullRequest : Type 0 where
  pub number : ℕ
  pub html_url : String

-- A `*string`: where it points to, and what stands there.
pub record Pointer : Type 0 where
  pub address : ℕ
  pub target : String

-- What the third-party packages give back, for versions of type `V`. The decoders of GitHub's answers
-- are those of `go-github`, which are part of a call and do not fail.
pub record Tools (V : Type 0) : Type 0 where
  pub decode_releases : String → Page Release
  pub decode_tags : String → Page Tag
  pub decode_commits : String → Page String
  -- the date of the author, as a Unix time
  pub decode_commit_date : String → ℤ
  pub decode_content : String → String
  pub decode_release : String → Release
  pub decode_pulls : String → List PullRequest
  pub decode_pull : String → PullRequest
  -- the bodies of the comments
  pub decode_comments : String → List Pointer
  -- `semver.New`, `GreaterThan` and `Equal`
  pub new_semver : String → Outcome V
  pub greater_than : V → V → Bool
  pub equal : V → V → Bool
  -- `base64.StdEncoding.DecodeString`, `FindStringSubmatch` of a pattern and a text, which gives the
  -- match and its groups, and `FindAllStringSubmatch`
  pub base64_decode : String → Outcome String
  pub find_submatch : String → String → List String
  pub find_all_submatch : String → String → List (List String)
  -- YAML
  pub decode_projects : String → Outcome ProjectsList
  pub encode_projects : ProjectsList → String
  pub decode_eks_distro : String → Outcome EksDistroLatestReleases
  pub encode_eks_distro : EksDistroLatestReleases → Outcome String
  pub decode_image_metadata : String → Outcome ImageMetadata
  pub encode_image_metadata : ImageMetadata → Outcome String
  -- a map of channels, each a map of settings with the values that are text
  pub decode_bottlerocket_releases : String → Outcome (List (String × List (String × String)))
  pub encode_bottlerocket_releases : List (String × List (String × String)) → Outcome String
  -- the source of each host container in Bottlerocket's TOML file
  pub decode_host_containers : String → Outcome (List (String × String))
  -- the version and the targets that are signed, in JSON
  pub decode_timestamp : String → Outcome String
  pub decode_targets : String → Outcome (List String)
  pub decode_image_tags : String → Outcome (List String)
  -- the names in a directory, the paths that match a pattern, and `filepath.Rel`
  pub decode_directory : String → List String
  pub decode_glob : String → List String
  pub relative_path : String → String → Outcome String
  -- the permissions of a file, from its `os.Stat`
  pub decode_mode : String → ℕ
