-- ===== src/VersionTracker/EksDistro.antt =====
-- tools/version-tracker/pkg/commands/upgrade/upgrade.go: the file of the latest releases of EKS
-- Distro.
use eks_anywhere_build_tooli.Prelude.{
  String, ◌<>◌, Bool, true, false, not, ◌||◌, Option, none, some, List, [], ◌∷◌, if◌then◌else◌,
  string_eq, ◌==◌, nat_eq, replace_all, split, trim_newlines, ◌⟨/⟩◌,
}
use eks_anywhere_build_tooli.Prelude.Int.{same_int, ℤ}
use eks_anywhere_build_tooli.Prelude.Number.{atoi}
use eks_anywhere_build_tooli.Prelude.System.{
  Program, ◌>>=◌, ◌>>◌, lift, wrapped, attempt, run, read_file, write_file,
}
use eks_anywhere_build_tooli.Prelude.Outcome.{wrap, Outcome, ok, err}
use eks_anywhere_build_tooli.VersionTracker.Types.{EksDistroRelease, Tools}
use eks_anywhere_build_tooli.VersionTracker.Constants.{
  eks_distro_latest_releases_file, eks_distro_prod_release_number_file_format,
  kubernetes_git_tag_file_format, supported_release_branches_file, main_branch_name,
}
use eks_anywhere_build_tooli.VersionTracker.Slices.{contains_elem}
use eks_anywhere_build_tooli.VersionTracker.Github.{get_file_contents}

unfoldable pub is_eks_distro_upgrade : String → Bool
is_eks_distro_upgrade project_name = project_name == "aws/eks-distro"

-- `strings.TrimRight(contents, "\n")`, split into its lines
unfoldable pub get_supported_release_branches : String → Program (List String)
get_supported_release_branches build_tooling_repo_path = do
  contents ←
      wrapped "reading supported release branches file"
        (attempt (read_file (build_tooling_repo_path ⟨/⟩ supported_release_branches_file)))
  lift (ok (split (trim_newlines contents) "\n"))

abbrev number_of : Option ℤ → Outcome ℤ
number_of none = err "converting release number to integer: invalid syntax"
number_of (some n) = ok n

-- A release with the latest number and version; the flag says whether they are new to it.
unfoldable pub updated_release : ℤ × String → EksDistroRelease → EksDistroRelease × Bool
updated_release (number, kube_version) release =
    if not (same_int release.number number) || not (release.kube_version == kube_version)
    then (record release { number = number; kube_version = kube_version }, true)
    else (release, false)

module _ {V : Type 0} (t : Tools V) where
  unfoldable pub get_latest_eks_distro_release : String → Program (ℤ × String)
  get_latest_eks_distro_release branch = do
    release_number ← wrapped "getting contents of EKS Distro prod release number file" (
        get_file_contents t "aws" "eks-distro"
          (replace_all eks_distro_prod_release_number_file_format "%s" branch) main_branch_name)
    kube_version ← wrapped "getting contents of Kubernetes Git tag file" (
        get_file_contents t "aws" "eks-distro"
          (replace_all kubernetes_git_tag_file_format "%s" branch) main_branch_name)
    number ← lift (number_of (atoi (trim_newlines release_number)))
    lift (ok (number, trim_newlines kube_version))

  -- A round of the loop over the releases, and the loop: the releases behind it, and `isUpdated`.
  unfoldable pub update_release : List String → EksDistroRelease → Program (EksDistroRelease × Bool)
  update_release supported release =
      if contains_elem supported release.branch
      then (wrapped ("getting latest EKS Distro release for " <> release.branch <> " branch")
            (get_latest_eks_distro_release release.branch)
          >>= λ latest. lift (ok (updated_release latest release)))
      else lift (ok (release, false))

  unfoldable pub update_releases :
      List String → List EksDistroRelease → Program (List EksDistroRelease × Bool)
  update_releases supported [] = lift (ok ([], false))
  update_releases supported (release ∷ releases) = do
    (first, is_new) ← update_release supported release
    (rest, are_new) ← update_releases supported releases
    lift (ok (first ∷ rest, is_new || are_new))

  unfoldable pub update_eks_distro_releases_file : String → Program Bool
  update_eks_distro_releases_file build_tooling_repo_path = do
    let filepath = build_tooling_repo_path ⟨/⟩ eks_distro_latest_releases_file
    contents ← wrapped "reading EKS Distro latest releases file" (attempt (read_file filepath))
    latest ←
        lift (wrap "unmarshalling EKS Distro latest releases file" (t.decode_eks_distro contents))
    supported ←
        wrapped "getting supported EKS Distro release branches"
          (get_supported_release_branches build_tooling_repo_path)
    (releases, is_updated) ← update_releases supported latest.releases
    if is_updated
        then (lift (
              wrap "marshalling EKS Distro latest releases"
                (t.encode_eks_distro (record latest { releases = releases })))
            >>= λ text.
                wrapped "writing EKS Distro latest releases file"
                  (run (write_file filepath text 420)))
        else lift (ok tt)
    lift (ok is_updated)
