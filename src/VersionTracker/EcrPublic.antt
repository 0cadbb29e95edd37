-- ===== src/VersionTracker/EcrPublic.antt =====
-- tools/version-tracker/pkg/ecrpublic/ecrpublic.go: the latest tag of an image.
pub mod Tags
pub mod Greatest
use eks_anywhere_build_tooli.Prelude.{
  String, ◌<>◌, Bool, true, false, [], ◌∷◌, if◌then◌else◌, string_eq, ◌==◌, nat_eq,
}
use eks_anywhere_build_tooli.Prelude.System.{Program, ◌>>=◌, ◌>>◌, lift, wrapped, attempt, exec}
use eks_anywhere_build_tooli.Prelude.Outcome.{wrap, ok}
use eks_anywhere_build_tooli.VersionTracker.Types.{Tools}
use eks_anywhere_build_tooli.VersionTracker.EcrPublic.Tags.{latest_tag}

-- `latestRevision == ""`: no tag is later than the current revision.
abbrev pub found : String → String × Bool
found latest_revision = if latest_revision == "" then ("", false) else (latest_revision, true)

module _ {V : Type 0} (t : Tools V) where
  unfoldable pub get_latest_image_revision : String → String → Program (String × Bool)
  get_latest_image_revision image_repository current_revision = do
    current_semver ←
        lift (wrap "getting semver for current version" (t.new_semver current_revision))
    output ←
        wrapped "running Go version command"
          (attempt (exec ("skopeo" ∷ "list-tags" ∷ ("docker://" <> image_repository) ∷ [])))
    tags ←
        lift (wrap "unmarshalling output of Skopeo list-tags command" (t.decode_image_tags output))
    latest ← lift (latest_tag t ("", current_semver) tags)
    lift (ok (found latest.0))
