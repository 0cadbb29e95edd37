-- ===== src/VersionTracker/EcrPublic/Tags.antt =====
-- tools/version-tracker/pkg/ecrpublic/ecrpublic.go: the loop over the tags of an image.
use eks_anywhere_build_tooli.Prelude.{String, ◌<>◌, not, List, [], ◌∷◌, if◌then◌else◌, has_prefix}
use eks_anywhere_build_tooli.Prelude.Outcome.{◌>>=◌, wrap, Outcome, ok}
use eks_anywhere_build_tooli.VersionTracker.Types.{Tools}

module _ {V : Type 0} (t : Tools V) where
  -- A round: `latestRevision` and `latestRevisionSemver` behind one tag.
  unfoldable pub next_tag : String × V → String → Outcome (String × V)
  next_tag (latest_revision, latest_semver) tag =
      if not (has_prefix tag "v")
      then ok (latest_revision, latest_semver)
      else (wrap ("getting semver for Cilium tag [" <> tag <> "]") (t.new_semver tag)
          >>= λ tag_semver.
              if t.greater_than tag_semver latest_semver
              then ok (tag, tag_semver)
              else ok (latest_revision, latest_semver))

  unfoldable pub latest_tag : String × V → List String → Outcome (String × V)
  latest_tag latest [] = ok latest
  latest_tag latest (tag ∷ tags) = next_tag latest tag >>= λ next. latest_tag next tags
