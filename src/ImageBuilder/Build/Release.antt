-- ===== src/ImageBuilder/Build/Release.antt =====
-- builder/utils.go: which of the listed releases a version selects.
use mathlib.Core.Path.{subst}
use eks_anywhere_build_tooli.Prelude.{
  String, ◌≡◌, ◌⊎◌, refl, inl, inr, Bool, true, false, Option, none, some, List, [], ◌∷◌, ◌++◌,
  if◌then◌else◌, string_eq, ◌==◌, nat_eq, contains,
}
use eks_anywhere_build_tooli.ImageBuilder.Build.Setup.{EksaRelease}
use eks_anywhere_build_tooli.ImageBuilder.Build.Bundle.{find_release, bundle_url_of}

-- No release has a version that passes the test.
abbrev pub NonePass : (String → Bool) → List EksaRelease → Type 0
NonePass test [] = Unit {0}
NonePass test (r ∷ releases) = (test r.version ≡ false) × NonePass test releases

-- The URL is that of a release which passes the test, behind releases that do not.
pub record FirstPasses (test : String → Bool) (releases : List EksaRelease) (url : String)
    : Type 0 where
  pub before : List EksaRelease
  pub release : EksaRelease
  pub after : List EksaRelease
  pub split : releases ≡ before ++ (release ∷ after)
  pub skipped : NonePass test before
  pub passes : test release.version ≡ true
  pub its_url : url ≡ release.bundle_manifest_url

abbrev pub is_version : String → String → Bool
is_version version v = v == version

abbrev pub has_part : String → String → Bool
has_part version v = contains v version

-- What the code is to choose: a release of this very version goes before one that has it as a part.
abbrev pub Chosen : String → List EksaRelease → String → Type 0
Chosen version releases url =
    FirstPasses (is_version version) releases url
    ⊎ (NonePass (is_version version) releases × FirstPasses (has_part version) releases url)

FirstPasses-∷ :
    (test : String → Bool) (r : EksaRelease) (releases : List EksaRelease) (url : String)
    → test r.version ≡ false
    → FirstPasses test releases url
    → FirstPasses test (r ∷ releases) url
FirstPasses-∷ test r releases url other f = record {
  before = r ∷ f.before;
  release = f.release;
  after = f.after;
  split = cc f.split;
  skipped = (other, f.skipped);
  passes = f.passes;
  its_url = f.its_url;
}

-- The two outcomes of a search
Searched : (String → Bool) → List EksaRelease → Option String → Type 0
Searched test releases none = NonePass test releases
Searched test releases (some url) = FirstPasses test releases url

Searched-∷ :
    (test : String → Bool) (r : EksaRelease) (releases : List EksaRelease) (found : Option String)
    (passes : Bool)
    → test r.version ≡ passes
    → Searched test releases found
    → Searched test (r ∷ releases) (if passes then some r.bundle_manifest_url else found)
unfolding Searched
Searched-∷ test r releases found true passed searched = record {
  before = [];
  release = r;
  after = releases;
  split = refl;
  skipped = tt;
  passes = passed;
  its_url = refl;
}
Searched-∷ test r releases none false other searched = (other, searched)
Searched-∷ test r releases (some url) false other searched =
    FirstPasses-∷ test r releases url other searched

find_release-Searched :
    (test : String → Bool) (releases : List EksaRelease)
    → Searched test releases (find_release test releases)
unfolding find_release Searched
find_release-Searched test [] = tt
find_release-Searched test (r ∷ releases) =
    Searched-∷ test r releases _ (test r.version) refl (find_release-Searched test releases)

-- The two searches of the code, with what they find
Answers : String → List EksaRelease → Option String → Type 0
Answers version releases none =
    NonePass (is_version version) releases × NonePass (has_part version) releases
Answers version releases (some url) = Chosen version releases url

bundle_url_of-Answers :
    (version : String) (releases : List EksaRelease) (exact part : Option String)
    → Searched (is_version version) releases exact
    → Searched (has_part version) releases part
    → Answers version releases (elim exact [ some url ↦ some url | none ↦ part ])
unfolding Answers Searched
bundle_url_of-Answers version releases (some url) part e p = inl e
bundle_url_of-Answers version releases none (some url) e p = inr (e, p)
bundle_url_of-Answers version releases none none e p = (e, p)

bundle_url_of_lem :
    (version : String) (releases : List EksaRelease)
    → Answers version releases (bundle_url_of version releases)
unfolding bundle_url_of
bundle_url_of_lem version releases =
    bundle_url_of-Answers version releases _ _ (find_release-Searched (is_version version) releases)
      (find_release-Searched (has_part version) releases)

-- When `bundle_url_of` gives a URL, it is that of the first listed release of the very version; or no
-- release has this version, and it is that of the first release whose version has it as a part.
pub bundle_url_of-Chosen :
    (version : String) (releases : List EksaRelease) (url : String)
    → bundle_url_of version releases ≡ some url
    → Chosen version releases url
unfolding Answers
bundle_url_of-Chosen version releases url e =
    subst (Answers version releases) e (bundle_url_of_lem version releases)

-- When `bundle_url_of` gives none, no listed release has the version, nor has one it as a part.
pub bundle_url_of-none :
    (version : String) (releases : List EksaRelease)
    → bundle_url_of version releases ≡ none
    → NonePass (is_version version) releases × NonePass (has_part version) releases
unfolding Answers
bundle_url_of-none version releases e =
    subst (Answers version releases) e (bundle_url_of_lem version releases)
