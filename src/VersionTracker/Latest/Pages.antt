-- ===== src/VersionTracker/Latest/Pages.antt =====
-- All pages of the releases of a repository are read.
use mathlib.Core.List.{append_assoc, append-nil}
use eks_anywhere_build_tooli.Prelude.{
  ℕ, zero, suc, ◌≤◌, String, ◌≡◌, refl, ap, ◌∙◌, false, not, List, [], ◌∷◌, ◌++◌, arith, nat_beq,
  length, keep,
}
use eks_anywhere_build_tooli.Prelude.System.{
  History, ◌▹◌, Env, ◌>>=◌, lift, wrapped, attempt, list_releases, github, good,
}
use eks_anywhere_build_tooli.Prelude.Outcome.{ok}
use eks_anywhere_build_tooli.VersionTracker.Types.{Release, Tools}
use eks_anywhere_build_tooli.VersionTracker.Github.{releases_from, get_releases_for_repo}

-- A page is always answered by a text that the decoder reads as these items and this next page.
abbrev pub IsPage : {V : Type 0} → Tools V → Env → String → String → ℕ → List Release → ℕ → Type 0
IsPage t env org repo number items next =
    (h : History)
    → (text : String) × (env h (github (list_releases org repo number)) ≡ good text)
      × (t.decode_releases text ≡ record { items = items; next_page = next })

-- The releases of a repository in pages, from the one of a number on.
pub data Serves {V : Type 0} (t : Tools V) (env : Env) (org repo : String)
    : ℕ → List (List Release) → Type 0 where
  last_page :
      (number : ℕ) (items : List Release)
      → IsPage t env org repo number items 0
      → Serves t env org repo number (items ∷ [])
  page_before :
      (number next : ℕ) (items : List Release) (pages : List (List Release))
      → IsPage t env org repo number items (suc next)
      → Serves t env org repo (suc next) pages
      → Serves t env org repo number (items ∷ pages)

more_pages : (next : ℕ) → nat_beq (suc next) 0 ≡ false
more_pages next = ground arith

-- The full releases of some pages, in their order.
unfoldable pub full_releases : List (List Release) → List Release
full_releases [] = []
full_releases (page ∷ pages) = keep (λ release. not release.prerelease) page ++ full_releases pages

module _ {V : Type 0} (t : Tools V) (env : Env) (org repo : String) where
  step-last :
      (fuel number : ℕ) (all items : List Release) (h : History)
      → IsPage t env org repo number items 0
      → (releases_from t (suc fuel) org repo number all env h).0
        ≡ ok (all ++ keep (λ release. not release.prerelease) items)
  unfolding releases_from ◌>>=◌ wrapped attempt lift
  step-last fuel number all items h page = let (text, e, d) = page h in rw (e, d) refl

  step-next :
      (fuel number next : ℕ) (all items : List Release) (h : History)
      → IsPage t env org repo number items (suc next)
      → (releases_from t (suc fuel) org repo number all env h).0
        ≡ (releases_from t fuel org repo
            (suc next)
            (all ++ keep (λ release. not release.prerelease) items)
            env
            (h ▹ github (list_releases org repo number))).0
  unfolding releases_from ◌>>=◌ wrapped attempt lift
  step-next fuel number next all items h page =
      let (text, e, d) = page h in rw (e, d, more_pages next) refl

  releases_from-pages :
      (fuel number : ℕ) (all : List Release) (pages : List (List Release)) (h : History)
      → Serves t env org repo number pages
      → length pages ≤ fuel
      → (releases_from t fuel org repo number all env h).0 ≡ ok (all ++ full_releases pages)
  unfolding full_releases
  releases_from-pages zero number all _ h (last_page n items page) le = absurd (omega arith)
  releases_from-pages zero number all _ h (page_before n next items pages page rest) le =
      absurd (omega arith)
  releases_from-pages (suc fuel) number all _ h (last_page n items page) le =
      rw (step-last fuel number all items h page, append-nil) refl
  releases_from-pages (suc fuel) number all _ h (page_before n next items pages page rest) le =
      step-next fuel number next all items h page
      ∙ releases_from-pages fuel (suc next) _ pages _ rest (omega arith)
      ∙ ap ok (append_assoc all _ _)

-- If GitHub serves the releases of a repository in pages, whenever it is asked, all of them that are
-- not pre-releases are found, in their order, if the bound on the rounds is at least the number of
-- pages.
pub get_releases_for_repo_all :
    {V : Type 0} (t : Tools V) (env : Env) (org repo : String) (fuel : ℕ)
    (pages : List (List Release)) (h : History)
    → Serves t env org repo 0 pages
    → length pages ≤ fuel
    → (get_releases_for_repo t fuel org repo env h).0 ≡ ok (full_releases pages)
unfolding get_releases_for_repo
get_releases_for_repo_all t env org repo fuel pages h served enough =
    releases_from-pages t env org repo fuel 0 [] pages h served enough
