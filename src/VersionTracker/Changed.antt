-- ===== src/VersionTracker/Changed.antt =====
-- The releases of EKS Distro that are called updated are other ones.
use mathlib.Core.Path.{subst}
use eks_anywhere_build_tooli.Prelude.{
  String, ◌<>◌, ◌≡◌, refl, sym, ap, ◌∙◌, ◌≢◌, inl, inr, Bool, true, false, ◌||◌, List, [], ◌∷◌, map,
  arith, if◌then◌else◌, str_beq_iff, string_eq, ◌==◌, nat_eq, Bool-cases,
}
use eks_anywhere_build_tooli.Prelude.Int.{same_int, ℤ, pos, negsuc}
use eks_anywhere_build_tooli.Prelude.System.{History, Env, ◌>>=◌, lift, wrapped}
use eks_anywhere_build_tooli.Prelude.Outcome.{ok-injective, ok}
use eks_anywhere_build_tooli.VersionTracker.Types.{EksDistroRelease, Tools}
use eks_anywhere_build_tooli.VersionTracker.Slices.{contains_elem}
use eks_anywhere_build_tooli.VersionTracker.EksDistro.{
  updated_release, get_latest_eks_distro_release, update_release, update_releases,
}
use eks_anywhere_build_tooli.Prelude.System.Steps.{bind-ok, lift-ok}

both_values : {b : Bool} → b ≡ true → b ≡ false → ⊥
both_values t f = cc

-- The flag says whether a value has changed.
abbrev pub Tells {ℓ} : {A : Type ℓ} → A → A → Bool → Type ℓ
Tells before after changed = (changed ≡ true → after ≢ before) × (changed ≡ false → after ≡ before)

Tells-same {ℓ} : {A : Type ℓ} (a : A) → Tells a a false
Tells-same a = (λ x. absurd cc, λ _. refl)

Tells-cons {ℓ} :
    {A : Type ℓ} (a b : A) (xs ys : List A) (p q : Bool)
    → Tells a b p
    → Tells xs ys q
    → Tells (a ∷ xs) (b ∷ ys) (p || q)
Tells-cons a b xs ys true q x y = (λ _ e. x.0 refl cc, λ e. absurd cc)
Tells-cons a b xs ys false q x y = (λ e d. y.0 e cc, λ e. rw (x.1 refl, y.1 e) refl)

same_int_refl : (i : ℤ) → same_int i i ≡ true
same_int_refl (pos n) = ground arith
same_int_refl (negsuc n) = ground arith

-- A release keeps its branch.
updated_release-Tells :
    (number : ℤ) (kube_version : String) (release : EksDistroRelease)
    → ((updated_release (number, kube_version) release).0.branch ≡ release.branch)
      × Tells release
          (updated_release (number, kube_version) release).0
          (updated_release (number, kube_version) release).1
unfolding updated_release
updated_release-Tells number kube_version release =
    elim (Bool-cases (same_int release.number number)) [
      | inl e ↦ elim (Bool-cases (release.kube_version == kube_version)) [
        | inl d ↦ rw (e, d) (refl, Tells-same _)
        | inr d ↦
            rw (e, d)
              (
                refl,
                (
                  (λ _ x.
                      both_values
                        ((str_beq_iff release.kube_version kube_version).1
                          (sym (ap (λ r. r.kube_version) x)))
                        d),
                  λ x. absurd cc,
                ),
              )
      ]
      | inr e ↦ rw e (
        refl,
        (
          (λ _ x.
              both_values
                (ap (same_int release.number) (ap (λ r. r.number) x) ∙ same_int_refl release.number)
                e),
          λ x. absurd cc,
        ),
      )
    ]

module _ {V : Type 0} (t : Tools V) (env : Env) (supported : List String) where
  update_release-Tells :
      (release after : EksDistroRelease) (changed : Bool) (h : History)
      → (update_release t supported release env h).0 ≡ ok (after, changed)
      → (after.branch ≡ release.branch) × Tells release after changed
  unfolding update_release
  update_release-Tells release after changed h e =
      at_support (contains_elem supported release.branch) e
    where
      at_support :
          (is_supported : Bool)
          → ((if is_supported
                then (wrapped
                      ("getting latest EKS Distro release for " <> release.branch <> " branch")
                      (get_latest_eks_distro_release t release.branch)
                    >>= λ latest. lift (ok (updated_release latest release)))
                else lift (ok (release, false)))
              env h).0
            ≡ ok (after, changed)
          → (after.branch ≡ release.branch) × Tells release after changed
      at_support true e =
          let ((number, version), e1, e2, _) = bind-ok env _ _ h e in
          let same : updated_release (number, version) release ≡ (after, changed) =
            ok-injective (lift-ok env _ _ e2) in
          subst (λ p. (p.0.branch ≡ release.branch) × Tells release p.0 p.1) same
            (updated_release-Tells number version release)
      at_support false e =
          let same : (release, false) ≡ (after, changed) = ok-injective (lift-ok env _ _ e) in
          subst (λ p. (p.0.branch ≡ release.branch) × Tells release p.0 p.1) same
            (refl, Tells-same _)

  pub releases-Tells :
      (releases after : List EksDistroRelease) (changed : Bool) (h : History)
      → (update_releases t supported releases env h).0 ≡ ok (after, changed)
      → (map (λ r. r.branch) after ≡ map (λ r. r.branch) releases) × Tells releases after changed
  unfolding update_releases lift
  releases-Tells [] after changed h e =
      subst (λ p. (map (λ r. r.branch) p.0 ≡ []) × Tells [] p.0 p.1) (ok-injective e)
        (refl, Tells-same _)
  releases-Tells (release ∷ releases) after changed h e =
      let ((first, is_new), e1, e2, _) = bind-ok env _ _ h e in
      let ((rest, are_new), e3, e4, _) = bind-ok env _ _ _ e2 in
      let (branch, tells) = update_release-Tells release first is_new h e1 in
      let (branches, rest_tell) = releases-Tells releases rest are_new _ e3 in
      subst
        (λ p.
          (map (λ r. r.branch) p.0 ≡ map (λ r. r.branch) (release ∷ releases))
          × Tells (release ∷ releases) p.0 p.1)
        (ok-injective e4)
        (
          rw (branch, branches) refl,
          Tells-cons release first releases rest is_new are_new tells rest_tell,
        )
