-- ===== src/VersionTracker/EcrPublic/Greatest.antt =====
-- The latest tag of an image is the greatest one.
use mathlib.Core.Path.{subst}
use mathlib.Core.List.{Mem, mem-cons_self, mem-cons_of_mem}
use eks_anywhere_build_tooli.Prelude.{
  String, ◌<>◌, ◌≡◌, refl, sym, inl, inr, Bool, true, false, not, List, [], ◌∷◌, if◌then◌else◌,
  Bool-cases, has_prefix,
}
use eks_anywhere_build_tooli.Prelude.Outcome.{◌>>=◌, wrap, ok-injective, >>=-elim, ok}
use eks_anywhere_build_tooli.VersionTracker.Types.{Tools}
use eks_anywhere_build_tooli.VersionTracker.EcrPublic.Tags.{next_tag, latest_tag}
use eks_anywhere_build_tooli.Prelude.System.Steps.{unwrap-ok}

-- `GreaterThan` compares versions by an order, whose equivalent versions may differ in their texts.
pub record IsOrder {V : Type 0} (t : Tools V) : Type 0 where
  pub trans :
      (a b c : V)
      → t.greater_than a b ≡ true
      → t.greater_than b c ≡ true
      → t.greater_than a c ≡ true
  pub asym : (a b : V) → t.greater_than a b ≡ true → t.greater_than b a ≡ false
  pub not_greater :
      (a b c : V)
      → t.greater_than a b ≡ false
      → t.greater_than b c ≡ false
      → t.greater_than a c ≡ false

-- Each tag that starts with a `v` has a version, which is not greater than `v`.
abbrev pub IsBounded : {V : Type 0} → Tools V → V → List String → Type 0
IsBounded t v [] = Unit {0}
IsBounded {V} t v (tag ∷ tags) =
    (has_prefix tag "v" ≡ true → (s : V) × (t.new_semver tag ≡ ok s) × (t.greater_than s v ≡ false))
    × IsBounded t v tags

-- What is found: no tag, where the version is the one to start with; or one that is greater.
pub data Found {V : Type 0} (t : Tools V) (tags : List String) (before after : String × V)
    : Type 0 where
  none_later : after ≡ before → Found t tags before after
  later_tag :
      Mem after.0 tags
      → t.new_semver after.0 ≡ ok after.1
      → t.greater_than after.1 before.1 ≡ true
      → Found t tags before after

module _ {V : Type 0} (t : Tools V) (order : IsOrder t) where
  irreflexive : (a : V) → t.greater_than a a ≡ false
  irreflexive a = elim (Bool-cases (t.greater_than a a)) [ inl e ↦ order.asym a a e | inr e ↦ e ]

  -- What a loop over some tags comes to, where what it finds is one of `names`.
  Comes : List String → List String → String × V → String × V → Type 0
  Comes names tags before after =
      Found t names before after
      × (t.greater_than before.1 after.1 ≡ false)
      × IsBounded t after.1 tags

  Comes-greater :
      (names : List String) (l : String) (v s : V) (tag : String) (greater : Bool)
      (next : String × V)
      → t.new_semver tag ≡ ok s
      → t.greater_than s v ≡ greater
      → (if greater then ok (tag, s) else ok (l, v)) ≡ ok next
      → Comes (tag ∷ names) (tag ∷ []) (l, v) next
  unfolding Comes
  Comes-greater names l v s tag true next is_version g e =
      subst
        (λ n.
          Found t (tag ∷ names) (l, v) n
          × (t.greater_than v n.1 ≡ false)
          × IsBounded t n.1 (tag ∷ []))
        (ok-injective e)
        (
          later_tag mem-cons_self is_version g,
          order.asym s v g,
          ((λ p. (s, is_version, irreflexive s)), tt),
        )
  Comes-greater names l v s tag false next is_version g e =
      subst
        (λ n.
          Found t (tag ∷ names) (l, v) n
          × (t.greater_than v n.1 ≡ false)
          × IsBounded t n.1 (tag ∷ []))
        (ok-injective e) (none_later refl, irreflexive v, ((λ p. (s, is_version, g)), tt))

  Comes-next :
      (names : List String) (l : String) (v : V) (tag : String) (is_v : Bool) (next : String × V)
      → has_prefix tag "v" ≡ is_v
      → (if not is_v
          then ok (l, v)
          else (wrap ("getting semver for Cilium tag [" <> tag <> "]") (t.new_semver tag)
              >>= λ tag_semver.
                  if t.greater_than tag_semver v then ok (tag, tag_semver) else ok (l, v)))
        ≡ ok next
      → Comes (tag ∷ names) (tag ∷ []) (l, v) next
  unfolding Comes
  Comes-next names l v tag false next q e =
      subst
        (λ n.
          Found t (tag ∷ names) (l, v) n
          × (t.greater_than v n.1 ≡ false)
          × IsBounded t n.1 (tag ∷ []))
        (ok-injective e) (none_later refl, irreflexive v, ((λ p. absurd cc), tt))
  Comes-next names l v tag true next q e =
      >>=-elim (wrap ("getting semver for Cilium tag [" <> tag <> "]") (t.new_semver tag)) _ e
        (λ s is_version chosen.
          Comes-greater names l v s tag (t.greater_than s v) next (unwrap-ok _ _ is_version) refl
            chosen)

  Found-cons :
      (before next after : String × V) (tag : String) (tags : List String)
      → Found t (tag ∷ tags) before next
      → Found t tags next after
      → Found t (tag ∷ tags) before after
  Found-cons before next after tag tags first (none_later e) =
      subst (Found t (tag ∷ tags) before) (sym e) first
  Found-cons before next after tag tags (none_later e) (later_tag m is_version g) =
      later_tag (mem-cons_of_mem tag m) is_version
        (subst (λ n. t.greater_than after.1 n.1 ≡ true) e g)
  Found-cons before next after tag tags (later_tag n was_version b) (later_tag m is_version g) =
      later_tag (mem-cons_of_mem tag m) is_version (order.trans after.1 next.1 before.1 g b)

  Comes-cons :
      (before next after : String × V) (tag : String) (tags : List String)
      → Comes (tag ∷ tags) (tag ∷ []) before next
      → Comes tags tags next after
      → Comes (tag ∷ tags) (tag ∷ tags) before after
  unfolding Comes
  Comes-cons before next after tag tags (one, le, (bound, _)) (rest, below, bounds) = (
    Found-cons before next after tag tags one rest,
    order.not_greater before.1 next.1 after.1 le below,
    (
      (λ p.
          let (s, is_version, under) = bound p in
          (s, is_version, order.not_greater s next.1 after.1 under below)),
      bounds,
    ),
  )

  latest_tag-Comes :
      (tags : List String) (before after : String × V)
      → latest_tag t before tags ≡ ok after
      → Comes tags tags before after
  unfolding latest_tag next_tag Comes
  latest_tag-Comes [] before after e = (
    none_later (sym (ok-injective e)),
    subst (λ n. t.greater_than before.1 n.1 ≡ false) (ok-injective e) (irreflexive before.1),
    tt,
  )
  latest_tag-Comes (tag ∷ tags) before after e = >>=-elim (next_tag t before tag) _ e (λ next e1 e2.
      Comes-cons before next after tag tags
        (Comes-next tags before.0 before.1 tag (has_prefix tag "v") next refl e1)
        (latest_tag-Comes tags next after e2))

-- Where versions are ordered, and the loop over the tags ends without an error, every tag that starts
-- with a `v` has a version, and none of them is greater than the one that is found; what is found is
-- one of the tags, of that version and greater than the version to start with, or there is none.
pub latest_tag-IsBounded :
    {V : Type 0} (t : Tools V)
    → IsOrder t
    → (before after : String × V) (tags : List String) → latest_tag t before tags ≡ ok after
    → Found t tags before after × IsBounded t after.1 tags
unfolding Comes
latest_tag-IsBounded t order before after tags e =
    let (one, le, bounds) = latest_tag-Comes t order tags before after e in (one, bounds)
