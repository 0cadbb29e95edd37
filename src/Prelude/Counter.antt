-- ===== src/Prelude/Counter.antt =====
-- A Go map from keys to positive counts, in the order of insertion, and its view as a multiset.
use mathlib.Core.Bool.{Bool, true, false}
use mathlib.Core.List.{List, [], ◌∷◌}
use mathlib.Core.Path.{◌≡◌, refl}
use mathlib.Core.Logic.{◌↔◌}
use Prim.Native.Nat.{ℕ, suc, ◌+◌, ◌-◌, ◌<◌}
use native.Mathlib.Omega.{arith}
use eks_anywhere_build_tooli.Prelude.Equality.{Eq, ◌==◌, nat_eq, if◌then◌else◌}

module _ {K : Type 0} ⦃e : Eq K⦄ where
  -- `m[v]++`
  unfoldable pub incr : K → List (K × ℕ) → List (K × ℕ)
  incr v [] = (v, 1) ∷ []
  incr v ((w, n) ∷ m) = if w == v then (w, suc n) ∷ m else (w, n) ∷ incr v m

  -- `_, ok := m[v]`
  unfoldable pub has_key : K → List (K × ℕ) → Bool
  has_key v [] = false
  has_key v ((w, n) ∷ m) = if w == v then true else has_key v m

  -- `m[v] -= 1`, and `delete(m, v)` when the count has come to 0
  unfoldable pub decr : K → List (K × ℕ) → List (K × ℕ)
  decr v [] = []
  decr v ((w, n) ∷ m) =
      if w == v then (if n - 1 == 0 then m else (w, n - 1) ∷ m) else (w, n) ∷ decr v m

  -- How often a value stands in a list.
  abbrev pub count : K → List K → ℕ
  count f [] = 0
  count f (g ∷ fs) = (if g == f then 1 else 0) + count f fs

  -- The count that a map holds for a key.
  unfoldable pub total : K → List (K × ℕ) → ℕ
  total f [] = 0
  total f ((g, n) ∷ m) = (if g == f then n else 0) + total f m

  abbrev pub ArePositive : List (K × ℕ) → Type 0
  ArePositive [] = Unit {0}
  ArePositive ((g, n) ∷ m) = (0 < n) × ArePositive m

  pub total-incr :
      (f v : K) (m : List (K × ℕ)) → total f (incr v m) ≡ (if v == f then 1 else 0) + total f m
  unfolding total incr
  total-incr f v [] = ground arith
  total-incr f v ((w, n) ∷ m) = ground (arith, total-incr f v m, e.beq_iff w v)

  pub incr-ArePositive : (v : K) (m : List (K × ℕ)) → ArePositive m → ArePositive (incr v m)
  unfolding incr
  incr-ArePositive v [] h = omega arith
  incr-ArePositive v ((w, n) ∷ m) h = ground (arith, incr-ArePositive v m h.1)

  pub decr-ArePositive : (v : K) (m : List (K × ℕ)) → ArePositive m → ArePositive (decr v m)
  unfolding decr
  decr-ArePositive v [] h = tt
  decr-ArePositive v ((w, n) ∷ m) h = ground (arith, decr-ArePositive v m h.1)

  pub total-decr :
      (f v : K) (m : List (K × ℕ))
      → has_key v m ≡ true
      → ArePositive m
      → (if v == f then 1 else 0) + total f (decr v m) ≡ total f m
  unfolding total has_key decr
  total-decr f v [] h p = cc
  total-decr f v ((w, n) ∷ m) h p = ground (arith, total-decr f v m, p.0, p.1, e.beq_iff w v)

  pub has_key_iff :
      (v : K) (m : List (K × ℕ)) → ArePositive m → (has_key v m ≡ true) ↔ (0 < total v m)
  unfolding total has_key
  has_key_iff v [] p = ground arith
  has_key_iff v ((w, n) ∷ m) p = ground (arith, has_key_iff v m p.1)

  -- The sum of the counts of a map.
  unfoldable pub size : List (K × ℕ) → ℕ
  size [] = 0
  size ((g, n) ∷ m) = n + size m

  pub size-incr : (v : K) (m : List (K × ℕ)) → size (incr v m) ≡ suc (size m)
  unfolding size incr
  size-incr v [] = refl
  size-incr v ((w, n) ∷ m) = ground (arith, size-incr v m)

  pub size-decr :
      (v : K) (m : List (K × ℕ))
      → has_key v m ≡ true
      → ArePositive m
      → suc (size (decr v m)) ≡ size m
  unfolding size has_key decr
  size-decr v [] h p = cc
  size-decr v ((w, n) ∷ m) h p = ground (arith, size-decr v m, p.0, p.1)

  -- A map whose counts are positive and all zero is empty.
  pub eq-nil_of_totals : (m : List (K × ℕ)) → ArePositive m → ((f : K) → total f m ≡ 0) → m ≡ []
  unfolding total
  eq-nil_of_totals [] p h = refl
  eq-nil_of_totals ((w, n) ∷ m) p h = ground (arith, h w, p.0, e.beq_iff w w)
