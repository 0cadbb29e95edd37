-- ===== src/Prelude/System/After.antt =====
-- Invariants that hold because of a step that succeeded.
use mathlib.Core.Path.{◌≡◌, refl}
use eks_anywhere_build_tooli.Prelude.Outcome.{Outcome, ok, err, fatal, crash, unfinished}
use eks_anywhere_build_tooli.Prelude.System.{History, Env, Program, ◌>>=◌, continue}
use eks_anywhere_build_tooli.Prelude.System.Keeps.{Keeps}

module _ {ℓ κ} {A : Type ℓ} {B : Type κ} {env : Env} {P Q : History → Type 0}
    (weaker : (h : History) → Q h → P h) where
  continued_after :
      (r : Outcome A) (h : History) (f : A → Program B)
      → P h
      → ((a : A) → r ≡ ok a → Q h)
      → ((a : A) → Keeps env Q (f a))
      → P (continue r h f env).1
  continued_after (ok a) h f p q k = weaker _ ((k a).at h (q a refl))
  continued_after (err e) h f p q k = p
  continued_after (fatal e) h f p q k = p
  continued_after crash h f p q k = p
  continued_after unfinished h f p q k = p

  -- The first step keeps `P`, and makes `Q` true if it succeeds; what follows keeps `Q`.
  pub Keeps-after :
      (m : Program A) (f : A → Program B)
      → Keeps env P m
      → ((h : History) (a : A) → P h → (m env h).0 ≡ ok a → Q (m env h).1)
      → ((a : A) → Keeps env Q (f a))
      → Keeps env P (m >>= f)
  unfolding ◌>>=◌
  Keeps-after m f km q kf = record {
    at = λ h p. continued_after (m env h).0 (m env h).1 f (km.at h p) (λ a e. q h a p e) kf;
  }
