-- ===== src/Prelude/System/Keeps.antt =====
-- Invariants of histories, one rule for each way to build a program.
use Prim.Native.String.{String}
use mathlib.Core.Bool.{Bool, true, false}
use Prim.Native.Nat.{ℕ}
use mathlib.Core.List.{List, [], ◌∷◌}
use eks_anywhere_build_tooli.Prelude.Equality.{if◌then◌else◌}
use eks_anywhere_build_tooli.Prelude.Outcome.{Outcome, ok, err, fatal, crash, unfinished}
use eks_anywhere_build_tooli.Prelude.System.{
  Call, History, Env, Program, ◌>>=◌, continue, settle, lift, try, wrapped, or_exit, attempt, run,
  ignore, path_exists, stat_succeeds, stat, timer, answered, timer_fired, for_each, ◌▹◌,
}

-- Whatever way `m` ends in the environment, it keeps `P`.
pub record Keeps {ℓ} {A : Type ℓ} (env : Env) (P : History → Type 0) (m : Program A) : Type ℓ where
  pub at : (h : History) → P h → P (m env h).1

-- A call that keeps `P` wherever it is made.
abbrev pub KeepsCall : (P : History → Type 0) → Call → Type 0
KeepsCall P c = (h : History) → P h → P (h ▹ c)

module _ {ℓ} {A : Type ℓ} {env : Env} {P : History → Type 0} where
  pub Keeps-lift : (o : Outcome A) → Keeps env P (lift o)
  unfolding lift
  Keeps-lift o = record { at = λ h p. p }

  pub Keeps-try : (m : Program A) → Keeps env P m → Keeps env P (try m)
  unfolding try
  Keeps-try m k = record { at = λ h p. settled (m env h).0 (k.at h p) }
    where
      settled : {h' : History} (r : Outcome A) → P h' → P (settle r h').1
      settled (ok a) p = p
      settled (err e) p = p
      settled (fatal e) p = p
      settled crash p = p
      settled unfinished p = p

  pub Keeps-wrapped :
      (message : String) (m : Program A) → Keeps env P m → Keeps env P (wrapped message m)
  unfolding wrapped
  Keeps-wrapped message m k = record { at = k.at }

  pub Keeps-or_exit : (m : Program A) → Keeps env P m → Keeps env P (or_exit m)
  unfolding or_exit
  Keeps-or_exit m k = record { at = k.at }

  pub Keeps-if :
      (b : Bool) (m n : Program A)
      → Keeps env P m
      → Keeps env P n
      → Keeps env P (if b then m else n)
  Keeps-if true m n km kn = km
  Keeps-if false m n km kn = kn

module _ {ℓ κ} {A : Type ℓ} {B : Type κ} {env : Env} {P : History → Type 0} where
  continued :
      (r : Outcome A) (h : History) (f : A → Program B)
      → ((a : A) → Keeps env P (f a))
      → P h
      → P (continue r h f env).1
  continued (ok a) h f k p = (k a).at h p
  continued (err e) h f k p = p
  continued (fatal e) h f k p = p
  continued crash h f k p = p
  continued unfinished h f k p = p

  pub Keeps-bind :
      (m : Program A) (f : A → Program B)
      → Keeps env P m
      → ((a : A) → Keeps env P (f a))
      → Keeps env P (m >>= f)
  unfolding ◌>>=◌
  Keeps-bind m f km kf = record { at = λ h p. continued (m env h).0 (m env h).1 f kf (km.at h p) }

module _ {env : Env} {P : History → Type 0} where
  pub Keeps-attempt : (c : Call) → KeepsCall P c → Keeps env P (attempt c)
  unfolding attempt
  Keeps-attempt c k = record { at = k }

  pub Keeps-run : (c : Call) → KeepsCall P c → Keeps env P (run c)
  unfolding run
  Keeps-run c k = record { at = k }

  pub Keeps-ignore : (c : Call) → KeepsCall P c → Keeps env P (ignore c)
  unfolding ignore
  Keeps-ignore c k = record { at = k }

  pub Keeps-path_exists : (path : String) → KeepsCall P (stat path) → Keeps env P (path_exists path)
  unfolding path_exists
  Keeps-path_exists path k = record { at = k }

  pub Keeps-stat_succeeds :
      (path : String) → KeepsCall P (stat path) → Keeps env P (stat_succeeds path)
  unfolding stat_succeeds
  Keeps-stat_succeeds path k = record { at = k }

  pub Keeps-timer_fired : (n : ℕ) → KeepsCall P (timer n) → Keeps env P (timer_fired n)
  unfolding timer_fired
  Keeps-timer_fired n k = record { at = k }

  pub Keeps-answered : (c : Call) → KeepsCall P c → Keeps env P (answered c)
  unfolding answered
  Keeps-answered c k = record { at = k }

  pub Keeps-for_each {ℓ} :
      {A : Type ℓ} (f : A → Program (Unit {0})) (xs : List A)
      → ((a : A) → Keeps env P (f a))
      → Keeps env P (for_each f xs)
  unfolding for_each
  Keeps-for_each f [] k = Keeps-lift (ok tt)
  Keeps-for_each f (a ∷ xs) k =
      Keeps-bind (f a) (λ _. for_each f xs) (k a) (λ _. Keeps-for_each f xs k)

pub ruleset keeps_rules = (
  Keeps-lift, Keeps-try, Keeps-wrapped, Keeps-or_exit, Keeps-if, Keeps-bind, Keeps-attempt,
  Keeps-run, Keeps-ignore, Keeps-path_exists, Keeps-stat_succeeds, Keeps-timer_fired,
  Keeps-answered, Keeps-for_each,
)
