-- ===== src/Prelude/System/Steps.antt =====
-- What the success of a program says of its parts.
use mathlib.Core.Path.{◌≡◌, refl, ap}
use eks_anywhere_build_tooli.Prelude.Outcome.{
  Outcome, ok, err, fatal, crash, unfinished, wrap, or_die,
}
use Prim.Native.String.{String}
use eks_anywhere_build_tooli.Prelude.System.{
  Call, History, Env, Program, ◌>>=◌, continue, lift, wrapped, attempt, outcome_of, Answer, good,
  absent, bad, or_exit, run, is_good, true, unit_of,
}

module _ {ℓ κ} {A : Type ℓ} {B : Type κ} (env : Env) where
  continued-ok :
      (r : Outcome A) (h : History) (f : A → Program B) {b : B}
      → (continue r h f env).0 ≡ ok b
      → (a : A) × (r ≡ ok a) × ((f a env h).0 ≡ ok b) × ((continue r h f env).1 ≡ (f a env h).1)
  continued-ok (ok a) h f e = (a, refl, e, refl)
  continued-ok (err x) h f e = cc
  continued-ok (fatal x) h f e = cc
  continued-ok crash h f e = cc
  continued-ok unfinished h f e = cc

  -- The first step succeeded, and what follows did from where it ended.
  pub bind-ok :
      (m : Program A) (f : A → Program B) (h : History) {b : B}
      → ((m >>= f) env h).0 ≡ ok b
      → (a : A) × ((m env h).0 ≡ ok a)
        × ((f a env (m env h).1).0 ≡ ok b)
        × (((m >>= f) env h).1 ≡ (f a env (m env h).1).1)
  unfolding ◌>>=◌
  bind-ok m f h e = continued-ok (m env h).0 (m env h).1 f e

module _ {ℓ} {A : Type ℓ} where
  pub unwrap-ok : (message : String) (r : Outcome A) {a : A} → wrap message r ≡ ok a → r ≡ ok a
  unwrap-ok message (ok b) e = e
  unwrap-ok message (err x) e = cc
  unwrap-ok message (fatal x) e = cc
  unwrap-ok message crash e = cc
  unwrap-ok message unfinished e = cc

module _ {ℓ} {A : Type ℓ} (env : Env) where
  pub wrapped-ok :
      (message : String) (m : Program A) (h : History) {a : A}
      → (wrapped message m env h).0 ≡ ok a
      → (m env h).0 ≡ ok a
  unfolding wrapped
  wrapped-ok message m h e = unwrap-ok message (m env h).0 e

  pub lift-ok : (o : Outcome A) (h : History) {a : A} → (lift o env h).0 ≡ ok a → o ≡ ok a
  unfolding lift
  lift-ok o h e = e

pub attempt-ok :
    (env : Env) (c : Call) (h : History) {text : String}
    → (attempt c env h).0 ≡ ok text
    → env h c ≡ good text
unfolding attempt
attempt-ok env c h e = answer_good (env h c) e
  where
    answer_good : (a : Answer) {text : String} → outcome_of a ≡ ok text → a ≡ good text
    answer_good (good t) e = ap good cc
    answer_good absent e = cc
    answer_good (bad x) e = cc

-- A call whose error is looked at was answered.
pub run-ok :
    (env : Env) (c : Call) (h : History) {u : Unit {0}}
    → (run c env h).0 ≡ ok u
    → is_good (env h c) ≡ true
unfolding run
run-ok env c h e = answer_good (env h c) e
  where
    answer_good : (a : Answer) {u : Unit {0}} → unit_of a ≡ ok u → is_good a ≡ true
    answer_good (good t) e = refl
    answer_good absent e = cc
    answer_good (bad x) e = cc

-- Nor was the process ended by an error.
undone {ℓ} : {A : Type ℓ} (r : Outcome A) {a : A} → or_die r ≡ ok a → r ≡ ok a
undone (ok b) e = e
undone (err x) e = cc
undone (fatal x) e = cc
undone crash e = cc
undone unfinished e = cc

pub or_exit-ok {ℓ} :
    {A : Type ℓ} (env : Env) (m : Program A) (h : History) {a : A}
    → (or_exit m env h).0 ≡ ok a
    → (m env h).0 ≡ ok a
unfolding or_exit
or_exit-ok env m h e = undone (m env h).0 e
