-- ===== src/Prelude/Outcome.antt =====
-- How a call of a Go function ends: it returns a value, or an error; or the process ends, by
-- `log.Fatal` or `os.Exit(1)`, or by a panic. `unfinished` is no end of the code's: the bound on the
-- rounds of a loop was reached.
use Prim.Native.String.{String, ◌++◌}
use mathlib.Core.Path.{◌≡◌, refl}
use mathlib.Core.Bool.{Bool, true, false}
use mathlib.Core.Option.{Option, none, some}

pub data Outcome {ℓ} (A : Type ℓ) : Type ℓ where
  ok : A → Outcome A
  err : String → Outcome A
  fatal : String → Outcome A
  crash : Outcome A
  unfinished : Outcome A

infixl 5 ◌>>=◌ ◌>>◌
abbrev pub ◌>>=◌ {ℓ κ} : {A : Type ℓ} {B : Type κ} → Outcome A → (A → Outcome B) → Outcome B
ok a >>= f = f a
err e >>= f = err e
fatal e >>= f = fatal e
crash >>= f = crash
unfinished >>= f = unfinished

-- `if bad { return error }`
abbrev pub fail_if : Bool → String → Outcome (Unit {0})
fail_if true e = err e
fail_if false e = ok tt

-- `if bad { log.Fatal(error) }`
abbrev pub die_if : Bool → String → Outcome (Unit {0})
die_if true e = fatal e
die_if false e = ok tt

abbrev pub ◌>>◌ {ℓ} : {B : Type ℓ} → Outcome (Unit {0}) → Outcome B → Outcome B
first >> second = first >>= λ _. second

-- `errors.Wrap(err, message)` of an error that is returned
abbrev pub wrap {ℓ} : {A : Type ℓ} → String → Outcome A → Outcome A
wrap message (ok a) = ok a
wrap message (err e) = err (message ++ ": " ++ e)
wrap message (fatal e) = fatal e
wrap message crash = crash
wrap message unfinished = unfinished

-- `errors.Wrap` of a variable of Go's type `error`, which wraps nothing where it is nil
abbrev pub errors_wrap : String → Option String → Option String
errors_wrap message none = none
errors_wrap message (some e) = some (message ++ ": " ++ e)

-- `return a, err`: the caller looks at the error first.
abbrev pub returned {ℓ} : {A : Type ℓ} → A → Option String → Outcome A
returned a none = ok a
returned a (some e) = err e

-- `if err != nil { log.Fatal(err) }`
abbrev pub or_die {ℓ} : {A : Type ℓ} → Outcome A → Outcome A
or_die (ok a) = ok a
or_die (err e) = fatal e
or_die (fatal e) = fatal e
or_die crash = crash
or_die unfinished = unfinished

pub ok-injective {ℓ} : {A : Type ℓ} {a b : A} → ok a ≡ ok b → a ≡ b
ok-injective h = cc

-- To go on behind the first step of a successful sequence.
pub >>=-elim {ℓ κ μ} :
    {A : Type ℓ} {B : Type κ} {P : Type μ} (m : Outcome A) (f : A → Outcome B) {b : B}
    → (m >>= f) ≡ ok b
    → ((a : A) → m ≡ ok a → f a ≡ ok b → P)
    → P
>>=-elim (ok a) f h k = k a refl h
>>=-elim (err e) f h k = cc
>>=-elim (fatal e) f h k = cc
>>=-elim crash f h k = cc
>>=-elim unfinished f h k = cc
