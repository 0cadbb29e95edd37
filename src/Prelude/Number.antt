-- ===== src/Prelude/Number.antt =====
-- Numbers as text: `%d`, and `strconv.ParseInt(s, 8, 64)`.
use Prim.Native.Nat.{ℕ, zero, suc, ◌+◌, ◌-◌, ◌*◌, ◌/◌, ◌%◌, ◌^◌}
use Prim.Native.Char.{code}
use Prim.Native.String.{String, char_at, ◌++◌}
use mathlib.Core.Path.{◌≡◌, refl}
use mathlib.Core.Bool.{◌&&◌}
use mathlib.Core.Option.{Option, none, some}
use eks_anywhere_build_tooli.Prelude.Equality.{◌==◌, nat_eq, ltb, if◌then◌else◌}
use eks_anywhere_build_tooli.Prelude.Int.{ℤ, pos, negsuc}

digit : ℕ → String
digit n = String.◌∷◌ (char_at "0123456789" n) String.[]

-- The fuel bounds the number of digits.
digits : ℕ → ℕ → String
unfolding digit
digits zero n = digit (n % 10)
digits (suc f) n =
    let rest = digits f (n / 10) in if ltb n 10 then digit n else rest ++ digit (n % 10)

-- `%d` of a number that is not negative
unfoldable pub decimal : ℕ → String
unfolding digits
decimal n = digits n n

-- The digits of a number in base 8; `none` at any other character and at no digit at all.
octal_from : ℕ → String → Option ℕ
octal_from acc String.[] = some acc
octal_from acc (String.◌∷◌ c s) =
    let rest = octal_from (acc * 8 + (code c - 48)) s in
    if ltb 47 (code c) && ltb (code c) 56 then rest else none

octal : String → Option ℕ
unfolding octal_from
octal String.[] = none
octal (String.◌∷◌ c s) = octal_from 0 (String.◌∷◌ c s)

abbrev negated : ℕ → ℤ
negated zero = pos 0
negated (suc n) = negsuc n

-- A value out of the range of 64 bits is an error too.
positive_part : Option ℕ → Option ℤ
positive_part none = none
positive_part (some n) = if ltb n (2 ^ 63) then some (pos n) else none

negative_part : Option ℕ → Option ℤ
negative_part none = none
negative_part (some n) = if ltb (2 ^ 63) n then none else some (negated n)

-- `strconv.ParseInt(s, 8, 64)`
unfoldable pub parse_octal : String → Option ℤ
unfolding octal positive_part negative_part
parse_octal String.[] = none
parse_octal (String.◌∷◌ c s) =
    if code c == 43
    then positive_part (octal s)
    else if code c == 45
    then negative_part (octal s)
    else positive_part (octal (String.◌∷◌ c s))

-- The digits of a number in base 10; `none` at any other character and at no digit at all.
decimal_from : ℕ → String → Option ℕ
decimal_from acc String.[] = some acc
decimal_from acc (String.◌∷◌ c s) =
    let rest = decimal_from (acc * 10 + (code c - 48)) s in
    if ltb 47 (code c) && ltb (code c) 58 then rest else none

whole_number : String → Option ℕ
unfolding decimal_from
whole_number String.[] = none
whole_number (String.◌∷◌ c s) = decimal_from 0 (String.◌∷◌ c s)

-- `strconv.Atoi(s)`, with a sign or without one
unfoldable pub atoi : String → Option ℤ
unfolding whole_number positive_part negative_part
atoi String.[] = none
atoi (String.◌∷◌ c s) =
    if code c == 43
    then positive_part (whole_number s)
    else if code c == 45
    then negative_part (whole_number s)
    else positive_part (whole_number (String.◌∷◌ c s))

-- The conversion of an `int64` to `fs.FileMode`, an unsigned number of 32 bits
unfoldable pub to_file_mode : ℤ → ℕ
to_file_mode (pos n) = n % 2 ^ 32
to_file_mode (negsuc n) = (2 ^ 32 - 1) - n % 2 ^ 32

rw_r : parse_octal "0640" ≡ some (pos 416)
unfolding parse_octal
rw_r = refl

twelve : decimal 1205 ≡ "1205"
unfolding decimal
twelve = refl
