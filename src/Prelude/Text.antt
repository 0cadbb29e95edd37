-- ===== src/Prelude/Text.antt =====
-- The functions of Go's package `strings` that the program calls, for the arguments that it calls
-- them with: separators are one character, the text that is replaced is not empty. Letters and
-- white space are those of ASCII.
use Prim.Native.Nat.{ℕ, zero, suc, pred, compare, Ordering, ◌-◌}
use Prim.Native.Char.{Char, code}
use Prim.Native.String.{String, count, char_at, ◌++◌}
use mathlib.Core.Bool.{Bool, true, false, ◌&&◌, ◌||◌}
use mathlib.Core.Option.{Option, none, some}
use mathlib.Core.List.{List, [], ◌∷◌}
use eks_anywhere_build_tooli.Prelude.Equality.{◌==◌, nat_eq, ltb, if◌then◌else◌}

-- What is left of the second text behind the first.
unfoldable pub strip_prefix : String → String → Option String
strip_prefix String.[] s = some s
strip_prefix (String.◌∷◌ c p) String.[] = none
strip_prefix (String.◌∷◌ c p) (String.◌∷◌ d s) = if code c == code d then strip_prefix p s else none

-- `strings.HasPrefix(s, prefix)`
unfoldable pub has_prefix : String → String → Bool
unfolding strip_prefix
has_prefix s prefix = elim (strip_prefix prefix s) [ none ↦ false | some _ ↦ true ]

-- `strings.TrimPrefix(s, prefix)`
unfoldable pub trim_prefix : String → String → String
unfolding strip_prefix
trim_prefix s prefix = elim (strip_prefix prefix s) [ none ↦ s | some rest ↦ rest ]

-- `strings.Contains(s, part)`
unfoldable pub contains : String → String → Bool
unfolding has_prefix
contains String.[] part = has_prefix String.[] part
contains (String.◌∷◌ c s) part = has_prefix (String.◌∷◌ c s) part || contains s part

-- `strings.TrimSuffix(s, suffix)`
unfoldable pub trim_suffix : String → String → String
trim_suffix String.[] suffix = String.[]
trim_suffix (String.◌∷◌ c s) suffix =
    let rest = String.◌∷◌ c (trim_suffix s suffix) in
    elim (compare (count suffix) (suc (count s))) [
      | Ordering.eq ↦ elim (strip_prefix suffix (String.◌∷◌ c s)) [
        | some _ ↦ String.[]
        | none ↦ rest
      ]
      | _ ↦ rest
    ]

-- `strings.ReplaceAll(s, old, new)`; the first argument counts the characters of a match that are
-- still to be passed over.
replace_from : ℕ → String → String → String → String
replace_from skip String.[] old new = String.[]
replace_from (suc skip) (String.◌∷◌ c s) old new = replace_from skip s old new
replace_from zero (String.◌∷◌ c s) old new = elim (strip_prefix old (String.◌∷◌ c s)) [
  | some _ ↦ new ++ replace_from (pred (count old)) s old new
  | none ↦ String.◌∷◌ c (replace_from zero s old new)
]

unfoldable pub replace_all : String → String → String → String
unfolding replace_from strip_prefix
replace_all s old new = replace_from zero s old new

unfoldable pub push_char : Char → List String → List String
push_char c [] = String.◌∷◌ c String.[] ∷ []
push_char c (w ∷ ws) = String.◌∷◌ c w ∷ ws

-- `strings.Split(s, sep)` at a separator of one character
unfoldable pub split : String → Char → List String
unfolding push_char
split String.[] sep = String.[] ∷ []
split (String.◌∷◌ c s) sep =
    let rest = split s sep in if code c == code sep then String.[] ∷ rest else push_char c rest

abbrev is_space : Char → Bool
is_space c =
    code c == 32 || code c == 9 || code c == 10 || code c == 11 || code c == 12 || code c == 13

-- The words of a text; the flag says whether the word before is still open.
words : String → List String × Bool
words String.[] = ([], false)
words (String.◌∷◌ c s) =
    let (ws, open_word) = words s in
    if is_space c
    then (ws, false)
    else (if open_word then push_char c ws else String.◌∷◌ c String.[] ∷ ws, true)

-- `strings.Fields(s)`
unfoldable pub fields : String → List String
unfolding words push_char
fields s = (words s).0

abbrev is_upper : Char → Bool
is_upper c = ltb 64 (code c) && ltb (code c) 91

lower_char : Char → Char
lower_char c = if is_upper c then char_at "abcdefghijklmnopqrstuvwxyz" (code c - 65) else c

-- `strings.ToLower(s)`
unfoldable pub to_lower : String → String
unfolding lower_char
to_lower String.[] = String.[]
to_lower (String.◌∷◌ c s) = String.◌∷◌ (lower_char c) (to_lower s)

abbrev is_lower : Char → Bool
is_lower c = ltb 96 (code c) && ltb (code c) 123

upper_char : Char → Char
upper_char c = if is_lower c then char_at "ABCDEFGHIJKLMNOPQRSTUVWXYZ" (code c - 97) else c

-- `strings.ToUpper(s)`
unfoldable pub to_upper : String → String
unfolding upper_char
to_upper String.[] = String.[]
to_upper (String.◌∷◌ c s) = String.◌∷◌ (upper_char c) (to_upper s)

-- `strings.TrimRight(s, "\n")`
unfoldable pub trim_newlines : String → String
trim_newlines String.[] = String.[]
trim_newlines (String.◌∷◌ c s) =
    let rest = trim_newlines s in
    elim rest [
      | String.[] ↦ if code c == 10 then String.[] else String.◌∷◌ c String.[]
      | String.◌∷◌ d t ↦ String.◌∷◌ c (String.◌∷◌ d t)
    ]

trim_space_right : String → String
trim_space_right String.[] = String.[]
trim_space_right (String.◌∷◌ c s) =
    let rest = trim_space_right s in
    elim rest [
      | String.[] ↦ if is_space c then String.[] else String.◌∷◌ c String.[]
      | String.◌∷◌ d t ↦ String.◌∷◌ c (String.◌∷◌ d t)
    ]

-- `strings.TrimSpace(s)`
unfoldable pub trim_space : String → String
unfolding trim_space_right
trim_space String.[] = String.[]
trim_space (String.◌∷◌ c s) =
    let rest = trim_space s in if is_space c then rest else trim_space_right (String.◌∷◌ c s)

-- `strings.Trim(s, "'")`
trim_quotes_right : String → String
trim_quotes_right String.[] = String.[]
trim_quotes_right (String.◌∷◌ c s) =
    let rest = trim_quotes_right s in
    elim rest [
      | String.[] ↦ if code c == 39 then String.[] else String.◌∷◌ c String.[]
      | String.◌∷◌ d t ↦ String.◌∷◌ c (String.◌∷◌ d t)
    ]

unfoldable pub trim_quotes : String → String
unfolding trim_quotes_right
trim_quotes String.[] = String.[]
trim_quotes (String.◌∷◌ c s) =
    let rest = trim_quotes s in if code c == 39 then rest else trim_quotes_right (String.◌∷◌ c s)

-- `strings.Join(items, sep)`
unfoldable pub join : List String → String → String
join [] sep = String.[]
join (w ∷ []) sep = w
join (w ∷ v ∷ ws) sep = w ++ sep ++ join (v ∷ ws) sep

-- `strings.Repeat(s, n)`
unfoldable pub repeat : String → ℕ → String
repeat s zero = String.[]
repeat s (suc n) = s ++ repeat s n

-- `filepath.Join` of a clean path and a clean relative one, neither of them empty
infixr 20 ◌⟨/⟩◌
abbrev pub ◌⟨/⟩◌ : String → String → String
dir ⟨/⟩ name = dir ++ "/" ++ name
