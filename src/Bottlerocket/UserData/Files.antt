-- ===== src/Bottlerocket/UserData/Files.antt =====
-- The files of the user data, where no call of the machine fails.
use Prim.Native.Char.{Char, code}
use eks_anywhere_build_tooli.Prelude.Text.{push_char, split}
use text.Mathlib.TextLemmas.{cons-append, nil-append}
use eks_anywhere_build_tooli.Prelude.{
  arith, ap, ◌∙◌, ◌⊎◌, ◌≢◌, ◌<>◌, ◌==◌, string_eq, nat_eq, str_beq_iff, Bool-cases, inl, inr,
  String, ◌≡◌, refl, none, some, List, [], ◌∷◌, ◌++◌,
}
use eks_anywhere_build_tooli.Prelude.Int.{ℤ, pos}
use eks_anywhere_build_tooli.Prelude.Number.{parse_octal, to_file_mode}
use eks_anywhere_build_tooli.Prelude.System.{
  History, ◌▹◌, Env, ◌>>=◌, lift, wrapped, attempt, run, Call, write_file, mkdir_all, lookup_user,
  chown, good,
}
use eks_anywhere_build_tooli.Prelude.Outcome.{ok, err}
use eks_anywhere_build_tooli.Bottlerocket.UserData.{
  first_word, permissions_of, owner_of, write, write_user_data_file, write_files_from,
  write_user_data_files, WriteFile, UserData, Codec, false,
}

abbrev pub GoodReply : Type 0
GoodReply = History → Call → String

abbrev pub good_env : GoodReply → Env
good_env reply h c = good (reply h c)

-- The mode that the permissions of a file stand for: an octal number, 640 where there are none
abbrev pub Mode : WriteFile → ℤ → Type 0
Mode file n =
    ((file.permissions ≡ "") × (n ≡ pos 416))
    ⊎ ((file.permissions ≢ "") × (parse_octal file.permissions ≡ some n))

-- A text without a colon
abbrev pub NoColon : String → Type 0
NoColon String.[] = Unit {0}
NoColon (String.◌∷◌ c s) = (code c ≢ 58) × NoColon s

-- The user of an owner, which has a group behind a colon or none
abbrev pub User : WriteFile → String → Type 0
User file name =
    NoColon name × ((file.owner ≡ name) ⊎ ((group : String) × (file.owner ≡ name <> ":" <> group)))

-- The modes and the users of the files, in order
abbrev pub Asked : List WriteFile → List (ℤ × String) → Type 0
Asked [] [] = Unit {0}
Asked [] (a ∷ asked) = ⊥
Asked (file ∷ files) [] = ⊥
Asked (file ∷ files) ((n, name) ∷ asked) = Mode file n × User file name × Asked files asked

permissions_of-Mode :
    (file : WriteFile) (n : ℤ) → Mode file n → parse_octal (permissions_of file) ≡ some n
unfolding permissions_of parse_octal
permissions_of-Mode file n (inl (e, f)) = rw (e, f) refl
permissions_of-Mode file n (inr (d, f)) = elim (Bool-cases (file.permissions == "")) [
  | inl e ↦ absurd (d ((str_beq_iff file.permissions "").0 e))
  | inr e ↦ rw e f
]

first_word-push_char :
    (c : Char) (ws : List String) → first_word (push_char c ws) ≡ String.◌∷◌ c (first_word ws)
unfolding push_char
first_word-push_char c [] = refl
first_word-push_char c (w ∷ ws) = refl

no_colon : (c : Char) → code c ≢ 58 → (code c == 58) ≡ false
no_colon c d = ground arith

colon_first : (group : String) → ":" <> group ≡ String.◌∷◌ ":" group
colon_first group = cons-append ":" "" group ∙ ap (String.◌∷◌ ":") (nil-append group)

first_word-alone : (name : String) → NoColon name → first_word (split name ":") ≡ name
unfolding split
first_word-alone String.[] p = refl
first_word-alone (String.◌∷◌ c s) p =
    rw (no_colon c p.0)
      (first_word-push_char c (split s ":") ∙ ap (String.◌∷◌ c) (first_word-alone s p.1))

first_word-behind :
    (name group : String) → NoColon name → first_word (split (name <> ":" <> group) ":") ≡ name
unfolding split
first_word-behind String.[] group p = rw (nil-append (":" <> group), colon_first group) refl
first_word-behind (String.◌∷◌ c s) group p =
    rw (cons-append c s (":" <> group), no_colon c p.0)
      (first_word-push_char c (split (s <> ":" <> group) ":")
        ∙ ap (String.◌∷◌ c) (first_word-behind s group p.1))

owner_of-User : (file : WriteFile) (name : String) → User file name → owner_of file ≡ name
unfolding owner_of
owner_of-User file name (p, inl e) = rw e (first_word-alone name p)
owner_of-User file name (p, inr (group, e)) = rw e (first_word-behind name group p)

-- The error for permissions that are no octal number
abbrev pub bad_permissions : Codec → WriteFile → String
bad_permissions c file =
    "Error converting string to int for permissions" <> ": " <> c.octal_error file.permissions

module _ (c : Codec) (reply : GoodReply) where
  -- A file is written into its directory, and then its owner is looked up and set.
  abbrev pub after_file : History → WriteFile → ℤ → String → History
  after_file h file n name =
      let written =
        h
        ▹ mkdir_all (c.dir file.path) 0o640
        ▹ write_file file.path file.content (to_file_mode n) in
      written ▹ lookup_user name ▹ chown file.path (reply written (lookup_user name))

  abbrev pub after_files : History → List WriteFile → List (ℤ × String) → History
  after_files h [] asked = h
  after_files h (file ∷ files) [] = h
  after_files h (file ∷ files) ((n, name) ∷ asked) =
      after_files (after_file h file n name) files asked

  write_file_ok :
      (h : History) (file : WriteFile) (n : ℤ) (name : String)
      → Mode file n
      → User file name
      → write_user_data_file c file (good_env reply) h ≡ (ok tt, after_file h file n name)
  unfolding write_user_data_file write ◌>>=◌ wrapped attempt run lift
  write_file_ok h file n name m u =
      rw (permissions_of-Mode file n m, owner_of-User file name u) refl

  bad_permission :
      (h : History) (file : WriteFile)
      → file.permissions ≢ ""
      → parse_octal file.permissions ≡ none
      → write_user_data_file c file (good_env reply) h ≡ (err (bad_permissions c file), h)
  unfolding write_user_data_file permissions_of ◌>>=◌ lift wrapped
  bad_permission h file d e = elim (Bool-cases (file.permissions == "")) [
    | inl f ↦ absurd (d ((str_beq_iff file.permissions "").0 f))
    | inr f ↦ rw (f, e) refl
  ]

  files_ok :
      (files : List WriteFile) (h : History) (asked : List (ℤ × String))
      → Asked files asked
      → write_files_from c files (good_env reply) h ≡ (ok tt, after_files h files asked)
  unfolding write_files_from ◌>>=◌ lift
  files_ok [] h asked p = refl
  files_ok (file ∷ files) h [] p = absurd p
  files_ok (file ∷ files) h ((n, name) ∷ asked) (m, u, p) =
      rw (write_file_ok h file n name m u, files_ok files (after_file h file n name) asked p) refl

  files_stop :
      (h : History) (before : List WriteFile) (asked : List (ℤ × String)) (file : WriteFile)
      (after : List WriteFile)
      → Asked before asked
      → file.permissions ≢ ""
      → parse_octal file.permissions ≡ none
      → write_files_from c (before ++ (file ∷ after)) (good_env reply) h
        ≡ (err (bad_permissions c file), after_files h before asked)
  unfolding write_files_from ◌>>=◌
  files_stop h [] asked file after p d e = rw (bad_permission h file d e) refl
  files_stop h (f ∷ before) [] file after p d e = absurd p
  files_stop h (f ∷ before) ((n, name) ∷ asked) file after (m, u, p) d e =
      rw
        (
          write_file_ok h f n name m u,
          files_stop (after_file h f n name) before asked file after p d e,
        )
        refl

  -- If no call fails and the permissions of each file are an octal number or left out, the files are
  -- written one behind the other, each with its content and the mode of its permissions (octal 640
  -- where they are left out), and given to the user that its owner names before a colon; nothing else
  -- is done.
  pub write_user_data_files_ok :
      (h : History) (u : UserData) (asked : List (ℤ × String))
      → Asked u.write_files asked
      → write_user_data_files c u (good_env reply) h ≡ (ok tt, after_files h u.write_files asked)
  unfolding write_user_data_files
  write_user_data_files_ok h u asked p = files_ok u.write_files h asked p

  -- If no call fails, permissions that are no octal number end the writing with an error, which has
  -- the text of `ParseInt`'s: the files before are written, that file and those behind it are not
  -- touched.
  pub write_user_data_files_stops :
      (h : History) (u : UserData) (asked : List (ℤ × String)) (before : List WriteFile)
      (file : WriteFile) (after : List WriteFile)
      → u.write_files ≡ before ++ (file ∷ after)
      → Asked before asked
      → file.permissions ≢ ""
      → parse_octal file.permissions ≡ none
      → write_user_data_files c u (good_env reply) h
        ≡ (err (bad_permissions c file), after_files h before asked)
  unfolding write_user_data_files
  write_user_data_files_stops h u asked before file after s p d e =
      rw s (files_stop h before asked file after p d e)
