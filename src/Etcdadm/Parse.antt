-- ===== src/Etcdadm/Parse.antt =====
-- The command line of a bootstrap command.
use eks_anywhere_build_tooli.Prelude.{
  String, ◌≡◌, refl, ◌≢◌, ◌↔◌, inl, inr, List, [], ◌∷◌, ◌==◌, nat_eq, str_beq_iff, string_eq,
  Bool-cases, fields,
}
use eks_anywhere_build_tooli.Prelude.Outcome.{ok-injective, ok, err}
use eks_anywhere_build_tooli.Etcdadm.{
  init_cmd, join_cmd, parse_init, parse_join, parse_words, parse_cmd, Command, init_command,
  join_command,
}

-- The words of a command, its own first.
abbrev pub words_of : Command → List String
words_of (init_command repository version cipher_suites) =
    init_cmd ∷ repository ∷ version ∷ cipher_suites ∷ []
words_of (join_command repository version cipher_suites endpoint) =
    join_cmd ∷ repository ∷ version ∷ cipher_suites ∷ endpoint ∷ []

parse_init-words :
    (cmd : String) (words : List String) (c : Command)
    → parse_init cmd words ≡ ok c
    → init_cmd ∷ words ≡ words_of c
parse_init-words cmd [] c e = cc
parse_init-words cmd (a ∷ []) c e = cc
parse_init-words cmd (a ∷ b ∷ []) c e = cc
parse_init-words cmd (a ∷ b ∷ d ∷ []) c e = rw⁻¹ (ok-injective e) refl
parse_init-words cmd (a ∷ b ∷ d ∷ f ∷ ws) c e = cc

parse_join-words :
    (cmd : String) (words : List String) (c : Command)
    → parse_join cmd words ≡ ok c
    → join_cmd ∷ words ≡ words_of c
parse_join-words cmd [] c e = cc
parse_join-words cmd (a ∷ []) c e = cc
parse_join-words cmd (a ∷ b ∷ []) c e = cc
parse_join-words cmd (a ∷ b ∷ d ∷ []) c e = cc
parse_join-words cmd (a ∷ b ∷ d ∷ f ∷ []) c e = rw⁻¹ (ok-injective e) refl
parse_join-words cmd (a ∷ b ∷ d ∷ f ∷ g ∷ ws) c e = cc

not_command : {message : String} {c : Command} → err message ≢ ok c
not_command = cc

parse_words-words :
    (cmd : String) (words : List String) (c : Command)
    → parse_words cmd words ≡ ok c
    → words ≡ words_of c
parse_words-words cmd [] c e = cc
parse_words-words cmd (word ∷ words) c e = elim (Bool-cases (word == init_cmd)) [
  | inl p ↦ rw ((str_beq_iff word init_cmd).0 p) (parse_init-words cmd words c (rw p at e))
  | inr p ↦ elim (Bool-cases (word == join_cmd)) [
    | inl q ↦ rw ((str_beq_iff word join_cmd).0 q) (parse_join-words cmd words c (rw (p, q) at e))
    | inr q ↦ absurd (not_command (rw (p, q) at e))
  ]
]

parse_words-words_of : (cmd : String) (c : Command) → parse_words cmd (words_of c) ≡ ok c
parse_words-words_of cmd (init_command r v s) = refl
parse_words-words_of cmd (join_command r v s e) = refl

-- A text is the command `c` just when its words are those of `c`: the name of `c` and its arguments,
-- in order, with none missing and none more.
pub parse_cmd_iff : (s : String) (c : Command) → (parse_cmd s ≡ ok c) ↔ (fields s ≡ words_of c)
unfolding parse_cmd
parse_cmd_iff s c = (parse_words-words s (fields s) c, λ e. rw e (parse_words-words_of s c))
