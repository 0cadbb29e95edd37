-- ===== src/Prelude/System.antt =====
-- Programs that call the operating system. What the machine answers to a call is a function of the
-- calls made before it, so every behaviour of the outside world is some environment.
pub mod Keeps
pub mod Steps
pub mod After
use Prim.Native.Nat.{ℕ}
use Prim.Native.String.{String}
use mathlib.Core.Path.{◌≡◌, refl}
use mathlib.Core.Logic.{◌⊎◌, inl, inr}
use mathlib.Core.Bool.{Bool, true, false, not}
use mathlib.Core.List.{List, [], ◌∷◌}
use eks_anywhere_build_tooli.Prelude.Outcome.{
  Outcome, ok, err, fatal, crash, unfinished, wrap, or_die,
}

-- Calls of GitHub's API: the owner and the name of the repository come first.
pub data GithubCall : Type 0 where
  list_releases : String → String → ℕ → GithubCall
  list_tags : String → String → ℕ → GithubCall
  list_commits : String → String → ℕ → GithubCall
  get_commit : String → String → String → GithubCall
  get_contents : String → String → String → String → GithubCall
  get_release_by_tag : String → String → String → GithubCall
  -- with the head and the base; a title, or a number, and a body
  list_pulls : String → String → String → String → GithubCall
  create_pull : String → String → String → String → String → String → GithubCall
  edit_pull : String → String → ℕ → String → GithubCall
  list_comments : String → String → ℕ → GithubCall
  create_comment : String → String → ℕ → String → GithubCall

-- Calls of the package `go-git` on a local repository.
pub data GitCall : Type 0 where
  plain_clone : String → String → GitCall
  plain_open : String → GitCall
  resolve_revision : String → GitCall
  create_remote : String → String → GitCall
  open_worktree : GitCall
  hard_reset : String → GitCall
  checkout_branch : String → GitCall
  add_path : String → GitCall
  commit_index : String → String → String → GitCall
  push_refs : String → String → GitCall

pub data Call : Type 0 where
  -- `exec.Command(...)` with `Run`, `Output` or `CombinedOutput`; with `Start`; and its `Kill`
  exec : List String → Call
  -- with additional variables of the environment
  exec_env : List String → List String → Call
  start : List String → Call
  kill : List String → Call
  -- package `os`, `ioutil` and `filepath`
  hostname : Call
  getwd : Call
  getenv : String → Call
  stat : String → Call
  read_file : String → Call
  write_file : String → String → ℕ → Call
  create : String → Call
  mkdir_all : String → ℕ → Call
  remove_all : String → Call
  remove_file : String → Call
  -- `os.File.Chmod`
  chmod : String → ℕ → Call
  rename : String → String → Call
  glob : String → Call
  read_dir : String → Call
  lookup_user : String → Call
  chown : String → String → Call
  -- package `net/http`, and time in seconds
  http_get : String → Call
  sleep : ℕ → Call
  -- the channel of a `time.After` of so many seconds, which answers when it is ready
  timer : ℕ → Call
  -- AWS Secrets Manager
  get_secret : String → Call
  delete_secret : String → Call
  -- the connection to systemd, and the next event of a subscription with a timeout in seconds
  connect_systemd : Call
  unit_event : ℕ → Call
  -- package `netlink`
  link_list : Call
  route_list : Call
  -- `os.LookupEnv`, `os.Open`, `io.Copy` to a file, GitHub and `go-git`
  lookup_env : String → Call
  open_file : String → Call
  copy_to : String → Call
  github : GithubCall → Call
  git : GitCall → Call

-- What a call gives back: its text (empty where there is none), the error of a file that does not
-- exist, or another error.
pub data Answer : Type 0 where
  good : String → Answer
  absent : Answer
  bad : String → Answer

-- The calls that have been made, the last one first; `h ▹ c` is `h` with one more.
abbrev pub History : Type 0
History = List Call

infixl 6 ◌▹◌
abbrev pub ◌▹◌ : History → Call → History
h ▹ c = c ∷ h

abbrev pub Env : Type 0
Env = History → Call → Answer

abbrev pub Program {ℓ} : Type ℓ → Type ℓ
Program A = Env → History → Outcome A × History

-- An outcome and the history at which it came about.
abbrev continue {ℓ κ} :
    {A : Type ℓ} {B : Type κ} → Outcome A → History → (A → Program B) → Env → Outcome B × History
continue (ok a) h f env = f a env h
continue (err e) h f env = (err e, h)
continue (fatal e) h f env = (fatal e, h)
continue crash h f env = (crash, h)
continue unfinished h f env = (unfinished, h)

infixl 5 ◌>>=◌ ◌>>◌
unfoldable pub ◌>>=◌ {ℓ κ} : {A : Type ℓ} {B : Type κ} → Program A → (A → Program B) → Program B
◌>>=◌ m f env h = let (r, h') = m env h in continue r h' f env

abbrev pub ◌>>◌ {ℓ} : {B : Type ℓ} → Program (Unit {0}) → Program B → Program B
m >> n = m >>= λ _. n

module _ {ℓ} {A : Type ℓ} where
  unfoldable pub lift : Outcome A → Program A
  lift o env h = (o, h)

  abbrev settle : Outcome A → History → Outcome (Outcome A) × History
  settle (ok a) h = (ok (ok a), h)
  settle (err e) h = (ok (err e), h)
  settle (fatal e) h = (fatal e, h)
  settle crash h = (crash, h)
  settle unfinished h = (unfinished, h)

  -- An error is handed on as a value.
  unfoldable pub try : Program A → Program (Outcome A)
  try m env h = let (r, h') = m env h in settle r h'

  -- `errors.Wrap(err, message)` and `fmt.Errorf("message: %v", err)`, where the error is returned
  unfoldable pub wrapped : String → Program A → Program A
  wrapped message m env h = let (r, h') = m env h in (wrap message r, h')

  -- `if err != nil { os.Exit(1) }`
  unfoldable pub or_exit : Program A → Program A
  or_exit m env h = let (r, h') = m env h in (or_die r, h')

abbrev pub outcome_of : Answer → Outcome String
outcome_of (good text) = ok text
outcome_of absent = err "no such file or directory"
outcome_of (bad e) = err e

-- A call whose text is used, one whose text is not, and one whose error is dropped.
unfoldable pub attempt : Call → Program String
attempt c env h = (outcome_of (env h c), h ▹ c)

abbrev pub unit_of : Answer → Outcome (Unit {0})
unit_of (good text) = ok tt
unit_of absent = err "no such file or directory"
unit_of (bad e) = err e

unfoldable pub run : Call → Program (Unit {0})
run c env h = (unit_of (env h c), h ▹ c)

unfoldable pub ignore : Call → Program (Unit {0})
ignore c env h = (ok tt, h ▹ c)

abbrev pub is_absent : Answer → Bool
is_absent (good text) = false
is_absent absent = true
is_absent (bad e) = false

abbrev pub is_good : Answer → Bool
is_good (good text) = true
is_good absent = false
is_good (bad e) = false

-- `_, err := os.Stat(path); !os.IsNotExist(err)`
unfoldable pub path_exists : String → Program Bool
path_exists path env h = (ok (not (is_absent (env h (stat path)))), h ▹ stat path)

-- `_, err := os.Stat(path); err == nil`
unfoldable pub stat_succeeds : String → Program Bool
stat_succeeds path env h = (ok (is_good (env h (stat path))), h ▹ stat path)

-- `select` with the channel of a timer and a default
unfoldable pub timer_fired : ℕ → Program Bool
timer_fired seconds env h = (ok (is_good (env h (timer seconds))), h ▹ timer seconds)

-- The answer to a call, as it is.
unfoldable pub answered : Call → Program Answer
answered c env h = (ok (env h c), h ▹ c)

-- `for _, x := range xs`, left at the first error
unfoldable pub for_each {ℓ} : {A : Type ℓ} → (A → Program (Unit {0})) → List A → Program (Unit {0})
for_each f [] = lift (ok tt)
for_each f (a ∷ xs) = f a >>= λ _. for_each f xs

-- To split on an answer and keep the equation.
pub Answer-cases :
    (a : Answer)
    → ((text : String) × (a ≡ good text)) ⊎ ((a ≡ absent) ⊎ ((e : String) × (a ≡ bad e)))
Answer-cases (good text) = inl (text, refl)
Answer-cases absent = inr (inl refl)
Answer-cases (bad e) = inr (inr (e, refl))
