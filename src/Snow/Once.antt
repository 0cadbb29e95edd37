-- ===== src/Snow/Once.antt =====
-- The bootstrap reboots the host at most once in all boots.

use eks_anywhere_build_tooli.Prelude.{
  ℕ, zero, suc, ◌≤◌, String, ◌≡◌, refl, inl, inr, Bool, true, false, ◌&&◌, ◌||◌, [], ◌∷◌, arith,
  if◌then◌else◌, ◌==◌, nat_eq, str_beq_iff, string_eq, Bool-cases,
}
use eks_anywhere_build_tooli.Prelude.System.{
  History, ◌▹◌, Env, ◌>>=◌, lift, wrapped, attempt, run, is_absent, is_good, path_exists,
  Answer-cases, Call, exec, stat, create, good,
}
use eks_anywhere_build_tooli.Prelude.System.Keeps.{KeepsCall, Keeps, keeps_rules}
use eks_anywhere_build_tooli.Bottlerocket.Host.{apiclient_binary, execute, Machine}
use eks_anywhere_build_tooli.Snow.Network.{Netlink}
use eks_anywhere_build_tooli.Snow.System.{
  rebooted_path, execute_only, reboot, partition, create_partition, make_partition, mark_and_reboot,
  reboot_instance_if_needed, bootstrap,
}
use eks_anywhere_build_tooli.Snow.Quiet.{is_reboot, is_quiet, Keeps-bootstrap}

abbrev pub creates : String → Call → Bool
creates path (create p) = p == path
creates path c = false

-- Has this file been created, with success?
unfoldable pub created : Env → String → History → Bool
created env path [] = false
created env path (c ∷ h) =
    let rest = created env path h in rest || (creates path c && is_good (env h c))

unfoldable pub reboots : History → ℕ
reboots [] = 0
reboots (c ∷ h) = let rest = reboots h in if is_reboot c then suc rest else rest

-- A file that has been created is there when it is looked for.
abbrev pub Persists : Env → String → Type 0
Persists env path =
    (h : History) → created env path h ≡ true → is_absent (env h (stat path)) ≡ false

-- The history behind `k` boots, however each of them ends.
unfoldable pub boots : Machine → Netlink → Env → ℕ → History
boots m n env zero = []
boots m n env (suc k) = (bootstrap m n env (boots m n env k)).1

-- There was no reboot before the marker, and at most one.
AtMostOne : Env → History → Type 0
AtMostOne env h = (reboots h ≤ 1) × (created env rebooted_path h ≡ false → reboots h ≡ 0)

module _ (env : Env) (path : String) where
  -- What a marker says of a history that it is looked for in.
  pub unmarked :
      Persists env path
      → (h : History) → is_absent (env h (stat path)) ≡ true
      → created env path h ≡ false
  unmarked persists h e = elim (Bool-cases (created env path h)) [
    | inl c ↦ absurd (ground (arith, persists h c))
    | inr c ↦ c
  ]

  pub stat-created :
      (h : History) → created env path h ≡ false → created env path (h ▹ stat path) ≡ false
  unfolding created
  stat-created h e = rw e

module _ (env : Env) where
  reboots-other : (c : Call) (h : History) → is_reboot c ≡ false → reboots (h ▹ c) ≡ reboots h
  unfolding reboots
  reboots-other c h q = rw q refl

  created-before :
      (c : Call) (h : History) (path : String)
      → created env path (h ▹ c) ≡ false
      → created env path h ≡ false
  unfolding created
  created-before c h path e = ground arith

  KeepsCall-AtMostOne : (c : Call) → is_reboot c ≡ false → KeepsCall (AtMostOne env) c
  unfolding AtMostOne
  KeepsCall-AtMostOne c q h p =
      rw (reboots-other c h q) (p.0, λ e. p.1 (created-before c h rebooted_path e))

  reboot-history : (h : History) → (reboot env h).1 ≡ h ▹ exec (apiclient_binary ∷ "reboot" ∷ [])
  unfolding reboot execute_only execute ◌>>=◌ wrapped attempt lift
  reboot-history h = elim (Answer-cases (env h (exec (apiclient_binary ∷ "reboot" ∷ [])))) [
    | inl (t, e) ↦ rw e refl
    | inr (inl e) ↦ rw e refl
    | inr (inr (m, e)) ↦ rw e refl
  ]

  marked :
      (h : History) (t : String)
      → env h (create rebooted_path) ≡ good t
      → created env rebooted_path (h ▹ create rebooted_path) ≡ false
      → ⊥
  unfolding created
  marked h t e = rw e (ground (arith, str_beq_iff rebooted_path rebooted_path))

  -- The one place from which a reboot is called.
  mark_and_reboot-AtMostOne :
      (h : History) → reboots h ≡ 0 → AtMostOne env (mark_and_reboot env h).1
  unfolding AtMostOne mark_and_reboot ◌>>=◌ wrapped run reboots created
  mark_and_reboot-AtMostOne h z = elim (Answer-cases (env h (create rebooted_path))) [
    | inl (t, e) ↦
        rw (e, reboot-history, z)
          (
            omega arith,
            λ q. absurd (
                marked h t e (
                  created-before (exec (apiclient_binary ∷ "reboot" ∷ []))
                    (h ▹ create rebooted_path) rebooted_path q)),
          )
    | inr (inl e) ↦ rw (e, z) (omega arith, λ _. refl)
    | inr (inr (m, e)) ↦ rw (e, z) (omega arith, λ _. refl)
  ]

  Keeps-reboot_instance_if_needed :
      Persists env rebooted_path → Keeps env (AtMostOne env) reboot_instance_if_needed
  unfolding AtMostOne reboot_instance_if_needed ◌>>=◌ path_exists lift reboots
  Keeps-reboot_instance_if_needed persists = record {
    at = λ h p. elim (Bool-cases (is_absent (env h (stat rebooted_path)))) [
      | inl e ↦ rw e (
          mark_and_reboot-AtMostOne (h ▹ stat rebooted_path)
            (p.1 (unmarked env rebooted_path persists h e)))
      | inr e ↦ rw e (KeepsCall-AtMostOne (stat rebooted_path) refl h p)
    ];
  }

quiet-reboot : (c : Call) → is_quiet c ≡ true → is_reboot c ≡ false
quiet-reboot c q = ground arith

Keeps-create_partition :
    (env : Env) (P : History → Type 0)
    → ((c : Call) → is_reboot c ≡ false → KeepsCall P c)
    → Keeps env P create_partition
unfolding create_partition make_partition partition execute_only execute
Keeps-create_partition env P keeps = search (keeps_rules, keeps) depth 20

-- Where a file that has been created stays, the host is rebooted at most once, over any number of
-- boots and however each of them ends.
pub reboots-boots :
    (m : Machine) (n : Netlink) (env : Env) (k : ℕ)
    → Persists env rebooted_path
    → reboots (boots m n env k) ≤ 1
unfolding boots AtMostOne reboots
reboots-boots m n env k persists = (kept k).0
  where
    kept : (k : ℕ) → AtMostOne env (boots m n env k)
    kept zero = (omega arith, λ _. refl)
    kept (suc k) =
        (Keeps-bootstrap (λ c q. KeepsCall-AtMostOne env c (quiet-reboot c q)) m n
            (Keeps-create_partition env (AtMostOne env) (KeepsCall-AtMostOne env))
            (Keeps-reboot_instance_if_needed env persists)).at
          (boots m n env k) (kept k)
