-- ===== src/Snow/Format.antt =====
-- The bootstrap does not format a volume that is marked.
use eks_anywhere_build_tooli.Prelude.{
  ℕ, zero, suc, String, ◌≡◌, refl, inl, inr, true, false, ◌&&◌, List, [], ◌∷◌, arith, if◌then◌else◌,
  Bool-cases,
}
use eks_anywhere_build_tooli.Prelude.System.{
  History, ◌▹◌, Env, ◌>>=◌, lift, wrapped, attempt, run, is_absent, path_exists, Answer-cases, Call,
  exec, stat, create,
}
use eks_anywhere_build_tooli.Prelude.System.Keeps.{KeepsCall, Keeps, keeps_rules}
use eks_anywhere_build_tooli.Bottlerocket.Host.{execute, Machine}
use eks_anywhere_build_tooli.Snow.Network.{Netlink}
use eks_anywhere_build_tooli.Snow.System.{
  partition_created_path, device, execute_only, reboot, partition, make_partition, create_partition,
  mark_and_reboot, reboot_instance_if_needed,
}
use eks_anywhere_build_tooli.Snow.Quiet.{is_mkfs, is_quiet, Keeps-bootstrap}
use eks_anywhere_build_tooli.Snow.Once.{created, Persists, boots, unmarked, stat-created}

-- The calls that format a volume after the marker was created.
unfoldable pub formats_marked : Env → History → ℕ
formats_marked env [] = 0
formats_marked env (c ∷ h) =
    let rest = formats_marked env h in
    if is_mkfs c && created env partition_created_path h then suc rest else rest

abbrev NeverFormatsMarked : Env → History → Type 0
NeverFormatsMarked env h = formats_marked env h ≡ 0

module _ (env : Env) where
  KeepsCall-NeverFormatsMarked :
      (c : Call) → is_mkfs c ≡ false → KeepsCall (NeverFormatsMarked env) c
  unfolding formats_marked
  KeepsCall-NeverFormatsMarked c q h p = rw (q, p)

  -- A volume that is not marked.
  format-NeverFormatsMarked :
      (h : History) (args : List String)
      → created env partition_created_path h ≡ false
      → formats_marked env h ≡ 0
      → formats_marked env (h ▹ exec ("mkfs.ext4" ∷ args)) ≡ 0
  unfolding formats_marked
  format-NeverFormatsMarked h args e p = rw (e, p)

  make_partition-NeverFormatsMarked :
      (h : History)
      → created env partition_created_path h ≡ false
      → formats_marked env h ≡ 0
      → formats_marked env (make_partition env h).1 ≡ 0
  unfolding make_partition partition execute_only execute ◌>>=◌ wrapped attempt run lift
  make_partition-NeverFormatsMarked h e p =
      elim (Answer-cases (env h (exec ("mkfs.ext4" ∷ device ∷ [])))) [
        | inl (t, a) ↦ rw a (
            KeepsCall-NeverFormatsMarked (create partition_created_path) refl
              (h ▹ exec ("mkfs.ext4" ∷ device ∷ []))
              (format-NeverFormatsMarked h (device ∷ []) e p))
        | inr (inl a) ↦ rw a (format-NeverFormatsMarked h (device ∷ []) e p)
        | inr (inr (t, a)) ↦ rw a (format-NeverFormatsMarked h (device ∷ []) e p)
      ]

  Keeps-create_partition :
      Persists env partition_created_path → Keeps env (NeverFormatsMarked env) create_partition
  unfolding create_partition ◌>>=◌ path_exists lift formats_marked created
  Keeps-create_partition persists = record {
    at = λ h p. elim (Bool-cases (is_absent (env h (stat partition_created_path)))) [
      | inl e ↦ rw e (
          make_partition-NeverFormatsMarked (h ▹ stat partition_created_path)
            (stat-created env partition_created_path h
              (unmarked env partition_created_path persists h e))
            p)
      | inr e ↦ rw e p
    ];
  }

quiet-mkfs : (c : Call) → is_quiet c ≡ true → is_mkfs c ≡ false
quiet-mkfs c q = ground arith

Keeps-reboot_instance_if_needed :
    (env : Env) → Keeps env (NeverFormatsMarked env) reboot_instance_if_needed
unfolding reboot_instance_if_needed mark_and_reboot reboot execute_only execute
Keeps-reboot_instance_if_needed env =
    search (keeps_rules, KeepsCall-NeverFormatsMarked env) depth 20

-- Where a file that has been created stays, no boot formats the volume once the marker of its format
-- has been created, over any number of boots and however each of them ends.
pub formats_marked-boots :
    (m : Machine) (n : Netlink) (env : Env) (k : ℕ)
    → Persists env partition_created_path
    → formats_marked env (boots m n env k) ≡ 0
unfolding boots formats_marked
formats_marked-boots m n env zero persists = refl
formats_marked-boots m n env (suc k) persists =
    (Keeps-bootstrap (λ c q. KeepsCall-NeverFormatsMarked env c (quiet-mkfs c q)) m n
        (Keeps-create_partition env persists) (Keeps-reboot_instance_if_needed env)).at
      (boots m n env k) (formats_marked-boots m n env k persists)
