-- ===== src/ImageBuilder/Files.antt =====
-- builder/files.go: the additional files of a build.
pub mod Counts
use eks_anywhere_build_tooli.Prelude.{
  ℕ, zero, suc, ◌-◌, String, Bool, true, false, ◌&&◌, Option, none, some, List, [], ◌∷◌, ◌==◌, ◌≡◌,
  ◌↔◌, arith, Eq, nat_eq, string_eq, str_beq_iff, nat_beq_iff, if◌then◌else◌, length,
}
use eks_anywhere_build_tooli.Prelude.Counter.{incr, has_key, decr}
use eks_anywhere_build_tooli.ImageBuilder.Types.{File, FileVars, AdditionalFilesConfig}
use eks_anywhere_build_tooli.Prelude.Int.{same_int, same_int_iff}

-- `==` of two `File` values
abbrev pub file_beq : File → File → Bool
file_beq a b =
    a.source == b.source
    && a.destination == b.destination
    && a.owner == b.owner
    && a.group == b.group
    && same_int a.mode b.mode

pub file_beq_iff : (a b : File) → (file_beq a b ≡ true) ↔ (a ≡ b)
file_beq_iff a b = ground (
  arith,
  str_beq_iff a.source b.source,
  str_beq_iff a.destination b.destination,
  str_beq_iff a.owner b.owner,
  str_beq_iff a.group b.group,
  same_int_iff a.mode b.mode,
)

instance abbrev pub file_eq : Eq File
file_eq = record { beq = file_beq; beq_iff = file_beq_iff }

-- The loop over `a`.
unfoldable pub count_files : List File → List (File × ℕ) → List (File × ℕ)
count_files [] m = m
count_files (v ∷ a) m = count_files a (incr v m)

-- The loop over `b`, and the test behind it.
unfoldable pub match_files : List File → List (File × ℕ) → Bool
match_files [] m = length m == 0
match_files (v ∷ b) m = let rest = match_files b (decr v m) in if has_key v m then rest else false

unfoldable pub same_files_provided : List File → List File → Bool
unfolding count_files match_files
same_files_provided a b = if length a == length b then match_files b (count_files a []) else false

unfoldable pub process_additional_files : AdditionalFilesConfig → AdditionalFilesConfig
process_additional_files afc = elim afc.additional_files_list [
  | [] ↦ afc
  | _ ∷ _ ↦ record afc {
    file_vars = record afc.file_vars { additional_files = "true" };
    files_ansible_config = record afc.files_ansible_config { custom_role = "true" };
  }
]
