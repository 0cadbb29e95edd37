-- ===== src/VersionTracker/Slices.antt =====
-- tools/version-tracker/pkg/util/slices/slices.go
use eks_anywhere_build_tooli.Prelude.{
  String, Bool, true, false, not, List, [], ◌∷◌, if◌then◌else◌, ltb, string_eq, ◌==◌, nat_eq,
  length,
}

unfoldable pub contains_elem : List String → String → Bool
contains_elem [] str = false
contains_elem (elem ∷ s) str = let rest = contains_elem s str in if elem == str then true else rest

all_contained : List String → List String → Bool
unfolding contains_elem
all_contained [] s2 = true
all_contained (e ∷ s1) s2 =
    let rest = all_contained s1 s2 in if not (contains_elem s2 e) then false else rest

unfoldable pub is_subset : List String → List String → Bool
unfolding all_contained
is_subset s1 s2 = if ltb (length s2) (length s1) then false else all_contained s1 s2
