-- ===== src/ImageBuilder/Files/Counts.antt =====
-- `same_files_provided` compares two lists as multisets.
use eks_anywhere_build_tooli.Prelude.{
  ℕ, ◌+◌, ◌≡◌, refl, sym, ◌∙◌, ◌↔◌, true, List, [], ◌∷◌, arith, ◌==◌, length, Bool-cases, nat_eq,
  inl, inr, nat_beq_iff,
}
use eks_anywhere_build_tooli.Prelude.Counter.{
  incr, has_key, decr, count, total, ArePositive, total-incr, incr-ArePositive, decr-ArePositive,
  total-decr, has_key_iff, size, size-incr, size-decr, eq-nil_of_totals,
}
use eks_anywhere_build_tooli.ImageBuilder.Types.{File}
use eks_anywhere_build_tooli.ImageBuilder.Files.{
  file_eq, count_files, match_files, same_files_provided,
}

total-count_files :
    (f : File) (a : List File) (m : List (File × ℕ))
    → total f (count_files a m) ≡ count f a + total f m
unfolding count_files
total-count_files f [] m = omega arith
total-count_files f (v ∷ a) m = omega (arith, total-count_files f a (incr v m), total-incr f v m)

count_files-ArePositive :
    (a : List File) (m : List (File × ℕ)) → ArePositive m → ArePositive (count_files a m)
unfolding count_files
count_files-ArePositive [] m p = p
count_files-ArePositive (v ∷ a) m p = count_files-ArePositive a (incr v m) (incr-ArePositive v m p)

size-count_files :
    (a : List File) (m : List (File × ℕ)) → size (count_files a m) ≡ length a + size m
unfolding count_files
size-count_files [] m = omega arith
size-count_files (v ∷ a) m = omega (arith, size-count_files a (incr v m), size-incr v m)

module _ (f : File) where
  total-match_files :
      (b : List File) (m : List (File × ℕ))
      → match_files b m ≡ true
      → ArePositive m
      → total f m ≡ count f b
  unfolding match_files total
  total-match_files [] [] h p = refl
  total-match_files [] ((w, n) ∷ m) h p = ground arith
  total-match_files (v ∷ b) m h p = elim (Bool-cases (has_key v m)) [
    | inl here ↦ omega (
      arith,
      total-match_files b (decr v m) (rw here at h) (decr-ArePositive v m p),
      total-decr f v m here p,
    )
    | inr gone ↦ cc gone
  ]

size-match_files :
    (b : List File) (m : List (File × ℕ))
    → match_files b m ≡ true
    → ArePositive m
    → size m ≡ length b
unfolding match_files size
size-match_files [] [] h p = refl
size-match_files [] ((w, n) ∷ m) h p = ground arith
size-match_files (v ∷ b) m h p = elim (Bool-cases (has_key v m)) [
  | inl here ↦ omega (
    arith,
    size-match_files b (decr v m) (rw here at h) (decr-ArePositive v m p),
    size-decr v m here p,
  )
  | inr gone ↦ cc gone
]

match_files_complete :
    (b : List File) (m : List (File × ℕ))
    → ((f : File) → total f m ≡ count f b)
    → ArePositive m
    → match_files b m ≡ true
unfolding match_files
match_files_complete [] m h p = rw (eq-nil_of_totals m p h) refl
match_files_complete (v ∷ b) m h p =
    let here : has_key v m ≡ true =
      (has_key_iff v m p).1 (ground (arith, h v, (file_eq.beq_iff v v).1 refl)) in
    rw here (
      match_files_complete b (decr v m) (λ f. omega (arith, h f, total-decr f v m here p))
        (decr-ArePositive v m p))

-- The map that the loop over the first list fills.
module _ (a : List File) where
  abbrev tally : List (File × ℕ)
  tally = count_files a []

  tally-ArePositive : ArePositive tally
  tally-ArePositive = count_files-ArePositive a [] tt

  total-tally : (f : File) → total f tally ≡ count f a
  unfolding total
  total-tally f = omega (arith, total-count_files f a [])

  size-tally : size tally ≡ length a
  unfolding size
  size-tally = omega (arith, size-count_files a [])

-- Two lists of files pass for the same exactly when every file stands in both equally often; so
-- their order does not matter, and how often a file is repeated does.
pub same_files_provided_iff :
    (a b : List File) → (same_files_provided a b ≡ true) ↔ ((f : File) → count f a ≡ count f b)
unfolding same_files_provided
same_files_provided_iff a b = (only_if, if_equal)
  where
    only_if : same_files_provided a b ≡ true → (f : File) → count f a ≡ count f b
    only_if h f = elim (Bool-cases (length a == length b)) [
      | inl same ↦
          sym (total-tally a f)
          ∙ total-match_files f b (tally a) (rw same at h) (tally-ArePositive a)
      | inr differ ↦ cc differ
    ]

    if_equal : ((f : File) → count f a ≡ count f b) → same_files_provided a b ≡ true
    if_equal h =
        let matched : match_files b (tally a) ≡ true =
          match_files_complete b (tally a) (λ f. total-tally a f ∙ h f) (tally-ArePositive a) in
        let sizes : length a ≡ length b =
          sym (size-tally a) ∙ size-match_files b (tally a) matched (tally-ArePositive a) in
        rw ((nat_beq_iff (length a) (length b)).1 sizes) matched
