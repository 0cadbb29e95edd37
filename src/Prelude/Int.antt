-- ===== src/Prelude/Int.antt =====
-- Go's `int`, without its bounds: the program only compares and counts with small values.
use Prim.Native.Nat.{ℕ}
use mathlib.Core.Bool.{Bool, true, false}
use mathlib.Core.Path.{◌≡◌, ap}
use mathlib.Core.Logic.{◌↔◌}
use eks_anywhere_build_tooli.Prelude.Equality.{ltb, nat_beq, nat_beq_iff}

-- `negsuc n` is -(n + 1).
pub data ℤ : Type 0 where
  pos : ℕ → ℤ
  negsuc : ℕ → ℤ

abbrev pub is_negative : ℤ → Bool
is_negative (pos n) = false
is_negative (negsuc n) = true

-- `i > n`
abbrev pub exceeds : ℤ → ℕ → Bool
exceeds (pos m) n = ltb n m
exceeds (negsuc m) n = false

-- The number of rounds of `for i := 0; i < n; i++`.
abbrev pub rounds : ℤ → ℕ
rounds (pos n) = n
rounds (negsuc n) = 0

-- `i > j`
abbrev pub is_above : ℤ → ℤ → Bool
is_above (pos m) (pos n) = ltb n m
is_above (pos m) (negsuc n) = true
is_above (negsuc m) (pos n) = false
is_above (negsuc m) (negsuc n) = ltb m n

-- `i == j`
abbrev pub same_int : ℤ → ℤ → Bool
same_int (pos m) (pos n) = nat_beq m n
same_int (pos m) (negsuc n) = false
same_int (negsuc m) (pos n) = false
same_int (negsuc m) (negsuc n) = nat_beq m n

pub same_int_iff : (i j : ℤ) → (same_int i j ≡ true) ↔ (i ≡ j)
same_int_iff (pos m) (pos n) =
    (λ e. ap pos ((nat_beq_iff m n).0 e), λ e. (nat_beq_iff m n).1 (ap rounds e))
same_int_iff (pos m) (negsuc n) = (λ e. cc, λ e. cc)
same_int_iff (negsuc m) (pos n) = (λ e. cc, λ e. cc)
same_int_iff (negsuc m) (negsuc n) =
    (λ e. ap negsuc ((nat_beq_iff m n).0 e), λ e. (nat_beq_iff m n).1 cc)
