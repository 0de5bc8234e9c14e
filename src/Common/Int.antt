-- ===== src/Common/Int.antt =====
-- Signed integers over the native numbers, under the library's names.
use Prim.Native.Nat.{ℕ, suc, ◌+◌, ◌-◌, ◌%◌, ◌<◌}
use mathlib.Core.Path.{◌≡◌}
use mathlib.Core.Bool.{Bool, true, false}
use native.Mathlib.Omega.{arith}
use libstutter.Common.Tests.{ltb, ◌==◌, if◌then◌else◌}

-- `negsuc n` is -(n + 1).
pub data ℤ : Type 0 where
  pos : ℕ → ℤ
  negsuc : ℕ → ℤ

abbrev pub pos_part : ℤ → ℕ
pos_part (pos n) = n
pos_part (negsuc n) = 0

abbrev pub neg_part : ℤ → ℕ
neg_part (pos n) = 0
neg_part (negsuc n) = suc n

-- `a < b` on int.
abbrev pub ltb_ℤ : ℤ → ℤ → Bool
ltb_ℤ a b = ltb (pos_part a + neg_part b) (pos_part b + neg_part a)

-- `a == b` on int.
abbrev pub eqb_ℤ : ℤ → ℤ → Bool
eqb_ℤ a b = pos_part a + neg_part b == pos_part b + neg_part a

pub eqb_ℤ→eq : (a b : ℤ) → eqb_ℤ a b ≡ true → a ≡ b
eqb_ℤ→eq a b h = ground arith

-- `a > 0`, the test that the program makes of counts and descriptors.
abbrev pub is_pos : ℤ → Bool
is_pos (pos n) = ltb 0 n
is_pos (negsuc n) = false

-- `a < 0`.
abbrev pub is_neg : ℤ → Bool
is_neg (pos n) = false
is_neg (negsuc n) = true

-- -1, the error return of the system calls.
abbrev pub minus_one : ℤ
minus_one = negsuc 0

-- A size_t converted to a 32-bit int: the low 32 bits, read in two's complement.
abbrev pub to_int32 : ℕ → ℤ
to_int32 n =
    let low = n % 0x100000000 in if ltb low 0x80000000 then pos low else negsuc (0xFFFFFFFF - low)

-- An int converted to a 16-bit short, in the same way: the low 16 bits of a negative number are those
-- of its distance to a multiple of 2 ^ 16.
abbrev pub to_int16 : ℤ → ℤ
to_int16 (pos n) =
    let low = n % 0x10000 in if ltb low 0x8000 then pos low else negsuc (0xFFFF - low)
to_int16 (negsuc n) =
    let low = n % 0x10000 in if ltb low 0x8000 then negsuc low else pos (0xFFFF - low)

pub pos_part-is_pos : (n : ℤ) → is_pos n ≡ true → 0 < pos_part n
pos_part-is_pos (pos n) h = ground arith
pos_part-is_pos (negsuc n) h = cc
