-- ===== src/Common/Bytes.antt =====
-- std::string and std::vector<char> as lists of bytes.
use Prim.Native.Nat.{ℕ, ◌+◌}
use Prim.Native.Char.{code}
use Prim.Native.String.{String}
use mathlib.Core.Path.{◌≡◌, refl}
use mathlib.Core.Bool.{Bool, true, false, ◌&&◌, ◌||◌}
use mathlib.Core.List.{List, [], ◌∷◌, map}
use mathlib.Core.Logic.{inl, inr}
use native.Mathlib.Omega.{arith}
use libstutter.Common.Tests.{ltb, leb, ◌==◌, if◌then◌else◌, Bool-cases}

abbrev pub Bytes : Type 0
Bytes = List ℕ

-- A string literal of the program.
abbrev pub codes : String → Bytes
codes String.[] = []
codes (String.◌∷◌ c s) = code c ∷ codes s

-- operator== on strings.
unfoldable pub eq_bytes : Bytes → Bytes → Bool
eq_bytes [] [] = true
eq_bytes [] (y ∷ ys) = false
eq_bytes (x ∷ xs) [] = false
eq_bytes (x ∷ xs) (y ∷ ys) = x == y && eq_bytes xs ys

pub eq_bytes_refl : (xs : Bytes) → eq_bytes xs xs ≡ true
unfolding eq_bytes
eq_bytes_refl [] = refl
eq_bytes_refl (x ∷ xs) = ground (arith, eq_bytes_refl xs)

pub eq_bytes→eq : (xs ys : Bytes) → eq_bytes xs ys ≡ true → xs ≡ ys
unfolding eq_bytes
eq_bytes→eq [] [] h = refl
eq_bytes→eq [] (y ∷ ys) h = cc
eq_bytes→eq (x ∷ xs) [] h = cc
eq_bytes→eq (x ∷ xs) (y ∷ ys) h = ground (arith, eq_bytes→eq xs ys)

-- operator< on strings: lexicographic on unsigned bytes.
unfoldable pub lex_less : Bytes → Bytes → Bool
lex_less [] [] = false
lex_less [] (y ∷ ys) = true
lex_less (x ∷ xs) [] = false
lex_less (x ∷ xs) (y ∷ ys) = ltb x y || (x == y && lex_less xs ys)

pub lex_less_irrefl : (xs : Bytes) → lex_less xs xs ≡ false
unfolding lex_less
lex_less_irrefl [] = refl
lex_less_irrefl (x ∷ xs) = ground (arith, lex_less_irrefl xs)

pub lex_less_trans :
    (xs ys zs : Bytes) → lex_less xs ys ≡ true → lex_less ys zs ≡ true → lex_less xs zs ≡ true
unfolding lex_less
lex_less_trans xs [] [] h k = cc
lex_less_trans [] [] (z ∷ zs) h k = cc
lex_less_trans (x ∷ xs) [] (z ∷ zs) h k = cc
lex_less_trans xs (y ∷ ys) [] h k = cc
lex_less_trans [] (y ∷ ys) (z ∷ zs) h k = refl
lex_less_trans (x ∷ xs) (y ∷ ys) (z ∷ zs) h k = ground (arith, lex_less_trans xs ys zs)

-- Neither below the other: the order is total.
pub lex_less_total : (xs ys : Bytes) → lex_less xs ys ≡ false → lex_less ys xs ≡ false → xs ≡ ys
unfolding lex_less
lex_less_total [] [] h k = refl
lex_less_total [] (y ∷ ys) h k = cc
lex_less_total (x ∷ xs) [] h k = cc
lex_less_total (x ∷ xs) (y ∷ ys) h k = ground (arith, lex_less_total xs ys)

pub lex_less_asymm : (xs ys : Bytes) → lex_less xs ys ≡ true → lex_less ys xs ≡ false
unfolding lex_less
lex_less_asymm [] [] h = cc
lex_less_asymm [] (y ∷ ys) h = refl
lex_less_asymm (x ∷ xs) [] h = cc
lex_less_asymm (x ∷ xs) (y ∷ ys) h = ground (arith, lex_less_asymm xs ys)

pub eq_bytes_of_less : (xs ys : Bytes) → lex_less xs ys ≡ true → eq_bytes xs ys ≡ false
unfolding lex_less eq_bytes
eq_bytes_of_less [] [] h = cc
eq_bytes_of_less [] (y ∷ ys) h = refl
eq_bytes_of_less (x ∷ xs) [] h = refl
eq_bytes_of_less (x ∷ xs) (y ∷ ys) h = ground (arith, eq_bytes_of_less xs ys)

pub eq_bytes_of_more : (xs ys : Bytes) → lex_less ys xs ≡ true → eq_bytes xs ys ≡ false
unfolding lex_less eq_bytes
eq_bytes_of_more [] [] h = cc
eq_bytes_of_more [] (y ∷ ys) h = refl
eq_bytes_of_more (x ∷ xs) [] h = refl
eq_bytes_of_more (x ∷ xs) (y ∷ ys) h = ground (arith, eq_bytes_of_more xs ys)

-- How two strings compare, with all that the tests say of it.
pub data Comparison (xs ys : Bytes) : Type 0 where
  below : lex_less xs ys ≡ true → lex_less ys xs ≡ false → eq_bytes xs ys ≡ false → Comparison xs ys
  same :
      lex_less xs ys ≡ false
      → lex_less ys xs ≡ false
      → eq_bytes xs ys ≡ true
      → xs ≡ ys
      → Comparison xs ys
  above : lex_less xs ys ≡ false → lex_less ys xs ≡ true → eq_bytes xs ys ≡ false → Comparison xs ys

same_of_eq : (xs ys : Bytes) → xs ≡ ys → Comparison xs ys
same_of_eq xs ys e =
    same (rw e (lex_less_irrefl ys)) (rw e (lex_less_irrefl ys)) (rw e (eq_bytes_refl ys)) e

pub compare_bytes : (xs ys : Bytes) → Comparison xs ys
compare_bytes xs ys = elim (Bool-cases (lex_less xs ys)) [
  | inl h ↦ below h (lex_less_asymm xs ys h) (eq_bytes_of_less xs ys h)
  | inr h ↦ elim (Bool-cases (lex_less ys xs)) [
    | inl k ↦ above h k (eq_bytes_of_more xs ys k)
    | inr k ↦ same_of_eq xs ys (lex_less_total xs ys h k)
  ]
]

-- c_str() as a C function reads it: up to the first NUL.
unfoldable pub c_str : Bytes → Bytes
c_str [] = []
c_str (x ∷ xs) = if x == 0 then [] else x ∷ c_str xs

-- tolower in the C locale.
unfoldable pub to_lower : ℕ → ℕ
to_lower c = if leb b'A' c && leb c b'Z' then c + 32 else c

-- What strcasecmp compares.
unfoldable pub fold_case : Bytes → Bytes
unfolding c_str to_lower
fold_case s = map to_lower (c_str s)
