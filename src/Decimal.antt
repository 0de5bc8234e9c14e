-- ===== src/Decimal.antt =====
-- What the program takes from the C and C++ libraries to write and read numbers: `ss << int` and
-- atol, which glibc computes as strtol in base 10, clamped to a 64-bit long.
pub mod RoundTrip
use libstutter.Common.{
  ℕ, zero, suc, ◌+◌, ◌-◌, ◌*◌, ◌/◌, ◌%◌, ◌==◌, Bool, List, [], ◌∷◌, ◌++◌, ◌&&◌, ◌||◌, leb, ltb,
  if◌then◌else◌,
}
use libstutter.Common.Int.{ℤ, pos, negsuc}
use libstutter.Common.Bytes.{Bytes, c_str}

-- The digits of a number below 10 ^ fuel.
unfoldable pub digits : ℕ → ℕ → Bytes
digits zero n = []
digits (suc fuel) n =
    let high = digits fuel (n / 10) in
    if ltb n 10 then (48 + n) ∷ [] else high ++ (48 + n % 10) ∷ []

unfoldable pub print_nat : ℕ → Bytes
unfolding digits
print_nat n = digits (suc n) n

unfoldable pub print_int : ℤ → Bytes
unfolding print_nat
print_int (pos n) = print_nat n
print_int (negsuc n) = b'-' ∷ print_nat (suc n)

abbrev pub is_digit : ℕ → Bool
is_digit c = leb b'0' c && leb c b'9'

-- isspace in the C locale.
abbrev pub is_space : ℕ → Bool
is_space c = c == 32 || (leb 9 c && leb c 13)

unfoldable pub read_digits : ℕ → Bytes → ℕ
read_digits acc [] = acc
read_digits acc (c ∷ s) = if is_digit c then read_digits (acc * 10 + (c - 48)) s else acc

unfoldable pub skip_space : Bytes → Bytes
skip_space [] = []
skip_space (c ∷ s) = if is_space c then skip_space s else c ∷ s

abbrev pub long_max : ℕ
long_max = 0x7FFFFFFFFFFFFFFF

clamp_pos : ℕ → ℤ
clamp_pos n = if ltb long_max n then pos long_max else pos n

clamp_neg : ℕ → ℤ
clamp_neg zero = pos 0
clamp_neg (suc n) = if ltb long_max n then negsuc long_max else negsuc n

read_signed : Bytes → ℤ
unfolding read_digits clamp_pos clamp_neg
read_signed [] = pos 0
read_signed (c ∷ s) =
    if c == b'-'
    then clamp_neg (read_digits 0 s)
    else if c == b'+'
    then clamp_pos (read_digits 0 s)
    else clamp_pos (read_digits 0 (c ∷ s))

unfoldable pub atol : Bytes → ℤ
unfolding read_signed skip_space
atol s = read_signed (skip_space (c_str s))
