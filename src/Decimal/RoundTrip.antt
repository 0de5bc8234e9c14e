-- ===== src/Decimal/RoundTrip.antt =====
-- A printed number is read back.
use libstutter.Common.{
  ℕ, zero, suc, ◌+◌, ◌-◌, ◌*◌, ◌/◌, ◌%◌, ◌≤◌, ◌<◌, ◌≡◌, refl, true, [], ◌∷◌, ◌++◌, All, arith, ltb,
  Bool-cases, inl, inr,
}
use libstutter.Common.Int.{pos}
use libstutter.Common.Bytes.{Bytes, c_str}
use libstutter.Decimal.{
  digits, print_int, is_digit, read_digits, skip_space, long_max, read_signed, atol, clamp_pos,
}

abbrev IsNumeric : Bytes → Type 0
IsNumeric = All (λ c. is_digit c ≡ true)

IsNumeric-append : (s : Bytes) (c : ℕ) → IsNumeric s → is_digit c ≡ true → IsNumeric (s ++ c ∷ [])
IsNumeric-append [] c h d = (d, tt)
IsNumeric-append (x ∷ s) c h d = (h.0, IsNumeric-append s c h.1 d)

digits-IsNumeric : (fuel n : ℕ) → IsNumeric (digits fuel n)
unfolding digits
digits-IsNumeric zero n = tt
digits-IsNumeric (suc fuel) n = elim (Bool-cases (ltb n 10)) [
  | inl small ↦ rw small (ground arith, tt)
  | inr large ↦ rw large (
      IsNumeric-append (digits fuel (n / 10)) (48 + n % 10) (digits-IsNumeric fuel (n / 10))
        (ground arith))
]

read_digits-append :
    (acc : ℕ) (s : Bytes) (c : ℕ)
    → IsNumeric s
    → is_digit c ≡ true
    → read_digits acc (s ++ c ∷ []) ≡ read_digits acc s * 10 + (c - 48)
unfolding read_digits
read_digits-append acc [] c h d = rw d refl
read_digits-append acc (x ∷ s) c h d = rw h.0 (read_digits-append (acc * 10 + (x - 48)) s c h.1 d)

read_digits-digits : (fuel n : ℕ) → n < fuel → read_digits 0 (digits fuel n) ≡ n
unfolding digits read_digits
read_digits-digits zero n h = absurd (omega arith)
read_digits-digits (suc fuel) n h = elim (Bool-cases (ltb n 10)) [
  | inl small ↦ rw small (ground arith)
  | inr large ↦
      rw
        (
          large,
          read_digits-append 0 (digits fuel (n / 10)) (48 + n % 10) (digits-IsNumeric fuel (n / 10))
              (ground arith),
        )
        (ground (arith, read_digits-digits fuel (n / 10)))
]

c_str-IsNumeric : (s : Bytes) → IsNumeric s → c_str s ≡ s
unfolding c_str
c_str-IsNumeric [] h = refl
c_str-IsNumeric (x ∷ s) h = ground (arith, c_str-IsNumeric s h.1)

read_signed-IsNumeric :
    (s : Bytes) → IsNumeric s → read_signed (skip_space s) ≡ clamp_pos (read_digits 0 s)
unfolding read_signed skip_space
read_signed-IsNumeric [] h = refl
read_signed-IsNumeric (x ∷ s) h = ground arith

-- atol reads back every number from 0 to LONG_MAX that `<<` writes.
pub atol-print_int : (n : ℕ) → n ≤ long_max → atol (print_int (pos n)) ≡ pos n
unfolding print_int atol
atol-print_int n h =
    rw
      (
        c_str-IsNumeric (digits (suc n) n) (digits-IsNumeric (suc n) n),
        read_signed-IsNumeric (digits (suc n) n) (digits-IsNumeric (suc n) n),
        read_digits-digits (suc n) n (omega arith),
      )
      (ground arith)
