-- ===== src/Search/Laws.antt =====
-- Positions, and the parts of a text between separators.
use libstutter.Common.{
  ℕ, zero, suc, ◌+◌, ◌≤◌, ◌<◌, ◌==◌, ◌≡◌, refl, ap, List, [], ◌∷◌, none, some, arith, length, take,
  drop, if◌then◌else◌,
}
use native.Mathlib.Nat.{zero-add, suc-add}
use libstutter.Common.Bytes.{Bytes}
use libstutter.Search.{index_of}

-- The parts of a text between the bytes `c`: one more than there are such bytes.
abbrev pub prepend : ℕ → List Bytes → List Bytes
prepend x [] = (x ∷ []) ∷ []
prepend x (part ∷ parts) = (x ∷ part) ∷ parts

unfoldable pub split : ℕ → Bytes → List Bytes
split c [] = [] ∷ []
split c (x ∷ s) = let parts = split c s in if x == c then [] ∷ parts else prepend x parts

pub drop-drop {ℓ} : {A : Type ℓ} (m n : ℕ) (xs : List A) → drop m (drop n xs) ≡ drop (n + m) xs
drop-drop m zero xs = rw zero-add
drop-drop zero (suc n) [] = rw suc-add
drop-drop (suc m) (suc n) [] = rw suc-add
drop-drop m (suc n) (x ∷ xs) = rw suc-add (drop-drop m n xs)

pub take-take {ℓ} : {A : Type ℓ} (m n : ℕ) (xs : List A) → m ≤ n → take m (take n xs) ≡ take m xs
take-take zero n xs h = refl
take-take (suc m) zero xs h = absurd (omega arith)
take-take (suc m) (suc n) [] h = refl
take-take (suc m) (suc n) (x ∷ xs) h = ap (◌∷◌ x) (take-take m n xs (omega arith))

pub drop-take {ℓ} :
    {A : Type ℓ} (m k : ℕ) (xs : List A) → take k (drop m xs) ≡ drop m (take (m + k) xs)
drop-take zero k xs = rw zero-add
drop-take (suc m) zero [] = rw suc-add
drop-take (suc m) (suc k) [] = rw suc-add
drop-take (suc m) k (x ∷ xs) = rw suc-add (drop-take m k xs)

pub split-none : (c : ℕ) (s : Bytes) → index_of c s ≡ none → split c s ≡ s ∷ []
unfolding index_of split
split-none c [] h = refl
split-none c (x ∷ s) h = ground (arith, split-none c s)

pub split-some :
    (c : ℕ) (s : Bytes) (i : ℕ)
    → index_of c s ≡ some i
    → split c s ≡ take i s ∷ split c (drop (suc i) s)
unfolding index_of split
split-some c [] i h = cc
split-some c (x ∷ s) zero h = ground arith
split-some c (x ∷ s) (suc i) h = ground (arith, split-some c s i)

pub index_of-lt : (c : ℕ) (s : Bytes) (i : ℕ) → index_of c s ≡ some i → i < length s
unfolding index_of
index_of-lt c [] i h = cc
index_of-lt c (x ∷ s) zero h = omega arith
index_of-lt c (x ∷ s) (suc i) h = ground (arith, index_of-lt c s i)
