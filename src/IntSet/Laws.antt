-- ===== src/IntSet/Laws.antt =====
-- The laws of the set of descriptors.
use libstutter.Common.{
  ◌+◌, ◌≡◌, refl, true, false, not, List, [], ◌∷◌, arith, length, if◌then◌else◌, ◌&&◌, ◌||◌,
}
use libstutter.Common.Int.{ℤ, ltb_ℤ, eqb_ℤ, eqb_ℤ→eq}
use libstutter.IntSet.{contains, insert, erase}

abbrev pub Above : ℤ → List ℤ → Type 0
Above k [] = Unit {0}
Above k (x ∷ s) = (ltb_ℤ k x ≡ true) × Above k s

abbrev pub IsSorted : List ℤ → Type 0
IsSorted [] = Unit {0}
IsSorted (x ∷ s) = Above x s × IsSorted s

Above-trans : (j k : ℤ) (s : List ℤ) → ltb_ℤ j k ≡ true → Above k s → Above j s
Above-trans j k [] h a = tt
Above-trans j k (x ∷ s) h a = (ground arith, Above-trans j k s h a.1)

contains-Above : (k : ℤ) (s : List ℤ) → Above k s → contains k s ≡ false
unfolding contains
contains-Above k [] a = refl
contains-Above k (x ∷ s) a = ground (arith, contains-Above k s a.1)

contains_below : (j k : ℤ) (s : List ℤ) → ltb_ℤ j k ≡ true → Above k s → contains j s ≡ false
contains_below j k s h a = contains-Above j s (Above-trans j k s h a)

contains_at : (j k : ℤ) (s : List ℤ) → eqb_ℤ j k ≡ true → Above k s → contains j s ≡ false
unfolding contains
contains_at j k [] h a = refl
contains_at j k (x ∷ s) h a = ground (arith, contains_at j k s h a.1)

pub contains-insert : (k i : ℤ) (s : List ℤ) → contains i (insert k s) ≡ (eqb_ℤ i k || contains i s)
unfolding contains insert
contains-insert k i [] = refl
contains-insert k i (x ∷ s) = ground (arith, contains-insert k i s)

pub contains-erase :
    (k i : ℤ) (s : List ℤ) → IsSorted s → contains i (erase k s) ≡ (not (eqb_ℤ i k) && contains i s)
unfolding contains erase
contains-erase k i [] a = ground arith
contains-erase k i (x ∷ s) a =
    ground (arith, contains-erase k i s a.1, contains_below i x s, contains_at i x s)

Above-insert : (j k : ℤ) (s : List ℤ) → ltb_ℤ j k ≡ true → Above j s → Above j (insert k s)
unfolding insert
Above-insert j k [] h a = (h, tt)
Above-insert j k (x ∷ s) h a = ground (arith, Above-insert j k s h a.1)

pub insert-IsSorted : (k : ℤ) (s : List ℤ) → IsSorted s → IsSorted (insert k s)
unfolding insert
insert-IsSorted k [] a = (tt, tt)
insert-IsSorted k (x ∷ s) a =
    ground (arith, Above-trans k x s, Above-insert x k s, insert-IsSorted k s a.1)

Above-erase : (j k : ℤ) (s : List ℤ) → Above j s → Above j (erase k s)
unfolding erase
Above-erase j k [] a = tt
Above-erase j k (x ∷ s) a = ground (arith, Above-erase j k s a.1)

pub erase-IsSorted : (k : ℤ) (s : List ℤ) → IsSorted s → IsSorted (erase k s)
unfolding erase
erase-IsSorted k [] a = tt
erase-IsSorted k (x ∷ s) a = ground (arith, Above-erase x k s a.0, erase-IsSorted k s a.1)

pub length-insert :
    (k : ℤ) (s : List ℤ)
    → IsSorted s
    → length (insert k s) ≡ (if contains k s then length s else length s + 1)
unfolding contains insert
length-insert k [] a = omega arith
length-insert k (x ∷ s) a =
    ground (arith, contains_below k x s, contains_at k x s, length-insert k s a.1)

pub length-erase :
    (k : ℤ) (s : List ℤ)
    → IsSorted s
    → length (erase k s) + (if contains k s then 1 else 0) ≡ length s
unfolding contains erase
length-erase k [] a = omega arith
length-erase k (x ∷ s) a =
    ground (arith, contains_below k x s, contains_at k x s, length-erase k s a.1)

pub erase-insert :
    (k : ℤ) (s : List ℤ) → IsSorted s → contains k s ≡ false → erase k (insert k s) ≡ s
unfolding contains insert erase
erase-insert k [] a h = ground arith
erase-insert k (x ∷ s) a h = ground (arith, erase-insert k s a.1)

pub insert-Above : (k : ℤ) (s : List ℤ) → Above k s → insert k s ≡ k ∷ s
unfolding insert
insert-Above k [] a = refl
insert-Above k (x ∷ s) a = ground arith

insert_more : (k x : ℤ) (s : List ℤ) → ltb_ℤ x k ≡ true → insert k (x ∷ s) ≡ x ∷ insert k s
unfolding insert
insert_more k x s h = ground arith

insert_at : (k x : ℤ) (s : List ℤ) → eqb_ℤ k x ≡ true → Above x s → insert k s ≡ x ∷ s
insert_at k x s e a = rw (eqb_ℤ→eq k x e) (insert-Above x s a)

pub insert-erase :
    (k : ℤ) (s : List ℤ) → IsSorted s → contains k s ≡ true → insert k (erase k s) ≡ s
unfolding contains erase
insert-erase k [] a h = cc
insert-erase k (x ∷ s) a h = ground (
  arith,
  contains_below k x s,
  insert_at k x s,
  insert-erase k s a.1,
  insert_more k x (erase k s),
)
