-- ===== src/OrderedMap/Laws.antt =====
-- The map laws. A map is well formed when its keys rise strictly.
use libstutter.Common.{◌≡◌, refl, true, List, [], ◌∷◌, ◌++◌, none, some, arith, if◌then◌else◌}
use mathlib.Core.Option
use libstutter.Common.Bytes.{
  Bytes, lex_less, lex_less_trans, lex_less_asymm, eq_bytes, compare_bytes, below, same, above,
  eq_bytes_of_more,
}
use libstutter.OrderedMap.{find, assign, insert, erase}

module _ {ℓ κ} {K : Type ℓ} {V : Type κ} (rank : K → Bytes) where
  -- Every key lies above `k`.
  abbrev pub Above : Bytes → List (K × V) → Type 0
  Above b [] = Unit {0}
  Above b ((j, w) ∷ m) = (lex_less b (rank j) ≡ true) × Above b m

  abbrev pub IsSorted : List (K × V) → Type 0
  IsSorted [] = Unit {0}
  IsSorted ((j, w) ∷ m) = Above (rank j) m × IsSorted m

  Above-trans : (a b : Bytes) (m : List (K × V)) → lex_less a b ≡ true → Above b m → Above a m
  Above-trans a b [] h s = tt
  Above-trans a b ((j, w) ∷ m) h s = (lex_less_trans a b (rank j) h s.0, Above-trans a b m h s.1)

  find-Above : (k : K) (m : List (K × V)) → Above (rank k) m → find rank k m ≡ none
  unfolding find
  find-Above k [] s = refl
  find-Above k ((j, w) ∷ m) s = rw s.0

  pub find_at :
      (k : K) (b : Bytes) (m : List (K × V)) → b ≡ rank k → Above b m → find rank k m ≡ none
  find_at k b m e s = find-Above k m (rw (← e) s)

  pub find_below :
      (k : K) (b : Bytes) (m : List (K × V))
      → lex_less (rank k) b ≡ true
      → Above b m
      → find rank k m ≡ none
  find_below k b m h s = find-Above k m (Above-trans (rank k) b m h s)

  -- Looking up after m[k] = v: `v` for every key equivalent to `k`, the old entry for the others.
  pub find-assign :
      (k : K) (v : V) (i : K) (m : List (K × V))
      → find rank i (assign rank k v m)
        ≡ (if eq_bytes (rank k) (rank i) then some v else find rank i m)
  unfolding find assign
  find-assign k v i [] = elim (compare_bytes (rank k) (rank i)) [
    | below h1 h2 h3 ↦ ground arith
    | same h4 h5 h6 h7 ↦ ground arith
    | above h8 h9 h10 ↦ ground arith
  ]
  find-assign k v i ((j, w) ∷ m) = elim (compare_bytes (rank k) (rank j)) [
    | below h1 h2 h3 ↦ elim (compare_bytes (rank k) (rank i)) [
      | below h4 h5 h6 ↦ ground arith
      | same h7 h8 h9 h10 ↦ ground arith
      | above h11 h12 h13 ↦ ground (arith, lex_less_trans (rank i) (rank k) (rank j))
    ]
    | same h14 h15 h16 e ↦ rw e (ground (arith, compare_bytes (rank j) (rank i)))
    | above h17 h18 h19 ↦ elim (compare_bytes (rank i) (rank j)) [
      | below h20 h21 h22 ↦
          ground
            (arith, lex_less_trans (rank i) (rank j) (rank k), eq_bytes_of_more (rank k) (rank i))
      | same h23 h24 h25 e ↦ rw e (ground arith)
      | above h26 h27 h28 ↦ ground (arith, find-assign k v i m)
    ]
  ]

  -- Looking up after insert(k, v): an old entry stays, `v` is seen only where there was none.
  pub find-insert :
      (k : K) (v : V) (i : K) (m : List (K × V))
      → find rank i (insert rank k v m) ≡ (
          if eq_bytes (rank k) (rank i)
          then some (Option.get_or (find rank k m) v)
          else find rank i m)
  unfolding find insert
  find-insert k v i [] = ground (arith, compare_bytes (rank k) (rank i))
  find-insert k v i ((j, w) ∷ m) = elim (compare_bytes (rank k) (rank j)) [
    | below h1 h2 h3 ↦ elim (compare_bytes (rank k) (rank i)) [
      | below h4 h5 h6 ↦ ground arith
      | same h7 h8 h9 h10 ↦ ground arith
      | above h11 h12 h13 ↦ ground (arith, lex_less_trans (rank i) (rank k) (rank j))
    ]
    | same h14 h15 h16 e ↦ rw e (ground (arith, compare_bytes (rank j) (rank i)))
    | above h17 h18 h19 ↦ elim (compare_bytes (rank i) (rank j)) [
      | below h20 h21 h22 ↦
          ground
            (arith, lex_less_trans (rank i) (rank j) (rank k), eq_bytes_of_more (rank k) (rank i))
      | same h23 h24 h25 e ↦ rw e (ground arith)
      | above h26 h27 h28 ↦ ground (arith, find-insert k v i m)
    ]
  ]

  -- Looking up after erasing `k`: nothing for the keys equivalent to `k`, the rest as before.
  pub find-erase :
      (k i : K) (m : List (K × V))
      → IsSorted m
      → find rank i (erase rank k m) ≡ (if eq_bytes (rank k) (rank i) then none else find rank i m)
  unfolding find erase
  find-erase k i [] s = ground arith
  find-erase k i ((j, w) ∷ m) s = elim (compare_bytes (rank k) (rank j)) [
    | below h1 h2 h3 ↦ elim (compare_bytes (rank k) (rank i)) [
      | below h4 h5 h6 ↦ ground arith
      | same h7 h8 h9 e ↦ rw (← e) (ground arith)
      | above h10 h11 h12 ↦ ground (arith, lex_less_trans (rank i) (rank k) (rank j))
    ]
    | same h13 h14 h15 e ↦ rw e (elim (compare_bytes (rank j) (rank i)) [
      | below h16 h17 h18 ↦ ground arith
      | same h19 h20 h21 f ↦ ground (arith, find_at i (rank j) m f s.0)
      | above h22 h23 h24 ↦ ground (arith, find_below i (rank j) m)
    ])
    | above h25 h26 h27 ↦ elim (compare_bytes (rank i) (rank j)) [
      | below h28 h29 h30 ↦
          ground
            (arith, lex_less_trans (rank i) (rank j) (rank k), eq_bytes_of_more (rank k) (rank i))
      | same h31 h32 h33 e ↦ rw e (ground arith)
      | above h34 h35 h36 ↦ ground (arith, find-erase k i m s.1)
    ]
  ]

  Above-assign :
      (b : Bytes) (k : K) (v : V) (m : List (K × V))
      → lex_less b (rank k) ≡ true
      → Above b m
      → Above b (assign rank k v m)
  unfolding assign
  Above-assign b k v [] h s = (h, tt)
  Above-assign b k v ((j, w) ∷ m) h s = ground (arith, Above-assign b k v m h s.1)

  pub assign-IsSorted :
      (k : K) (v : V) (m : List (K × V)) → IsSorted m → IsSorted (assign rank k v m)
  unfolding assign
  assign-IsSorted k v [] s = (tt, tt)
  assign-IsSorted k v ((j, w) ∷ m) s = ground (
    arith,
    compare_bytes (rank k) (rank j),
    Above-trans (rank k) (rank j) m,
    Above-assign (rank j) k v m,
    assign-IsSorted k v m s.1,
  )

  Above-insert :
      (b : Bytes) (k : K) (v : V) (m : List (K × V))
      → lex_less b (rank k) ≡ true
      → Above b m
      → Above b (insert rank k v m)
  unfolding insert
  Above-insert b k v [] h s = (h, tt)
  Above-insert b k v ((j, w) ∷ m) h s = ground (arith, Above-insert b k v m h s.1)

  pub insert-IsSorted :
      (k : K) (v : V) (m : List (K × V)) → IsSorted m → IsSorted (insert rank k v m)
  unfolding insert
  insert-IsSorted k v [] s = (tt, tt)
  insert-IsSorted k v ((j, w) ∷ m) s = ground (
    arith,
    compare_bytes (rank k) (rank j),
    Above-trans (rank k) (rank j) m,
    Above-insert (rank j) k v m,
    insert-IsSorted k v m s.1,
  )

  Above-erase : (b : Bytes) (k : K) (m : List (K × V)) → Above b m → Above b (erase rank k m)
  unfolding erase
  Above-erase b k [] s = tt
  Above-erase b k ((j, w) ∷ m) s = ground (arith, Above-erase b k m s.1)

  pub erase-IsSorted : (k : K) (m : List (K × V)) → IsSorted m → IsSorted (erase rank k m)
  unfolding erase
  erase-IsSorted k [] s = tt
  erase-IsSorted k ((j, w) ∷ m) s =
      ground (arith, Above-erase (rank j) k m s.0, erase-IsSorted k m s.1)

  -- A lookup sees its key's rank only.
  pub find_same : (k j : K) (m : List (K × V)) → rank k ≡ rank j → find rank k m ≡ find rank j m
  unfolding find
  find_same k j [] e = refl
  find_same k j ((i, w) ∷ m) e = ground (arith, find_same k j m e)

  Above-last :
      (b : Bytes) (k : K) (v : V) (m rest : List (K × V))
      → Above b (m ++ (k, v) ∷ rest)
      → lex_less b (rank k) ≡ true
  Above-last b k v [] rest s = s.0
  Above-last b k v ((j, w) ∷ m) rest s = Above-last b k v m rest s.1

  -- A key above all others goes to the end.
  pub assign_last :
      (k : K) (v : V) (m rest : List (K × V))
      → IsSorted (m ++ (k, v) ∷ rest)
      → assign rank k v m ≡ m ++ (k, v) ∷ []
  unfolding assign
  assign_last k v [] rest s = refl
  assign_last k v ((j, w) ∷ m) rest s = ground (
    arith,
    Above-last (rank j) k v m rest s.0,
    lex_less_asymm (rank j) (rank k),
    assign_last k v m rest s.1,
  )
