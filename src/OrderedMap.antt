-- ===== src/OrderedMap.antt =====
-- std::map as a list sorted by its keys. Keys are compared through a rank, the bytes that the map's
-- comparator looks at: the identity for std::less<std::string>, the folded text for `nocase_less`.
pub mod Laws
use libstutter.Common.{Bool, true, false, List, [], ◌∷◌, Option, none, some, if◌then◌else◌}
use libstutter.Common.Bytes.{Bytes, lex_less}

module _ {ℓ κ} {K : Type ℓ} {V : Type κ} (rank : K → Bytes) where
  -- find: an entry whose key is neither below nor above.
  unfoldable pub find : K → List (K × V) → Option V
  find k [] = none
  find k ((j, w) ∷ m) =
      if lex_less (rank k) (rank j)
      then none
      else if lex_less (rank j) (rank k)
      then find k m
      else some w

  -- m[k] = v: an equivalent key that is there keeps its spelling.
  unfoldable pub assign : K → V → List (K × V) → List (K × V)
  assign k v [] = (k, v) ∷ []
  assign k v ((j, w) ∷ m) =
      if lex_less (rank k) (rank j)
      then (k, v) ∷ (j, w) ∷ m
      else if lex_less (rank j) (rank k)
      then (j, w) ∷ assign k v m
      else (j, v) ∷ m

  -- m.insert(make_pair(k, v)): an equivalent key that is there keeps its value.
  unfoldable pub insert : K → V → List (K × V) → List (K × V)
  insert k v [] = (k, v) ∷ []
  insert k v ((j, w) ∷ m) =
      if lex_less (rank k) (rank j)
      then (k, v) ∷ (j, w) ∷ m
      else if lex_less (rank j) (rank k)
      then (j, w) ∷ insert k v m
      else (j, w) ∷ m

  -- erase(it) for the entry that `find` points at.
  unfoldable pub erase : K → List (K × V) → List (K × V)
  erase k [] = []
  erase k ((j, w) ∷ m) =
      if lex_less (rank k) (rank j)
      then (j, w) ∷ m
      else if lex_less (rank j) (rank k)
      then (j, w) ∷ erase k m
      else m
