-- ===== src/IntSet.antt =====
-- std::set<int> as a strictly rising list.
pub mod Laws
use libstutter.Common.{ℕ, Bool, false, List, [], ◌∷◌, Option, none, some, if◌then◌else◌, ◌||◌}
use libstutter.Common.Int.{ℤ, ltb_ℤ, eqb_ℤ}

-- find(k) != end().
unfoldable pub contains : ℤ → List ℤ → Bool
contains k [] = false
contains k (x ∷ s) = eqb_ℤ k x || contains k s

unfoldable pub insert : ℤ → List ℤ → List ℤ
insert k [] = k ∷ []
insert k (x ∷ s) = if ltb_ℤ k x then k ∷ x ∷ s else if ltb_ℤ x k then x ∷ insert k s else x ∷ s

unfoldable pub erase : ℤ → List ℤ → List ℤ
erase k [] = []
erase k (x ∷ s) = if ltb_ℤ k x then x ∷ s else if ltb_ℤ x k then x ∷ erase k s else s
