-- ===== src/Search.antt =====
-- std::string::find_first_of for one byte, and substr.
pub mod Laws
use libstutter.Common.{
  ℕ, suc, ◌+◌, ◌==◌, List, [], ◌∷◌, Option, none, some, take, drop, if◌then◌else◌,
}
use mathlib.Core.Option
use libstutter.Common.Bytes.{Bytes}

unfoldable pub index_of : ℕ → Bytes → Option ℕ
index_of c [] = none
index_of c (x ∷ s) = if x == c then some 0 else Option.map suc (index_of c s)

-- s.find_first_of(c, from), `none` for npos.
unfoldable pub find_first_of : Bytes → ℕ → ℕ → Option ℕ
unfolding index_of
find_first_of s c from = Option.map (λ i. from + i) (index_of c (drop from s))

-- s.substr(pos, n), for a position within the string.
abbrev pub substr : Bytes → ℕ → ℕ → Bytes
substr s pos n = take n (drop pos s)
