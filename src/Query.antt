-- ===== src/Query.antt =====
-- Request::extract_query_string of stutter/http/request.cpp.
pub mod Laws
use mathlib.Core.Option
use libstutter.Common.{
  ℕ, zero, suc, ◌+◌, ◌-◌, ◌==◌, List, [], ◌∷◌, Option, none, some, length, if◌then◌else◌,
}
use libstutter.Common.Bytes.{Bytes}
use libstutter.OrderedMap.{insert}
use libstutter.Search.{index_of, find_first_of, substr}

-- std::map<string, string>.
abbrev pub QueryString : Type 0
QueryString = List (Bytes × Bytes)

abbrev pub same_text : Bytes → Bytes
same_text s = s

-- The search for an equal sign at the offsets below pair_sz, and what follows from it.
unfoldable pub add_pair : Bytes → ℕ → ℕ → QueryString → QueryString
unfolding index_of insert
add_pair url first pair_sz q = elim (index_of b'=' (substr url (first + 1) pair_sz)) [
  | none ↦ insert same_text (substr url (first + 1) pair_sz) [] q
  | some i ↦
      if i == 0
      then q
      else insert same_text (substr url (first + 1) i)
          (substr url (first + 1 + i + 1) (pair_sz - i - 1)) q
]

-- The rounds of the while loop, from a separator on; `none` for npos ends it.
unfoldable pub query_loop : ℕ → Bytes → Option ℕ → QueryString → QueryString
query_loop zero url first q = q
query_loop (suc fuel) url none q = q
query_loop (suc fuel) url (some first) q =
    let next = find_first_of url b'&' (first + 1) in
    let pair_sz = Option.get_or next (length url) - first - 1 in
    query_loop fuel url next (add_pair url first pair_sz q)

-- Each round moves `first` on, so the length of the URL bounds their number.
unfoldable pub extract_query_string : Bytes → QueryString → QueryString
unfolding query_loop find_first_of add_pair
extract_query_string url q = query_loop (suc (length url)) url (find_first_of url b'?' 0) q
