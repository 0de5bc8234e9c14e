-- ===== src/Dispatcher.antt =====
-- stutter/dispatcher.cpp: the routes, tried in the order in which they were added.
pub mod Laws
use libstutter.Common.{
  ℕ, Bool, true, List, [], ◌∷◌, ◌++◌, Option, none, some, leb, length, take, if◌then◌else◌, ◌&&◌,
}
use libstutter.Common.Bytes.{Bytes, eq_bytes}

pub record Dispatcher {ℓ} (H : Type ℓ) : Type ℓ where
  pub handlers : List (Bytes × H)

-- The route's size is at most the URL's, and the first bytes compare equal.
unfoldable pub matches : Bytes → Bytes → Bool
matches route url = leb (length route) (length url) && eq_bytes route (take (length route) url)

module _ {ℓ} {H : Type ℓ} where
  -- A dispatcher as its default constructor leaves it.
  abbrev pub empty : Dispatcher H
  empty = record { handlers = [] }

  unfoldable pub add : Dispatcher H → Bytes → H → Dispatcher H × Bool
  add d prefix b = (record { handlers = d.handlers ++ (prefix, b) ∷ [] }, true)

  unfoldable pub scan : Bytes → List (Bytes × H) → Option H
  scan url [] = none
  scan url ((route, h) ∷ rest) = if matches route url then some h else scan url rest

  unfoldable pub get : Dispatcher H → Bytes → Option H
  unfolding scan
  get d url = scan url d.handlers
