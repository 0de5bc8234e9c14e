-- ===== src/Message.antt =====
-- stutter/http/message.cpp: what a request and a reply share.
pub mod Laws
use mathlib.Core.Option
use libstutter.Common.{
  ℕ, zero, suc, Bool, true, false, List, [], ◌∷◌, ◌++◌, Option, none, some, length, drop,
  if◌then◌else◌,
}
use libstutter.Common.Int.{ℤ, is_pos, pos_part}
use libstutter.Common.Bytes.{Bytes, codes, fold_case}
use libstutter.Decimal.{print_int}
use libstutter.OrderedMap.{find, assign, erase}
use libstutter.Body
use libstutter.Body.{Body, new_body}
use libstutter.Os.{Os}

-- std::map<string, string, nocase_less>.
abbrev pub Headers : Type 0
Headers = List (Bytes × Bytes)

-- `output` is the vector m_data, the bytes to send.
pub record Message : Type 0 where
  pub headers : Headers
  pub output : Bytes
  pub body : Body

abbrev pub new_message : Message
new_message = record { headers = []; output = []; body = new_body }

-- The header names and values that the program uses.
abbrev pub expect : Bytes
expect = codes "Expect"

abbrev pub content_length : Bytes
content_length = codes "Content-Length"

abbrev pub host_name : Bytes
host_name = codes "Host"

abbrev pub connec : Bytes
connec = codes "Connection"

abbrev pub keep_alive : Bytes
keep_alive = codes "keep-alive"

abbrev pub one_hundred_continue : Bytes
one_hundred_continue = codes "100-continue"

abbrev pub close : Bytes
close = codes "Close"

abbrev pub crlf : Bytes
crlf = codes "\r\n"

unfoldable pub add_header : Message → Bytes → Bytes → Message
add_header m key val = record m { headers = assign fold_case key val m.headers }

unfoldable pub add_header_int : Message → Bytes → ℤ → Message
unfolding add_header
add_header_int m key val = add_header m key (print_int val)

unfoldable pub get_header : Message → Bytes → Bytes
get_header m key = Option.get_or (find fold_case key m.headers) []

unfoldable pub del_header : Message → Bytes → Message × Bool
del_header m key = elim (find fold_case key m.headers) [
  | none ↦ (m, false)
  | some val ↦ (record m { headers = erase fold_case key m.headers }, true)
]

-- The loop that both prepare() methods run over the headers.
unfoldable pub render : Headers → Bytes
render [] = []
render ((key, val) ∷ rest) = key ++ codes ": " ++ val ++ crlf ++ render rest

module _ (os : Os) where
  open os use {World}

  -- The loop of add_body, with the bytes that are left; each round takes one byte or more.
  unfoldable pub add_rest : ℕ → World → Body → Bytes → World × Body × Bytes
  add_rest zero w b rest = (w, b, rest)
  add_rest (suc fuel) w b [] = (w, b, [])
  add_rest (suc fuel) w b (c ∷ rest) =
      let (w', b', added) = Body.add os w b (c ∷ rest) in
      let more = add_rest fuel w' b' (drop (pos_part added) (c ∷ rest)) in
      if is_pos added then more else (w', b', c ∷ rest)

  -- add_body, with the bytes that it gave up on.
  unfoldable pub add_body : World → Message → Bytes → World × Message × Bytes
  unfolding add_rest
  add_body w m p =
      let (w', b, left) = add_rest (length p) w m.body p in (w', record m { body = b }, left)

  -- Message(const Message &): the bytes to send are not copied.
  unfoldable pub copy : World → Message → World × Message
  copy w m =
      let (w', b) = Body.copy os w m.body in
      (w', record { headers = m.headers; output = []; body = b })

  unfoldable pub reset : World → Message → World × Message
  reset w m =
      let (w', b) = Body.clear os w m.body in (w', record { headers = []; output = []; body = b })
