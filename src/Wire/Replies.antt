-- ===== src/Wire/Replies.antt =====
-- A reply that a server has prepared, at the parser of a client.
use mathlib.Core.Option
use libstutter.Common.{◌≡◌, refl, ap, ◌∙◌, List, [], ◌∷◌, ◌++◌, map, Option, some, none, arith}
use libstutter.Common.Bytes.{Bytes, fold_case, compare_bytes, below, same, above}
use libstutter.OrderedMap.{find, assign}
use libstutter.OrderedMap.Laws.{IsSorted, find-assign, find_at, find_below}
use libstutter.Body.Content.{FileLaws}
use libstutter.Message.{Headers, add_header, get_header}
use libstutter.Message.Laws.{HasSortedHeaders, Works}
use libstutter.Reply
use libstutter.Reply.{Reply, prepare}
use libstutter.Reply.Laws.{prepare-HasSortedHeaders}
use libstutter.Os.{Os}
use libstutter.Parser.{
  response, Head, on_body, on_message_complete, reset, check_request, complete, handle_event, run,
}
use libstutter.Parser.Headers.{concat}
use libstutter.Wire.{Cut, header_of, message_events, with_headers, set_headers}
use libstutter.Wire.Pieces.{at_name, Admits, run-headers_events}
use libstutter.Wire.Content.{Kept, run-on_body}

-- Headers that are added one after the other.
abbrev pub add_all : Headers → Headers → Headers
add_all m [] = m
add_all m ((key, val) ∷ hs) = add_all (assign fold_case key val m) hs

with_headers-add_all :
    (r : Reply) (hs : Headers)
    → with_headers (response r) hs ≡ set_headers (response r) (add_all r.message.headers hs)
unfolding add_header
with_headers-add_all r [] = refl
with_headers-add_all r ((key, val) ∷ hs) =
    with_headers-add_all (record r { message = add_header r.message key val }) hs

headers-Admits : (r : Reply) (hs : Headers) → Admits (response r) hs
unfolding check_request
headers-Admits r [] = λ p. refl
headers-Admits r ((key, val) ∷ hs) =
    (λ p. refl, headers-Admits (record r { message = add_header r.message key val }) hs)

-- A name is found among headers that are added, or was there before.
find-add_all :
    (m hs : Headers) (name : Bytes)
    → IsSorted fold_case hs
    → find fold_case name (add_all m hs)
      ≡ Option.get_or (Option.map some (find fold_case name hs)) (find fold_case name m)
unfolding find
find-add_all m [] name s = refl
find-add_all m ((key, val) ∷ hs) name s =
    find-add_all (assign fold_case key val m) hs name s.1
    ∙ elim (compare_bytes (fold_case key) (fold_case name)) [
      | below h1 h2 h3 ↦ ground (arith, find-assign fold_case key val name m)
      | same h4 h5 h6 e ↦ ground (
        arith,
        find-assign fold_case key val name m,
        find_at fold_case name (fold_case key) hs e s.0,
      )
      | above h7 h8 h9 ↦ ground (
        arith,
        find-assign fold_case key val name m,
        find_below fold_case name (fold_case key) hs h8 s.0,
      )
    ]

get_or_twice :
    (o x : Option Bytes)
    → Option.get_or (Option.get_or (Option.map some o) x) [] ≡ Option.get_or o (Option.get_or x [])
get_or_twice none x = refl
get_or_twice (some v) x = refl

module _ (os : Os) (laws : FileLaws os) (works : Works os) where
  open os use {World}

  -- A reply that a server has prepared reaches a client whole, however the library cuts it: if the
  -- library reports the headers that were sent, some status and some body, to a parser whose reply
  -- may have a body already, and the headers of the server are in order, then the parser ends without
  -- a mark, and its reply has that status, that body behind what it had, in memory or in its file,
  -- every header that was sent under every spelling of its name, and its other headers as they were.
  -- It is supposed that temporary files can be made, and written while they are open.
  pub reply_received :
      (w : World) (r into : Reply) (cuts : List Cut) (parts : List Bytes) (h : Head) (known : Bytes)
      → HasSortedHeaders r.message
      → map header_of cuts ≡ (prepare r).message.headers
      → Kept os laws works w into.message.body known
      → (w' : World) × (got : Reply) × (run os w
            (reset (response into))
            (message_events [] cuts parts h)
          ≡ (w', at_name (response got) []))
        × (got.code ≡ h.status_code)
        × Kept os laws works w' got.message.body (known ++ concat parts)
        × ((name : Bytes)
            → get_header got.message name
              ≡ Option.get_or
                  (find fold_case name (prepare r).message.headers)
                  (get_header into.message name))
  unfolding run handle_event reset complete Reply.set_status get_header
  reply_received w r into cuts parts h known sorted heads held =
      let hs = (prepare r).message.headers in
      let t = response into in
      let ending = on_message_complete h ∷ [] in
      let body_events = map on_body parts ++ ending in
      let headed = set_headers t (add_all into.message.headers hs) in
      let (w', b, body, kept) = run-on_body os laws works w headed parts known ending held in
      (
        w',
        record into {
          message = record into.message { headers = add_all into.message.headers hs; body = b };
          code = h.status_code;
          status = [];
        },
        run-headers_events os w t cuts body_events (headers-Admits into (map header_of cuts))
            ∙ ap (λ u. run os w (at_name u []) body_events)
                (ap (with_headers t) heads ∙ with_headers-add_all into hs)
            ∙ body,
        refl,
        kept,
        λ name.
            ap (λ o. Option.get_or o [])
              (find-add_all into.message.headers hs name (prepare-HasSortedHeaders r sorted))
            ∙ get_or_twice (find fold_case name hs) (find fold_case name into.message.headers),
      )
