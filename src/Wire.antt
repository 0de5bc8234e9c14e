-- ===== src/Wire.antt =====
-- A message as the http-parser library reports it to stutter/http/parser.cpp, and what the receiving
-- parser makes of it. The library may cut the URL, each name, each value and the body anywhere.
pub mod Pieces
pub mod Content
pub mod Requests
pub mod Replies
pub mod Served
pub mod Again
pub mod Pipeline
pub mod Reads
pub mod Rounds
pub mod Exec
pub mod Session
pub mod Exchange
use libstutter.Common.{List, [], ◌∷◌, ◌++◌, map}
use libstutter.Common.Bytes.{Bytes}
use libstutter.Body.{Body}
use libstutter.Parser.Headers.{concat}
use libstutter.Message.{Headers, add_header}
use libstutter.Parser.{
  Target, Head, Event, on_url, on_header_field, on_header_value, on_body, on_headers_complete,
  on_message_complete, msg, set_msg,
}

-- One header in pieces: those of its name and those of its value, one of each at least.
pub record Cut : Type 0 where
  pub name : Bytes
  pub names : List Bytes
  pub value : Bytes
  pub values : List Bytes

abbrev pub header_of : Cut → Bytes × Bytes
header_of c = (c.name ++ concat c.names, c.value ++ concat c.values)

abbrev pub header_events : Cut → List Event → List Event
header_events c rest =
    on_header_field c.name
    ∷ (map on_header_field c.names
        ++ (on_header_value c.value ∷ (map on_header_value c.values ++ rest)))

abbrev pub headers_events : List Cut → List Event → List Event
headers_events [] rest = rest
headers_events (c ∷ cuts) rest = header_events c (headers_events cuts rest)

-- The calls for a whole message; a reply has no URL.
abbrev pub message_events : List Bytes → List Cut → List Bytes → Head → List Event
message_events urls cuts parts h =
    map on_url urls
    ++ headers_events cuts
        (on_headers_complete ∷ (map on_body parts ++ (on_message_complete h ∷ [])))

-- A message to which headers are added in order.
abbrev pub with_header : Target → Bytes × Bytes → Target
with_header t (key, val) = set_msg t (add_header (msg t) key val)

abbrev pub with_headers : Target → Headers → Target
with_headers t [] = t
with_headers t (h ∷ hs) = with_headers (with_header t h) hs

-- A message with other headers or another body.
abbrev pub set_headers : Target → Headers → Target
set_headers t hs = set_msg t (record (msg t) { headers = hs })

abbrev pub set_body : Target → Body → Target
set_body t b = set_msg t (record (msg t) { body = b })
