-- ===== src/Parser.antt =====
-- stutter/http/parser.cpp: what the callbacks of the http-parser library do to a message. The library
-- is not modelled: the calls that it makes while it reads some bytes are an argument, any list of
-- `Event`. It goes on after every callback, as all of them return 0.
pub mod Limits
pub mod Headers
use mathlib.Core.Option
use libstutter.Common.{
  ℕ, ◌+◌, ◌*◌, ◌==◌, Bool, true, false, List, [], ◌∷◌, ◌++◌, ltb, length, if◌then◌else◌, ◌||◌, ◌&&◌,
}
use libstutter.Common.Int.{ℤ, pos, ltb_ℤ, is_neg}
use libstutter.Common.Bytes.{Bytes, eq_bytes}
use libstutter.Decimal.{atol}
use libstutter.Message
use libstutter.Message.{
  Message, add_header, get_header, content_length, expect, one_hundred_continue,
}
use libstutter.Request
use libstutter.Request.{Request, Verb}
use libstutter.Reply
use libstutter.Reply.{Reply}
use libstutter.Os.{Os}

abbrev pub max_upload_size : ℕ
max_upload_size = 1024 * 1024

abbrev pub max_uri_length : ℕ
max_uri_length = 4096

-- The methods that callback() tells apart.
pub data Method : Type 0 where
  http_get http_post http_put http_head http_delete http_other : Method

-- The fields of http_parser that the program reads; the library refuses a status above 999, so that a
-- short has room for it.
pub record Head : Type 0 where
  pub method : Method
  pub status_code : ℤ
  pub http_major : ℤ
  pub http_minor : ℤ

-- A callback of the library, with the bytes that it passes or the fields as they are then.
pub data Event : Type 0 where
  on_url on_header_field on_header_value on_body : Bytes → Event
  on_headers_complete : Event
  on_message_complete : Head → Event

pub data Error : Type 0 where
  parse_ok parse_failure parse_need_100_continue : Error
  parse_body_too_large parse_uri_too_long parse_handler_failure : Error

-- The mode, with the object that m_request or m_reply points to.
pub data Target : Type 0 where
  request : Request → Target
  response : Reply → Target

-- HTTP_REQUEST and HTTP_RESPONSE, the two languages of the library.
pub data Kind : Type 0 where
  http_request http_response : Kind

-- `kind` is what the library was last told to read, by http_parser_init.
pub record Parser : Type 0 where
  pub target : Target
  pub kind : Kind
  pub error : Error
  pub header_key : Bytes
  pub header_val : Bytes
  pub header_gotval : Bool

-- What http_parser_init is called with, for the mode.
abbrev pub kind_of : Target → Kind
kind_of (request r) = http_request
kind_of (response r) = http_response

-- reset(), and what the constructors leave.
unfoldable pub reset : Target → Parser
reset t = record {
  target = t;
  kind = kind_of t;
  error = parse_ok;
  header_key = [];
  header_val = [];
  header_gotval = false;
}

-- *m_msg, and a change made through the pointer.
abbrev pub msg : Target → Message
msg (request r) = r.message
msg (response r) = r.message

abbrev pub set_msg : Target → Message → Target
set_msg (request r) m = request (record r { message = m })
set_msg (response r) m = response (record r { message = m })

abbrev pub is_too_large : Error → Bool
is_too_large parse_body_too_large = true
is_too_large _ = false

abbrev pub is_too_long : Error → Bool
is_too_long parse_uri_too_long = true
is_too_long _ = false

-- The header that is complete goes into the message.
unfoldable pub flush_header : Parser → Parser
flush_header p =
    if p.header_gotval
    then record p {
      target = set_msg p.target (add_header (msg p.target) p.header_key p.header_val);
      header_key = [];
      header_val = [];
      header_gotval = false;
    }
    else p

-- sz < 0 || sz > MAX_UPLOAD_SIZE.
unfoldable pub too_large : Message → Bool
too_large m =
    let sz = atol (get_header m content_length) in is_neg sz || ltb_ℤ (pos max_upload_size) sz

unfoldable pub wants_100 : Message → Bool
wants_100 m = eq_bytes (get_header m expect) one_hundred_continue

unfoldable pub check_request : Parser → Target → Error
check_request p (request r) =
    if too_large r.message
    then parse_body_too_large
    else if wants_100 r.message
    then parse_need_100_continue
    else p.error
check_request p (response r) = p.error

unfoldable pub save_last_header : Parser → Parser
save_last_header p = let p' = flush_header p in record p' { error = check_request p' p'.target }

-- A URL fragment is kept if the whole stays within the limit.
unfoldable pub url_fragment : Parser → Target → Bytes → Parser
unfolding Request.add_url_fragment
url_fragment p (request r) at =
    if is_too_long p.error
    then p
    else if ltb max_uri_length (length r.url + length at)
    then record p { error = parse_uri_too_long }
    else record p { target = request (Request.add_url_fragment r at) }
url_fragment p (response r) at = p

unfoldable pub add_url_fragment : Parser → Bytes → Parser
add_url_fragment p at = url_fragment p p.target at

abbrev pub verb_of : Method → Verb → Verb
verb_of http_get v = Verb.get
verb_of http_post v = Verb.post
verb_of http_put v = Verb.put
verb_of http_head v = Verb.head
verb_of http_delete v = Verb.delete
verb_of http_other v = v

-- extract_query_string() and the first half of callback().
unfoldable pub complete : Head → Target → Target
unfolding Request.extract_query_string Request.set_verb Reply.set_status
complete h (request r) =
    let r' = Request.extract_query_string r in
    request (Request.set_verb r' (verb_of h.method r'.verb))
complete h (response r) = response (Reply.set_status r h.status_code [])

module _ (os : Os) where
  open os use {World}

  unfoldable pub add_body_fragment : World → Parser → Bytes → World × Parser
  add_body_fragment w p at =
      let (w', m, left) = Message.add_body os w (msg p.target) at in
      if is_too_large p.error then (w, p) else (w', record p { target = set_msg p.target m })

  -- The callbacks; on_message_complete is what it does before it calls m_fun.
  unfoldable pub handle_event : World → Parser → Event → World × Parser
  handle_event w p (on_url at) = (w, add_url_fragment p at)
  handle_event w p (on_header_field at) =
      let p' = save_last_header p in (w, record p' { header_key = p'.header_key ++ at })
  handle_event w p (on_header_value at) =
      (w, record p { header_val = p.header_val ++ at; header_gotval = true })
  handle_event w p (on_body at) = add_body_fragment w p at
  handle_event w p on_headers_complete = (w, save_last_header p)
  handle_event w p (on_message_complete h) = (w, record p { target = complete h p.target })

  -- The calls of the library in a row, without those of m_fun.
  unfoldable pub run : World → Parser → List Event → World × Parser
  run w p [] = (w, p)
  run w p (e ∷ events) = let (w', p') = handle_event w p e in run w' p' events

-- What callback() does with the answer of m_fun.
unfoldable pub note_answer : Bool → Parser → Parser
note_answer answer p = if answer then p else record p { error = parse_handler_failure }

-- What add() returns: the library must have read all `sz` bytes.
unfoldable pub add_result : ℕ → ℕ → Parser → Error
add_result nparsed sz p = if nparsed == sz then p.error else parse_failure
