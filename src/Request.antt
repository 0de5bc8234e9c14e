-- ===== src/Request.antt =====
-- stutter/http/request.cpp.
pub mod Laws
use libstutter.Common.{Bool, true, false, List, [], ◌++◌, if◌then◌else◌}
use libstutter.Common.Int.{to_int32}
use libstutter.Common.Bytes.{Bytes, codes, eq_bytes}
use libstutter.Message
use libstutter.Message.{
  Message, new_message, host_name, content_length, expect, one_hundred_continue, crlf, add_header,
  add_header_int, get_header, render,
}
use libstutter.Body
use libstutter.Query
use libstutter.Query.{QueryString}
use libstutter.Os.{Os}

pub data Verb : Type 0 where
  get post put head delete : Verb

pub record Request : Type 0 where
  pub message : Message
  pub verb : Verb
  pub url : Bytes
  pub host : Bytes
  pub query_string : QueryString
  pub require_100 : Bool

-- Request().
abbrev pub new_request : Request
new_request = record {
  message = new_message;
  verb = get;
  url = [];
  host = [];
  query_string = [];
  require_100 = false;
}

unfoldable pub add_url_fragment : Request → Bytes → Request
add_url_fragment r at = record r { url = r.url ++ at }

unfoldable pub extract_query_string : Request → Request
extract_query_string r = record r { query_string = Query.extract_query_string r.url r.query_string }

unfoldable pub set_url : Request → Bytes → Request
set_url r url = record r { url = url }

unfoldable pub set_host : Request → Bytes → Request
set_host r host = record r { host = host }

unfoldable pub set_verb : Request → Verb → Request
set_verb r v = record r { verb = v }

unfoldable pub verb_str : Verb → Bytes
verb_str get = codes "GET"
verb_str post = codes "POST"
verb_str put = codes "PUT"
verb_str head = codes "HEAD"
verb_str delete = codes "DELETE"

abbrev pub is_get : Verb → Bool
is_get get = true
is_get _ = false

-- The headers as prepare() sends them.
unfoldable pub own_headers : Request → Message
own_headers r =
    let m = add_header r.message host_name r.host in
    if is_get r.verb then m else add_header_int m content_length (to_int32 r.message.body.size)

-- The request line and the headers.
unfoldable pub head_text : Request → Message → Bytes
unfolding verb_str render
head_text r m =
    verb_str r.verb ++ codes " " ++ r.url ++ codes " HTTP/1.1" ++ crlf ++ render m.headers ++ crlf

abbrev pub expects_100 : Message → Bool
expects_100 m = eq_bytes (get_header m expect) one_hundred_continue

-- The text goes behind what m_data holds; the buffered body too, unless the client must wait.
unfoldable pub prepare : Request → Request
unfolding own_headers head_text
prepare r =
    let m = own_headers r in
    let text = m.output ++ head_text r m in
    let waits = expects_100 m in
    record r {
      message = record m { output = if waits then text else text ++ m.body.memory };
      require_100 = if waits then true else r.require_100;
    }

module _ (os : Os) where
  open os use {World}

  -- Request(const Request &): the host, the query string and the bytes to send are not copied.
  unfoldable pub copy : World → Request → World × Request
  copy w r =
      let (w', m) = Message.copy os w r.message in
      (
        w',
        record new_request { message = m; verb = r.verb; url = r.url; require_100 = r.require_100 },
      )

  unfoldable pub reset : World → Request → World × Request
  reset w r = let (w', m) = Message.reset os w r.message in (w', record new_request { message = m })
