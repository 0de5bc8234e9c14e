-- ===== src/Wire/Requests.antt =====
-- A request that a client has prepared, at the parser of a server.
use libstutter.Common.{
  inr, ◌+◌, ◌≤◌, ◌≡◌, refl, sym, ap, ◌∙◌, Bool, true, false, not, ◌&&◌, ◌||◌, List, [], ◌∷◌, ◌++◌,
  map, arith, All, length, length-append, append_assoc, append-nil,
}
use mathlib.Core.Path.{subst}
use libstutter.Common.Int.{pos, ltb_ℤ, is_neg}
use libstutter.Common.Bytes.{Bytes, eq_bytes, c_str}
use libstutter.OrderedMap.{find}
use libstutter.Decimal.{atol}
use libstutter.Body.{Body, new_body}
use libstutter.Body.Invariant.{new_body-IsBody}
use libstutter.Body.Content.{FileLaws}
use libstutter.Message.{
  Message, Headers, new_message, add_header, get_header, content_length, expect,
  one_hundred_continue,
}
use libstutter.Message.Laws.{HasSortedHeaders, same_name, get_header-add_header, Works}
use libstutter.Query
use libstutter.Request
use libstutter.Request.{Request, Verb, get, post, put, head, delete, new_request, prepare}
use libstutter.Request.Laws.{prepare-HasSortedHeaders}
use libstutter.Os.{Os}
use libstutter.Parser.{
  Parser, request, Head, Method, http_get, http_post, http_put, http_head, http_delete, verb_of,
  Event, on_url, on_body, on_headers_complete, on_message_complete, reset, max_upload_size,
  too_large, wants_100, check_request, add_url_fragment, url_fragment, complete, handle_event, run,
}
use libstutter.Parser.Headers.{concat}
use libstutter.Wire.{Cut, header_of, headers_events, message_events, with_headers, set_headers}
use libstutter.Wire.Pieces.{at_name, Accepts, Admits, run-headers_events}
use libstutter.Wire.Content.{with_headers_sorted, Kept, run-on_body}

-- A header that makes the parser mark no request: not a Content-Length that is negative or above the
-- limit, and not the expectation of a 100-continue.
abbrev pub acceptable : Bytes × Bytes → Bool
acceptable (key, val) =
    not (
      same_name key content_length && (is_neg (atol val) || ltb_ℤ (pos max_upload_size) (atol val)))
    && not (same_name key expect && eq_bytes val one_hundred_continue)

abbrev IsFine : Message → Type 0
IsFine m = (too_large m ≡ false) × (wants_100 m ≡ false)

add_header-IsFine :
    (m : Message) (key val : Bytes)
    → IsFine m
    → acceptable (key, val) ≡ true
    → IsFine (add_header m key val)
unfolding too_large wants_100
add_header-IsFine m key val f a =
    rw (get_header-add_header m key val content_length, get_header-add_header m key val expect)
      (ground arith)

IsFine-Accepts : (r : Request) → IsFine r.message → Accepts (request r)
unfolding check_request
IsFine-Accepts r f p = rw (f.0, f.1)

headers-Admits :
    (r : Request) (hs : Headers)
    → IsFine r.message
    → All (λ h. acceptable h ≡ true) hs
    → Admits (request r) hs
headers-Admits r [] f a = IsFine-Accepts r f
headers-Admits r ((key, val) ∷ hs) f a = (
  IsFine-Accepts r f,
  headers-Admits (record r { message = add_header r.message key val }) hs
      (add_header-IsFine r.message key val f a.0) a.1,
)

new_message-IsFine : IsFine new_message
unfolding too_large wants_100 atol get_header find eq_bytes c_str
new_message-IsFine = (refl, refl)

abbrev pub method_of : Verb → Method
method_of get = http_get
method_of post = http_post
method_of put = http_put
method_of head = http_head
method_of delete = http_delete

verb_of-method_of : (v u : Verb) → verb_of (method_of v) u ≡ v
verb_of-method_of get u = refl
verb_of-method_of post u = refl
verb_of-method_of put u = refl
verb_of-method_of head u = refl
verb_of-method_of delete u = refl

-- A request of which the URL has been read.
abbrev asked : Bytes → Request
asked url = record new_request { url = url }

-- What the server gets of `r`: the verb, the URL with its query string, the headers as they were
-- sent, and the body.
abbrev pub received : Request → Body → Request
received r b = record {
  message = record { headers = (prepare r).message.headers; output = []; body = b };
  verb = r.verb;
  url = r.url;
  host = [];
  query_string = Query.extract_query_string r.url [];
  require_100 = false;
}

module _ (os : Os) where
  open os use {World}

  url_piece :
      (w : World) (url at : Bytes)
      → length url + length at ≤ 4096
      → handle_event os w (at_name (request (asked url)) []) (on_url at)
        ≡ (w, at_name (request (asked (url ++ at))) [])
  unfolding handle_event add_url_fragment url_fragment Request.add_url_fragment
  url_piece w url at h = ground arith

  run-on_url :
      (w : World) (url : Bytes) (parts : List Bytes) (rest : List Event)
      → length (url ++ concat parts) ≤ 4096
      → run os w (at_name (request (asked url)) []) (map on_url parts ++ rest)
        ≡ run os w (at_name (request (asked (url ++ concat parts))) []) rest
  unfolding run
  run-on_url w url [] rest h =
      ap (λ u. run os w (at_name (request (asked u)) []) rest) (sym (append-nil url))
  run-on_url w url (at ∷ parts) rest h =
      let fits : length url + length at ≤ 4096 =
        omega (arith, length-append url (at ++ concat parts), length-append at (concat parts)) in
      ap (λ (s : World × Parser). run os s.0 s.1 (map on_url parts ++ rest))
        (url_piece w url at fits)
      ∙ run-on_url w (url ++ at) parts rest
          (subst (λ u. length u ≤ 4096) (sym (append_assoc url at (concat parts))) h)
      ∙ ap (λ u. run os w (at_name (request (asked u)) []) rest)
          (append_assoc url at (concat parts))

module _ (os : Os) (laws : FileLaws os) (works : Works os) where
  open os use {World}

  pub new_body-Kept : (w : World) → Kept os laws works w new_body []
  new_body-Kept w = record {
    file = λ h. cc;
    content = refl;
    valid = new_body-IsBody;
    spilled = λ h. cc;
    tidy = inr refl;
  }

  -- A request that a client has prepared reaches a server whole, however the library cuts it: if the
  -- library reports the method, the URL and the headers that were sent and some body, with the headers
  -- of the client in order, none of them one that makes the parser refuse the request, and the URL
  -- within MAX_URI_LENGTH, then the parser ends without a mark, and its request has the verb, the URL
  -- and the headers that were sent, the query string of the URL, and the body that was reported, in
  -- memory or in its file.
  -- It is supposed that temporary files can be made, and written while they are open.
  pub request_received :
      (w : World) (r : Request) (urls : List Bytes) (cuts : List Cut) (parts : List Bytes)
      (h : Head)
      → HasSortedHeaders r.message
      → concat urls ≡ r.url
      → length r.url ≤ 4096
      → map header_of cuts ≡ (prepare r).message.headers
      → All (λ c. acceptable c ≡ true) (prepare r).message.headers
      → h.method ≡ method_of r.verb
      → (w' : World) × (b : Body) × (run os w
            (reset (request new_request))
            (message_events urls cuts parts h)
          ≡ (w', at_name (request (received r b)) []))
        × Kept os laws works w' b (concat parts)
  unfolding run handle_event reset complete Request.extract_query_string Request.set_verb
  request_received w r urls cuts parts h sorted url short heads fine method =
      let hs = (prepare r).message.headers in
      let t = request (asked r.url) in
      let ending = on_message_complete h ∷ [] in
      let body_events = map on_body parts ++ ending in
      let head_events = headers_events cuts (on_headers_complete ∷ body_events) in
      let asked_url =
        run-on_url os w [] urls head_events (subst (λ u. length u ≤ 4096) (sym url) short)
        ∙ ap (λ u. run os w (at_name (request (asked u)) []) head_events) url in
      let admits =
        subst (Admits t) (sym heads) (headers-Admits (asked r.url) hs new_message-IsFine fine) in
      let all_headers =
        ap (with_headers t) heads ∙ with_headers_sorted t hs (prepare-HasSortedHeaders r sorted) in
      let (w', b, body, kept) =
        run-on_body os laws works w (set_headers t hs) parts [] ending (new_body-Kept w) in
      (
        w',
        b,
        asked_url
            ∙ run-headers_events os w t cuts body_events admits
            ∙ ap (λ u. run os w (at_name u []) body_events) all_headers
            ∙ body
            ∙ ap (λ v. (w', at_name (request (record (received r b) { verb = v })) []))
                (ap (λ m. verb_of m get) method ∙ verb_of-method_of r.verb get),
        kept,
      )
