-- ===== src/Wire/Served.antt =====
-- From a client's request() to the handler of a server.
use libstutter.Common.{
  ◌≡◌, refl, sym, ap, ◌∙◌, Bool, true, List, [], ◌∷◌, ◌++◌, map, Option, none, some, arith, All,
  ◌≤◌, length,
}
use mathlib.Core.Path.{subst}
use libstutter.Common.Bytes.{Bytes}
use libstutter.Dispatcher
use libstutter.Dispatcher.{Dispatcher}
use libstutter.Body.{Body}
use libstutter.Body.Content.{FileLaws}
use libstutter.Message.Laws.{HasSortedHeaders, Works}
use libstutter.Request.{Request, new_request, prepare}
use libstutter.Parser.{
  Parser, request, Head, Event, on_url, on_header_field, on_header_value, on_body,
  on_headers_complete, on_message_complete, reset, handle_event, note_answer, run, complete,
}
use libstutter.Parser.Headers.{concat}
use libstutter.Io.{Strategy}
use libstutter.Os.{Os}
use libstutter.Connection.{
  Connection, Handler, feed, on_event, deliver, process, answer, finish, close_old, close_asked,
}
use libstutter.Wire.{Cut, header_of, headers_events, message_events}
use libstutter.Wire.Pieces.{at_name}
use libstutter.Wire.Content.{Kept}
use libstutter.Wire.Requests.{acceptable, method_of, received, request_received}

-- The last call completes the message, and no other does.
abbrev pub Ends : Head → List Event → Type 0
Ends h [] = ⊥
Ends h (on_message_complete k ∷ rest) = (k ≡ h) × (rest ≡ [])
Ends h (on_url at ∷ rest) = Ends h rest
Ends h (on_header_field at ∷ rest) = Ends h rest
Ends h (on_header_value at ∷ rest) = Ends h rest
Ends h (on_body at ∷ rest) = Ends h rest
Ends h (on_headers_complete ∷ rest) = Ends h rest

-- Pieces in front of such calls.
map-Ends :
    (f : Bytes → Event) (h : Head) (parts : List Bytes) (rest : List Event)
    → ((at : Bytes) (es : List Event) → Ends h es → Ends h (f at ∷ es))
    → Ends h rest
    → Ends h (map f parts ++ rest)
map-Ends f h [] rest step e = e
map-Ends f h (at ∷ parts) rest step e = step at _ (map-Ends f h parts rest step e)

headers_events-Ends :
    (h : Head) (cuts : List Cut) (rest : List Event)
    → Ends h rest
    → Ends h (headers_events cuts rest)
headers_events-Ends h [] rest e = e
headers_events-Ends h (c ∷ cuts) rest e =
    map-Ends on_header_field h c.names _ (λ at es k. k)
      (map-Ends on_header_value h c.values _ (λ at es k. k) (headers_events-Ends h cuts rest e))

pub message_events-Ends :
    (urls : List Bytes) (cuts : List Cut) (parts : List Bytes) (h : Head)
    → Ends h (message_events urls cuts parts h)
message_events-Ends urls cuts parts h =
    map-Ends on_url h urls _ (λ at es k. k)
      (headers_events-Ends h cuts _ (map-Ends on_body h parts _ (λ at es k. k) (refl, refl)))

module _ (os : Os) (io : Strategy os) where
  open os use {World}

  -- What becomes of the answer.
  abbrev pub noted : Option (World × Connection × Bool) → Option (World × Connection)
  noted none = none
  noted (some (w, c, done)) = some (w, record c { parser = note_answer done c.parser })

  last_event :
      (w : World) (c : Connection) (router : Dispatcher (Handler os io)) (h : Head)
      → feed os io w c router (on_message_complete h ∷ [])
        ≡ noted (
            process os io w
              (record c {
                parser = record c.parser { target = complete h c.parser.target };
                head = h;
              })
              router)
  unfolding feed on_event deliver
  last_event w c router h = ground arith

  -- A whole message: the parser reads it, and process() answers.
  pub feed-run :
      (router : Dispatcher (Handler os io)) (es : List Event) (h : Head) (w : World)
      (c : Connection)
      → Ends h es
      → let (w', p) = run os w c.parser es in
        feed os io w c router es
        ≡ noted (process os io w' (record c { parser = p; head = h }) router)
  unfolding feed on_event run deliver handle_event
  feed-run router [] h w c e = absurd e
  feed-run router (on_message_complete k ∷ rest) h w c (same, last) =
      rw (same, last) (last_event w c router h)
  feed-run router (on_url at ∷ rest) h w c e = feed-run router rest h _ _ e
  feed-run router (on_header_field at ∷ rest) h w c e = feed-run router rest h _ _ e
  feed-run router (on_header_value at ∷ rest) h w c e = feed-run router rest h _ _ e
  feed-run router (on_body at ∷ rest) h w c e = feed-run router rest h _ _ e
  feed-run router (on_headers_complete ∷ rest) h w c e = feed-run router rest h _ _ e

  -- What the connection makes of a request that the handler `g` answers.
  abbrev pub handled : World → Connection → Handler os io → Head → Request → World × Connection
  handled w c g h r =
      let (w', req, rep) = g w r c.reply in
      let answered = record c { parser = at_name (request req) []; reply = rep; head = h } in
      let (w'', c', done) = finish os io w' (close_asked (close_old answered)) in
      (w'', record c' { parser = note_answer done c'.parser })

  -- Whether the reply of the handler `g` goes out.
  abbrev pub reply_sent : World → Connection → Handler os io → Head → Request → Bool
  reply_sent w c g h r =
      let (w', req, rep) = g w r c.reply in
      let answered = record c { parser = at_name (request req) []; reply = rep; head = h } in
      (finish os io w' (close_asked (close_old answered))).2

  -- What process() comes to when the router has a handler and the parser no mark.
  pub process_handled :
      (w : World) (c : Connection) (router : Dispatcher (Handler os io)) (g : Handler os io)
      (r : Request)
      → Dispatcher.get router r.url ≡ some g
      → let (w', req, rep) = g w r c.reply in
        process os io w (record c { parser = at_name (request r) [] }) router
        ≡ some (
            finish os io w' (
              close_asked
                (close_old (record c { parser = at_name (request req) []; reply = rep }))))
  unfolding process answer
  process_handled w c router g r found = rw (found, process)

module _ (os : Os) (io : Strategy os) (laws : FileLaws os) (works : Works os) where
  open os use {World}

  -- From request() to handler: a connection that waits for a request and is fed what a client has
  -- prepared, however the library cuts it, calls the handler that the router has for the URL, on the
  -- verb, the URL and the headers that were sent, the query string of the URL, and the body that the
  -- library reports, in memory or in its file; what the handler leaves is tested for an end of the
  -- connection, sent, and noted by the parser. The headers of the client are in order, the library
  -- reports the method, the URL and the headers that were sent, none of them makes the parser refuse
  -- the request, and the URL is within MAX_URI_LENGTH.
  -- It is supposed that temporary files can be made, and written while they are open.
  pub request_served :
      (w : World) (c : Connection) (router : Dispatcher (Handler os io)) (g : Handler os io)
      (r : Request) (urls : List Bytes) (cuts : List Cut) (parts : List Bytes) (h : Head)
      → c.parser ≡ reset (request new_request)
      → Dispatcher.get router r.url ≡ some g
      → HasSortedHeaders r.message
      → concat urls ≡ r.url
      → length r.url ≤ 4096
      → map header_of cuts ≡ (prepare r).message.headers
      → All (λ x. acceptable x ≡ true) (prepare r).message.headers
      → h.method ≡ method_of r.verb
      → let (w', p) = run os w c.parser (message_events urls cuts parts h) in
        (b : Body) × (p ≡ at_name (request (received r b)) [])
        × Kept os laws works w' b (concat parts)
        × (feed os io w c router (message_events urls cuts parts h)
            ≡ some (handled os io w' c g h (received r b)))
  request_served w c router g r urls cuts parts h waits found sorted url short heads fine method =
      let es = message_events urls cuts parts h in
      let (w₁, b, read, kept) =
        request_received os laws works w r urls cuts parts h sorted url short heads fine method in
      let read' = ap (λ p. run os w p es) waits ∙ read in
      let w' = (run os w c.parser es).0 in
      let parsed = ap (λ (x : World × Parser). x.1) read' in
      (
        b,
        parsed,
        subst (λ (x : World × Parser). Kept os laws works x.0 b (concat parts)) (sym read') kept,
        feed-run os io router es h w c (message_events-Ends urls cuts parts h)
            ∙ ap
                (λ (p : Parser).
                  noted os io (process os io w' (record c { parser = p; head = h }) router))
                parsed
            ∙ ap (noted os io)
                (process_handled os io w' (record c { head = h }) router g (received r b) found),
      )
