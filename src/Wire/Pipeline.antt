-- ===== src/Wire/Pipeline.antt =====
-- Several requests on one connection.
use libstutter.Common.{
  ◌≤◌, ◌≡◌, true, false, List, [], ◌∷◌, ◌++◌, map, Option, none, some, All, length, ◌⊎◌,
}
use libstutter.Common.Bytes.{Bytes}
use libstutter.Os.{Os}
use libstutter.Io.{Strategy}
use libstutter.Dispatcher
use libstutter.Dispatcher.{Dispatcher}
use libstutter.Body.{Body}
use libstutter.Body.Content.{FileLaws}
use libstutter.Message.Laws.{HasSortedHeaders, Works}
use libstutter.Request.{Request, new_request, prepare}
use libstutter.Reply.{Reply}
use libstutter.Parser.{Head, Event, request, reset, run}
use libstutter.Parser.Headers.{concat}
use libstutter.Connection.{Connection, Handler, io_error, feed}
use libstutter.Wire.{Cut, header_of, message_events}
use libstutter.Wire.Pieces.{at_name}
use libstutter.Wire.Content.{Kept, IsTidy}
use libstutter.Wire.Requests.{acceptable, method_of, received}
use libstutter.Wire.Served.{handled, reply_sent}

-- A request, what the library makes of its bytes, and the handler that is to get it.
pub record Sent (os : Os) (io : Strategy os) : Type 0 where
  pub sent : Request
  pub urls : List Bytes
  pub cuts : List Cut
  pub parts : List Bytes
  pub head : Head
  pub handler : Handler os io

-- The conditions under which a request is served, and the handler leaves the body a file of its own
-- or none.
pub record IsSent (os : Os) (io : Strategy os) (router : Dispatcher (Handler os io))
    (s : Sent os io) : Type 0 where
  pub found : Dispatcher.get router s.sent.url ≡ some s.handler
  pub sorted : HasSortedHeaders s.sent.message
  pub url : concat s.urls ≡ s.sent.url
  pub short : length s.sent.url ≤ 4096
  pub heads : map header_of s.cuts ≡ (prepare s.sent).message.headers
  pub fine : All (λ x. acceptable x ≡ true) (prepare s.sent).message.headers
  pub method : s.head.method ≡ method_of s.sent.verb
  pub keeps :
      (w : os.World) (req : Request) (rep : Reply)
      → IsTidy req.message.body
      → IsTidy (s.handler w req rep).1.message.body

abbrev pub all_events : {os : Os} {io : Strategy os} → List (Sent os io) → List Event
all_events [] = []
all_events (s ∷ more) = message_events s.urls s.cuts s.parts s.head ++ all_events more

module _ (os : Os) (io : Strategy os) where
  open os use {World}

  abbrev after :
      Dispatcher (Handler os io)
      → List Event
      → Option (World × Connection)
      → Option (World × Connection)
  after router es none = none
  after router es (some (w, c)) = feed os io w c router es

module _ (os : Os) (io : Strategy os) (laws : FileLaws os) (works : Works os) where
  open os use {World}

  -- The calls of the first request bring the parser to what was sent, its handler is called, and
  -- `result` is what the other calls make of the connection that it leaves. If the reply goes out, the
  -- connection waits again, and the same holds of the next request.
  abbrev pub Answered :
      World
      → Connection
      → Dispatcher (Handler os io)
      → List (Sent os io)
      → Option (World × Connection)
      → Type 0
  Answered w c router [] result = result ≡ some (w, c)
  Answered w c router (s ∷ more) result =
      let (w', p) = run os w c.parser (message_events s.urls s.cuts s.parts s.head) in
      (b : Body) × (p ≡ at_name (request (received s.sent b)) [])
      × Kept os laws works w' b (concat s.parts)
      × (let (w'', c') = handled os io w' c s.handler s.head (received s.sent b) in
          (result ≡ feed os io w'' c' router (all_events more))
          × (let sent = reply_sent os io w' c s.handler s.head (received s.sent b) in
              ((sent ≡ false) × (c'.state ≡ io_error))
              ⊎ ((sent ≡ true)
                  × (c'.parser ≡ reset (request new_request))
                  × Answered w'' c' router more result)))
