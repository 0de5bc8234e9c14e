-- ===== src/Wire/Session.antt =====
-- A session on one connection: requests that arrive in reads of their own, at exec().
use libstutter.Common.{◌≡◌, ◌≢◌, sym, ap, ◌∙◌, List, [], ◌∷◌, ◌++◌, ◌⊎◌}
use mathlib.Core.Path.{subst}
use libstutter.Os.{Os}
use libstutter.Io.{Strategy, halt}
use libstutter.Dispatcher.{Dispatcher}
use libstutter.Body.{Body}
use libstutter.Body.Content.{FileLaws}
use libstutter.Message.Laws.{Works}
use libstutter.Request.{Request, new_request}
use libstutter.Parser.{Parser, request, Head, Event, reset, msg, run}
use libstutter.Parser.Headers.{concat}
use libstutter.Connection.{
  Connection, ready_for_data, Handler, process, turn, after_feed, exec, Progress, going, halted,
  read_buffer_size,
}
use libstutter.Wire.{message_events}
use libstutter.Wire.Content.{Kept}
use libstutter.Wire.Pieces.{at_name}
use libstutter.Wire.Requests.{received, request_received, new_body-Kept}
use libstutter.Wire.Served.{Ends, noted, handled, process_handled, message_events-Ends}
use libstutter.Wire.Pipeline.{Sent, IsSent}
use libstutter.Wire.Rounds.{Divides, flatten-Split, rounds_run, rounds_run-same}
use libstutter.Wire.Exec.{Arrives, exec-Split}

abbrev pub events_of : {os : Os} {io : Strategy os} → Sent os io → List Event
events_of s = message_events s.urls s.cuts s.parts s.head

-- A request and the reads that it comes in.
abbrev pub Arriving : (os : Os) → Strategy os → Type 0
Arriving os io = Sent os io × List (List Event)

abbrev pub all_rounds : {os : Os} {io : Strategy os} → List (Arriving os io) → List (List Event)
all_rounds [] = []
all_rounds ((s, rounds) ∷ more) = rounds ++ all_rounds more

abbrev pub IsArriving :
    (os : Os) (io : Strategy os) → Dispatcher (Handler os io) → Arriving os io → Type 0
IsArriving os io router (s, rounds) = IsSent os io router s × Divides rounds (events_of s)

module _ (os : Os) (io : Strategy os) where
  open os use {World}

  abbrev processed :
      Connection → Dispatcher (Handler os io) → Head → World × Parser → Progress os io
  processed c router h (w, p) =
      after_feed os io (noted os io (process os io w (record c { parser = p; head = h }) router))

module _ (os : Os) (io : Strategy os) (laws : FileLaws os) (works : Works os) where
  open os use {World}

  -- The parser gets the request that was sent, and process() is called.
  pub request_parsed :
      (w : World) (c : Connection) (router : Dispatcher (Handler os io)) (s : Sent os io)
      (rounds : List (List Event))
      → c.parser ≡ reset (request new_request)
      → c.state ≡ ready_for_data
      → IsArriving os io router (s, rounds)
      → Arrives os io laws works w c router rounds
      → let (w', p) = rounds_run os io c.fd read_buffer_size w c.parser rounds in
        (b : Body) × (p ≡ at_name (request (received s.sent b)) [])
        × Kept os laws works w' b (concat s.parts)
        × (exec os io w c router rounds ≡ (
            let (w'', c') = handled os io w' c s.handler s.head (received s.sent b) in
            turn os io w'' c'))
  unfolding after_feed reset
  request_parsed w c router s rounds waits ready (v, d) a =
      let es = events_of s in
      let (w₁, b₁, read, kept) =
        request_received os laws works w s.sent s.urls s.cuts s.parts s.head v.sorted v.url v.short
          v.heads v.fine v.method in
      let split =
        flatten-Split s.head rounds d.last
          (subst (Ends s.head) (sym d.joined) (message_events-Ends s.urls s.cuts s.parts s.head)) in
      let (looped, readable) = exec-Split os io laws works s.head rounds w c router ready split a in
      let empty =
        subst (λ (p : Parser). Kept os laws works w (msg p.target).body []) (sym waits)
          (new_body-Kept os laws works w) in
      let (b, same, held) =
        rounds_run-same os io laws works c.fd read_buffer_size w w₁ c.parser _ rounds es []
          (concat s.parts) d.joined readable empty (ap (λ p. run os w p es) waits ∙ read) kept in
      let w' = (rounds_run os io c.fd read_buffer_size w c.parser rounds).0 in
      (
        b,
        same,
        held,
        looped
            ∙ ap (λ p. processed os io c router s.head (w', p)) same
            ∙ ap (λ o. after_feed os io (noted os io o))
                (process_handled os io w' (record c { head = s.head }) router s.handler
                  (received s.sent b) v.found),
      )

  -- The reads of the first request bring the parser to what was sent, its handler is called, and
  -- `p` is that the loop ends there, or what it makes of the other requests on the connection that
  -- this leaves.
  abbrev pub Replied : World → Connection → List (Arriving os io) → Progress os io → Type 0
  Replied w c [] p = p ≡ going w c
  Replied w c ((s, rounds) ∷ more) p =
      let (w', q) = rounds_run os io c.fd read_buffer_size w c.parser rounds in
      (b : Body) × (q ≡ at_name (request (received s.sent b)) [])
      × Kept os laws works w' b (concat s.parts)
      × (let (w'', c') = handled os io w' c s.handler s.head (received s.sent b) in
          ((c'.state ≢ ready_for_data) × (p ≡ halted w'' c' halt))
          ⊎ ((c'.state ≡ ready_for_data) × Replied w'' c' more p))
