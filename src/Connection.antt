-- ===== src/Connection.antt =====
-- stutter/http/connection.cpp: one client of the server. `none` is a fault, the call through the null
-- pointer that the router returns for a URL without a handler.
pub mod Lifecycle
pub mod Answer
pub mod Exec
pub mod Halts
pub mod Keeps
pub mod Waits
use libstutter.Common.{ℕ, Bool, true, false, List, [], ◌∷◌, Option, none, some, if◌then◌else◌, ◌&&◌}
use libstutter.Common.Int.{ℤ, pos, eqb_ℤ}
use libstutter.Common.Bytes.{Bytes, codes, eq_bytes}
use libstutter.Dispatcher
use libstutter.Dispatcher.{Dispatcher}
use libstutter.Body
use libstutter.Message.{connec, close, add_header, get_header}
use libstutter.Request
use libstutter.Request.{Request, new_request}
use libstutter.Reply
use libstutter.Reply.{Reply}
use libstutter.Parser
use libstutter.Parser.{
  Parser, Target, request, response, Head, Event, on_url, on_header_field, on_header_value, on_body,
  on_headers_complete, on_message_complete, Error, parse_ok, parse_body_too_large,
  parse_uri_too_long, complete, handle_event, note_answer,
}
use libstutter.Io.{Need, halt, Strategy, send_raw, send_buffered_body}
use libstutter.Os.{Os, Read}

abbrev pub read_buffer_size : ℕ
read_buffer_size = 4096

pub data State : Type 0 where
  ready_for_data need_100_continue io_error parse_error should_close : State

-- `head` is what http_major() and http_minor() read.
pub record Connection : Type 0 where
  pub fd : ℤ
  pub parser : Parser
  pub reply : Reply
  pub head : Head
  pub state : State

-- m_request, which the parser works on; it is never in the mode for responses.
abbrev pub request_of : Target → Request
request_of (request r) = r
request_of (response r) = new_request

abbrev pub is_ok : Error → Bool
is_ok parse_ok = true
is_ok _ = false

-- process_error: the status of the reply to a request that was not parsed.
unfoldable pub error_status : Error → Reply → Reply
unfolding Reply.set_status
error_status parse_body_too_large r =
    Reply.set_status r (pos 413) (codes "Request entity too large")
error_status parse_uri_too_long r = Reply.set_status r (pos 414) (codes "Request URI too long")
error_status _ r = Reply.set_status r (pos 400) (codes "Bad request")

-- Major and minor version 1.0.
unfoldable pub is_http_1_0 : Head → Bool
is_http_1_0 h = eqb_ℤ h.http_major (pos 1) && eqb_ℤ h.http_minor (pos 0)

unfoldable pub asks_close : Request → Bool
asks_close r = eq_bytes (get_header r.message connec) close

unfoldable pub say_close : Reply → Reply
say_close r = record r { message = add_header r.message connec close }

-- The two tests that end a connection after its reply.
unfoldable pub close_old : Connection → Connection
close_old c =
    if is_http_1_0 c.head
    then record c {
      state = should_close;
      reply = say_close (Reply.set_http_version c.reply (pos 1) (pos 0));
    }
    else c

unfoldable pub close_asked : Connection → Connection
close_asked c =
    if asks_close (request_of c.parser.target)
    then record c { state = should_close; reply = say_close c.reply }
    else c

module _ (os : Os) (io : Strategy os) where
  open os use {World}

  -- Connection(server, fd), where `h` is what http_parser_init leaves.
  unfoldable pub new_connection : World → ℤ → Head → World × Connection
  new_connection w fd h =
      let (w', rep) = Reply.new_reply os w in
      let p = Parser.reset (request new_request) in
      (w', record { fd = fd; parser = p; reply = rep; head = h; state = ready_for_data })

  -- ~Connection, with the bodies of its request and of its reply.
  unfoldable pub delete_connection : World → Connection → World
  delete_connection w c =
      let w₁ = os.close w c.fd in
      let w₂ = (Body.clear os w₁ c.reply.message.body).0 in
      (Body.clear os w₂ (request_of c.parser.target).message.body).0

  -- BaseHandler::handle, which may do IO and may change the request.
  abbrev pub Handler : Type 0
  Handler = World → Request → Reply → World × Request × Reply

  run_handler : World → Connection → Option Handler → Option (World × Connection)
  run_handler w c none = none
  run_handler w c (some h) =
      let (w', req, rep) = h w (request_of c.parser.target) c.reply in
      some (w', record c { parser = record c.parser { target = request req }; reply = rep })

  -- The first half of process(): what the reply is.
  unfoldable pub answer : World → Connection → Dispatcher Handler → Option (World × Connection)
  unfolding run_handler
  answer w c router =
      if is_ok c.parser.error
      then run_handler w c (Dispatcher.get router (request_of c.parser.target).url)
      else some (w, record c { state = parse_error; reply = error_status c.parser.error c.reply })

  -- send_headers loops over the bytes as send_raw does.
  unfoldable pub send_headers : World → Connection → Reply → World × Bool
  send_headers w c r = send_raw os io w c.fd r.message.output

  -- send, with the reply as prepare() leaves it.
  unfoldable pub send : World → Connection → Reply → World × Bool
  unfolding send_headers
  send w c r =
      let (w', ok) = send_headers w c (Reply.prepare r) in
      if ok then send_buffered_body os io w' c.fd (Reply.prepare r).message.body else (w', false)

  -- The objects for the next request.
  unfoldable pub renew : World → Connection → World × Connection
  renew w c =
      let (w', req) = Request.reset os w (request_of c.parser.target) in
      let (w'', rep) = Reply.reset os w' c.reply in
      (w'', record c { parser = Parser.reset (request req); reply = rep })

  unfoldable pub finish : World → Connection → World × Connection × Bool
  finish w c =
      let (w', sent) = send w c c.reply in
      let prepared = record c { reply = Reply.prepare c.reply } in
      let (w'', renewed) = renew w' prepared in
      if sent then (w'', renewed, true) else (w', record prepared { state = io_error }, false)

  unfoldable pub process :
      World → Connection → Dispatcher Handler → Option (World × Connection × Bool)
  process w c router = elim (answer w c router) [
    | none ↦ none
    | some (w', c') ↦ some (finish w' (close_asked (close_old c')))
  ]

  -- callback(): the request is complete, and m_fun is process().
  unfoldable pub deliver :
      World → Connection → Dispatcher Handler → Head → Option (World × Connection)
  deliver w c router h =
      let p = record c.parser { target = complete h c.parser.target } in
      elim (process w (record c { parser = p; head = h }) router) [
        | none ↦ none
        | some (w', c', done) ↦ some (w', record c' { parser = note_answer done c'.parser })
      ]

  unfoldable pub on_event :
      World → Connection → Dispatcher Handler → Event → Option (World × Connection)
  on_event w c router (on_message_complete h) = deliver w c router h
  on_event w c router e =
      let (w', p) = handle_event os w c.parser e in some (w', record c { parser = p })

  -- Parser::add: the calls of the library for the bytes of one read.
  unfoldable pub feed :
      World → Connection → Dispatcher Handler → List Event → Option (World × Connection)
  feed w c router [] = some (w, c)
  feed w c router (e ∷ events) = elim (on_event w c router e) [
    | none ↦ none
    | some (w', c') ↦ feed w' c' router events
  ]

  unfoldable pub send_100_continue : World → Connection → World × Bool
  send_100_continue w c = send_raw os io w c.fd (codes "HTTP/1.1 100 Continue\r\n\r\n")

  -- How exec() stands after some rounds: it has returned a Need, is at a fault, or goes on.
  pub data Progress : Type 0 where
    halted : World → Connection → Need → Progress
    fault : Progress
    going : World → Connection → Progress

  -- What the switch on m_state makes of a round.
  unfoldable pub turn : World → Connection → Progress
  turn w c = elim c.state [
    | ready_for_data ↦ going w c
    | need_100_continue ↦ going (send_100_continue w c).0 c
    | _ ↦ halted w c halt
  ]

  unfoldable pub after_feed : Option (World × Connection) → Progress
  after_feed none = fault
  after_feed (some (w, c)) = turn w c

  unfoldable pub after_read : World → Connection → Dispatcher Handler → List Event → Read → Progress
  unfolding after_feed
  after_read w c router events none = halted w (record c { state = io_error }) halt
  after_read w c router events (some []) = halted w (record c { state = io_error }) halt
  after_read w c router events (some (b ∷ bytes)) = after_feed (feed w c router events)

  -- One round of exec(), where the library makes the calls `events` for the bytes that are read.
  unfoldable pub exec_round : World → Connection → Dispatcher Handler → List Event → Progress
  unfolding after_read
  exec_round w c router events =
      let (w', recvd) = io.safe_read w c.fd read_buffer_size in after_read w' c router events recvd

  -- The loop of exec(), a round for each entry of the list.
  unfoldable pub exec : World → Connection → Dispatcher Handler → List (List Event) → Progress
  exec w c router [] = going w c
  exec w c router (events ∷ rounds) = elim (exec_round w c router events) [
    | halted w' c' need ↦ halted w' c' need
    | fault ↦ fault
    | going w' c' ↦ exec w' c' router rounds
  ]
