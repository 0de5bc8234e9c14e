-- ===== src/Examples/Serving.antt =====
-- The connection, the client, the router and the server at concrete inputs.
use libstutter.Common.{ℕ, ◌≡◌, ◌≢◌, refl, true, false, List, [], ◌∷◌, some, ◌⊎◌, ◌↔◌}
use libstutter.Common.Int.{pos}
use libstutter.Common.Bytes.{codes, lex_less, fold_case, eq_bytes}
use libstutter.OrderedMap.{find, assign}
use libstutter.Body
use libstutter.Message
use libstutter.Examples.Toy.{toy, toy_io, toy_stream}
use libstutter.Io
use libstutter.Io.Stream.{Sent}
use libstutter.Message.{get_header, add_header_int, connec, close}
use libstutter.Request.{new_request, add_url_fragment}
use libstutter.Reply
use libstutter.Reply.{Reply, new_reply}
use libstutter.Parser
use libstutter.Parser.{
  Parser, request, Head, Event, on_url, on_headers_complete, on_message_complete, parse_ok,
  parse_uri_too_long, http_get,
}
use libstutter.Dispatcher
use libstutter.Dispatcher.{Dispatcher, matches}
use libstutter.Dispatcher.Laws.{IsFirst, get-eq-some_iff}
use libstutter.Handlers.{handle_error}
use libstutter.Connection
use libstutter.Connection.{
  Connection, State, ready_for_data, need_100_continue, io_error, parse_error, should_close,
  Handler, request_of, going, exec, new_connection,
}
use libstutter.Connection.Answer.{SaysClose, closes_exactly}
use libstutter.Connection.Exec.{exec_round_closed, send-Sent}
use libstutter.Connection.Lifecycle.{feed_closes}
use libstutter.Server.{Server, new_server, start, forbidden_handler}
use libstutter.Server.Start.{Serves, start-Serves}

-- The two routes "/a" and "/a/b".
abbrev two_routes : Dispatcher ℕ
two_routes = record { handlers = (codes "/a", 1) ∷ (codes "/a/b", 2) ∷ [] }

get-eq-some_iff_example :
    (Dispatcher.get two_routes (codes "/a/b") ≡ some 1)
    ↔ IsFirst (codes "/a/b") two_routes.handlers 1
get-eq-some_iff_example = get-eq-some_iff two_routes (codes "/a/b") 1

-- A handler for 403, and a router with nothing else.
abbrev forbid : Handler toy toy_io
forbid w req rep = (w, req, handle_error forbidden_handler req rep)

abbrev no_routes : Dispatcher (Handler toy toy_io)
no_routes = record { handlers = [] }

abbrev plain_reply : Reply
plain_reply = (new_reply toy []).1

abbrev http_1_1 : Head
http_1_1 = record { method = http_get; status_code = pos 0; http_major = pos 1; http_minor = pos 1 }

-- A connection in a state, before its first byte.
abbrev fresh_in : State → Connection
fresh_in s = record {
  fd = pos 7;
  parser = Parser.reset (request new_request);
  reply = plain_reply;
  head = http_1_1;
  state = s;
}

-- The same, with a URL that was too long.
abbrev marked : Connection
marked = record (fresh_in ready_for_data) {
  parser = record (Parser.reset (request new_request)) { error = parse_uri_too_long };
}

send-Sent_example :
    Sent
      (toy_stream.sent [] (pos 7))
      (toy_stream.sent
        (Connection.send toy toy_io [] (fresh_in ready_for_data) plain_reply).0
        (pos 7))
      (Reply.prepare plain_reply).message.output
      (Connection.send toy toy_io [] (fresh_in ready_for_data) plain_reply).1
unfolding Reply.prepare add_header_int eq_bytes get_header find new_reply assign Message.reset
    lex_less fold_case Body.clear
send-Sent_example = send-Sent toy toy_io toy_stream [] (fresh_in ready_for_data) plain_reply refl

closes_exactly_example :
    let c = fresh_in ready_for_data in
    (SaysClose (Connection.close_asked (Connection.close_old c))
      × ((Connection.is_http_1_0 c.head ≡ true)
          ⊎ (get_header (request_of c.parser.target).message connec ≡ close)))
    ⊎ ((Connection.close_asked (Connection.close_old c) ≡ c)
        × (Connection.is_http_1_0 c.head ≡ false)
        × (get_header (request_of c.parser.target).message connec ≢ close))
closes_exactly_example = closes_exactly (fresh_in ready_for_data)

abbrev first_events : List Event
first_events = on_url (codes "/a") ∷ on_headers_complete ∷ []

exec_round_closed_example :
    Connection.exec_round toy toy_io [] (fresh_in should_close) no_routes first_events
    ≢ going [] (fresh_in ready_for_data)
exec_round_closed_example =
    exec_round_closed toy toy_io [] (fresh_in should_close) no_routes first_events (λ e. cc)
      (λ e. cc) [] (fresh_in ready_for_data)

-- The connection above after the first bytes of a URL.
abbrev fed : Connection
fed = record (fresh_in should_close) {
  parser = Parser.reset (request (record new_request { url = codes "/a" }));
}

feed_closes_example : fed.state ≢ ready_for_data
unfolding Connection.feed Connection.on_event Parser.handle_event Parser.add_url_fragment
    Parser.url_fragment add_url_fragment Parser.reset
feed_closes_example =
    feed_closes toy toy_io [] [] (fresh_in should_close) fed no_routes (on_url (codes "/a") ∷ [])
      ready_for_data refl refl (λ e. cc)

-- A server without options.
abbrev some_server : Server ℕ
some_server = new_server (codes "127.0.0.1") (pos 80)

-- The same server with the two routes.
abbrev routed : Server ℕ
routed = record some_server { router = two_routes }

start-Serves_example : Serves toy 403 two_routes (start toy 403 [] routed)
start-Serves_example = start-Serves toy 403 [] routed
