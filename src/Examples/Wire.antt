-- ===== src/Examples/Wire.antt =====
-- Messages from one end of the wire to the other.
use mathlib.Core.Option
use libstutter.Common.{◌≡◌, refl, [], ◌∷◌, List, arith, some, take, drop, ◌++◌}
use libstutter.Common.Int.{pos, minus_one}
use libstutter.Common.Bytes.{Bytes, codes, fold_case, eq_bytes}
use libstutter.OrderedMap.{find, assign}
use libstutter.Body.{Body}
use libstutter.Message.{new_message, add_header, add_header_int, get_header}
use libstutter.Request.{Request, new_request, prepare}
use libstutter.Reply
use libstutter.Reply.{Reply}
use libstutter.Parser.{Event, request, response, Head, http_get, reset, run}
use libstutter.Parser.Headers.{concat}
use libstutter.Wire.{Cut, message_events}
use libstutter.Wire.Pieces.{at_name}
use libstutter.Wire.Content.{Kept}
use libstutter.Wire.Requests.{new_body-Kept, received, request_received}
use libstutter.Wire.Pipeline.{Sent, IsSent}
use libstutter.Client
use libstutter.Client.{Round}
use libstutter.Client.Reads.{brought, Delivered, read_whole}
use libstutter.Client.Whole.{reply_read}
use libstutter.Wire.Rounds.{Divides}
use libstutter.Wire.Exec.{Onward, Arrives}
use libstutter.Wire.Session.{Arriving, IsArriving, events_of}
use mathlib.Core.List.{flatten}
use libstutter.Io.{blocking}
use libstutter.Dispatcher
use libstutter.Dispatcher.{Dispatcher}
use libstutter.Connection.{
  Connection, Handler, ready_for_data, exec_round, Progress, halted, fault, going,
}
use libstutter.Examples.Toy.{toy, toy_io, toy_file, toy_works}

-- GET /a?b=c from the host "h".
abbrev pub short_request : Request
short_request = record new_request { url = codes "/a?b=c"; host = codes "h" }

abbrev host_cuts : List Cut
host_cuts =
    record { name = codes "Ho"; names = codes "st" ∷ []; value = codes "h"; values = [] } ∷ []

abbrev pub status_200 : Head
status_200 = record {
  method = http_get;
  status_code = pos 200;
  http_major = pos 1;
  http_minor = pos 1;
}

request_received_example :
    (w' : Bytes) × (b : Body) × (run toy []
        (reset (request new_request))
        (message_events (codes "/a" ∷ codes "?b=c" ∷ []) host_cuts (codes "xy" ∷ []) status_200)
      ≡ (w', at_name (request (received short_request b)) []))
    × Kept toy toy_file toy_works w' b (concat (codes "xy" ∷ []))
unfolding prepare add_header assign eq_bytes fold_case
request_received_example =
    request_received toy toy_file toy_works [] short_request (codes "/a" ∷ codes "?b=c" ∷ [])
      host_cuts (codes "xy" ∷ []) status_200 tt refl (omega arith) refl (refl, tt) refl

-- An empty reply, and one that a client has not filled yet.
abbrev pub empty_reply : Reply
empty_reply = record {
  message = new_message;
  code = pos 200;
  http_major = pos 1;
  http_minor = pos 1;
  status = codes "OK";
}

abbrev pub length_cuts : List Cut
length_cuts =
    record { name = codes "Content-"; names = codes "Length" ∷ []; value = codes "0"; values = [] }
    ∷ []

-- A handler that sets a status, under a route "/a".
abbrev pub not_found : Handler toy toy_io
not_found w req rep = (w, req, Reply.set_status rep (pos 404) (codes "Not found"))

abbrev pub one_route : Dispatcher (Handler toy toy_io)
one_route = record { handlers = (codes "/a", not_found) ∷ [] }

abbrev pub waiting : Connection
waiting = record {
  fd = pos 7;
  parser = reset (request new_request);
  reply = empty_reply;
  head = status_200;
  state = ready_for_data;
}

-- A message that comes in three reads, of which the second brings no call.
abbrev pub in_three : List Event → List (List Event)
in_three es = take 1 es ∷ [] ∷ drop 1 es ∷ []

abbrev pub status_events : List Event
status_events = message_events [] length_cuts [] status_200

abbrev status_rounds : List Round
status_rounds = (take 1 status_events, 3) ∷ ([], 3) ∷ (drop 1 status_events, 3) ∷ []

status_rounds-Divides : Divides (brought status_rounds) status_events
unfolding flatten
status_rounds-Divides = record { joined = refl; last = λ e. cc }

status_rounds-Delivered :
    Delivered toy toy_io toy_file toy_works [] minus_one
      (reset (response empty_reply))
      status_rounds
unfolding blocking
status_rounds-Delivered = (
  (71, codes "ET", refl, refl),
  λ file. (refl, λ e. e),
  (
    (71, codes "ET", refl, refl),
    λ file. (refl, λ e. e),
    ((71, codes "ET", refl, refl), λ file. (refl, λ e. e), tt),
  ),
)

reply_read_example :
    (w' : Bytes) × (got : Reply) × (Client.read_reply toy toy_io []
        (Client.new_client (codes "h") (pos 80))
        empty_reply
        (status_rounds ++ [])
      ≡ some (read_whole toy toy_io w' (at_name (response got) []) []))
    × (got.code ≡ pos 200)
    × Kept toy toy_file toy_works w' got.message.body ([] ++ concat [])
    × ((name : Bytes)
        → get_header got.message name
          ≡ Option.get_or
              (find fold_case name (Reply.prepare empty_reply).message.headers)
              (get_header empty_reply.message name))
unfolding Reply.prepare add_header_int assign eq_bytes get_header find Client.new_client
reply_read_example =
    reply_read toy toy_io toy_file toy_works [] (Client.new_client (codes "h") (pos 80)) empty_reply
      empty_reply length_cuts [] status_200 status_rounds [] [] tt refl
      (new_body-Kept toy toy_file toy_works []) status_rounds-Divides status_rounds-Delivered

-- The request of above, as it is sent and cut.
abbrev pub short_sent : Sent toy toy_io
short_sent = record {
  sent = short_request;
  urls = codes "/a" ∷ codes "?b=c" ∷ [];
  cuts = host_cuts;
  parts = [];
  head = status_200;
  handler = not_found;
}

short_sent-IsSent : IsSent toy toy_io one_route short_sent
unfolding prepare add_header assign eq_bytes fold_case Dispatcher.get Dispatcher.matches
short_sent-IsSent = record {
  found = refl;
  sorted = tt;
  url = refl;
  short = omega arith;
  heads = refl;
  fine = (refl, tt);
  method = refl;
  keeps = λ w req rep tidy. tidy;
}

abbrev two_sent : List (Sent toy toy_io)
two_sent = short_sent ∷ short_sent ∷ []

-- A read of the toy system always finds something, whatever the handler does.
toy-Onward :
    (p : Progress toy toy_io) (rounds : List (List Event))
    → ((w : Bytes) (c : Connection) → Arrives toy toy_io toy_file toy_works w c one_route rounds)
    → Onward toy toy_io (λ w c. Arrives toy toy_io toy_file toy_works w c one_route rounds) p
toy-Onward (halted w c need) rounds a = tt
toy-Onward fault rounds a = tt
toy-Onward (going w c) rounds a = a w c

pub toy-Arrives :
    (rounds : List (List Event)) (w : Bytes) (c : Connection)
    → Arrives toy toy_io toy_file toy_works w c one_route rounds
unfolding blocking
toy-Arrives [] w c = tt
toy-Arrives (es ∷ rounds) w c = (
  ((71, codes "ET", refl), λ file. (refl, λ e. e)),
  toy-Onward (exec_round toy toy_io w c one_route es) rounds (toy-Arrives rounds),
)

abbrev pub short_arriving : Arriving toy toy_io
short_arriving = (short_sent, in_three (events_of short_sent))

pub short_arriving-IsArriving : IsArriving toy toy_io one_route short_arriving
unfolding flatten
short_arriving-IsArriving = (short_sent-IsSent, record { joined = refl; last = λ e. cc })

abbrev two_arriving : List (Arriving toy toy_io)
two_arriving = short_arriving ∷ short_arriving ∷ []
