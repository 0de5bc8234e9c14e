-- ===== src/Examples/Exchange.antt =====
-- A client and its reply, with the toy system.
use mathlib.Core.List.{flatten}
use libstutter.Common.{◌≡◌, refl, true, false, Bool, List, [], ◌∷◌, ◌++◌, some, take, drop}
use libstutter.Common.Int.{ℤ, pos, minus_one}
use libstutter.Common.Bytes.{lex_less, Bytes, codes, eq_bytes, fold_case}
use libstutter.OrderedMap.{find, assign, insert}
use libstutter.Message.{new_message, add_header, add_header_int, get_header}
use libstutter.Request.{Request, new_request, prepare, set_host, own_headers, head_text}
use libstutter.Reply
use libstutter.Reply.{Reply, new_reply}
use libstutter.Parser.{Parser, Event, Head, http_get}
use libstutter.Io.{blocking, send_raw, send_buffered_body}
use libstutter.Pool
use libstutter.PoolManager.{PoolManager, get_pool, set_pool}
use libstutter.Client.{Sending, Client, Round, not_executed, send, connect, send_headers, send_body}
use libstutter.Client.Reads.{brought, Delivered}
use libstutter.Client.Sends.{send_body-send_headers}
use libstutter.Client.Twice.{send-send}
use libstutter.Client.Outcome.{Settled, send-Settled}
use libstutter.Client.Release.{Released, send-Released}
use libstutter.Pool.Invariant.{new_pool-IsPool}
use libstutter.Request.Laws.{wire}
use libstutter.Client.Steps.{answered, continue_events}
use libstutter.Client.Exchange.{Incoming, IsIncoming, Has, send_replied, send_continued}
use libstutter.Wire.{Cut, message_events}
use libstutter.Wire.Requests.{new_body-Kept}
use libstutter.Wire.Rounds.{Divides}
use libstutter.Examples.Toy.{toy, toy_io, toy_file, toy_works, toy_stream}

abbrev host_a : Client
host_a = record {
  fd = minus_one;
  error = not_executed;
  done = false;
  host = codes "a";
  port = pos 80;
}

abbrev no_pools_yet : PoolManager
no_pools_yet = record { pools = [] }

abbrev ok_reply : Reply
ok_reply = record {
  message = new_message;
  code = pos 200;
  http_major = pos 1;
  http_minor = pos 1;
  status = codes "OK";
}

abbrev ok_head : Head
ok_head = record {
  method = http_get;
  status_code = pos 200;
  http_major = pos 1;
  http_minor = pos 1;
}

abbrev zero_cuts : List Cut
zero_cuts =
    record { name = codes "Content-"; names = codes "Length" ∷ []; value = codes "0"; values = [] }
    ∷ []

abbrev ok_events : List Event
ok_events = message_events [] zero_cuts [] ok_head

-- The reply comes in three reads, of which the second brings no call.
abbrev ok_incoming : Incoming
ok_incoming = record {
  reply = ok_reply;
  cuts = zero_cuts;
  parts = [];
  head = ok_head;
  rounds = (take 1 ok_events, 3) ∷ ([], 3) ∷ (drop 1 ok_events, 3) ∷ [];
  already = [];
}

ok_incoming-IsIncoming :
    (w : Bytes) (fd : ℤ) → IsIncoming toy toy_io toy_file toy_works w fd ok_reply ok_incoming
unfolding flatten blocking Reply.prepare add_header_int assign eq_bytes get_header find
ok_incoming-IsIncoming w fd = record {
  sorted = tt;
  heads = refl;
  had = new_body-Kept toy toy_file toy_works w;
  divides = record { joined = refl; last = λ e. cc };
  delivered = (
    (71, codes "ET", refl, refl),
    λ file. (refl, λ e. e),
    (
      (71, codes "ET", refl, refl),
      λ file. (refl, λ e. e),
      ((71, codes "ET", refl, refl), λ file. (refl, λ e. e), tt),
    ),
  );
}

-- The connection of the client, and its request as it is sent.
abbrev dialled : Bytes × PoolManager × Client × Bool
dialled = connect toy toy_io [] no_pools_yet (record host_a { done = false })

abbrev plain : Request
plain = prepare (set_host new_request (codes "a"))

send_replied_example :
    (w' : Bytes) × (got : Reply) × (send toy toy_io [] no_pools_yet
        (λ m. m)
        host_a
        new_request
        ok_reply
        (ok_incoming.rounds ++ [])
      ≡ some (answered toy toy_io w' dialled.1 dialled.2 plain got))
    × Has toy toy_io toy_file toy_works w' ok_reply got ok_incoming
unfolding connect get_pool find insert set_pool assign Pool.get send_headers send_raw blocking
    prepare set_host eq_bytes get_header add_header send_body send_buffered_body lex_less fold_case
send_replied_example =
    send_replied toy toy_io toy_file toy_works [] no_pools_yet (λ m. m) host_a new_request ok_reply
      ok_incoming [] refl refl refl refl (ok_incoming-IsIncoming _ _)

-- What that exchange leaves.
abbrev left_by_first : Sending toy toy_io
left_by_first =
    answered toy toy_io send_replied_example.0 dialled.1 dialled.2 plain send_replied_example.1

first_done :
    send toy toy_io [] no_pools_yet (λ m. m) host_a new_request ok_reply (ok_incoming.rounds ++ [])
    ≡ some left_by_first
first_done = send_replied_example.2

send-Settled_example :
    Settled toy toy_io [] no_pools_yet host_a new_request ok_reply
      (ok_incoming.rounds ++ [])
      left_by_first
send-Settled_example =
    send-Settled toy toy_io [] no_pools_yet (λ m. m) host_a new_request ok_reply
      (ok_incoming.rounds ++ []) left_by_first first_done

send-Released_example : Released toy toy_io (codes "a") (pos 80) left_by_first
unfolding get_pool find
send-Released_example =
    send-Released toy toy_io [] no_pools_yet (λ m. m) host_a new_request ok_reply
      (ok_incoming.rounds ++ []) left_by_first (new_pool-IsPool (codes "a") (pos 80)) (λ m v. v)
      first_done

-- The first steps of a second send().
abbrev redialled : Bytes × PoolManager × Client × Bool
redialled =
    connect toy toy_io left_by_first.world left_by_first.manager
      (record left_by_first.client { done = false })

send-send_example :
    ((send_headers toy toy_io dialled.0 dialled.2 plain).0
      ≡ dialled.0 ++ wire (set_host new_request (codes "a")))
    × (toy_stream.sent
          (send_headers toy toy_io redialled.0 redialled.2 (prepare (set_host plain (codes "a")))).0
          redialled.2.fd
        ≡ toy_stream.sent redialled.0 redialled.2.fd
          ++ (wire (set_host new_request (codes "a")) ++ wire plain))
unfolding connect get_pool find insert set_pool assign Pool.get send_headers send_raw blocking
    prepare set_host eq_bytes get_header add_header lex_less fold_case
send-send_example =
    send-send toy toy_io toy_stream [] no_pools_yet (λ m. m) host_a new_request ok_reply
      (ok_incoming.rounds ++ []) left_by_first refl first_done refl refl

-- A request with the expectation, and the 100-continue in two reads.
abbrev expecting_request : Request
expecting_request = record new_request {
  message = record new_message { headers = (codes "Expect", codes "100-continue") ∷ [] };
}

abbrev expecting : Request
expecting = prepare (set_host expecting_request (codes "a"))

abbrev continue_head : Head
continue_head = record ok_head { status_code = pos 100 }

abbrev continue_rounds : List Round
continue_rounds =
    (take 1 (continue_events continue_head), 3) ∷ (drop 1 (continue_events continue_head), 3) ∷ []

continue_rounds-Divides : Divides (brought continue_rounds) (continue_events continue_head)
unfolding flatten
continue_rounds-Divides = record { joined = refl; last = λ e. cc }

continue_rounds-Delivered :
    (w : Bytes) (fd : ℤ) (p : Parser)
    → Delivered toy toy_io toy_file toy_works w fd p continue_rounds
unfolding blocking
continue_rounds-Delivered w fd p = (
  (71, codes "ET", refl, refl),
  λ file. (refl, λ e. e),
  ((71, codes "ET", refl, refl), λ file. (refl, λ e. e), tt),
)

send_continued_example :
    (w' : Bytes) × (got : Reply) × (send toy toy_io [] no_pools_yet
        (λ m. m)
        host_a
        expecting_request
        ok_reply
        (continue_rounds ++ (ok_incoming.rounds ++ []))
      ≡ some (answered toy toy_io w' dialled.1 (record dialled.2 { done = true }) expecting got))
    × Has toy toy_io toy_file toy_works w' ok_reply got ok_incoming
unfolding connect get_pool find insert set_pool assign Pool.get send_headers send_raw blocking
    prepare set_host eq_bytes get_header add_header send_body send_buffered_body lex_less fold_case
send_continued_example =
    send_continued toy toy_io toy_file toy_works [] no_pools_yet (λ m. m) host_a expecting_request
      ok_reply continue_head continue_rounds ok_incoming [] refl refl refl refl
      continue_rounds-Divides (continue_rounds-Delivered _ (pos 9) _) refl
      (ok_incoming-IsIncoming _ _)

-- The same request with a body, as it goes over the wire.
abbrev with_xy : Request
with_xy = record expecting_request {
  message = record expecting_request.message {
    body = record expecting_request.message.body { memory = codes "xy"; size = 2 };
  };
}

abbrev headers_out : Bytes
headers_out = (send_headers toy toy_io [] host_a (prepare with_xy)).0

send_body-send_headers_example :
    toy_stream.sent (send_body toy toy_io headers_out host_a (prepare with_xy)).0 host_a.fd
    ≡ [] ++ (head_text with_xy (own_headers with_xy) ++ codes "xy")
unfolding send_headers send_raw blocking prepare eq_bytes get_header add_header find assign
    send_body send_buffered_body lex_less fold_case
send_body-send_headers_example =
    send_body-send_headers toy toy_io toy_stream [] headers_out host_a with_xy refl refl refl refl
      refl refl
