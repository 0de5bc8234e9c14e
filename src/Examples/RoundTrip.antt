-- ===== src/Examples/RoundTrip.antt =====
-- A request and its reply, from a client to a handler and back.
use libstutter.Common.{[], ◌∷◌, List, take, drop}
use libstutter.Common.Int.{pos}
use libstutter.Common.Bytes.{Bytes, codes}
use libstutter.Request
use libstutter.Request.{Request, new_request}
use libstutter.Reply
use libstutter.Reply.{Reply}
use libstutter.Parser.{Parser, Event}
use libstutter.Wire.{message_events}
use libstutter.Client
use libstutter.Client.{Round}
use libstutter.Wire.Rounds.{rounds_run}
use libstutter.Client.Exchange.{Incoming}
use libstutter.Wire.Session.{events_of}
use libstutter.Connection.{request_of, read_buffer_size}
use libstutter.Examples.Toy.{toy, toy_io}
use libstutter.Examples.Wire.{
  empty_reply, length_cuts, status_200, waiting, in_three, status_events, short_sent,
}

abbrev missing_events : List Event
missing_events = message_events [] length_cuts [] (record status_200 { status_code = pos 404 })

-- The reply of the handler to that request, and how it comes in.
abbrev missing : Incoming
missing = record {
  reply = Reply.set_status empty_reply (pos 404) (codes "Not found");
  cuts = length_cuts;
  parts = [];
  head = record status_200 { status_code = pos 404 };
  rounds = (take 1 status_events, 3) ∷ ([], 3) ∷ (drop 1 missing_events, 3) ∷ [];
  already = [];
}

-- The request as the parser of the connection has it.
abbrev parsed : Bytes × Parser
parsed =
    rounds_run toy toy_io waiting.fd read_buffer_size [] waiting.parser
      (in_three (events_of short_sent))

abbrev at_handler : Request
at_handler = request_of parsed.1.target
