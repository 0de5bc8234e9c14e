-- ===== src/Examples/Http.antt =====
-- Requests, replies, the parser and the connection at concrete inputs.
use libstutter.Common.{ℕ, ◌+◌, ◌≤◌, ◌≡◌, refl, true, false, List, [], ◌∷◌, ◌++◌, map, arith}
use libstutter.Common.Int.{pos}
use libstutter.Common.Bytes.{Bytes, codes, c_str, lex_less, fold_case}
use libstutter.OrderedMap.{find, assign}
use libstutter.Examples.Toy.{toy}
use libstutter.Body.{new_body, size_on_disk}
use libstutter.Body.Invariant.{new_body-IsBody}
use libstutter.Message.{new_message, add_header, get_header, content_length}
use libstutter.Decimal.{print_nat, atol}
use libstutter.Query.{extract_query_string}
use libstutter.Query.Laws.{add_parts, query_parts, extract_query_string-add_parts}
use libstutter.Request.{Request, new_request}
use libstutter.Reply
use libstutter.Reply.{Reply}
use libstutter.Reply.Laws.{head_text, prepare-framing, content_length_wraps}
use libstutter.Parser
use libstutter.Parser.{
  Parser, Target, request, Event, on_url, on_header_field, on_header_value, on_body,
  on_headers_complete, on_message_complete, parse_ok, parse_need_100_continue, parse_body_too_large,
  flush_header, run, set_msg, msg,
}
use libstutter.Parser.Limits.{url_length, run_bounded, oversized_body_ignored}
use libstutter.Parser.Headers.{Holds, header_pieces}

-- A reply with a body of some size, as the constructor leaves the rest.
abbrev reply_with : ℕ → Reply
reply_with n = record {
  message = record new_message { body = record new_body { size = n } };
  code = pos 200;
  http_major = pos 1;
  http_minor = pos 1;
  status = codes "OK";
}

abbrev blank : Request
blank = new_request

-- A parser in the middle of the headers of a request, and at the value of one of them.
abbrev reading : Parser
reading = Parser.reset (request new_request)

abbrev at_header : Bytes → Bytes → Parser
at_header key val = record reading { header_key = key; header_val = val; header_gotval = true }

abbrev with_header : Bytes → Bytes → Request
with_header key val = record blank { message = add_header new_message key val }

extract_query_string-add_parts_example :
    extract_query_string (codes "/a?x=1&y") [] ≡ add_parts (query_parts (codes "/a?x=1&y")) []
extract_query_string-add_parts_example = extract_query_string-add_parts (codes "/a?x=1&y") []

prepare-framing_example :
    ((Reply.prepare (reply_with 0)).message.output ≡ head_text (reply_with 0) ++ [])
    × (0 + size_on_disk (Reply.prepare (reply_with 0)).message.body ≡ 0)
    × (atol (get_header (Reply.prepare (reply_with 0)).message content_length) ≡ pos 0)
prepare-framing_example = prepare-framing (reply_with 0) new_body-IsBody (omega arith)

content_length_wraps_example :
    get_header (Reply.prepare (reply_with 3000000000)).message content_length
    ≡ b'-' ∷ print_nat 1294967296
content_length_wraps_example =
    content_length_wraps (reply_with 3000000000) (omega arith) (omega arith)

abbrev some_events : List Event
some_events = on_url (codes "/a") ∷ on_headers_complete ∷ []

run_bounded_example : url_length (run toy [] reading some_events).1.target ≤ 4096
unfolding Parser.reset
run_bounded_example = run_bounded toy [] reading some_events (omega arith)

oversized_body_ignored_example :
    run toy []
      (at_header content_length (codes "9999999"))
      (on_headers_complete ∷ map on_body (codes "ab" ∷ []))
    ≡ (
      [],
      record (flush_header (at_header content_length (codes "9999999"))) {
        error = parse_body_too_large;
      },
    )
unfolding flush_header Parser.reset Parser.too_large atol c_str get_header find add_header assign
    lex_less fold_case
oversized_body_ignored_example =
    oversized_body_ignored toy [] (at_header content_length (codes "9999999"))
      (with_header content_length (codes "9999999")) (codes "ab" ∷ []) refl refl

header_pieces_example :
    Holds
      (run toy [] reading (
        map on_header_field (codes "Ac" ∷ codes "cept" ∷ [])
        ++ map on_header_value (codes "text" ∷ codes "/*" ∷ [])
        ++ on_headers_complete ∷ [])).1
      (set_msg reading.target (add_header (msg reading.target) (codes "Accept") (codes "text/*")))
      []
      []
      false
unfolding Parser.reset
header_pieces_example =
    header_pieces toy [] reading (codes "Ac" ∷ codes "cept" ∷ []) (codes "text") (codes "/*" ∷ [])
      (refl, refl, refl, refl)
