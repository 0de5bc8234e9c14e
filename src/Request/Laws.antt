-- ===== src/Request/Laws.antt =====
-- The bytes of a request.
use libstutter.Common.{
  ◌≡◌, sym, ap, ◌∙◌, [], ◌++◌, arith, if◌then◌else◌, append_assoc, append-nil, Bool-cases, inl, inr,
}
use libstutter.Common.Bytes.{Bytes}
use libstutter.Common.Int.{to_int32}
use libstutter.Decimal.{print_int}
use libstutter.Message.{add_header, add_header_int, host_name, content_length}
use libstutter.Message.Laws.{HasSortedHeaders, add_header-HasSortedHeaders}
use libstutter.Request.{Request, is_get, prepare, own_headers, head_text, expects_100}

-- One request as it goes over the wire: the text, and the buffered body unless the client waits for
-- a 100-continue first.
abbrev pub wire : Request → Bytes
wire r =
    head_text r (own_headers r)
    ++ (if expects_100 (own_headers r) then [] else r.message.body.memory)

pub own_headers-output : (r : Request) → (own_headers r).output ≡ r.message.output
unfolding own_headers add_header add_header_int
own_headers-output r = ground arith

pub own_headers-body : (r : Request) → (own_headers r).body ≡ r.message.body
unfolding own_headers add_header add_header_int
own_headers-body r = ground arith

-- prepare() puts one request behind the bytes to send, whatever they are.
pub prepare-wire : (r : Request) → (prepare r).message.output ≡ r.message.output ++ wire r
unfolding prepare
prepare-wire r = elim (Bool-cases (expects_100 (own_headers r))) [
  | inl waits ↦ rw (waits, own_headers-output r) (ap (◌++◌ r.message.output) (sym (append-nil _)))
  | inr goes ↦
      rw (goes, own_headers-output r, own_headers-body r)
        (append_assoc r.message.output (head_text r (own_headers r)) r.message.body.memory)
]

-- A request that is prepared a second time carries its first copy in front of the second.
pub prepare_again :
    (r : Request)
    → (prepare (prepare r)).message.output ≡ r.message.output ++ wire r ++ wire (prepare r)
prepare_again r = prepare-wire (prepare r) ∙ ap (λ t. t ++ wire (prepare r)) (prepare-wire r)

own_headers-HasSortedHeaders :
    (r : Request) → HasSortedHeaders r.message → HasSortedHeaders (own_headers r)
unfolding own_headers add_header_int
own_headers-HasSortedHeaders r s =
    let hosted = add_header-HasSortedHeaders r.message host_name r.host s in
    elim (Bool-cases (is_get r.verb)) [
      | inl plain ↦ rw plain hosted
      | inr sized ↦ rw sized (
          add_header-HasSortedHeaders (add_header r.message host_name r.host) content_length
            (print_int (to_int32 r.message.body.size)) hosted)
    ]

-- prepare() keeps the headers in order.
pub prepare-HasSortedHeaders :
    (r : Request) → HasSortedHeaders r.message → HasSortedHeaders (prepare r).message
unfolding prepare
prepare-HasSortedHeaders r s = own_headers-HasSortedHeaders r s
