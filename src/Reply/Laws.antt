-- ===== src/Reply/Laws.antt =====
-- The bytes of a reply.
use libstutter.Common.{
  ℕ, suc, ◌+◌, ◌-◌, ◌≤◌, ◌<◌, ◌≡◌, refl, ap, ◌∙◌, ◌∷◌, ◌++◌, arith, length, Bool-cases, inl, inr,
}
use libstutter.Common.Int.{pos, negsuc, to_int32}
use libstutter.Common.Bytes.{Bytes, eq_bytes, eq_bytes_refl, fold_case, codes}
use libstutter.Decimal.{print_int, print_nat, atol}
use libstutter.Decimal.RoundTrip.{atol-print_int}
use libstutter.Body.{size_on_disk}
use libstutter.Body.Invariant.{IsBody}
use libstutter.Message.{
  get_header, add_header, add_header_int, del_header, content_length, crlf, render,
}
use libstutter.Message.Laws.{
  HasSortedHeaders, get_header-add_header, add_header-HasSortedHeaders, del_header-HasSortedHeaders,
}
use libstutter.Reply.{Reply, prepare, own_headers, status_line, transfer_encoding}

-- What stands in front of the body.
abbrev pub head_text : Reply → Bytes
head_text r = status_line r ++ render (own_headers r).headers ++ crlf

-- A size that an int holds is converted to itself.
to_int32_small : (n : ℕ) → n < 0x80000000 → to_int32 n ≡ pos n
to_int32_small n h = ground arith

to_int32_large : (n : ℕ) → 0x80000000 ≤ n → n < 0x100000000 → to_int32 n ≡ negsuc (0xFFFFFFFF - n)
to_int32_large n low high = ground arith

print_int-negsuc : (n : ℕ) → print_int (negsuc n) ≡ b'-' ∷ print_nat (suc n)
unfolding print_int
print_int-negsuc n = refl

content_length-own_headers :
    (r : Reply)
    → get_header (own_headers r) content_length ≡ print_int (to_int32 r.message.body.size)
unfolding own_headers add_header_int
content_length-own_headers r = rw (
  get_header-add_header _ content_length _ content_length,
  eq_bytes_refl (fold_case content_length),
)

own_headers-body : (r : Reply) → (own_headers r).body ≡ r.message.body
unfolding own_headers add_header_int add_header del_header
own_headers-body r = ground arith

content_length-prepare :
    (r : Reply)
    → get_header (prepare r).message content_length ≡ print_int (to_int32 r.message.body.size)
unfolding prepare get_header
content_length-prepare r = content_length-own_headers r

-- For a well-formed body below 2 GB: a prepared reply is its status line and headers, a blank line
-- and the buffered part of the body; that part and the part on disk make up the size of the body,
-- which atol reads back from Content-Length.
pub prepare-framing :
    (r : Reply)
    → IsBody r.message.body
    → r.message.body.size < 0x80000000
    → ((prepare r).message.output ≡ head_text r ++ r.message.body.memory)
      × (length r.message.body.memory + size_on_disk (prepare r).message.body ≡ r.message.body.size)
      × (atol (get_header (prepare r).message content_length) ≡ pos r.message.body.size)
unfolding prepare size_on_disk
prepare-framing r v small = (
  rw (own_headers-body r),
  rw (own_headers-body r) (omega (arith, v.counted)),
  ap atol (content_length-prepare r ∙ ap print_int (to_int32_small r.message.body.size small))
      ∙ atol-print_int r.message.body.size (omega arith),
)

-- For a body from 2 GB up to 4 GB, Content-Length is a minus sign and the distance to 4 GB.
pub content_length_wraps :
    (r : Reply)
    → 0x80000000 ≤ r.message.body.size
    → r.message.body.size < 0x100000000
    → get_header (prepare r).message content_length
      ≡ b'-' ∷ print_nat (0x100000000 - r.message.body.size)
content_length_wraps r low high =
    content_length-prepare r
    ∙ ap print_int (to_int32_large r.message.body.size low high)
    ∙ print_int-negsuc (0xFFFFFFFF - r.message.body.size)
    ∙ ap (λ (n : ℕ). b'-' ∷ print_nat n) (omega arith)

-- The bytes that an earlier use of the object left are dropped.
pub prepare_fresh :
    (r : Reply) (old : Bytes)
    → prepare (record r { message = record r.message { output = old } }) ≡ prepare r
unfolding prepare own_headers add_header_int add_header get_header del_header
prepare_fresh r old = ground arith

-- prepare() keeps the headers in order.
pub prepare-HasSortedHeaders :
    (r : Reply) → HasSortedHeaders r.message → HasSortedHeaders (prepare r).message
unfolding prepare own_headers add_header_int
prepare-HasSortedHeaders r s =
    elim (Bool-cases (eq_bytes (get_header r.message transfer_encoding) (codes "chunked"))) [
      | inl chunked ↦ rw chunked (
          add_header-HasSortedHeaders (del_header r.message transfer_encoding).0 content_length
            (print_int (to_int32 r.message.body.size))
            (del_header-HasSortedHeaders r.message transfer_encoding s))
      | inr plain ↦ rw plain (
          add_header-HasSortedHeaders r.message content_length
            (print_int (to_int32 r.message.body.size)) s)
    ]
