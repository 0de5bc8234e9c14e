-- ===== src/Reply.antt =====
-- stutter/http/reply.cpp. A status code is a short: set_status takes one.
pub mod Laws
use libstutter.Common.{ℕ, Bool, true, false, List, [], ◌++◌, if◌then◌else◌}
use libstutter.Common.Int.{ℤ, pos, to_int32}
use libstutter.Common.Bytes.{Bytes, codes, eq_bytes}
use libstutter.Decimal.{print_int}
use libstutter.Message
use libstutter.Message.{
  Message, new_message, content_length, connec, keep_alive, crlf, add_header, add_header_int,
  get_header, del_header, render,
}
use libstutter.Body
use libstutter.Os.{Os}

pub record Reply : Type 0 where
  pub message : Message
  pub code : ℤ
  pub http_major : ℤ
  pub http_minor : ℤ
  pub status : Bytes

abbrev pub transfer_encoding : Bytes
transfer_encoding = codes "Transfer-Encoding"

unfoldable pub set_status : Reply → ℤ → Bytes → Reply
set_status r code status = record r { code = code; status = status }

unfoldable pub set_http_version : Reply → ℤ → ℤ → Reply
set_http_version r major minor = record r { http_major = major; http_minor = minor }

-- The headers as prepare() sends them: not chunked, and with the length of the body.
unfoldable pub own_headers : Reply → Message
own_headers r =
    let m =
      if eq_bytes (get_header r.message transfer_encoding) (codes "chunked")
      then (del_header r.message transfer_encoding).0
      else r.message in
    add_header_int m content_length (to_int32 r.message.body.size)

unfoldable pub status_line : Reply → Bytes
unfolding print_int
status_line r =
    codes "HTTP/"
    ++ print_int r.http_major
    ++ codes "."
    ++ print_int r.http_minor
    ++ codes " "
    ++ print_int r.code
    ++ codes " "
    ++ r.status
    ++ crlf

unfoldable pub prepare : Reply → Reply
unfolding own_headers status_line render
prepare r =
    let m = own_headers r in
    record r {
      message = record m { output = status_line r ++ render m.headers ++ crlf ++ m.body.memory };
    }

module _ (os : Os) where
  open os use {World}

  -- reset() leaves the HTTP version alone.
  unfoldable pub reset : World → Reply → World × Reply
  reset w r =
      let (w', m) = Message.reset os w r.message in
      (
        w',
        record r { message = add_header m connec keep_alive; code = pos 200; status = codes "OK" },
      )

  -- Reply(), whose body has nothing to close.
  unfoldable pub new_reply : World → World × Reply
  unfolding reset
  new_reply w = reset w (record {
    message = new_message;
    code = pos 0;
    http_major = pos 1;
    http_minor = pos 1;
    status = [];
  })

  unfoldable pub set_file : World → Reply → Bytes → World × Reply × Bool
  set_file w r filename =
      let (w', b, opened) = Body.set_file os w r.message.body filename in
      let m = record r.message { body = b } in
      if opened
      then (w', record r { message = add_header_int m content_length (to_int32 b.size) }, true)
      else (w', record r { message = m }, false)
