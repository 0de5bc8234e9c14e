-- ===== src/Examples/Transport.antt =====
-- Streams, bodies, messages and pools at concrete inputs.
use libstutter.Common.{ℕ, ◌≡◌, refl, false, [], ◌∷◌, ◌++◌, arith}
use libstutter.Common.Int.{pos, minus_one}
use libstutter.Common.Bytes.{Bytes, codes}
use libstutter.Examples.Toy.{toy, toy_io, toy_stream, toy_file, toy_disk}
use libstutter.Io
use libstutter.Io.{blocking}
use libstutter.Io.Stream.{Sent, send_raw-Sent}
use libstutter.Io.File.{partial_file_fails}
use libstutter.Body.{Body, new_body, size_on_disk}
use libstutter.Body.Invariant.{IsBody, new_body-IsBody}
use libstutter.Body.Content.{IsSpilled, stored}
use libstutter.Message
use libstutter.Message.{Message, new_message, add_header, get_header, del_header}
use libstutter.Message.Laws.{HasSortedHeaders, add_header-HasSortedHeaders, add_body-Stored}
use libstutter.IntSet.{contains}
use libstutter.Pool
use libstutter.Pool.{SocketPool, Got}
use libstutter.Pool.Invariant.{IsPool, get-IsPool}

abbrev hello : Bytes
hello = codes "hello, world"

send_raw-Sent_example :
    Sent
      (toy_stream.sent [] (pos 7))
      (toy_stream.sent (Io.send_raw toy toy_io [] (pos 7) hello).0 (pos 7))
      hello
      (Io.send_raw toy toy_io [] (pos 7) hello).1
send_raw-Sent_example = send_raw-Sent toy toy_io toy_stream [] (pos 7) hello

-- A file of some size on disk.
abbrev on_disk : ℕ → Body
on_disk n = record { memory = []; filename = codes "a"; fd = pos 5; size = n; unlinks = false }

partial_file_fails_example : (Io.send_buffered_body toy toy_io [] (pos 7) (on_disk 10)).1 ≡ false
unfolding blocking size_on_disk
partial_file_fails_example =
    partial_file_fails toy toy_io toy_disk [] (pos 7) (on_disk 10) 4 refl refl (omega arith)
      (omega arith) refl

new_body-IsSpilled : IsSpilled new_body
new_body-IsSpilled h = cc

add_body-Stored_example :
    let (w', m', left) = Message.add_body toy [] new_message hello in
    (stored toy toy_file w' m'.body ++ left ≡ stored toy toy_file [] new_body ++ hello)
    × IsBody m'.body
    × IsSpilled m'.body
add_body-Stored_example =
    add_body-Stored toy toy_file [] new_message hello new_body-IsBody new_body-IsSpilled

abbrev two_headers : Message
two_headers =
    add_header (add_header new_message (codes "Host") (codes "a")) (codes "accept") (codes "b")

two_headers-HasSortedHeaders : HasSortedHeaders two_headers
two_headers-HasSortedHeaders =
    add_header-HasSortedHeaders (add_header new_message (codes "Host") (codes "a")) (codes "accept")
      (codes "b") (add_header-HasSortedHeaders new_message (codes "Host") (codes "a") tt)

-- A pool with one free and one taken descriptor.
abbrev small_pool : SocketPool
small_pool = record { host = codes "a"; port = pos 80; avail = pos 3 ∷ []; taken = pos 4 ∷ [] }

small_pool-IsPool : IsPool small_pool
unfolding contains
small_pool-IsPool = record {
  avail_sorted = (tt, tt);
  taken_sorted = (tt, tt);
  disjoint = λ i h. ground arith;
  bounded = omega arith;
}

get-IsPool_example : IsPool (Pool.get toy [] small_pool minus_one).pool
get-IsPool_example = get-IsPool toy [] small_pool minus_one small_pool-IsPool
