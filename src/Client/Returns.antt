-- ===== src/Client/Returns.antt =====
-- That reading a reply comes to an end.
use libstutter.Common.{
  ℕ, zero, suc, ◌≤◌, ◌<◌, ◌≡◌, refl, Bool, true, false, List, [], ◌∷◌, Option, none, some, arith,
  length, drop, if◌then◌else◌, Bool-cases, inl, inr,
}
use libstutter.Common.Int.{ℤ, is_pos, pos_part}
use libstutter.Common.Bytes.{Bytes}
use libstutter.Os.{Os, Read}
use libstutter.Io.{Strategy}
use libstutter.Body
use libstutter.Body.{Body, buffer_on_disk, create_file, write_file, tmp_file_template}
use libstutter.Message.{add_rest, add_body}
use libstutter.Reply.{Reply}
use libstutter.Parser
use libstutter.Parser.{
  Parser, request, response, Event, on_url, on_header_field, on_header_value, on_body,
  on_headers_complete, on_message_complete, handle_event, add_body_fragment, msg,
}
use libstutter.Client.{
  Client, Round, reply_buffer_size, feed, after_read, read_rounds, read_reply, returned, Reading,
}

-- What the other servers send, over all connections, comes to an end: a read that gives bytes uses up
-- one or more, and no other call adds any.
pub record FiniteLaws (os : Os) (io : Strategy os) : Type 0 where
  pub left : os.World → ℕ
  pub read_takes :
      (w : os.World) (fd : ℤ) (b : ℕ) (bytes : Bytes)
      → (io.safe_read w fd reply_buffer_size).1 ≡ some (b ∷ bytes)
      → left (io.safe_read w fd reply_buffer_size).0 < left w
  pub write_keeps : (w : os.World) (fd : ℤ) (p : Bytes) → left (os.write w fd p).0 ≤ left w
  pub mkstemp_keeps : (w : os.World) (t : Bytes) → left (os.mkstemp w t).0 ≤ left w
  pub close_keeps : (w : os.World) (fd : ℤ) → left (os.close w fd) ≤ left w
  pub unlink_keeps : (w : os.World) (name : Bytes) → left (os.unlink w name) ≤ left w
  pub socket_keeps : (w : os.World) → left (os.socket w).0 ≤ left w
  pub set_nonblock_keeps : (w : os.World) (fd : ℤ) → left (os.set_nonblock w fd).0 ≤ left w
  pub getaddrinfo_keeps : (w : os.World) (host : Bytes) → left (os.getaddrinfo w host).0 ≤ left w
  pub connect_keeps :
      (w : os.World) (fd : ℤ) (addr : os.Addr) (port : ℤ)
      → left (os.connect w fd addr port).0 ≤ left w
  pub safe_write_keeps :
      (w : os.World) (fd : ℤ) (p : Bytes) → left (io.safe_write w fd p).0 ≤ left w
  pub safe_sendfile_keeps :
      (w : os.World) (out_fd in_fd : ℤ) (offset count : ℕ)
      → left (io.safe_sendfile w out_fd in_fd offset count).0 ≤ left w

module _ (os : Os) (io : Strategy os) (laws : FiniteLaws os io) where
  open os use {World}
  open laws use {left}

  add-left : (w : World) (b : Body) (p : Bytes) → left (Body.add os w b p).0 ≤ left w
  unfolding Body.add buffer_on_disk create_file write_file
  add-left w b p = ground (
    arith,
    laws.mkstemp_keeps w tmp_file_template,
    laws.write_keeps w b.fd p,
    laws.write_keeps (os.mkstemp w tmp_file_template).0 (os.mkstemp w tmp_file_template).1 p,
  )

  add_rest-left :
      (fuel : ℕ) (w : World) (b : Body) (p : Bytes) → left (add_rest os fuel w b p).0 ≤ left w
  unfolding add_rest
  add_rest-left zero w b p = omega arith
  add_rest-left (suc fuel) w b [] = omega arith
  add_rest-left (suc fuel) w b (c ∷ rest) =
      let (w', b', added) = Body.add os w b (c ∷ rest) in
      let first = add-left w b (c ∷ rest) in
      let more = add_rest-left fuel w' b' (drop (pos_part added) (c ∷ rest)) in
      elim (Bool-cases (is_pos added)) [
        | inl taken ↦ rw taken (omega arith)
        | inr stopped ↦ rw stopped first
      ]

  handle_event-left : (w : World) (p : Parser) (e : Event) → left (handle_event os w p e).0 ≤ left w
  unfolding handle_event add_body_fragment add_body
  handle_event-left w p (on_body at) =
      ground (arith, add_rest-left (length at) w (msg p.target).body at)
  handle_event-left w p (on_url at) = omega arith
  handle_event-left w p (on_header_field at) = omega arith
  handle_event-left w p (on_header_value at) = omega arith
  handle_event-left w p on_headers_complete = omega arith
  handle_event-left w p (on_message_complete h) = omega arith

  feed-left :
      (w : World) (p : Parser) (done : Bool) (events : List Event)
      → left (feed os io w p done events).0 ≤ left w
  unfolding feed
  feed-left w p done [] = omega arith
  feed-left w p done (on_message_complete h ∷ events) =
      let first = handle_event-left w p (on_message_complete h) in
      let (w', p') = handle_event os w p (on_message_complete h) in
      omega (arith, feed-left w' p' true events)
  feed-left w p done (e ∷ events) =
      let first = handle_event-left w p e in
      let (w', p') = handle_event os w p e in omega (arith, feed-left w' p' done events)

  after_read-left :
      (w w₀ : World) (p : Parser) (round : Round) (r : Read)
      → ((b : ℕ) (bytes : Bytes) → r ≡ some (b ∷ bytes) → left w < left w₀)
      → (after_read os io w p round r).3 ≡ true
      → left (after_read os io w p round r).0 < left w₀
  unfolding after_read
  after_read-left w w₀ p round none takes ok = cc
  after_read-left w w₀ p round (some []) takes ok = cc
  after_read-left w w₀ p round (some (b ∷ bytes)) takes ok =
      omega (arith, takes b bytes refl, feed-left w p false round.0)

  -- A reading that ends, with enough rounds left for another one if it is a success.
  abbrev pub Ends : Option (Reading os io) → Type 0
  Ends none = ⊥
  Ends (some r) = r.success ≡ true → left r.world < length r.rest

  -- The last step of a round: it goes on only after a good read that completes nothing.
  stops :
      (ok done : Bool) (stop : Reading os io) (more : Option (Reading os io))
      → Ends (some stop)
      → (ok ≡ true → Ends more)
      → Ends (if ok then if done then some stop else more else some stop)
  stops true true stop more h k = h
  stops true false stop more h k = k refl
  stops false done stop more h k = h

  read_rounds-Ends :
      (w : World) (fd : ℤ) (p : Parser) (rounds : List Round)
      → left w < length rounds
      → Ends (read_rounds os io w fd p rounds)
  unfolding read_rounds returned
  read_rounds-Ends w fd p [] h = absurd (omega arith)
  read_rounds-Ends w fd p (round ∷ rounds) h =
      let (w', recvd) = io.safe_read w fd reply_buffer_size in
      let (w'', p', done, ok) = after_read os io w' p round recvd in
      let fits : ok ≡ true → left w'' < length rounds =
        λ good. omega (arith, after_read-left w' w p round recvd (laws.read_takes w fd) good) in
      stops ok done (returned os io w'' p' done rounds ok) (read_rounds os io w'' fd p' rounds) fits
        (λ good. read_rounds-Ends w'' fd p' rounds (fits good))

  pub read_reply-Ends :
      (w : World) (c : Client) (reply : Reply) (rounds : List Round)
      → left w < length rounds
      → Ends (read_reply os io w c reply rounds)
  unfolding read_reply
  read_reply-Ends w c reply rounds h =
      read_rounds-Ends w c.fd (Parser.reset (response reply)) rounds h
