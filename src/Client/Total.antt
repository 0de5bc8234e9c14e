-- ===== src/Client/Total.antt =====
-- That a send() of the client comes to an end.
use libstutter.Common.{
  ℕ, zero, suc, ◌+◌, ◌-◌, ◌≤◌, ◌<◌, ◌≡◌, ◌≢◌, refl, Bool, true, false, List, [], ◌∷◌, Option, none,
  some, arith, length, drop, if◌then◌else◌, Bool-cases, inl, inr,
}
use libstutter.Common.Int.{ℤ, is_pos, pos_part}
use libstutter.Common.Bytes.{Bytes}
use libstutter.Os.{Os}
use libstutter.Io.{Strategy, write_rest, send_raw, sendfile_rest, send_buffered_body}
use libstutter.Body
use libstutter.Body.{Body, size_on_disk}
use libstutter.Message
use libstutter.Pool.Measure.{get-left}
use libstutter.PoolManager.{PoolManager, get_pool}
use libstutter.Request.{Request, prepare, set_host}
use libstutter.Reply.{Reply, new_reply}
use libstutter.Client.{
  Client, reply_of, Round, Reading, Sending, read_reply, check_100, wait_for_100, send_body,
  send_headers, connect, receive, submit, after_wait, await, after_headers, send, conclude,
}
use libstutter.Client.Returns.{FiniteLaws, Ends, read_reply-Ends}

module _ (os : Os) (io : Strategy os) (laws : FiniteLaws os io) where
  open os use {World}
  open laws use {left}

  write_rest-left :
      (fuel : ℕ) (w : World) (fd : ℤ) (p : Bytes) → left (write_rest os io fuel w fd p).0 ≤ left w
  unfolding write_rest
  write_rest-left zero w fd p = omega arith
  write_rest-left (suc fuel) w fd [] = omega arith
  write_rest-left (suc fuel) w fd (c ∷ rest) =
      let (w', ret) = io.safe_write w fd (c ∷ rest) in
      let first = laws.safe_write_keeps w fd (c ∷ rest) in
      let more = write_rest-left fuel w' fd (drop (pos_part ret) (c ∷ rest)) in
      elim (Bool-cases (is_pos ret)) [
        | inl some_sent ↦ rw some_sent (omega arith)
        | inr stopped ↦ rw stopped first
      ]

  send_raw-left : (w : World) (fd : ℤ) (p : Bytes) → left (send_raw os io w fd p).0 ≤ left w
  unfolding send_raw
  send_raw-left w fd p = write_rest-left (length p) w fd p

  send_headers-left :
      (w : World) (c : Client) (r : Request) → left (send_headers os io w c r).0 ≤ left w
  unfolding send_headers
  send_headers-left w c r = send_raw-left w c.fd r.message.output

  sendfile_rest-left :
      (fuel : ℕ) (w : World) (out_fd in_fd : ℤ) (offset remain : ℕ)
      → left (sendfile_rest os io fuel w out_fd in_fd offset remain).0 ≤ left w
  unfolding sendfile_rest
  sendfile_rest-left zero w out_fd in_fd offset remain = omega arith
  sendfile_rest-left (suc fuel) w out_fd in_fd offset zero = omega arith
  sendfile_rest-left (suc fuel) w out_fd in_fd offset (suc remain) =
      let (w', sent, moved) = io.safe_sendfile w out_fd in_fd offset (suc remain) in
      let first = laws.safe_sendfile_keeps w out_fd in_fd offset (suc remain) in
      let more =
        sendfile_rest-left fuel w' out_fd in_fd (moved + pos_part sent)
          (suc remain - pos_part sent) in
      elim (Bool-cases (is_pos sent)) [
        | inl some_sent ↦ rw some_sent (omega arith)
        | inr stopped ↦ rw stopped first
      ]

  send_buffered_body-left :
      (w : World) (fd : ℤ) (b : Body) → left (send_buffered_body os io w fd b).0 ≤ left w
  unfolding send_buffered_body
  send_buffered_body-left w fd b =
      ground (arith, sendfile_rest-left (size_on_disk b) w fd b.fd 0 (size_on_disk b))

  send_body-left : (w : World) (c : Client) (r : Request) → left (send_body os io w c r).0 ≤ left w
  unfolding send_body
  send_body-left w c r =
      let (w', ok) = send_raw os io w c.fd r.message.body.memory in
      ground (
        arith,
        send_raw-left w c.fd r.message.body.memory,
        send_buffered_body-left w' c.fd r.message.body,
        send_buffered_body-left w c.fd r.message.body,
      )

  clear-left : (w : World) (b : Body) → left (Body.clear os w b).0 ≤ left w
  unfolding Body.clear
  clear-left w b = ground (
    arith,
    laws.close_keeps w b.fd,
    laws.unlink_keeps w b.filename,
    laws.unlink_keeps (os.close w b.fd) b.filename,
  )

  new_reply-left : (w : World) → left (new_reply os w).0 ≤ left w
  unfolding new_reply Message.reset Body.clear
  new_reply-left w = omega arith

  connect-left :
      (w : World) (pm : PoolManager) (c : Client) → left (connect os io w pm c).0 ≤ left w
  unfolding connect
  connect-left w pm c =
      get-left os left laws.socket_keeps laws.set_nonblock_keeps laws.getaddrinfo_keeps
        laws.connect_keeps w (get_pool pm c.host c.port).1 c.fd

  if_returns :
      (t : Bool) (a b : Option (Sending os io))
      → (t ≡ true → a ≢ none)
      → b ≢ none
      → (if t then a else b) ≢ none
  if_returns true a b h k = h refl
  if_returns false a b h k = k

  bind_returns :
      (o : Option (Reading os io)) (f : Reading os io → Option (Sending os io))
      → Ends os io laws o
      → ((r : Reading os io) → (r.success ≡ true → left r.world < length r.rest) → f r ≢ none)
      → elim o [ none ↦ none | some r ↦ f r ] ≢ none
  bind_returns none f e h = absurd e
  bind_returns (some r) f e h = h r e

  receive_returns :
      (w : World) (pm : PoolManager) (c : Client) (req : Request) (reply : Reply)
      (rounds : List Round)
      → left w < length rounds
      → receive os io w pm c req reply rounds ≢ none
  unfolding receive
  receive_returns w pm c req reply rounds h =
      bind_returns (read_reply os io w c reply rounds) (λ r. some (conclude os io pm c req reply r))
        (read_reply-Ends os io laws w c reply rounds h) (λ r k e. cc)

  submit_returns :
      (w : World) (pm : PoolManager) (c : Client) (req : Request) (reply : Reply)
      (rounds : List Round)
      → left w < length rounds
      → submit os io w pm c req reply rounds ≢ none
  unfolding submit
  submit_returns w pm c req reply rounds h =
      let (w', ok) = send_body os io w c req in
      if_returns ok _ _
        (λ sent. receive_returns w' pm c req reply rounds (omega (arith, send_body-left w c req)))
        (λ e. cc)

  after_wait_returns :
      (pm : PoolManager) (c : Client) (req : Request) (reply : Reply) (r : Reading os io)
      → (r.success ≡ true → left r.world < length r.rest)
      → after_wait os io pm c req reply r ≢ none
  unfolding after_wait
  after_wait_returns pm c req reply r h =
      if_returns r.success _ _
        (λ good. submit_returns r.world pm (record c { done = r.done }) req reply r.rest (h good))
        (λ e. cc)

  check_100-Ends :
      (tmp : Reply) (o : Option (Reading os io))
      → Ends os io laws o
      → Ends os io laws (elim o [ none ↦ none | some r ↦ some (check_100 os io tmp r) ])
  unfolding check_100
  check_100-Ends tmp none e = e
  check_100-Ends tmp (some r) e = λ good.
      omega
        (arith, e (ground arith), clear-left r.world (reply_of r.parser.target tmp).message.body)

  wait_for_100-Ends :
      (w : World) (c : Client) (rounds : List Round)
      → left w < length rounds
      → Ends os io laws (wait_for_100 os io w c rounds)
  unfolding wait_for_100
  wait_for_100-Ends w c rounds h =
      let (w', tmp) = new_reply os w in
      check_100-Ends tmp (read_reply os io w' c tmp rounds)
        (read_reply-Ends os io laws w' c tmp rounds (omega (arith, new_reply-left w)))

  await_returns :
      (w : World) (pm : PoolManager) (c : Client) (req : Request) (reply : Reply)
      (rounds : List Round)
      → left w < length rounds
      → await os io w pm c req reply rounds ≢ none
  unfolding await
  await_returns w pm c req reply rounds h =
      if_returns req.require_100 _ _
        (λ waits.
          bind_returns (wait_for_100 os io w c rounds) (λ r. after_wait os io pm c req reply r)
            (wait_for_100-Ends w c rounds h) (λ r k. after_wait_returns pm c req reply r k))
        (submit_returns w pm c req reply rounds h)

  -- When what the other servers send comes to an end, send() returns, by success or by failure: it
  -- makes no more reads than there are bytes left to come, and one.
  pub send_returns :
      (w : World) (pm : PoolManager) (others : PoolManager → PoolManager) (c : Client)
      (req : Request) (reply : Reply) (rounds : List Round)
      → left w < length rounds
      → send os io w pm others c req reply rounds ≢ none
  unfolding send after_headers
  send_returns w pm others c req reply rounds h =
      let c₀ : Client = record c { done = false } in
      let (w', pm', c', connected) = connect os io w pm c₀ in
      let req' = prepare (set_host req c.host) in
      let (w'', sent) = send_headers os io w' c' req' in
      let fits : left w'' < length rounds =
        omega (arith, connect-left w pm c₀, send_headers-left w' c' req') in
      if_returns connected _ _
        (λ on.
          if_returns sent _ _ (λ out. await_returns w'' (others pm') c' req' reply rounds fits)
            (λ e. cc))
        (λ e. cc)
