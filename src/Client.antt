-- ===== src/Client.antt =====
-- stutter/http/client.cpp: one request to another server and its reply, over a pooled connection.
pub mod Release
pub mod Returns
pub mod Total
pub mod Outcome
pub mod Reads
pub mod Sends
pub mod Whole
pub mod Steps
pub mod Exchange
pub mod Twice
use libstutter.Common.{
  ℕ, ◌==◌, Bool, true, false, List, [], ◌∷◌, Option, none, some, if◌then◌else◌, length,
}
use libstutter.Common.Int.{ℤ, pos, minus_one, eqb_ℤ}
use libstutter.Common.Bytes.{Bytes}
use libstutter.Request
use libstutter.Request.{Request}
use libstutter.Reply
use libstutter.Reply.{Reply, new_reply}
use libstutter.Parser
use libstutter.Parser.{
  Parser, Target, request, response, Event, on_message_complete, handle_event, add_result, reset,
}
use libstutter.Connection.{is_ok}
use libstutter.Pool
use libstutter.Body
use libstutter.PoolManager
use libstutter.PoolManager.{PoolManager, get_pool, set_pool}
use libstutter.Io.{Strategy, send_raw, send_buffered_body}
use libstutter.Os.{Os, Read}

abbrev pub reply_buffer_size : ℕ
reply_buffer_size = 1024

pub data Failure : Type 0 where
  not_executed success socket_error dns_error connection_error write_error read_error : Failure

pub record Client : Type 0 where
  pub fd : ℤ
  pub error : Failure
  pub done : Bool
  pub host : Bytes
  pub port : ℤ

-- Client(io, host, port).
unfoldable pub new_client : Bytes → ℤ → Client
new_client host port = record {
  fd = minus_one;
  error = not_executed;
  done = false;
  host = host;
  port = port;
}

-- release_socket: the descriptor goes back to the pool of the target.
unfoldable pub release_socket : PoolManager → Client → PoolManager
release_socket pm c =
    let (pm', pool) = get_pool pm c.host c.port in set_pool pm' c.host c.port (Pool.put pool c.fd).0

unfoldable pub failure : PoolManager → Client → Failure → PoolManager × Client × Bool
failure pm c e = (release_socket pm c, record c { error = e }, false)

-- m_reply, which was `r` at first; a parser for replies never holds a request.
abbrev pub reply_of : Target → Reply → Reply
reply_of (response r') r = r'
reply_of (request req) r = r

-- What the library does with the bytes of one read: its calls, and the number of bytes it has read.
abbrev pub Round : Type 0
Round = List Event × ℕ

module _ (os : Os) (io : Strategy os) where
  open os use {World}

  -- connect(): get() writes the descriptor into m_fd.
  unfoldable pub connect : World → PoolManager → Client → World × PoolManager × Client × Bool
  connect w pm c =
      let (pm', pool) = get_pool pm c.host c.port in
      let g = Pool.get os w pool c.fd in
      (g.world, set_pool pm' c.host c.port g.pool, record c { fd = g.fd }, g.success)

  unfoldable pub send_headers : World → Client → Request → World × Bool
  send_headers w c r = send_raw os io w c.fd r.message.output

  -- The calls of the library in a row; on_message_complete sets m_done and answers true.
  unfoldable pub feed : World → Parser → Bool → List Event → World × Parser × Bool
  feed w p done [] = (w, p, done)
  feed w p done (on_message_complete h ∷ events) =
      let (w', p') = handle_event os w p (on_message_complete h) in feed w' p' true events
  feed w p done (e ∷ events) = let (w', p') = handle_event os w p e in feed w' p' done events

  -- What read_reply leaves: m_done, the rounds that it did not need, and its result.
  pub record Reading : Type 0 where
    pub world : World
    pub parser : Parser
    pub done : Bool
    pub rest : List Round
    pub success : Bool

  returned : World → Parser → Bool → List Round → Bool → Reading
  returned w p done rest ok = record {
    world = w;
    parser = p;
    done = done;
    rest = rest;
    success = ok;
  }

  unfoldable pub after_read : World → Parser → Round → Read → World × Parser × Bool × Bool
  after_read w p round none = (w, p, false, false)
  after_read w p round (some []) = (w, p, false, false)
  after_read w p round (some (b ∷ bytes)) =
      let (w', p', done) = feed w p false round.0 in
      (w', p', done, is_ok (add_result round.1 (length (b ∷ bytes)) p'))

  -- The loop of read_reply, a round for each entry of the list; `none` when it reads on after them.
  unfoldable pub read_rounds : World → ℤ → Parser → List Round → Option Reading
  unfolding after_read returned
  read_rounds w fd p [] = none
  read_rounds w fd p (round ∷ rounds) =
      let (w', recvd) = io.safe_read w fd reply_buffer_size in
      let (w'', p', done, ok) = after_read w' p round recvd in
      let more = read_rounds w'' fd p' rounds in
      let stop = some (returned w'' p' done rounds ok) in
      if ok then if done then stop else more else stop

  unfoldable pub read_reply : World → Client → Reply → List Round → Option Reading
  unfolding read_rounds
  read_reply w c reply rounds = read_rounds w c.fd (reset (response reply)) rounds

  -- wait_for_100 on what read_reply left: a reply with another status is a failure. The temporary
  -- reply goes away with its body.
  unfoldable pub check_100 : Reply → Reading → Reading
  check_100 tmp r =
      let got = reply_of r.parser.target tmp in
      record r {
        world = (Body.clear os r.world got.message.body).0;
        success = if r.success then eqb_ℤ got.code (pos 100) else false;
      }

  unfoldable pub wait_for_100 : World → Client → List Round → Option Reading
  unfolding check_100
  wait_for_100 w c rounds =
      let (w', tmp) = new_reply os w in
      elim (read_reply w' c tmp rounds) [ none ↦ none | some r ↦ some (check_100 tmp r) ]

  -- The buffered part, if prepare() has held it back, and then the part on disk.
  unfoldable pub send_body : World → Client → Request → World × Bool
  send_body w c r =
      let (w', ok) = send_raw os io w c.fd r.message.body.memory in
      if r.require_100
      then if ok then send_buffered_body os io w' c.fd r.message.body else (w', false)
      else send_buffered_body os io w c.fd r.message.body

  -- What send() leaves behind: the success flag is its result.
  pub record Sending : Type 0 where
    pub world : World
    pub manager : PoolManager
    pub client : Client
    pub request : Request
    pub reply : Reply
    pub success : Bool

  failed : World → PoolManager → Client → Request → Reply → Failure → Sending
  failed w pm c req reply e =
      let (pm', c', ok) = failure pm c e in
      record { world = w; manager = pm'; client = c'; request = req; reply = reply; success = ok }

  -- The end of send(), on what read_reply left.
  conclude : PoolManager → Client → Request → Reply → Reading → Sending
  unfolding failed
  conclude pm c req reply r =
      let c' = record c { done = r.done } in
      let reply' = reply_of r.parser.target reply in
      if r.success
      then record {
        world = r.world;
        manager = release_socket pm c';
        client = c';
        request = req;
        reply = reply';
        success = true;
      }
      else failed r.world pm c' req reply' read_error

  -- The steps of send() from the last to the first; `none` stands for a wait that does not end.
  pub receive : World → PoolManager → Client → Request → Reply → List Round → Option Sending
  unfolding conclude
  receive w pm c req reply rounds = elim (read_reply w c reply rounds) [
    | none ↦ none
    | some r ↦ some (conclude pm c req reply r)
  ]

  pub submit : World → PoolManager → Client → Request → Reply → List Round → Option Sending
  unfolding receive
  submit w pm c req reply rounds =
      let (w', ok) = send_body w c req in
      if ok then receive w' pm c req reply rounds else some (failed w' pm c req reply write_error)

  after_wait : PoolManager → Client → Request → Reply → Reading → Option Sending
  unfolding submit
  after_wait pm c req reply r =
      let c' = record c { done = r.done } in
      if r.success
      then submit r.world pm c' req reply r.rest
      else some (failed r.world pm c' req reply read_error)

  pub await : World → PoolManager → Client → Request → Reply → List Round → Option Sending
  unfolding after_wait
  await w pm c req reply rounds =
      if req.require_100
      then elim (wait_for_100 w c rounds) [ none ↦ none | some r ↦ after_wait pm c req reply r ]
      else submit w pm c req reply rounds

  after_headers :
      World → PoolManager → Client → Request → Reply → List Round → Bool → Option Sending
  unfolding await
  after_headers w pm c req reply rounds sent =
      if sent then await w pm c req reply rounds else some (failed w pm c req reply write_error)

  -- `others` is what the rest of the program makes of the singleton while send() waits. All its waits
  -- come after connect(), and it comes back to the manager only to release its socket.
  unfoldable pub send :
      World
      → PoolManager
      → (PoolManager → PoolManager)
      → Client
      → Request
      → Reply
      → List Round
      → Option Sending
  unfolding after_headers
  send w pm others c req reply rounds =
      let req' = Request.prepare (Request.set_host req c.host) in
      let (w', pm', c', connected) = connect w pm (record c { done = false }) in
      let (w'', sent) = send_headers w' c' req' in
      if connected
      then after_headers w'' (others pm') c' req' reply rounds sent
      else some (failed w' pm' c' req' reply connection_error)
