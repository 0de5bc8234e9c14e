-- ===== src/Client/Release.antt =====
-- What every run of Client::send leaves in the pool of its target.
use libstutter.Common.{
  ◌≡◌, refl, Bool, true, false, List, Option, none, some, arith, if◌then◌else◌, Bool-cases, inl,
  inr,
}
use mathlib.Core.Path.{subst}
use libstutter.Common.Int.{ℤ}
use libstutter.Common.Bytes.{Bytes, eq_bytes_refl}
use libstutter.OrderedMap.Laws.{find-assign}
use libstutter.IntSet.{contains}
use libstutter.IntSet.Laws.{contains-erase}
use libstutter.Os.{Os}
use libstutter.Io.{Strategy}
use libstutter.Pool.{SocketPool, put}
use libstutter.Pool.Invariant.{IsPool, put-IsPool, get-IsPool}
use libstutter.PoolManager.{PoolManager, pair_rank, key, get_pool, set_pool}
use libstutter.Request.{Request, prepare, set_host}
use libstutter.Reply.{Reply}
use libstutter.Client.{
  Client, Failure, Round, Reading, Sending, release_socket, failure, failed, conclude, receive,
  submit, write_error, read_error, connection_error, send_headers, after_wait, await, after_headers,
  connect, send, read_reply, send_body, wait_for_100,
}

-- The pool that a client of this target works with.
abbrev pub held : PoolManager → Bytes → ℤ → SocketPool
held pm host port = (get_pool pm host port).1

held-set_pool :
    (pm : PoolManager) (host : Bytes) (port : ℤ) (p : SocketPool)
    → held (set_pool pm host port p) host port ≡ p
unfolding get_pool set_pool
held-set_pool pm host port p = rw (
  find-assign pair_rank (key host port) p (key host port) pm.pools,
  eq_bytes_refl (pair_rank (key host port)),
)

put_released : (p : SocketPool) (fd : ℤ) → IsPool p → contains fd (put p fd).0.taken ≡ false
unfolding put
put_released p fd v = ground (arith, contains-erase fd fd p.taken v.taken_sorted)

-- The pool is well formed, and does not count the descriptor as taken.
abbrev pub IsReleased : PoolManager → Client → Type 0
IsReleased pm c =
    IsPool (held pm c.host c.port) × (contains c.fd (held pm c.host c.port).taken ≡ false)

release_socket-IsReleased :
    (pm : PoolManager) (c : Client)
    → IsPool (held pm c.host c.port)
    → IsReleased (release_socket pm c) c
unfolding release_socket
release_socket-IsReleased pm c v =
    rw
      (held-set_pool (get_pool pm c.host c.port).0 c.host c.port
        (put (held pm c.host c.port) c.fd).0)
      (put-IsPool _ c.fd v, put_released _ c.fd v)

module _ (os : Os) (io : Strategy os) where
  open os use {World}

  connect-IsPool :
      (w : World) (pm : PoolManager) (c : Client)
      → IsPool (held pm c.host c.port)
      → IsPool (held (connect os io w pm c).1 c.host c.port)
  unfolding connect
  connect-IsPool w pm c v =
      rw (held-set_pool (get_pool pm c.host c.port).0 c.host c.port _)
        (get-IsPool os w (held pm c.host c.port) c.fd v)

  -- The target of a client stays, and the pool has the descriptor back.
  abbrev pub Released : Bytes → ℤ → Sending os io → Type 0
  Released host port s =
      (s.client.host ≡ host) × (s.client.port ≡ port) × IsReleased s.manager s.client

  abbrev Ended : Bytes → ℤ → Option (Sending os io) → Type 0
  Ended host port none = Unit {0}
  Ended host port (some s) = Released host port s

  if-Ended :
      (host : Bytes) (port : ℤ) (t : Bool) (a b : Option (Sending os io))
      → Ended host port a
      → Ended host port b
      → Ended host port (if t then a else b)
  if-Ended host port true a b h k = h
  if-Ended host port false a b h k = k

  bind-Ended :
      (host : Bytes) (port : ℤ) (o : Option (Reading os io))
      (f : Reading os io → Option (Sending os io))
      → ((r : Reading os io) → Ended host port (f r))
      → Ended host port (elim o [ none ↦ none | some r ↦ f r ])
  bind-Ended host port none f h = tt
  bind-Ended host port (some r) f h = h r

  failed-Ended :
      (w : World) (pm : PoolManager) (c : Client) (req : Request) (reply : Reply) (e : Failure)
      → IsPool (held pm c.host c.port)
      → Ended c.host c.port (some (failed os io w pm c req reply e))
  unfolding failed failure release_socket
  failed-Ended w pm c req reply e v = (refl, refl, release_socket-IsReleased pm c v)

  conclude-Ended :
      (pm : PoolManager) (c : Client) (req : Request) (reply : Reply) (r : Reading os io)
      → IsPool (held pm c.host c.port)
      → Ended c.host c.port (some (conclude os io pm c req reply r))
  unfolding conclude failed failure
  conclude-Ended pm c req reply r v = elim (Bool-cases r.success) [
    | inl good ↦ rw good (refl, refl, release_socket-IsReleased pm (record c { done = r.done }) v)
    | inr bad ↦ rw bad (refl, refl, release_socket-IsReleased pm (record c { done = r.done }) v)
  ]

  receive-Ended :
      (w : World) (pm : PoolManager) (c : Client) (req : Request) (reply : Reply)
      (rounds : List Round)
      → IsPool (held pm c.host c.port)
      → Ended c.host c.port (receive os io w pm c req reply rounds)
  unfolding receive
  receive-Ended w pm c req reply rounds v =
      bind-Ended c.host c.port (read_reply os io w c reply rounds)
        (λ r. some (conclude os io pm c req reply r)) (λ r. conclude-Ended pm c req reply r v)

  submit-Ended :
      (w : World) (pm : PoolManager) (c : Client) (req : Request) (reply : Reply)
      (rounds : List Round)
      → IsPool (held pm c.host c.port)
      → Ended c.host c.port (submit os io w pm c req reply rounds)
  unfolding submit
  submit-Ended w pm c req reply rounds v =
      let w' = (send_body os io w c req).0 in
      if-Ended c.host c.port (send_body os io w c req).1 _ _
        (receive-Ended w' pm c req reply rounds v) (failed-Ended w' pm c req reply write_error v)

  after_wait-Ended :
      (pm : PoolManager) (c : Client) (req : Request) (reply : Reply) (r : Reading os io)
      → IsPool (held pm c.host c.port)
      → Ended c.host c.port (after_wait os io pm c req reply r)
  unfolding after_wait
  after_wait-Ended pm c req reply r v =
      let c' : Client = record c { done = r.done } in
      if-Ended c.host c.port r.success _ _ (submit-Ended r.world pm c' req reply r.rest v)
        (failed-Ended r.world pm c' req reply read_error v)

  await-Ended :
      (w : World) (pm : PoolManager) (c : Client) (req : Request) (reply : Reply)
      (rounds : List Round)
      → IsPool (held pm c.host c.port)
      → Ended c.host c.port (await os io w pm c req reply rounds)
  unfolding await
  await-Ended w pm c req reply rounds v =
      if-Ended c.host c.port req.require_100 _ _
        (bind-Ended c.host c.port (wait_for_100 os io w c rounds)
          (λ r. after_wait os io pm c req reply r) (λ r. after_wait-Ended pm c req reply r v))
        (submit-Ended w pm c req reply rounds v)

  after_headers-Ended :
      (w : World) (pm : PoolManager) (c : Client) (req : Request) (reply : Reply)
      (rounds : List Round) (sent : Bool)
      → IsPool (held pm c.host c.port)
      → Ended c.host c.port (after_headers os io w pm c req reply rounds sent)
  unfolding after_headers
  after_headers-Ended w pm c req reply rounds sent v =
      if-Ended c.host c.port sent _ _ (await-Ended w pm c req reply rounds v)
        (failed-Ended w pm c req reply write_error v)

  send-Ended :
      (w : World) (pm : PoolManager) (others : PoolManager → PoolManager) (c : Client)
      (req : Request) (reply : Reply) (rounds : List Round)
      → IsPool (held pm c.host c.port)
      → ((m : PoolManager) → IsPool (held m c.host c.port) → IsPool (held (others m) c.host c.port))
      → Ended c.host c.port (send os io w pm others c req reply rounds)
  unfolding send connect
  send-Ended w pm others c req reply rounds v keeps =
      let c₀ : Client = record c { done = false } in
      let (w', pm', c', connected) = connect os io w pm c₀ in
      let req' = prepare (set_host req c.host) in
      let (w'', sent) = send_headers os io w' c' req' in
      let v' = connect-IsPool w pm c₀ v in
      if-Ended c.host c.port connected _ _
        (after_headers-Ended w'' (others pm') c' req' reply rounds sent (keeps pm' v'))
        (failed-Ended w' pm' c' req' reply connection_error v')

  -- Whatever the system calls answer and the other server sends, a send() that returns has given its
  -- descriptor back: the pool of its target stays well formed and no longer counts m_fd as taken. What
  -- the rest of the program does to the pools while send() waits keeps that pool well formed.
  pub send-Released :
      (w : World) (pm : PoolManager) (others : PoolManager → PoolManager) (c : Client)
      (req : Request) (reply : Reply) (rounds : List Round) (s : Sending os io)
      → IsPool (held pm c.host c.port)
      → ((m : PoolManager) → IsPool (held m c.host c.port) → IsPool (held (others m) c.host c.port))
      → send os io w pm others c req reply rounds ≡ some s
      → Released c.host c.port s
  send-Released w pm others c req reply rounds s v keeps done =
      subst (Ended c.host c.port) done (send-Ended w pm others c req reply rounds v keeps)
