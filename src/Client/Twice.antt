-- ===== src/Client/Twice.antt =====
-- One request that a client sends twice.
use libstutter.Common.{
  ◌≡◌, refl, ap, ◌∙◌, Bool, true, false, List, [], ◌++◌, Option, none, some, if◌then◌else◌,
  Bool-cases, inl, inr,
}
use libstutter.Common.Bytes.{Bytes}
use libstutter.Os.{Os}
use libstutter.Io.{Strategy}
use libstutter.PoolManager.{PoolManager}
use libstutter.Request.{Request, prepare, set_host}
use libstutter.Request.Laws.{wire, prepare-wire}
use libstutter.Io.Stream.{StreamLaws}
use libstutter.Client.Sends.{send_headers_whole}
use mathlib.Core.Path.{subst}
use libstutter.Reply.{Reply}
use libstutter.Client.{
  Client, Failure, Round, Reading, Sending, failure, failed, conclude, receive, submit, write_error,
  read_error, connection_error, send_headers, after_wait, await, after_headers, connect, send,
  read_reply, send_body, wait_for_100,
}

output-set_host : (r : Request) (host : Bytes) → (set_host r host).message.output ≡ r.message.output
unfolding set_host
output-set_host r host = refl

module _ (os : Os) (io : Strategy os) where
  open os use {World}

  -- The host of the client and the request that a send() leaves.
  abbrev Leaves : Bytes → Request → Option (Sending os io) → Type 0
  Leaves host r none = Unit {0}
  Leaves host r (some s) = (s.request ≡ r) × (s.client.host ≡ host)

  if-Leaves :
      (host : Bytes) (r : Request) (t : Bool) (a b : Option (Sending os io))
      → Leaves host r a
      → Leaves host r b
      → Leaves host r (if t then a else b)
  if-Leaves host r true a b h k = h
  if-Leaves host r false a b h k = k

  failed-Leaves :
      (w : World) (pm : PoolManager) (c : Client) (req : Request) (reply : Reply) (e : Failure)
      → Leaves c.host req (some (failed os io w pm c req reply e))
  unfolding failed failure
  failed-Leaves w pm c req reply e = (refl, refl)

  conclude-Leaves :
      (pm : PoolManager) (c : Client) (req : Request) (reply : Reply) (r : Reading os io)
      → Leaves c.host req (some (conclude os io pm c req reply r))
  unfolding conclude failed failure
  conclude-Leaves pm c req reply r = elim (Bool-cases r.success) [
    | inl good ↦ rw good (refl, refl)
    | inr bad ↦ rw bad (refl, refl)
  ]

  received-Leaves :
      (pm : PoolManager) (c : Client) (req : Request) (reply : Reply) (o : Option (Reading os io))
      → Leaves c.host req (elim o [ none ↦ none | some r ↦ some (conclude os io pm c req reply r) ])
  received-Leaves pm c req reply none = tt
  received-Leaves pm c req reply (some r) = conclude-Leaves pm c req reply r

  submit-Leaves :
      (w : World) (pm : PoolManager) (c : Client) (req : Request) (reply : Reply)
      (rounds : List Round)
      → Leaves c.host req (submit os io w pm c req reply rounds)
  unfolding submit receive
  submit-Leaves w pm c req reply rounds =
      let (w', ok) = send_body os io w c req in
      if-Leaves c.host req ok _ _
        (received-Leaves pm c req reply (read_reply os io w' c reply rounds))
        (failed-Leaves w' pm c req reply write_error)

  waited-Leaves :
      (pm : PoolManager) (c : Client) (req : Request) (reply : Reply) (o : Option (Reading os io))
      → Leaves c.host req (elim o [ none ↦ none | some r ↦ after_wait os io pm c req reply r ])
  unfolding after_wait
  waited-Leaves pm c req reply none = tt
  waited-Leaves pm c req reply (some r) =
      let c' : Client = record c { done = r.done } in
      if-Leaves c.host req r.success _ _ (submit-Leaves r.world pm c' req reply r.rest)
        (failed-Leaves r.world pm c' req reply read_error)

  after_headers-Leaves :
      (w : World) (pm : PoolManager) (c : Client) (req : Request) (reply : Reply)
      (rounds : List Round) (sent : Bool)
      → Leaves c.host req (after_headers os io w pm c req reply rounds sent)
  unfolding after_headers await
  after_headers-Leaves w pm c req reply rounds sent =
      if-Leaves c.host req sent _ _
        (if-Leaves c.host req req.require_100 _ _
          (waited-Leaves pm c req reply (wait_for_100 os io w c rounds))
          (submit-Leaves w pm c req reply rounds))
        (failed-Leaves w pm c req reply write_error)

  send-Leaves :
      (w : World) (pm : PoolManager) (others : PoolManager → PoolManager) (c : Client)
      (req : Request) (reply : Reply) (rounds : List Round)
      → Leaves c.host (prepare (set_host req c.host)) (send os io w pm others c req reply rounds)
  unfolding send connect
  send-Leaves w pm others c req reply rounds =
      let c₀ : Client = record c { done = false } in
      let (w', pm', c', connected) = connect os io w pm c₀ in
      let req' = prepare (set_host req c.host) in
      let (w'', sent) = send_headers os io w' c' req' in
      if-Leaves c.host req' connected _ _
        (after_headers-Leaves w'' (others pm') c' req' reply rounds sent)
        (failed-Leaves w' pm' c' req' reply connection_error)

  rehosted :
      (r : Request) (host : Bytes)
      → set_host (prepare (set_host r host)) host ≡ prepare (set_host r host)
  unfolding set_host prepare
  rehosted r host = refl

  -- A second send() sets the host of what the first one has prepared.
  left_request :
      (w : World) (pm : PoolManager) (others : PoolManager → PoolManager) (c : Client)
      (req : Request) (reply : Reply) (rounds : List Round) (s : Sending os io)
      → send os io w pm others c req reply rounds ≡ some s
      → set_host s.request s.client.host ≡ prepare (set_host req c.host)
  left_request w pm others c req reply rounds s done =
      let r = prepare (set_host req c.host) in
      let (same, host) =
        subst (Leaves c.host r) done (send-Leaves w pm others c req reply rounds) in
      ap (λ u. set_host u s.client.host) same ∙ ap (set_host r) host ∙ rehosted req c.host

module _ (os : Os) (io : Strategy os) (stream : StreamLaws os io) where
  open os use {World}
  open stream use {sent}

  -- A client sends a request, whatever comes of it, and then takes the first steps of a second send()
  -- of the request as the first one has left it: it connects and sends the headers. If on both
  -- occasions the bytes that come before the wait for a 100-continue all go out, they are on the first
  -- the request, and on the second the same bytes again and the request as the first send() prepared
  -- it behind them; by the request is meant the request line, the headers and, if the client need not
  -- wait for a 100-continue, the buffered body. The request had no bytes to send at first.
  pub send-send :
      (w : World) (pm : PoolManager) (others : PoolManager → PoolManager) (c : Client)
      (req : Request) (reply : Reply) (rounds : List Round) (s : Sending os io)
      → let q = set_host req c.host in
        let (w₁, pm₁, c₁, up₁) = connect os io w pm (record c { done = false }) in
        let r = prepare (set_host s.request s.client.host) in
        let (w₂, pm₂, c₂, up₂) =
          connect os io s.world s.manager (record s.client { done = false }) in
        req.message.output ≡ []
        → send os io w pm others c req reply rounds ≡ some s
        → (send_headers os io w₁ c₁ (prepare q)).1 ≡ true
        → (send_headers os io w₂ c₂ r).1 ≡ true
        → (sent (send_headers os io w₁ c₁ (prepare q)).0 c₁.fd ≡ sent w₁ c₁.fd ++ wire q)
          × (sent (send_headers os io w₂ c₂ r).0 c₂.fd
              ≡ sent w₂ c₂.fd ++ (wire q ++ wire (prepare q)))
  send-send w pm others c req reply rounds s fresh done ok₁ ok₂ =
      let q = set_host req c.host in
      let (w₁, pm₁, c₁, up₁) = connect os io w pm (record c { done = false }) in
      let r = prepare (set_host s.request s.client.host) in
      let (w₂, pm₂, c₂, up₂) = connect os io s.world s.manager (record s.client { done = false }) in
      let first : (prepare q).message.output ≡ wire q =
        prepare-wire q ∙ ap (λ o. o ++ wire q) (output-set_host req c.host ∙ fresh) in
      let left : set_host s.request s.client.host ≡ prepare q =
        left_request os io w pm others c req reply rounds s done in
      let second : r.message.output ≡ wire q ++ wire (prepare q) =
        ap (λ (u : Request). (prepare u).message.output) left
        ∙ prepare-wire (prepare q)
        ∙ ap (λ o. o ++ wire (prepare q)) first in
      (
        send_headers_whole os io stream w₁ c₁ (prepare q) ok₁ ∙ ap (◌++◌ (sent w₁ c₁.fd)) first,
        send_headers_whole os io stream w₂ c₂ r ok₂ ∙ ap (◌++◌ (sent w₂ c₂.fd)) second,
      )
