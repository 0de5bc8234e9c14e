-- ===== src/Client/Outcome.antt =====
-- What Client::send reports.
use libstutter.Common.{
  ◌≡◌, refl, Bool, true, false, List, [], ◌∷◌, Option, none, some, if◌then◌else◌, Bool-cases, inl,
  inr, ◌⊎◌,
}
use mathlib.Core.Path.{subst}
use libstutter.Common.Int.{ℤ}
use libstutter.Os.{Os}
use libstutter.Io.{Strategy}
use libstutter.PoolManager.{PoolManager}
use libstutter.Request.{Request, prepare, set_host}
use libstutter.Reply.{Reply}
use libstutter.Parser.{Parser, reset, response}
use libstutter.Client.{
  Client, Failure, Round, Reading, Sending, failure, failed, conclude, receive, submit, write_error,
  read_error, connection_error, send_headers, after_wait, await, after_headers, after_read,
  returned, connect, send, read_reply, read_rounds, send_body, wait_for_100, reply_buffer_size,
}

module _ (os : Os) (io : Strategy os) where
  open os use {World}

  -- A reading that has succeeded has seen the end of the message.
  abbrev Complete : Option (Reading os io) → Type 0
  Complete none = Unit {0}
  Complete (some r) = r.success ≡ true → r.done ≡ true

  if-Complete :
      (t : Bool) (a b : Option (Reading os io))
      → (t ≡ true → Complete a)
      → (t ≡ false → Complete b)
      → Complete (if t then a else b)
  if-Complete true a b h k = h refl
  if-Complete false a b h k = k refl

  read_rounds-Complete :
      (w : World) (fd : ℤ) (p : Parser) (rounds : List Round)
      → Complete (read_rounds os io w fd p rounds)
  unfolding read_rounds returned
  read_rounds-Complete w fd p [] = tt
  read_rounds-Complete w fd p (round ∷ rounds) =
      let (w', recvd) = io.safe_read w fd reply_buffer_size in
      let (w'', p', done, ok) = after_read os io w' p round recvd in
      if-Complete ok _ _
        (λ good. if-Complete done _ _ (λ d s. d) (λ n. read_rounds-Complete w'' fd p' rounds))
        (λ bad s. cc)

  read_reply-Complete :
      (w : World) (c : Client) (reply : Reply) (rounds : List Round)
      → Complete (read_reply os io w c reply rounds)
  unfolding read_reply
  read_reply-Complete w c reply rounds = read_rounds-Complete w c.fd (reset (response reply)) rounds

  -- send() returns false with this error.
  abbrev Fails : Failure → Sending os io → Type 0
  Fails e s = (s.success ≡ false) × (s.client.error ≡ e)

  -- From the reply on: it could not be read, or it was.
  abbrev Receives : World → Client → Reply → List Round → Sending os io → Type 0
  Receives w c reply rounds s =
      (r : Reading os io) × (read_reply os io w c reply rounds ≡ some r)
      × (((r.success ≡ false) × Fails read_error s)
          ⊎ ((r.success ≡ true)
              × (r.done ≡ true)
              × (s.success ≡ true)
              × (s.client.done ≡ true)
              × (s.client.error ≡ c.error)))

  -- From the body on: it could not be sent, or the rest decides.
  abbrev Submits : World → Client → Request → Reply → List Round → Sending os io → Type 0
  Submits w c req reply rounds s =
      let (w', sent) = send_body os io w c req in
      ((sent ≡ false) × Fails write_error s) ⊎ ((sent ≡ true) × Receives w' c reply rounds s)

  -- From the 100-continue on: there is none to wait for, it did not come, or it came.
  abbrev Awaits : World → Client → Request → Reply → List Round → Sending os io → Type 0
  Awaits w c req reply rounds s =
      ((req.require_100 ≡ false) × Submits w c req reply rounds s)
      ⊎ ((req.require_100 ≡ true)
          × (r : Reading os io) × (wait_for_100 os io w c rounds ≡ some r)
          × (((r.success ≡ false) × Fails read_error s)
              ⊎ ((r.success ≡ true)
                  × Submits r.world (record c { done = r.done }) req reply r.rest s)))

  -- The whole of send(): connecting failed, or sending the headers did, or the rest decides.
  abbrev pub Settled :
      World → PoolManager → Client → Request → Reply → List Round → Sending os io → Type 0
  Settled w pm c req reply rounds s =
      let r = prepare (set_host req c.host) in
      let (w₁, pm₁, c₁, connected) = connect os io w pm (record c { done = false }) in
      let (w₂, sent) = send_headers os io w₁ c₁ r in
      ((connected ≡ false) × Fails connection_error s)
      ⊎ ((connected ≡ true) × (sent ≡ false) × Fails write_error s)
      ⊎ ((connected ≡ true) × (sent ≡ true) × (c₁.error ≡ c.error) × Awaits w₂ c₁ r reply rounds s)

  -- A result, if there is one.
  abbrev Of : (Sending os io → Type 0) → Option (Sending os io) → Type 0
  Of P none = Unit {0}
  Of P (some s) = P s

  if-Of :
      (P : Sending os io → Type 0) (t : Bool) (a b : Option (Sending os io))
      → (t ≡ true → Of P a)
      → (t ≡ false → Of P b)
      → Of P (if t then a else b)
  if-Of P true a b h k = h refl
  if-Of P false a b h k = k refl

  Of-map :
      (P Q : Sending os io → Type 0) (o : Option (Sending os io))
      → ((s : Sending os io) → P s → Q s)
      → Of P o
      → Of Q o
  Of-map P Q none f h = tt
  Of-map P Q (some s) f h = f s h

  failed-Fails :
      (w : World) (pm : PoolManager) (c : Client) (req : Request) (reply : Reply) (e : Failure)
      → Fails e (failed os io w pm c req reply e)
  unfolding failed failure
  failed-Fails w pm c req reply e = (refl, refl)

  conclude-Receives :
      (w : World) (pm : PoolManager) (c : Client) (req : Request) (reply : Reply)
      (rounds : List Round) (r : Reading os io)
      → read_reply os io w c reply rounds ≡ some r
      → (r.success ≡ true → r.done ≡ true)
      → Receives w c reply rounds (conclude os io pm c req reply r)
  unfolding conclude failed failure
  conclude-Receives w pm c req reply rounds r read complete = elim (Bool-cases r.success) [
    | inl good ↦ rw good (r, read, inr (good, complete good, refl, complete good, refl))
    | inr bad ↦ rw bad (r, read, inl (bad, (refl, refl)))
  ]

  receive-Receives :
      (w : World) (pm : PoolManager) (c : Client) (req : Request) (reply : Reply)
      (rounds : List Round)
      → Of (Receives w c reply rounds) (receive os io w pm c req reply rounds)
  unfolding receive
  receive-Receives w pm c req reply rounds =
      go (read_reply os io w c reply rounds) refl (read_reply-Complete w c reply rounds)
    where
      go :
          (o : Option (Reading os io))
          → read_reply os io w c reply rounds ≡ o
          → Complete o
          → Of
              (Receives w c reply rounds)
              (elim o [ none ↦ none | some r ↦ some (conclude os io pm c req reply r) ])
      go none e k = tt
      go (some r) e k = conclude-Receives w pm c req reply rounds r e k

  submit-Submits :
      (w : World) (pm : PoolManager) (c : Client) (req : Request) (reply : Reply)
      (rounds : List Round)
      → Of (Submits w c req reply rounds) (submit os io w pm c req reply rounds)
  unfolding submit
  submit-Submits w pm c req reply rounds =
      let w' = (send_body os io w c req).0 in
      if-Of (Submits w c req reply rounds) (send_body os io w c req).1 _ _
        (λ out.
          Of-map (Receives w' c reply rounds) _ (receive os io w' pm c req reply rounds)
            (λ s h. inr (out, h)) (receive-Receives w' pm c req reply rounds))
        (λ broken. inl (broken, failed-Fails w' pm c req reply write_error))

  awaited :
      (w : World) (pm : PoolManager) (c : Client) (req : Request) (reply : Reply)
      (rounds : List Round) (o : Option (Reading os io))
      → req.require_100 ≡ true
      → wait_for_100 os io w c rounds ≡ o
      → Of
          (Awaits w c req reply rounds)
          (elim o [ none ↦ none | some r ↦ after_wait os io pm c req reply r ])
  unfolding after_wait
  awaited w pm c req reply rounds none waits e = tt
  awaited w pm c req reply rounds (some r) waits e =
      let c' : Client = record c { done = r.done } in
      if-Of (Awaits w c req reply rounds) r.success _ _
        (λ good.
          Of-map (Submits r.world c' req reply r.rest) _
            (submit os io r.world pm c' req reply r.rest) (λ s h. inr (waits, r, e, inr (good, h)))
            (submit-Submits r.world pm c' req reply r.rest))
        (λ bad. inr (waits, r, e, inl (bad, failed-Fails r.world pm c' req reply read_error)))

  await-Awaits :
      (w : World) (pm : PoolManager) (c : Client) (req : Request) (reply : Reply)
      (rounds : List Round)
      → Of (Awaits w c req reply rounds) (await os io w pm c req reply rounds)
  unfolding await
  await-Awaits w pm c req reply rounds =
      if-Of (Awaits w c req reply rounds) req.require_100 _ _
        (λ waits. awaited w pm c req reply rounds (wait_for_100 os io w c rounds) waits refl)
        (λ plain.
          Of-map (Submits w c req reply rounds) _ (submit os io w pm c req reply rounds)
            (λ s h. inl (plain, h)) (submit-Submits w pm c req reply rounds))

  error-connect :
      (w : World) (pm : PoolManager) (c : Client) → (connect os io w pm c).2.error ≡ c.error
  unfolding connect
  error-connect w pm c = refl

  send-Of :
      (w : World) (pm : PoolManager) (others : PoolManager → PoolManager) (c : Client)
      (req : Request) (reply : Reply) (rounds : List Round)
      → Of (Settled w pm c req reply rounds) (send os io w pm others c req reply rounds)
  unfolding send after_headers
  send-Of w pm others c req reply rounds =
      let P = Settled w pm c req reply rounds in
      let r = prepare (set_host req c.host) in
      let (w₁, pm₁, c₁, connected) = connect os io w pm (record c { done = false }) in
      let (w₂, sent) = send_headers os io w₁ c₁ r in
      if-Of P connected _ _
        (λ up.
          if-Of P sent _ _
            (λ out.
              Of-map (Awaits w₂ c₁ r reply rounds) P (await os io w₂ (others pm₁) c₁ r reply rounds)
                (λ s h. inr (inr (up, out, error-connect w pm (record c { done = false }), h)))
                (await-Awaits w₂ (others pm₁) c₁ r reply rounds))
            (λ broken. inr (inl (up, broken, failed-Fails w₂ (others pm₁) c₁ r reply write_error))))
        (λ down. inl (down, failed-Fails w₁ pm₁ c₁ r reply connection_error))

  -- What a send() that returns reports, by the step that decides. If connecting fails it returns false
  -- with CONNECTION_ERROR. If the headers cannot be sent it returns false with WRITE_ERROR. If the
  -- request expects a 100-continue and wait_for_100() fails it returns false with READ_ERROR. If the
  -- body cannot be sent it returns false with WRITE_ERROR, and if the reply cannot be read, with
  -- READ_ERROR. Otherwise it returns true, m_done is set, and m_error is as it was. Each step starts
  -- where the one before it has ended.
  pub send-Settled :
      (w : World) (pm : PoolManager) (others : PoolManager → PoolManager) (c : Client)
      (req : Request) (reply : Reply) (rounds : List Round) (s : Sending os io)
      → send os io w pm others c req reply rounds ≡ some s
      → Settled w pm c req reply rounds s
  send-Settled w pm others c req reply rounds s sent =
      subst (Of (Settled w pm c req reply rounds)) sent (send-Of w pm others c req reply rounds)
