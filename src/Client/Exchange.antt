-- ===== src/Client/Exchange.antt =====
-- Client::send when nothing fails: the request, the wait for a 100-continue, and the reply.
use mathlib.Core.Option
use libstutter.Common.{◌≡◌, refl, true, false, List, [], ◌++◌, map, some, sym, ap, ◌∙◌}
use mathlib.Core.Path.{subst}
use libstutter.Common.Int.{ℤ, pos}
use libstutter.Common.Bytes.{Bytes, fold_case}
use libstutter.OrderedMap.{find}
use libstutter.Body.{new_body}
use libstutter.Body.Content.{FileLaws}
use libstutter.Message.{get_header}
use libstutter.Message.Laws.{HasSortedHeaders, Works}
use libstutter.Request.{Request, prepare, set_host}
use libstutter.Reply
use libstutter.Reply.{Reply, new_reply}
use libstutter.Parser.{Parser, response, Head, reset}
use libstutter.Parser.Headers.{concat}
use libstutter.PoolManager.{PoolManager}
use libstutter.Io.{Strategy}
use libstutter.Os.{Os}
use libstutter.Client.{
  Client, Round, reply_buffer_size, read_reply, read_rounds, reply_of, wait_for_100, check_100,
  submit, send, send_body, send_headers, connect,
}
use libstutter.Client.Steps.{
  receive_whole, submit_sent, send_awaits, await_plain, await_continued, run-continue_events,
  new_reply-body, answered, continue_events, after_continue,
}
use libstutter.Client.Reads.{brought, Delivered, Delivered-Readable, read_whole, read_rounds-Split}
use libstutter.Client.Whole.{reply_read, empty_reply-Kept}
use libstutter.Wire.{Cut, header_of, message_events}
use libstutter.Wire.Content.{Kept}
use libstutter.Wire.Served.{Ends}
use libstutter.Wire.Rounds.{Divides, flatten-Split, rounds_run, rounds_run-same}

-- A reply of a server, what the library makes of its bytes, the reads that it comes in, and the body
-- that the client's reply has already.
pub record Incoming : Type 0 where
  pub reply : Reply
  pub cuts : List Cut
  pub parts : List Bytes
  pub head : Head
  pub rounds : List Round
  pub already : Bytes

module _ (os : Os) (io : Strategy os) (laws : FileLaws os) (works : Works os) where
  open os use {World}

  continue_read :
      (w : World) (fd : ℤ) (tmp : Reply) (h : Head) (rounds rest : List Round)
      → tmp.message.body ≡ new_body
      → Divides (brought rounds) (continue_events h)
      → Delivered os io laws works w fd (reset (response tmp)) rounds
      → let (w', p) =
          rounds_run os io fd reply_buffer_size w (reset (response tmp)) (brought rounds) in
        (read_rounds os io w fd (reset (response tmp)) (rounds ++ rest)
          ≡ some (read_whole os io w' p rest))
        × ((reply_of p.target tmp).code ≡ h.status_code)
  unfolding reset Reply.set_status
  continue_read w fd tmp h rounds rest none_yet d arrives =
      let p = reset (response tmp) in
      let empty = empty_reply-Kept os io laws works w tmp none_yet in
      let split =
        flatten-Split h (brought rounds) d.last (subst (Ends h) (sym d.joined) (refl, refl)) in
      let (b, same, held) =
        rounds_run-same os io laws works fd reply_buffer_size w w p _ (brought rounds)
          (continue_events h) [] [] d.joined
          (Delivered-Readable os io laws works w fd p rounds arrives) empty
          (run-continue_events os io w tmp h) empty in
      (
        read_rounds-Split os io laws works h rounds rest w fd p (tmp, refl, refl) split arrives,
        ap (λ (q : Parser). (reply_of q.target tmp).code) same,
      )

  -- wait_for_100() on a 100-continue, which arrives in reads of its own.
  wait_for_100_read :
      (w : World) (c : Client) (h : Head) (rounds rest : List Round)
      → h.status_code ≡ pos 100
      → Divides (brought rounds) (continue_events h)
      → Delivered os io laws works
          (new_reply os w).0
          c.fd
          (reset (response (new_reply os w).1))
          rounds
      → (p : Parser) × (wait_for_100 os io w c (rounds ++ rest)
          ≡ some (read_whole os io (after_continue os io w c rounds) p rest))
  unfolding wait_for_100 check_100 read_reply
  wait_for_100_read w c h rounds rest continues d arrives =
      let (w₀, tmp) = new_reply os w in
      let (read, code) =
        continue_read w₀ c.fd tmp h rounds rest (new_reply-body os io w) d arrives in
      let p = rounds_run os io c.fd reply_buffer_size w₀ (reset (response tmp)) (brought rounds) in
      (p.1, rw (read, wait_for_100, read_reply, code, continues) refl)

  -- The conditions under which it is read from a descriptor into a reply of the client.
  pub record IsIncoming (w : World) (fd : ℤ) (into : Reply) (i : Incoming) : Type 0 where
    pub sorted : HasSortedHeaders i.reply.message
    pub heads : map header_of i.cuts ≡ (Reply.prepare i.reply).message.headers
    pub had : Kept os laws works w into.message.body i.already
    pub divides : Divides (brought i.rounds) (message_events [] i.cuts i.parts i.head)
    pub delivered : Delivered os io laws works w fd (reset (response into)) i.rounds

  -- What the client has of it.
  pub record Has (w : World) (into got : Reply) (i : Incoming) : Type 0 where
    pub status : got.code ≡ i.head.status_code
    pub body : Kept os laws works w got.message.body (i.already ++ concat i.parts)
    pub header :
        (name : Bytes)
        → get_header got.message name
          ≡ Option.get_or
              (find fold_case name (Reply.prepare i.reply).message.headers)
              (get_header into.message name)

  submit_replied :
      (w : World) (pm : PoolManager) (c : Client) (req : Request) (into : Reply) (i : Incoming)
      (rest : List Round)
      → (send_body os io w c req).1 ≡ true
      → IsIncoming (send_body os io w c req).0 c.fd into i
      → (w' : World) × (got : Reply) × (submit os io w pm c req into (i.rounds ++ rest)
          ≡ some (answered os io w' pm c req got))
        × Has w' into got i
  submit_replied w pm c req into i rest sent v =
      let w₁ = (send_body os io w c req).0 in
      let (w', got, read, status, kept, header) =
        reply_read os io laws works w₁ c i.reply into i.cuts i.parts i.head i.rounds rest i.already
          v.sorted v.heads v.had v.divides v.delivered in
      (
        w',
        got,
        submit_sent os io w pm c req into (i.rounds ++ rest) sent
            ∙ receive_whole os io w₁ w' pm c req into got (i.rounds ++ rest) rest read,
        record { status = status; body = kept; header = header },
      )

  -- send() when nothing fails and the request expects no 100-continue: the client connects, the
  -- headers and the body go out, and the reply arrives in reads of its own, divided in any way.
  -- Then send() returns true, m_done is set and m_error is as it was, the socket goes back to the
  -- pool, no read follows, and the reply has the status that the library reports, the body that it
  -- reports behind the one that the reply had, every header that the server sent under every
  -- spelling of its name, and its other headers as they were. The library reports the headers that
  -- the server has prepared, which are in order, and reads what it is given to the end, the last
  -- read of each message brings a call, and every read finds a byte or more and leaves open and as
  -- it is the temporary file, if any, of the body that is being received; what is done on other
  -- descriptors meanwhile does not matter.
  -- It is supposed that temporary files can be made, and written while they are open.
  pub send_replied :
      (w : World) (pm : PoolManager) (others : PoolManager → PoolManager) (c : Client)
      (req : Request) (into : Reply) (i : Incoming) (rest : List Round)
      → let r = prepare (set_host req c.host) in
        let (w₁, pm₁, c₁, connected) = connect os io w pm (record c { done = false }) in
        let (w₂, sent) = send_headers os io w₁ c₁ r in
        connected ≡ true
        → sent ≡ true
        → r.require_100 ≡ false
        → (send_body os io w₂ c₁ r).1 ≡ true
        → IsIncoming (send_body os io w₂ c₁ r).0 c₁.fd into i
        → (w' : World) × (got : Reply) × (send os io w pm others c req into (i.rounds ++ rest)
            ≡ some (answered os io w' (others pm₁) c₁ r got))
          × Has w' into got i
  send_replied w pm others c req into i rest up out plain whole v =
      let r = prepare (set_host req c.host) in
      let (w₁, pm₁, c₁, connected) = connect os io w pm (record c { done = false }) in
      let w₂ = (send_headers os io w₁ c₁ r).0 in
      let (w', got, done, has) = submit_replied w₂ (others pm₁) c₁ r into i rest whole v in
      (
        w',
        got,
        send_awaits os io w pm others c req into (i.rounds ++ rest) up out
            ∙ await_plain os io w₂ (others pm₁) c₁ r into (i.rounds ++ rest) plain
            ∙ done,
        has,
      )

  -- send() when nothing fails and the request expects a 100-continue: the client connects, the
  -- headers go out, a reply with status 100 and no header arrives in reads of its own, then the
  -- body goes out, and the reply arrives in reads of its own, each divided in any way. Then send()
  -- returns true, m_done is set and m_error is as it was, the socket goes back to the pool, no read
  -- follows, and the reply has the status that the library reports, the body that it reports behind
  -- the one that the reply had, every header that the server sent under every spelling of its name,
  -- and its other headers as they were: nothing of the 100-continue is left in it. The library
  -- reports the headers that the server has prepared, which are in order, and reads what it is
  -- given to the end, the last read of each message brings a call, and every read finds a byte or
  -- more and leaves open and as it is the temporary file, if any, of the body that is being
  -- received; what is done on other descriptors meanwhile does not matter.
  -- It is supposed that temporary files can be made, and written while they are open.
  pub send_continued :
      (w : World) (pm : PoolManager) (others : PoolManager → PoolManager) (c : Client)
      (req : Request) (into : Reply) (h : Head) (waits : List Round) (i : Incoming)
      (rest : List Round)
      → let r = prepare (set_host req c.host) in
        let (w₁, pm₁, c₁, connected) = connect os io w pm (record c { done = false }) in
        let (w₂, sent) = send_headers os io w₁ c₁ r in
        let w₃ = after_continue os io w₂ c₁ waits in
        let c₂ = record c₁ { done = true } in
        connected ≡ true
        → sent ≡ true
        → r.require_100 ≡ true
        → h.status_code ≡ pos 100
        → Divides (brought waits) (continue_events h)
        → Delivered os io laws works
            (new_reply os w₂).0
            c₁.fd
            (reset (response (new_reply os w₂).1))
            waits
        → (send_body os io w₃ c₂ r).1 ≡ true
        → IsIncoming (send_body os io w₃ c₂ r).0 c₂.fd into i
        → (w' : World) × (got : Reply) × (send os io w pm others c req into
              (waits ++ (i.rounds ++ rest))
            ≡ some (answered os io w' (others pm₁) c₂ r got))
          × Has w' into got i
  send_continued w pm others c req into h waits i rest up out expects continues d arrives whole v =
      let r = prepare (set_host req c.host) in
      let (w₁, pm₁, c₁, connected) = connect os io w pm (record c { done = false }) in
      let w₂ = (send_headers os io w₁ c₁ r).0 in
      let w₃ = after_continue os io w₂ c₁ waits in
      let more = i.rounds ++ rest in
      let (p, waited) = wait_for_100_read w₂ c₁ h waits more continues d arrives in
      let (w', got, done, has) =
        submit_replied w₃ (others pm₁) (record c₁ { done = true }) r into i rest whole v in
      (
        w',
        got,
        send_awaits os io w pm others c req into (waits ++ more) up out
            ∙ await_continued os io w₂ w₃ (others pm₁) c₁ r into p (waits ++ more) more expects
                waited
            ∙ done,
        has,
      )
