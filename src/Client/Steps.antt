-- ===== src/Client/Steps.antt =====
-- The steps of Client::send that succeed.
use libstutter.Common.{◌≡◌, refl, true, false, List, [], ◌∷◌, some, none, if◌then◌else◌, ap, ◌∙◌}
use libstutter.Body
use libstutter.Body.{Body, new_body}
use libstutter.Message
use libstutter.Message.{get_header}
use libstutter.Request.{Request, prepare, set_host}
use libstutter.Reply
use libstutter.Reply.{Reply, new_reply}
use libstutter.Parser.{
  Parser, response, Head, Event, on_headers_complete, on_message_complete, reset, run, handle_event,
  save_last_header, flush_header, check_request, complete,
}
use libstutter.PoolManager.{PoolManager}
use libstutter.Io.{Strategy}
use libstutter.Os.{Os}
use libstutter.Client.{
  Client, Round, Sending, reply_buffer_size, read_reply, reply_of, wait_for_100, receive, submit,
  await, after_wait, after_headers, send, send_body, send_headers, connect, conclude,
  release_socket,
}
use libstutter.Client.Reads.{brought, read_whole}
use libstutter.Wire.Pieces.{at_name}
use libstutter.Wire.Rounds.{rounds_run}

-- What a 100-continue comes to, which has no header: the library reports its status.
abbrev pub continue_events : Head → List Event
continue_events h = on_headers_complete ∷ on_message_complete h ∷ []

module _ (os : Os) (io : Strategy os) where
  open os use {World}

  -- What a send that has succeeded leaves.
  abbrev pub answered : World → PoolManager → Client → Request → Reply → Sending os io
  answered w pm c req got =
      let c' = record c { done = true } in
      record {
        world = w;
        manager = release_socket pm c';
        client = c';
        request = req;
        reply = got;
        success = true;
      }

  pub receive_whole :
      (w w' : World) (pm : PoolManager) (c : Client) (req : Request) (into got : Reply)
      (rounds rest : List Round)
      → read_reply os io w c into rounds
        ≡ some (read_whole os io w' (at_name (response got) []) rest)
      → receive os io w pm c req into rounds ≡ some (answered w' pm c req got)
  unfolding receive conclude
  receive_whole w w' pm c req into got rounds rest read = rw (read, receive) refl

  pub submit_sent :
      (w : World) (pm : PoolManager) (c : Client) (req : Request) (reply : Reply)
      (rounds : List Round)
      → (send_body os io w c req).1 ≡ true
      → submit os io w pm c req reply rounds
        ≡ receive os io (send_body os io w c req).0 pm c req reply rounds
  unfolding submit
  submit_sent w pm c req reply rounds sent = rw sent refl

  pub send_awaits :
      (w : World) (pm : PoolManager) (others : PoolManager → PoolManager) (c : Client)
      (req : Request) (reply : Reply) (rounds : List Round)
      → let r = prepare (set_host req c.host) in
        let (w₁, pm₁, c₁, connected) = connect os io w pm (record c { done = false }) in
        let (w₂, sent) = send_headers os io w₁ c₁ r in
        connected ≡ true
        → sent ≡ true
        → send os io w pm others c req reply rounds ≡ await os io w₂ (others pm₁) c₁ r reply rounds
  unfolding send after_headers
  send_awaits w pm others c req reply rounds up out = rw (up, out) refl

  pub await_plain :
      (w : World) (pm : PoolManager) (c : Client) (req : Request) (reply : Reply)
      (rounds : List Round)
      → req.require_100 ≡ false
      → await os io w pm c req reply rounds ≡ submit os io w pm c req reply rounds
  unfolding await
  await_plain w pm c req reply rounds plain = rw plain refl

  pub await_continued :
      (w w' : World) (pm : PoolManager) (c : Client) (req : Request) (reply : Reply) (p : Parser)
      (rounds rest : List Round)
      → req.require_100 ≡ true
      → wait_for_100 os io w c rounds ≡ some (read_whole os io w' p rest)
      → await os io w pm c req reply rounds
        ≡ submit os io w' pm (record c { done = true }) req reply rest
  unfolding await after_wait
  await_continued w w' pm c req reply p rounds rest waits continued =
      ap
        (λ t.
          if t
          then elim (wait_for_100 os io w c rounds) [
            | none ↦ none
            | some r ↦ after_wait os io pm c req reply r
          ]
          else submit os io w pm c req reply rounds)
        waits
      ∙ ap (λ o. elim o [ none ↦ none | some r ↦ after_wait os io pm c req reply r ]) continued

  pub run-continue_events :
      (w : World) (tmp : Reply) (h : Head)
      → run os w (reset (response tmp)) (continue_events h)
        ≡ (w, at_name (response (Reply.set_status tmp h.status_code [])) [])
  unfolding run handle_event save_last_header flush_header check_request complete reset
  run-continue_events w tmp h = refl

  pub new_reply-body : (w : World) → (new_reply os w).1.message.body ≡ new_body
  unfolding new_reply Reply.reset Message.reset Body.clear Message.add_header
  new_reply-body w = refl

  -- The world after the wait for a 100-continue: the reads, and the end of the temporary reply.
  abbrev pub after_continue : World → Client → List Round → World
  after_continue w c rounds =
      let (w₀, tmp) = new_reply os w in
      let (w', p) =
        rounds_run os io c.fd reply_buffer_size w₀ (reset (response tmp)) (brought rounds) in
      (Body.clear os w' (reply_of p.target tmp).message.body).0
