-- ===== src/Connection/Exec.antt =====
-- The loop of a connection, and what it sends.
use libstutter.Common.{
  ◌≡◌, refl, ◌≢◌, sym, Bool, true, false, List, [], ◌∷◌, none, some, arith, if◌then◌else◌,
  Option-cases, inl, inr,
}
use mathlib.Core.Path.{subst}
use libstutter.Common.Int.{is_pos}
use libstutter.Dispatcher.{Dispatcher}
use libstutter.Message
use libstutter.Body
use libstutter.Body.{Body}
use libstutter.Request
use libstutter.Request.{Request}
use libstutter.Reply
use libstutter.Reply.{Reply}
use libstutter.Parser
use libstutter.Parser.{
  Parser, Event, on_url, on_header_field, on_header_value, on_body, on_headers_complete,
  on_message_complete, parse_ok,
}
use libstutter.Io.{Strategy, send_raw, send_buffered_body}
use libstutter.Io.Stream.{StreamLaws, Sent, send_raw-Sent}
use libstutter.Os.{Os, Read}
use libstutter.Connection.{
  Connection, State, ready_for_data, need_100_continue, Handler, send, feed, turn, after_feed,
  after_read, exec_round, going, read_buffer_size,
}
use libstutter.Connection.Lifecycle.{feed_closes, goes_on}

-- The library has not come to the end of a message.
abbrev pub IsPartial : Event → Type 0
IsPartial (on_message_complete h) = ⊥
IsPartial _ = Unit {0}

-- No byte in memory, no open file, and no name of one.
abbrev pub IsBlank : Body → Type 0
IsBlank b =
    (b.memory ≡ []) × (is_pos b.fd ≡ false) × (b.filename ≡ []) × (b.size ≡ 0) × (b.unlinks ≡ false)

module _ (os : Os) (io : Strategy os) where
  open os use {World}

  turn_closed :
      (w : World) (c : Connection)
      → c.state ≢ ready_for_data
      → c.state ≢ need_100_continue
      → (w' : World) (c' : Connection) → turn os io w c ≢ going w' c'
  unfolding turn
  turn_closed w c not_ready not_need w' c' = ground arith

  after_feed_closed :
      (w : World) (c : Connection) (router : Dispatcher (Handler os io)) (events : List Event)
      → c.state ≢ ready_for_data
      → c.state ≢ need_100_continue
      → (w' : World) (c' : Connection)
      → after_feed os io (feed os io w c router events) ≢ going w' c'
  after_feed_closed w c router events not_ready not_need w' c' =
      elim (Option-cases (feed os io w c router events)) [
        | inl faulty ↦ rw faulty (unfold after_feed in (λ e. cc))
        | inr ((w'', c''), fed) ↦
            let closed = λ (s : State) (h : goes_on s ≡ true).
              feed_closes os io w w'' c c'' router events s h fed in
            rw fed (
              unfold after_feed in
              (turn_closed w'' c'' (closed ready_for_data refl not_ready)
                (closed need_100_continue refl not_need) w' c'))
      ]

  after_read_closed :
      (w : World) (c : Connection) (router : Dispatcher (Handler os io)) (events : List Event)
      (r : Read)
      → c.state ≢ ready_for_data
      → c.state ≢ need_100_continue
      → (w' : World) (c' : Connection) → after_read os io w c router events r ≢ going w' c'
  unfolding after_read
  after_read_closed w c router events none not_ready not_need w' c' = λ e. cc
  after_read_closed w c router events (some []) not_ready not_need w' c' = λ e. cc
  after_read_closed w c router events (some (b ∷ bytes)) not_ready not_need w' c' =
      after_feed_closed w c router events not_ready not_need w' c'

  -- In a state other than ST_READY_FOR_DATA and ST_NEED_100_CONTINUE a round of exec() is the last,
  -- whatever is read and whatever the handlers do.
  pub exec_round_closed :
      (w : World) (c : Connection) (router : Dispatcher (Handler os io)) (events : List Event)
      → c.state ≢ ready_for_data
      → c.state ≢ need_100_continue
      → (w' : World) (c' : Connection) → exec_round os io w c router events ≢ going w' c'
  unfolding exec_round
  exec_round_closed w c router events not_ready not_need w' c' =
      after_read_closed (io.safe_read w c.fd read_buffer_size).0 c router events
        (io.safe_read w c.fd read_buffer_size).1 not_ready not_need w' c'

  regroup : (s : World × Bool) → (if s.1 then (s.0, true) else (s.0, false)) ≡ s
  regroup (w, true) = refl
  regroup (w, false) = refl

  -- A reply whose body is in memory goes out as its prepared bytes, in order and each once; send()
  -- reports success exactly when all of them did.
  pub send-Sent :
      (laws : StreamLaws os io) (w : World) (c : Connection) (r : Reply)
      → is_pos (Reply.prepare r).message.body.fd ≡ false
      → Sent
          (laws.sent w c.fd)
          (laws.sent (send os io w c r).0 c.fd)
          (Reply.prepare r).message.output
          (send os io w c r).1
  unfolding send send_buffered_body
  send-Sent laws w c r memory =
      let out = send_raw os io w c.fd (Reply.prepare r).message.output in
      subst
        (λ (s : World × Bool).
          Sent (laws.sent w c.fd) (laws.sent s.0 c.fd) (Reply.prepare r).message.output s.1)
        (sym (rw memory (regroup out)))
        (send_raw-Sent os io laws w c.fd (Reply.prepare r).message.output)
