-- ===== src/Connection/Lifecycle.antt =====
-- How the state of a connection moves.
use libstutter.Common.{
  ◌≡◌, refl, ◌≢◌, Bool, true, false, List, [], ◌∷◌, Option, none, some, arith, Option-cases, inl,
  inr,
}
use libstutter.Dispatcher
use libstutter.Dispatcher.{Dispatcher}
use libstutter.Parser.{Head, Event, on_url, on_message_complete, complete}
use libstutter.Io.{Strategy}
use libstutter.Os.{Os}
use libstutter.Connection.{
  Connection, State, ready_for_data, need_100_continue, io_error, parse_error, should_close,
  Handler, run_handler, answer, close_old, close_asked, renew, finish, process, deliver, on_event,
  feed, request_of,
}

-- What the program may make of a state: it keeps it, or ends the connection.
abbrev pub moves : State → State → Bool
moves s should_close = true
moves s parse_error = true
moves s io_error = true
moves ready_for_data ready_for_data = true
moves need_100_continue need_100_continue = true
moves _ _ = false

-- The states in which exec() goes on.
abbrev pub goes_on : State → Bool
goes_on ready_for_data = true
goes_on need_100_continue = true
goes_on _ = false

moves_refl : (s : State) → moves s s ≡ true
moves_refl ready_for_data = refl
moves_refl need_100_continue = refl
moves_refl io_error = refl
moves_refl parse_error = refl
moves_refl should_close = refl

moves_trans : (s t u : State) → moves s t ≡ true → moves t u ≡ true → moves s u ≡ true
moves_trans s t should_close h k = refl
moves_trans s t parse_error h k = refl
moves_trans s t io_error h k = refl
moves_trans s ready_for_data ready_for_data h k = h
moves_trans s need_100_continue need_100_continue h k = h
moves_trans s t u h k = ground arith

from_ready : (s : State) → moves s ready_for_data ≡ true → s ≡ ready_for_data
from_ready s h = ground arith

from_need : (s : State) → moves s need_100_continue ≡ true → s ≡ need_100_continue
from_need s h = ground arith

close_old-moves : (c : Connection) → moves c.state (close_old c).state ≡ true
unfolding close_old
close_old-moves c = ground (arith, moves_refl c.state)

close_asked-moves : (c : Connection) → moves c.state (close_asked c).state ≡ true
unfolding close_asked
close_asked-moves c = ground (arith, moves_refl c.state)

module _ (os : Os) (io : Strategy os) where
  open os use {World}

  -- The state after a result, if there is one.
  abbrev pub moves_to : State → Option (World × Connection) → Bool
  moves_to s none = true
  moves_to s (some (w, c)) = moves s c.state

  run_handler-moves :
      (w : World) (c : Connection) (h : Option (Handler os io))
      → moves_to c.state (run_handler os io w c h) ≡ true
  unfolding run_handler
  run_handler-moves w c none = refl
  run_handler-moves w c (some h) = moves_refl c.state

  answer-moves :
      (w : World) (c : Connection) (router : Dispatcher (Handler os io))
      → moves_to c.state (answer os io w c router) ≡ true
  unfolding answer
  answer-moves w c router =
      ground (arith, run_handler-moves w c (Dispatcher.get router (request_of c.parser.target).url))

  finish-moves : (w : World) (c : Connection) → moves c.state (finish os io w c).1.state ≡ true
  unfolding finish renew
  finish-moves w c = ground (arith, moves_refl c.state)

  concluded :
      (s : State) (w : World) (c : Connection)
      → moves s c.state ≡ true
      → moves s (finish os io w (close_asked (close_old c))).1.state ≡ true
  concluded s w c h =
      let c₁ = close_old c in
      let c₂ = close_asked c₁ in
      moves_trans s c₂.state _
        (moves_trans s c₁.state c₂.state (moves_trans s c.state c₁.state h (close_old-moves c))
          (close_asked-moves c₁))
        (finish-moves w c₂)

  deliver-moves :
      (w : World) (c : Connection) (router : Dispatcher (Handler os io)) (h : Head)
      → moves_to c.state (deliver os io w c router h) ≡ true
  unfolding deliver process
  deliver-moves w c router h =
      let c₀ = record c {
        parser = record c.parser { target = complete h c.parser.target };
        head = h;
      } in
      let first = answer-moves w c₀ router in
      elim (Option-cases (answer os io w c₀ router)) [
        | inl e ↦ rw (e, moves_to, deliver, process)
        | inr ((w', c'), e) ↦
            rw (e, moves_to, deliver, process) (concluded c.state w' c' (rw e at first))
      ]

  on_event-moves :
      (w : World) (c : Connection) (router : Dispatcher (Handler os io)) (e : Event)
      → moves_to c.state (on_event os io w c router e) ≡ true
  unfolding on_event
  on_event-moves w c router (on_message_complete h) = deliver-moves w c router h
  on_event-moves w c router (on_url at) = moves_refl c.state
  on_event-moves w c router _ = moves_refl c.state

  moves_to_trans :
      (s t : State) (r : Option (World × Connection))
      → moves s t ≡ true
      → moves_to t r ≡ true
      → moves_to s r ≡ true
  moves_to_trans s t none h k = refl
  moves_to_trans s t (some (w, c)) h k = moves_trans s t c.state h k

  feed-moves :
      (w : World) (c : Connection) (router : Dispatcher (Handler os io)) (events : List Event)
      → moves_to c.state (feed os io w c router events) ≡ true
  unfolding feed
  feed-moves w c router [] = moves_refl c.state
  feed-moves w c router (e ∷ events) =
      let first = on_event-moves w c router e in
      elim (Option-cases (on_event os io w c router e)) [
        | inl none_left ↦ rw (none_left, feed)
        | inr ((w', c'), done) ↦
            rw (done, feed)
              (moves_to_trans c.state c'.state (feed os io w' c' router events) (rw done at first)
                (feed-moves w' c' router events))
      ]

  -- However the library reads the bytes and whatever the handlers do, no sequence of calls brings a
  -- connection to ST_READY_FOR_DATA or to ST_NEED_100_CONTINUE that was not there before: one that is
  -- about to close stays so, and none is ever made to send a 100-continue.
  pub feed_closes :
      (w w' : World) (c c' : Connection) (router : Dispatcher (Handler os io)) (events : List Event)
      (s : State)
      → goes_on s ≡ true
      → feed os io w c router events ≡ some (w', c')
      → c.state ≢ s
      → c'.state ≢ s
  feed_closes w w' c c' router events ready_for_data h e not_ready ready =
      not_ready (from_ready c.state (rw ready at (rw e at (feed-moves w c router events))))
  feed_closes w w' c c' router events need_100_continue h e not_need need =
      not_need (from_need c.state (rw need at (rw e at (feed-moves w c router events))))
  feed_closes w w' c c' router events _ h e other same = absurd (ground arith)
