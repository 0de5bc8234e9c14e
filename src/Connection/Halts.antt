-- ===== src/Connection/Halts.antt =====
-- What exec() of a connection returns.
use libstutter.Common.{◌≡◌, refl, List, [], ◌∷◌, Option, none, some}
use libstutter.Os.{Os, Read}
use libstutter.Io.{Strategy, halt}
use libstutter.Dispatcher.{Dispatcher}
use libstutter.Parser.{Event}
use libstutter.Connection.{
  Connection, State, ready_for_data, need_100_continue, io_error, parse_error, should_close,
  Handler, Progress, halted, fault, going, turn, feed, after_feed, after_read, exec_round, exec,
  read_buffer_size,
}

module _ (os : Os) (io : Strategy os) where
  open os use {World}

  -- What is returned, if anything is, is HALT.
  abbrev pub Halts : Progress os io → Type 0
  Halts (halted w c need) = need ≡ halt
  Halts fault = Unit {0}
  Halts (going w c) = Unit {0}

  turn-Halts : (w : World) (c : Connection) → Halts (turn os io w c)
  unfolding turn
  turn-Halts w c = go c.state refl
    where
      go : (s : State) → c.state ≡ s → Halts (turn os io w c)
      go ready_for_data e = rw (turn, e) tt
      go need_100_continue e = rw (turn, e) tt
      go io_error e = rw (turn, e) refl
      go parse_error e = rw (turn, e) refl
      go should_close e = rw (turn, e) refl

  after_feed-Halts : (r : Option (World × Connection)) → Halts (after_feed os io r)
  unfolding after_feed
  after_feed-Halts none = tt
  after_feed-Halts (some (w, c)) = turn-Halts w c

  after_read-Halts :
      (w : World) (c : Connection) (router : Dispatcher (Handler os io)) (events : List Event)
      (r : Read)
      → Halts (after_read os io w c router events r)
  unfolding after_read
  after_read-Halts w c router events none = refl
  after_read-Halts w c router events (some []) = refl
  after_read-Halts w c router events (some (b ∷ bytes)) =
      after_feed-Halts (feed os io w c router events)

  exec_round-Halts :
      (w : World) (c : Connection) (router : Dispatcher (Handler os io)) (events : List Event)
      → Halts (exec_round os io w c router events)
  unfolding exec_round
  exec_round-Halts w c router events =
      after_read-Halts (io.safe_read w c.fd read_buffer_size).0 c router events
        (io.safe_read w c.fd read_buffer_size).1

  rounds-Halts :
      (w : World) (c : Connection) (router : Dispatcher (Handler os io)) (events : List Event)
      (rounds : List (List Event)) (r : Progress os io)
      → exec_round os io w c router events ≡ r
      → Halts r
      → ((w' : World) (c' : Connection) → Halts (exec os io w' c' router rounds))
      → Halts (exec os io w c router (events ∷ rounds))
  unfolding exec
  rounds-Halts w c router events rounds (halted w' c' need) e h more = rw (e, exec) h
  rounds-Halts w c router events rounds fault e h more = rw (e, exec) tt
  rounds-Halts w c router events rounds (going w' c') e h more = rw (e, exec) (more w' c')

  -- Wherever the loop of exec() returns, it returns HALT.
  pub exec-Halts :
      (w : World) (c : Connection) (router : Dispatcher (Handler os io))
      (rounds : List (List Event))
      → Halts (exec os io w c router rounds)
  unfolding exec
  exec-Halts w c router [] = tt
  exec-Halts w c router (events ∷ rounds) =
      rounds-Halts w c router events rounds (exec_round os io w c router events) refl
        (exec_round-Halts w c router events) (λ w' c'. exec-Halts w' c' router rounds)
