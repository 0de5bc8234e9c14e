-- ===== src/Connection/Keeps/Rounds.antt =====
-- The answer to a request, and the rounds of exec().
use libstutter.Common.{
  ◌≡◌, refl, ◌∙◌, List, [], ◌∷◌, Option, none, some, arith, Bool-cases, Option-cases, inl, inr,
}
use libstutter.Common.Int.{ℤ}
use libstutter.Common.Bytes.{Bytes}
use libstutter.Os.{Os, Read}
use libstutter.Io.{Strategy}
use libstutter.Parser.{Head, Event, on_url, on_body, on_message_complete, complete}
use libstutter.Dispatcher
use libstutter.Dispatcher.{Dispatcher}
use libstutter.Connection.{
  Connection, Handler, State, ready_for_data, need_100_continue, io_error, parse_error,
  should_close, run_handler, answer, finish, process, deliver, on_event, feed, Progress, halted,
  fault, going, turn, after_feed, after_read, exec_round, exec, close_old, close_asked, request_of,
  read_buffer_size, is_ok,
}
use libstutter.Connection.Keeps.{
  Keeps, IsKeeper, finish-P, fd-finish, handle_event-P, send_100_continue-P,
}

module _ (os : Os) (io : Strategy os) (fd : ℤ) (P : os.World → Type 0) where
  open os use {World}

  -- A result that keeps it, of a connection that still has its descriptor.
  abbrev Kept : Option (World × Connection) → Type 0
  Kept none = Unit {0}
  Kept (some (w, c)) = P w × (c.fd ≡ fd)

  -- It holds after some rounds of exec().
  abbrev pub Held : Progress os io → Type 0
  Held (halted w c need) = P w
  Held fault = Unit {0}
  Held (going w c) = P w × (c.fd ≡ fd)

module _ (os : Os) (io : Strategy os) (fd : ℤ) (P : os.World → Type 0)
    (keeps : Keeps os io fd P) where
  open os use {World}

  module _ (router : Dispatcher (Handler os io))
      (keepers : (url : Bytes) (g : Handler os io)
        → Dispatcher.get router url ≡ some g
        → IsKeeper os io P g) where
    run_handler-Kept :
        (w : World) (c : Connection) (o : Option (Handler os io))
        → ((g : Handler os io) → o ≡ some g → IsKeeper os io P g)
        → c.fd ≡ fd
        → P w
        → Kept os io fd P (run_handler os io w c o)
    unfolding run_handler
    run_handler-Kept w c none keep same h = tt
    run_handler-Kept w c (some g) keep same h =
        (keep g refl w (request_of c.parser.target) c.reply h, same)

    answer-Kept :
        (w : World) (c : Connection) → c.fd ≡ fd → P w → Kept os io fd P (answer os io w c router)
    unfolding answer
    answer-Kept w c same h =
        let url = (request_of c.parser.target).url in
        elim (Bool-cases (is_ok c.parser.error)) [
          | inl good ↦
              rw good (run_handler-Kept w c (Dispatcher.get router url) (keepers url) same h)
          | inr marked ↦ rw marked (h, same)
        ]

    fd-close : (c : Connection) → (close_asked (close_old c)).fd ≡ c.fd
    unfolding close_asked close_old
    fd-close c = ground arith

    concluded-Kept :
        (w : World) (c : Connection)
        → P w × (c.fd ≡ fd)
        → let (w', c', done) = finish os io w (close_asked (close_old c)) in P w' × (c'.fd ≡ fd)
    concluded-Kept w c (k, same) =
        let c₁ = close_asked (close_old c) in
        let own = fd-close c ∙ same in
        (finish-P os io fd P keeps w c₁ own k, fd-finish os io fd P keeps w c₁ ∙ own)

    deliver-Kept :
        (w : World) (c : Connection) (h : Head)
        → c.fd ≡ fd
        → P w
        → Kept os io fd P (deliver os io w c router h)
    unfolding deliver process
    deliver-Kept w c h same k =
        let c₀ : Connection = record c {
          parser = record c.parser { target = complete h c.parser.target };
          head = h;
        } in
        let first = answer-Kept w c₀ same k in
        elim (Option-cases (answer os io w c₀ router)) [
          | inl e ↦ rw (e, deliver, process) tt
          | inr ((w', c'), e) ↦ rw (e, deliver, process) (concluded-Kept w' c' (rw e at first))
        ]

    on_event-Kept :
        (w : World) (c : Connection) (e : Event)
        → c.fd ≡ fd
        → P w
        → Kept os io fd P (on_event os io w c router e)
    unfolding on_event
    on_event-Kept w c (on_message_complete h) same k = deliver-Kept w c h same k
    on_event-Kept w c (on_body at) same k =
        (handle_event-P os io fd P keeps w c.parser (on_body at) k, same)
    on_event-Kept w c (on_url at) same k =
        (handle_event-P os io fd P keeps w c.parser (on_url at) k, same)
    on_event-Kept w c e same k = (handle_event-P os io fd P keeps w c.parser e k, same)

    feed-Kept :
        (w : World) (c : Connection) (events : List Event)
        → c.fd ≡ fd
        → P w
        → Kept os io fd P (feed os io w c router events)
    unfolding feed
    feed-Kept w c [] same k = (k, same)
    feed-Kept w c (e ∷ events) same k =
        let first = on_event-Kept w c e same k in
        elim (Option-cases (on_event os io w c router e)) [
          | inl f ↦ rw (f, feed) tt
          | inr ((w', c'), f) ↦
              let (k', same') = rw f at first in rw (f, feed) (feed-Kept w' c' events same' k')
        ]

    turn-Held : (w : World) (c : Connection) → c.fd ≡ fd → P w → Held os io fd P (turn os io w c)
    unfolding turn
    turn-Held w c same k = go c.state refl
      where
        go : (s : State) → c.state ≡ s → Held os io fd P (turn os io w c)
        go ready_for_data e = rw (e, turn) (k, same)
        go need_100_continue e =
            rw (e, turn) (send_100_continue-P os io fd P keeps w c same k, same)
        go io_error e = rw (e, turn) k
        go parse_error e = rw (e, turn) k
        go should_close e = rw (e, turn) k

    after_feed-Held :
        (o : Option (World × Connection)) → Kept os io fd P o → Held os io fd P (after_feed os io o)
    unfolding after_feed
    after_feed-Held none k = tt
    after_feed-Held (some (w, c)) (k, same) = turn-Held w c same k

    after_read-Held :
        (w : World) (c : Connection) (events : List Event) (r : Read)
        → c.fd ≡ fd
        → P w
        → Held os io fd P (after_read os io w c router events r)
    unfolding after_read
    after_read-Held w c events none same k = k
    after_read-Held w c events (some []) same k = k
    after_read-Held w c events (some (b ∷ bytes)) same k =
        after_feed-Held (feed os io w c router events) (feed-Kept w c events same k)

    exec_round-Held :
        (w : World) (c : Connection) (events : List Event)
        → c.fd ≡ fd
        → P w
        → Held os io fd P (exec_round os io w c router events)
    unfolding exec_round
    exec_round-Held w c events same k =
        let (w', recvd) = io.safe_read w c.fd read_buffer_size in
        after_read-Held w' c events recvd same (rw same (keeps.keeps_read w read_buffer_size k))

    -- A round, and the rounds after it.
    rounds-Held :
        (w : World) (c : Connection) (events : List Event) (rounds : List (List Event))
        (r : Progress os io)
        → exec_round os io w c router events ≡ r
        → Held os io fd P r
        → ((w' : World) (c' : Connection)
            → c'.fd ≡ fd
            → P w'
            → Held os io fd P (exec os io w' c' router rounds))
        → Held os io fd P (exec os io w c router (events ∷ rounds))
    unfolding exec
    rounds-Held w c events rounds (halted w' c' need) e h more = rw (e, exec) h
    rounds-Held w c events rounds fault e h more = rw (e, exec) tt
    rounds-Held w c events rounds (going w' c') e (k, same) more = rw (e, exec) (more w' c' same k)

    -- The loop of exec().
    pub exec-Held :
        (w : World) (c : Connection) (rounds : List (List Event))
        → c.fd ≡ fd
        → P w
        → Held os io fd P (exec os io w c router rounds)
    unfolding exec
    exec-Held w c [] same k = (k, same)
    exec-Held w c (events ∷ rounds) same k =
        rounds-Held w c events rounds (exec_round os io w c router events) refl
          (exec_round-Held w c events same k) (λ w' c'. exec-Held w' c' rounds)
