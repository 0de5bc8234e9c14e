-- ===== src/Server/Start.antt =====
-- How a server starts.
use libstutter.Common.{
  ◌≡◌, false, not, ◌&&◌, Option, none, some, if◌then◌else◌, arith, Bool-cases, inl, inr,
}
use libstutter.Common.Int.{ℤ, pos, minus_one, is_neg, eqb_ℤ}
use libstutter.Common.Bytes.{Bytes}
use mathlib.Core.Option
use libstutter.Dispatcher
use libstutter.Dispatcher.{Dispatcher}
use libstutter.Dispatcher.Laws.{get-add_default}
use libstutter.Os.{Os}
use libstutter.Server.{
  Server, Started, exited, stopped, serving, setup_socket, drop_privileges, serve, drop_and_serve,
  after_daemonize, start, option, opt_user, opt_group,
}

module _ (os : Os) where
  open os use {World}

  -- setup_socket() returns the socket that it made if socket, setsockopt, fcntl, bind and listen, each
  -- called after the one before, have all succeeded, and -1 otherwise.
  pub setup_socket_steps :
      (w : World) (host : Bytes) (port : ℤ)
      → let (w₁, fd) = os.socket w in
        let (w₂, reused) = os.reuse_addr w₁ fd in
        let (w₃, unblocked) = os.set_nonblock w₂ fd in
        let (w₄, bound) = os.bind w₃ fd host port in
        let (w₅, listening) = os.listen w₄ fd in
        let ok =
          not (eqb_ℤ fd minus_one)
          && not (is_neg reused)
          && eqb_ℤ unblocked (pos 0)
          && eqb_ℤ bound (pos 0)
          && eqb_ℤ listening (pos 0) in
        (setup_socket os w host port).1 ≡ (if ok then fd else minus_one)
  unfolding setup_socket
  setup_socket_steps w host port = ground arith

  module _ {H : Type 0} (forbidden : H) where
    -- What `serving` promises of a server that was started with the routes of `r`.
    abbrev pub Serves : Dispatcher H → Started os H → Type 0
    Serves r exited = Unit {0}
    Serves r (stopped w s) = Unit {0}
    Serves r (serving w s) =
        (is_neg s.fd ≡ false)
        × ((url : Bytes)
            → Dispatcher.get s.router url ≡ some (Option.get_or (Dispatcher.get r url) forbidden))

    serve-Serves :
        (w : World) (s : Server H) → is_neg s.fd ≡ false → Serves s.router (serve os forbidden w s)
    unfolding serve
    serve-Serves w s h = elim (Bool-cases (eqb_ℤ (os.event_add_listener w s.fd).1 (pos 0))) [
      | inl added ↦ rw (added, serve) (h, λ url. get-add_default s.router url forbidden)
      | inr refused ↦ rw (refused, serve) tt
    ]

    drop_and_serve-Serves :
        (w : World) (s : Server H)
        → is_neg s.fd ≡ false
        → Serves s.router (drop_and_serve os forbidden w s)
    unfolding drop_and_serve
    drop_and_serve-Serves w s h =
        let (w', ok) = drop_privileges os w (option s opt_user) (option s opt_group) in
        elim (Bool-cases ok) [
          | inl dropped ↦ rw (dropped, drop_and_serve) (serve-Serves w' s h)
          | inr kept ↦ rw (kept, drop_and_serve) tt
        ]

    after_daemonize-Serves :
        (w : Option World) (s : Server H)
        → is_neg s.fd ≡ false
        → Serves s.router (after_daemonize os forbidden w s)
    unfolding after_daemonize
    after_daemonize-Serves none s h = tt
    after_daemonize-Serves (some w) s h = drop_and_serve-Serves w s h

    -- When the event loop runs, the listening descriptor is a valid one, and each URL has the handler
    -- that the routes gave it before start(), or the one for 403 where none of them matched.
    pub start-Serves : (w : World) (s : Server H) → Serves s.router (start os forbidden w s)
    unfolding start
    start-Serves w s =
        let (w', fd) = setup_socket os (os.ignore_sigpipe w) s.host s.port in
        elim (Bool-cases (is_neg fd)) [
          | inl bad ↦ rw (bad, start) tt
          | inr good ↦ rw (good, start) (after_daemonize-Serves _ (record s { fd = fd }) good)
        ]
