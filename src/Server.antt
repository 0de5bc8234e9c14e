-- ===== src/Server.antt =====
-- stutter/server.cpp: the listening socket, the privileges, and the step from the event loop to the
-- coroutines. The loop itself is libevent's.
pub mod Start
pub mod Resume
pub mod Loop
use libstutter.Common.{
  ℕ, Bool, true, false, not, List, [], ◌∷◌, Option, none, some, if◌then◌else◌, ltb,
}
use libstutter.Common.Int.{ℤ, pos, minus_one, eqb_ℤ, is_neg, ltb_ℤ}
use libstutter.Common.Bytes.{Bytes, codes, eq_bytes}
use libstutter.OrderedMap.{find, assign}
use libstutter.PoolManager.{PoolManager}
use libstutter.Dispatcher
use libstutter.Dispatcher.{Dispatcher}
use libstutter.Handlers.{ErrorHandler}
use libstutter.Coroutine
use libstutter.Coroutine.{Coroutine}
use libstutter.Os.{Os}

pub data Setting : Type 0 where
  opt_daemonize opt_user opt_group : Setting

-- The order of the enumerators, as the map of the options compares them.
abbrev pub setting_rank : Setting → Bytes
setting_rank opt_daemonize = 0 ∷ []
setting_rank opt_user = 1 ∷ []
setting_rank opt_group = 2 ∷ []

-- `H` is the type of the handlers.
pub record Server (H : Type 0) : Type 0 where
  pub host : Bytes
  pub port : ℤ
  pub fd : ℤ
  pub pool_manager : PoolManager
  pub router : Dispatcher H
  pub options : List (Setting × Bytes)

module _ {H : Type 0} where
  -- Server(host, port), whose m_fd has no value yet.
  unfoldable pub new_server : Bytes → ℤ → Server H
  new_server host port = record {
    host = host;
    port = port;
    fd = minus_one;
    pool_manager = record { pools = [] };
    router = Dispatcher.empty;
    options = [];
  }

  unfoldable pub set_option : Server H → Setting → Bytes → Server H
  set_option s o val = record s { options = assign setting_rank o val s.options }

  unfoldable pub option : Server H → Setting → Bytes
  option s o = elim (find setting_rank o s.options) [ none ↦ [] | some val ↦ val ]

abbrev pub is_empty : Bytes → Bool
is_empty [] = true
is_empty (c ∷ rest) = false

module _ (os : Os) where
  open os use {World}

  -- The steps of setup_socket, the last first; a failure leaves the socket open.
  start_listening : World → ℤ → World × ℤ
  start_listening w fd =
      let (w', ret) = os.listen w fd in if eqb_ℤ ret (pos 0) then (w', fd) else (w', minus_one)

  bind_socket : World → Bytes → ℤ → ℤ → World × ℤ
  unfolding start_listening
  bind_socket w host port fd =
      let (w', ret) = os.bind w fd host port in
      if eqb_ℤ ret (pos 0) then start_listening w' fd else (w', minus_one)

  unblock_socket : World → Bytes → ℤ → ℤ → World × ℤ
  unfolding bind_socket
  unblock_socket w host port fd =
      let (w', ret) = os.set_nonblock w fd in
      if eqb_ℤ ret (pos 0) then bind_socket w' host port fd else (w', minus_one)

  reuse_socket : World → Bytes → ℤ → ℤ → World × ℤ
  unfolding unblock_socket
  reuse_socket w host port fd =
      let (w', ret) = os.reuse_addr w fd in
      if is_neg ret then (w', minus_one) else unblock_socket w' host port fd

  unfoldable pub setup_socket : World → Bytes → ℤ → World × ℤ
  unfolding reuse_socket
  setup_socket w host port =
      let (w', fd) = os.socket w in
      if eqb_ℤ fd minus_one then (w', minus_one) else reuse_socket w' host port fd

  -- The parent exits, and so does a process that cannot fork; the child goes on.
  unfoldable pub daemonize : World → Option World
  daemonize w =
      let (w₁, child) = os.fork w in
      let (w₂, fd) = os.open_null (os.setsid w₁) in
      let w₃ = os.dup2 (os.dup2 (os.dup2 w₂ fd (pos 0)) fd (pos 1)) fd (pos 2) in
      if not (eqb_ℤ child (pos 0))
      then none
      else if eqb_ℤ fd minus_one
      then some w₂
      else some (if ltb_ℤ (pos 2) fd then os.close w₃ fd else w₃)

  -- A name is looked up unless it is empty: `none` for one that is not known.
  look_up : (World → Bytes → World × Option ℕ) → World → Bytes → World × Option (Option ℕ)
  look_up by w name =
      if is_empty name
      then (w, some none)
      else ((by w name).0, elim (by w name).1 [ none ↦ none | some id ↦ some (some id) ])

  -- setuid or setgid, if there is an id.
  change_to : (World → ℕ → World × ℤ) → World → Option ℕ → World × Bool
  change_to set w none = (w, true)
  change_to set w (some id) = ((set w id).0, not (is_neg (set w id).1))

  change_ids : World → Option ℕ → Option ℕ → World × Bool
  unfolding change_to
  change_ids w user group =
      let (w', ok) = change_to os.setuid w user in
      if ok then change_to os.setgid w' group else (w', false)

  -- drop_privileges, with the values of OPT_USER and OPT_GROUP.
  unfoldable pub drop_privileges : World → Bytes → Bytes → World × Bool
  unfolding look_up change_ids
  drop_privileges w user group =
      let (w₁, userp) = look_up os.getpwnam w user in
      let (w₂, groupp) = look_up os.getgrnam w₁ group in
      elim userp [
        | none ↦ (w₁, false)
        | some uid ↦ elim groupp [ none ↦ (w₂, false) | some gid ↦ change_ids w₂ uid gid ]
      ]

  -- start(): the process is gone, start() has returned early, or the event loop runs.
  pub data Started (H : Type 0) : Type 0 where
    exited : Started H
    stopped : World → Server H → Started H
    serving : World → Server H → Started H

  module _ {H : Type 0} (forbidden : H) where
    serve : World → Server H → Started H
    serve w s =
        let (w', ret) = os.event_add_listener w s.fd in
        if eqb_ℤ ret (pos 0)
        then serving w' (record s { router = (Dispatcher.add s.router [] forbidden).0 })
        else stopped w' s

    drop_and_serve : World → Server H → Started H
    unfolding serve
    drop_and_serve w s =
        let (w', ok) = drop_privileges w (option s opt_user) (option s opt_group) in
        if ok then serve w' s else stopped w' s

    after_daemonize : Option World → Server H → Started H
    unfolding drop_and_serve
    after_daemonize none s = exited
    after_daemonize (some w) s = drop_and_serve w s

    -- `forbidden` is the handler ErrorHandler(403, "Forbidden").
    unfoldable pub start : World → Server H → Started H
    unfolding after_daemonize
    start w s =
        let (w', fd) = setup_socket (os.ignore_sigpipe w) s.host s.port in
        let s' : Server H = record s { fd = fd } in
        let next =
          if eq_bytes (option s opt_daemonize) (codes "true") then daemonize w' else some w' in
        if is_neg fd then stopped w' s' else after_daemonize next s'

  -- What resume() makes of a coroutine: it waits for an event, is deleted, or is left alone.
  pub data Fate : Type 0 where
    waiting deleted dropped : Fate

  -- register_connection; the value of the second resume() goes nowhere.
  unfoldable pub register_connection : World → Coroutine → ℤ → Bool → World × Coroutine × Fate
  register_connection w io fd for_write =
      let (w', added) = os.event_add w fd for_write in
      if eqb_ℤ added (pos 0) then (w', io, waiting) else (w', (Coroutine.resume io).0, dropped)

  -- What the switch on the Need does: READ, WRITE, HALT.
  need_of : World → Coroutine → ℤ → ℤ → World × Coroutine × Fate
  need_of w io fd n =
      if eqb_ℤ n (pos 0)
      then register_connection w io fd false
      else if eqb_ℤ n (pos 1)
      then register_connection w io fd true
      else if eqb_ℤ n (pos 2)
      then (w, io, deleted)
      else (w, io, dropped)

  -- Server::resume, where `fd` is the descriptor that the coroutine watches when it yields.
  unfoldable pub resume : World → Coroutine → ℤ → World × Coroutine × Fate
  unfolding need_of
  resume w io fd = let (io', n) = Coroutine.resume io in need_of w io' fd n

-- ErrorHandler(403, "Forbidden").
unfoldable pub forbidden_handler : ErrorHandler
forbidden_handler = record { status = pos 403; msg = codes "Forbidden" }
