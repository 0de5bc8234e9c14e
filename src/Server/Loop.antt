-- ===== src/Server/Loop.antt =====
-- stutter/server.cpp: the callbacks of the event loop. A connection is a coroutine that the loop
-- reaches by a pointer in the closure of a pending event; the objects that have not been deleted are
-- a map from addresses, and no address is given out twice.
pub mod Invariant
pub mod Served
pub mod Exec
pub mod Ends
use libstutter.Common.{
  ◌≡◌, ℕ, suc, Bool, true, false, List, [], ◌∷◌, Option, none, some, if◌then◌else◌, ◌==◌, ◌||◌,
}
use libstutter.Common.Int.{ℤ, minus_one}
use libstutter.Coroutine.{Coroutine, new_coroutine}
use libstutter.Io.{Strategy}
use libstutter.Os.{Os}
use libstutter.Parser.{Head}
use libstutter.Connection.{Connection, new_connection, delete_connection}
use libstutter.Server
use libstutter.Server.{Fate, waiting, deleted, dropped}

-- What exec() is going to do: the values that it yields, the descriptor that is watched at each of
-- them, the value that it returns, and the connection as it then is.
pub record Plan : Type 0 where
  pub yields : List ℤ
  pub watches : List ℤ
  pub result : ℤ
  pub last : Connection

-- A Connection as the loop sees it, with the descriptors that it is still going to watch.
pub record Session : Type 0 where
  pub conn : Connection
  pub io : Coroutine
  pub watched : ℤ
  pub watches : List ℤ
  pub last : Connection

-- A new Connection, before its first resume(); m_watched_fd has no value yet.
abbrev pub new_session : Connection → Plan → Session
new_session c plan = record {
  conn = c;
  io = new_coroutine plan.yields plan.result;
  watched = minus_one;
  watches = plan.watches;
  last = plan.last;
}

-- m_watched_fd at the next yield.
abbrev pub next_watch : Session → ℤ
next_watch s = elim s.watches [ [] ↦ s.watched | fd ∷ more ↦ fd ]

abbrev pub later : List ℤ → List ℤ
later [] = []
later (fd ∷ more) = more

-- The objects, the pending events by the object in their closure, and the next address.
pub record Loop : Type 0 where
  pub live : ℕ → Option Session
  pub events : List ℕ
  pub next : ℕ

abbrev pub no_connections : Loop
no_connections = record { live = λ i. none; events = []; next = 0 }

-- The object at an address is now `o`.
abbrev pub put : (ℕ → Option Session) → ℕ → Option Session → ℕ → Option Session
put live i o j = if j == i then o else live j

unfoldable pub has : ℕ → List ℕ → Bool
has i [] = false
has i (j ∷ es) = (i == j) || has i es

-- An event is pending once; it goes when it fires.
unfoldable pub remove : ℕ → List ℕ → List ℕ
remove i [] = []
remove i (j ∷ es) = if i == j then es else j ∷ remove i es

module _ (os : Os) (io : Strategy os) where
  open os use {World}

  -- What the loop and the heap are left with after Server::resume.
  unfoldable pub settle : World → Loop → ℕ → Session → Fate os → World × Loop
  settle w l i s waiting = (w, record l { live = put l.live i (some s); events = i ∷ l.events })
  settle w l i s deleted = (delete_connection os io w s.last, record l { live = put l.live i none })
  settle w l i s dropped = (w, record l { live = put l.live i (some s) })

  -- resume(io), where `w` is the world when the coroutine gives way again.
  unfoldable pub resume_at : World → Loop → ℕ → Session → World × Loop
  unfolding settle
  resume_at w l i s =
      let (w', c, fate) = Server.resume os w s.io (next_watch s) in
      settle w' l i (record s { io = c; watched = next_watch s; watches = later s.watches }) fate

  -- _on_possible_accept: what accept() returns is not looked at.
  unfoldable pub on_possible_accept : World → Loop → ℤ → Head → (Connection → Plan) → World × Loop
  unfolding resume_at
  on_possible_accept w l fd h exec =
      let (w₁, client_fd) = os.accept w fd in
      let (w₂, c) = new_connection os io w₁ client_fd h in
      resume_at w₂ (record l { next = suc l.next }) l.next (new_session c (exec c))

  -- _on_connection_event for the closure with the pointer `i`; `none` is a fault, the use of an
  -- object that has been deleted.
  unfoldable pub on_connection_event : World → Loop → ℕ → Option (World × Loop)
  unfolding resume_at
  on_connection_event w l i = elim (l.live i) [
    | none ↦ none
    | some s ↦ some (resume_at w (record l { events = remove i l.events }) i s)
  ]

  -- One turn of the loop: a client connects, whose connection has an exec() among `ok`, or a pending
  -- event fires. The rest of the world may do anything before.
  pub data Step (ok : (Connection → Plan) → Type 0) (l : Loop) (l' : Loop) : Type 0 where
    accepted :
        (w : World) (fd : ℤ) (h : Head) (exec : Connection → Plan)
        → ok exec
        → l' ≡ (on_possible_accept w l fd h exec).1
        → Step ok l l'
    fired :
        (w w' : World) (i : ℕ)
        → has i l.events ≡ true
        → on_connection_event w l i ≡ some (w', l')
        → Step ok l l'

  pub data Reach (ok : (Connection → Plan) → Type 0) (l : Loop) : Loop → Type 0 where
    here : Reach ok l l
    next : {m n : Loop} → Reach ok l m → Step ok m n → Reach ok l n
