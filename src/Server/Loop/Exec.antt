-- ===== src/Server/Loop/Exec.antt =====
-- exec() of a connection, as the event loop sees it.
use libstutter.Common.{
  ◌≡◌, refl, ap, suc, true, false, List, [], ◌∷◌, map, Option, none, some, All, length,
}
use libstutter.Common.Int.{ℤ}
use libstutter.Common.Bytes.{Bytes}
use libstutter.Os.{Os}
use libstutter.Io.{Need, need_read, need_write, halt}
use libstutter.Dispatcher
use libstutter.Dispatcher.{Dispatcher}
use libstutter.Parser.{Event}
use libstutter.Connection.{Connection, Handler, Progress, halted, fault, going, exec}
use libstutter.Connection.Halts.{Halts, exec-Halts}
use libstutter.Connection.Keeps.{IsKeeper}
use libstutter.Connection.Keeps.Rounds.{Held, exec-Held}
use libstutter.Connection.Waits.{Trace, traced, waiting_io, need_code, IsOwn, AllOwn, waits-Keeps}
use libstutter.Server.Loop.{Plan}
use libstutter.Server.Loop.Served.{IsNeed, Proper}

-- What a coroutine that has waited so often and then returns hands to those who resume it.
abbrev pub plan_of : Trace → Need → Connection → Plan
plan_of t returned c = record {
  yields = map (λ (x : Need × ℤ). need_code x.0) t;
  watches = map (λ (x : Need × ℤ). x.1) t;
  result = need_code returned;
  last = c;
}

own-IsNeed : (need : Need) (watched fd : ℤ) → IsOwn fd (need, watched) → IsNeed (need_code need)
own-IsNeed need_read watched fd o = (false, refl)
own-IsNeed need_write watched fd o = (true, refl)
own-IsNeed halt watched fd o = absurd (o.0 refl)

-- Waits for the own descriptor only.
plan_of-Proper :
    (t : Trace) (returned : Need) (c : Connection) (fd : ℤ)
    → All (IsOwn fd) t
    → All IsNeed (plan_of t returned c).yields
      × All (λ d. d ≡ fd) (plan_of t returned c).watches
      × (length (plan_of t returned c).watches ≡ length (plan_of t returned c).yields)
plan_of-Proper [] returned c fd o = (tt, tt, refl)
plan_of-Proper ((need, watched) ∷ t) returned c fd o =
    let (needs, watches, same) = plan_of-Proper t returned c fd o.1 in
    ((own-IsNeed need watched fd o.0, needs), (o.0.1, watches), ap suc same)

no_plan : (plan : Plan) → ¬ (◌≡◌ {A = Option Plan} none (some plan))
no_plan plan e = cc

module _ (os : Os) (others : os.World → Need → ℤ → os.World) where
  open os use {World}

  planned : Progress (traced os) (waiting_io os others) → Option Plan
  planned (halted (w, t) c returned) = some (plan_of t returned c)
  planned fault = none
  planned (going s c) = none

  -- exec() from its start to its return, for the calls of the library at each read; there is no plan while
  -- the client sends more than these.
  unfoldable pub exec_plan :
      World
      → Dispatcher (Handler (traced os) (waiting_io os others))
      → List (List Event)
      → Connection
      → Option Plan
  unfolding planned
  exec_plan w router rounds c =
      planned (exec (traced os) (waiting_io os others) (w, []) c router rounds)

  planned-Proper :
      (r : Progress (traced os) (waiting_io os others)) (fd : ℤ) (plan : Plan)
      → Held (traced os) (waiting_io os others) fd (AllOwn os fd) r
      → Halts (traced os) (waiting_io os others) r
      → planned r ≡ some plan
      → Proper plan × All (λ d. d ≡ fd) plan.watches × (length plan.watches ≡ length plan.yields)
  unfolding planned
  planned-Proper (halted (w, t) c returned) fd plan own halts e =
      let same : plan_of t returned c ≡ plan = cc e in
      let (needs, watches, as_many) = plan_of-Proper t returned c fd own in
      rw (← same) ((needs, ap need_code halts), watches, as_many)
  planned-Proper fault fd plan own halts e = absurd (no_plan plan e)
  planned-Proper (going s c) fd plan own halts e = absurd (no_plan plan e)

  -- If the handlers that the router gives make no wait but READ and WRITE on the descriptor of the
  -- connection, then exec() waits for READ and WRITE only, each time on that descriptor, and when it
  -- returns, it returns HALT.
  pub exec_plan-Proper :
      (w : World) (router : Dispatcher (Handler (traced os) (waiting_io os others)))
      (rounds : List (List Event)) (c : Connection) (plan : Plan)
      → ((url : Bytes) (g : Handler (traced os) (waiting_io os others))
          → Dispatcher.get router url ≡ some g
          → IsKeeper (traced os) (waiting_io os others) (AllOwn os c.fd) g)
      → exec_plan w router rounds c ≡ some plan
      → Proper plan × All (λ d. d ≡ c.fd) plan.watches × (length plan.watches ≡ length plan.yields)
  unfolding exec_plan
  exec_plan-Proper w router rounds c plan keepers e =
      let io = waiting_io os others in
      let P = AllOwn os c.fd in
      planned-Proper (exec (traced os) io (w, []) c router rounds) c.fd plan
        (exec-Held (traced os) io c.fd P (waits-Keeps os others c.fd) router keepers (w, []) c
          rounds refl tt)
        (exec-Halts (traced os) io (w, []) c router rounds) e
