-- ===== src/Server/Loop/Served.antt =====
-- The life of a connection between its first event and its end.
use libstutter.Common.{
  ℕ, suc, ◌≡◌, refl, sym, ap, ◌∙◌, ◌≢◌, Bool, true, false, List, [], ◌∷◌, Option, none, some, All,
  ◌==◌, ◌||◌, arith, Option-cases, inl, inr, ◌↔◌,
}
use mathlib.Core.Path.{subst}
use libstutter.Common.Int.{ℤ, pos}
use libstutter.Io.{Strategy}
use libstutter.Os.{Os}
use libstutter.Parser.{Head}
use libstutter.Connection.{Connection, new_connection}
use libstutter.Coroutine.{Coroutine, done, new_coroutine}
use libstutter.Server
use libstutter.Server.{Fate, waiting, deleted, dropped, register_connection, need_of}
use libstutter.Server.Resume.{need, resume_waits, resume_halts}
use libstutter.Server.Loop.{
  Plan, Session, new_session, next_watch, later, Loop, no_connections, has, remove, settle,
  resume_at, on_possible_accept, Step, accepted, fired, Reach, here, next,
}
use libstutter.Server.Loop.Invariant.{
  IsLoop, put_cases, fired_at, Reach-IsLoop, no_connections-IsLoop, has-remove,
}

-- READ or WRITE.
abbrev pub IsNeed : ℤ → Type 0
IsNeed v = (b : Bool) × (v ≡ need b)

-- What exec() of a connection does: it yields READ and WRITE only, and returns HALT.
abbrev pub Proper : Plan → Type 0
Proper plan = All IsNeed plan.yields × (plan.result ≡ pos 2)

-- That of every connection.
abbrev pub IsExec : (Connection → Plan) → Type 0
IsExec exec = (c : Connection) → Proper (exec c)

abbrev pub IsProper : Coroutine → Type 0
IsProper io = (io.state ≢ done) × All IsNeed io.yields × (io.result ≡ pos 2)

-- Every connection waits for an event.
abbrev pub IsServed : Loop → Type 0
IsServed l = (i : ℕ) (s : Session) → l.live i ≡ some s → IsProper s.io × (has i l.events ≡ true)

module _ (os : Os) (io : Strategy os)
    (event_added : (w : os.World) (fd : ℤ) (b : Bool) → (os.event_add w fd b).1 ≡ pos 0) where
  open os use {World}

  -- What becomes of a proper coroutine: it waits and is proper still, or it is deleted.
  abbrev Goes : Fate os → Coroutine → Type 0
  Goes waiting c = IsProper c
  Goes deleted c = Unit {0}
  Goes dropped c = ⊥

  resume-Goes :
      (w : World) (c : Coroutine) (fd : ℤ)
      → IsProper c
      → Goes (Server.resume os w c fd).2 (Server.resume os w c fd).1
  resume-Goes w c fd (active, needs, halts) = go c.yields refl needs
    where
      go :
          (ys : List ℤ)
          → c.yields ≡ ys
          → All IsNeed ys
          → Goes (Server.resume os w c fd).2 (Server.resume os w c fd).1
      go [] e a = rw (resume_halts os w c fd active e halts) tt
      go (v ∷ more) e ((b, is_need), a) =
          let waits =
            resume_waits os w c fd b more active (e ∙ ap (λ x. x ∷ more) is_need)
              (event_added w fd b) in
          rw waits ((λ d. cc), a, halts)

  -- The end of a turn for an object whose event is not pending, when the others wait for theirs.
  settle-IsServed :
      (w : World) (l : Loop) (i : ℕ) (s : Session) (f : Fate os)
      → ((j : ℕ) (t : Session)
          → (j == i) ≡ false
          → l.live j ≡ some t
          → IsProper t.io × (has j l.events ≡ true))
      → Goes f s.io
      → IsServed (settle os io w l i s f).1
  unfolding settle has
  settle-IsServed w l i s waiting others good j =
      put_cases
        (λ k o. (t : Session) → o ≡ some t → IsProper t.io × ((k == i || has k l.events) ≡ true))
        l.live i j (some s) (λ e t same. let eq : s ≡ t = cc same in (rw (← eq) good, ground arith))
        (λ e t same. ((others j t e same).0, ground (arith, (others j t e same).1)))
  settle-IsServed w l i s deleted others good j =
      put_cases (λ k o. (t : Session) → o ≡ some t → IsProper t.io × (has k l.events ≡ true)) l.live
        i j none (λ e t same. cc) (λ e t same. others j t e same)
  settle-IsServed w l i s dropped others good j = absurd good

  resume_at-IsServed :
      (w : World) (l : Loop) (i : ℕ) (s : Session)
      → ((j : ℕ) (t : Session)
          → (j == i) ≡ false
          → l.live j ≡ some t
          → IsProper t.io × (has j l.events ≡ true))
      → IsProper s.io
      → IsServed (resume_at os io w l i s).1
  unfolding resume_at
  resume_at-IsServed w l i s others p =
      let (w', c, fate) = Server.resume os w s.io (next_watch s) in
      settle-IsServed w' l i
        (record s { io = c; watched = next_watch s; watches = later s.watches }) fate others
        (resume-Goes w s.io (next_watch s) p)

  on_possible_accept-IsServed :
      (w : World) (l : Loop) (fd : ℤ) (h : Head) (exec : Connection → Plan)
      → IsExec exec
      → IsServed l
      → IsServed (on_possible_accept os io w l fd h exec).1
  unfolding on_possible_accept new_coroutine
  on_possible_accept-IsServed w l fd h exec proper v =
      let (w', c) = new_connection os io (os.accept w fd).0 (os.accept w fd).1 h in
      resume_at-IsServed w' (record l { next = suc l.next }) l.next (new_session c (exec c))
        (λ j t e. v j t) ((λ d. cc), (proper c).0, (proper c).1)

  Step-IsServed : {l l' : Loop} → Step os io IsExec l l' → IsLoop l → IsServed l → IsServed l'
  Step-IsServed {l = l} (accepted w fd h exec p e) u v =
      subst IsServed (sym e) (on_possible_accept-IsServed w l fd h exec p v)
  Step-IsServed {l = l} {l' = l'} (fired w w' i h e) u v =
      let (s, found, ended, idle, low) = fired_at os io w w' l l' i u h e in
      subst IsServed (ap (λ (r : World × Loop). r.1) ended) (
        resume_at-IsServed w (record l { events = remove i l.events }) i s
          (λ j t other same.
            ((v j t same).0, ground (arith, has-remove i j l.events u.distinct, (v j t same).1)))
          (v i s found).0)

  pub Reach-IsServed : {l : Loop} → Reach os io IsExec no_connections l → IsServed l
  Reach-IsServed here = λ i s e. absurd (none_there e)
    where
      none_there : {s : Session} → ¬ (◌≡◌ {A = Option Session} none (some s))
      none_there e = cc
  Reach-IsServed (next r st) =
      Step-IsServed st (Reach-IsLoop os io no_connections-IsLoop r) (Reach-IsServed r)

  -- If the event loop takes every event, and every connection yields READ and WRITE only and returns
  -- HALT, then in every state that the loop can reach, an object has not been deleted exactly if an
  -- event for it is pending: no connection is lost and none is left in memory.
  pub live_iff :
      (l : Loop) (i : ℕ)
      → Reach os io IsExec no_connections l
      → (l.live i ≢ none) ↔ (has i l.events ≡ true)
  live_iff l i r = (
    λ there. elim (Option-cases (l.live i)) [
      | inl gone ↦ absurd (there gone)
      | inr (s, found) ↦ (Reach-IsServed r i s found).1
    ],
    (Reach-IsLoop os io no_connections-IsLoop r).pointed i,
  )
