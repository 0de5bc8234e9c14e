-- ===== src/Server/Loop/Ends.antt =====
-- A connection comes to its end.
use libstutter.Common.{
  ℕ, suc, ◌≡◌, refl, ap, ◌∙◌, Bool, List, [], ◌∷◌, Option, none, some, All, arith, length,
}
use mathlib.Core.Path.{subst}
use libstutter.Common.Int.{ℤ, pos}
use libstutter.Io.{Strategy}
use libstutter.Os.{Os}
use libstutter.Server.Resume.{resume_waits, resume_halts}
use libstutter.Server.Loop.{
  Session, next_watch, Loop, no_connections, put, remove, settle, resume_at, on_connection_event,
  Reach, next, fired,
}
use libstutter.Server.Loop.Invariant.{event_runs}
use libstutter.Server.Loop.Served.{IsExec, IsNeed, IsProper, Reach-IsServed}

put_here : (live : ℕ → Option Session) (i : ℕ) (o : Option Session) → put live i o i ≡ o
put_here live i o = ground arith

module _ (os : Os) (io : Strategy os) where
  open os use {World}

  -- The events of one object, each in its world.
  unfoldable pub fire_all : List World → Loop → ℕ → Option Loop
  fire_all [] l i = some l
  fire_all (w ∷ ws) l i = elim (on_connection_event os io w l i) [
    | none ↦ none
    | some (w', l') ↦ fire_all ws l' i
  ]

module _ (os : Os) (io : Strategy os)
    (event_added : (w : os.World) (fd : ℤ) (b : Bool) → (os.event_add w fd b).1 ≡ pos 0) where
  open os use {World}

  resume_at_last :
      (w : World) (l : Loop) (i : ℕ) (s : Session)
      → IsProper s.io
      → s.io.yields ≡ []
      → (resume_at os io w l i s).1.live i ≡ none
  unfolding resume_at settle
  resume_at_last w l i s (active, needs, halts) e =
      rw (resume_halts os w s.io (next_watch s) active e halts) (put_here l.live i none)

  resume_at_more :
      (w : World) (l : Loop) (i : ℕ) (s : Session) (v : ℤ) (more : List ℤ)
      → IsProper s.io
      → s.io.yields ≡ v ∷ more
      → (t : Session) × ((resume_at os io w l i s).1.live i ≡ some t) × (t.io.yields ≡ more)
  unfolding resume_at settle
  resume_at_more w l i s v more (active, needs, halts) e =
      let (b, is_need) = (subst (All IsNeed) e needs).0 in
      let waits =
        resume_waits os w s.io (next_watch s) b more active (e ∙ ap (λ x. x ∷ more) is_need)
          (event_added w (next_watch s) b) in
      rw waits (_, put_here l.live i _, refl)

  fire_all-cons :
      (w : World) (ws : List World) (l : Loop) (i : ℕ) (s : Session)
      → l.live i ≡ some s
      → fire_all os io (w ∷ ws) l i
        ≡ fire_all os io ws (resume_at os io w (record l { events = remove i l.events }) i s).1 i
  unfolding fire_all
  fire_all-cons w ws l i s found = rw (event_runs os io w l i s found, fire_all) refl

  -- The loop after one event of a connection.
  after_event :
      (w : World) (l : Loop) (i : ℕ) (s : Session)
      → Reach os io IsExec no_connections l
      → l.live i ≡ some s
      → IsProper s.io
        × Reach os io IsExec no_connections
            (resume_at os io w (record l { events = remove i l.events }) i s).1
  after_event w l i s r found =
      let (p, pending) = Reach-IsServed os io event_added r i s found in
      let (w', l') = resume_at os io w (record l { events = remove i l.events }) i s in
      (p, next r (fired w w' i pending (event_runs os io w l i s found)))

  deletes :
      (ys : List ℤ) (ws : List World) (l : Loop) (i : ℕ) (s : Session)
      → Reach os io IsExec no_connections l
      → l.live i ≡ some s
      → s.io.yields ≡ ys
      → length ws ≡ suc (length ys)
      → (l' : Loop) × (fire_all os io ws l i ≡ some l')
        × Reach os io IsExec no_connections l'
        × (l'.live i ≡ none)
  unfolding fire_all
  deletes ys [] l i s r found e count = absurd (omega arith)
  deletes [] (w ∷ v ∷ ws) l i s r found e count = absurd (omega arith)
  deletes [] (w ∷ []) l i s r found e count =
      let m = record l { events = remove i l.events } in
      let (p, r') = after_event w l i s r found in
      ((resume_at os io w m i s).1, fire_all-cons w [] l i s found, r', resume_at_last w m i s p e)
  deletes (y ∷ ys) (w ∷ ws) l i s r found e count =
      let m = record l { events = remove i l.events } in
      let (p, r') = after_event w l i s r found in
      let (t, there, shorter) = resume_at_more w m i s y ys p e in
      let (l', all, r'', gone) =
        deletes ys ws (resume_at os io w m i s).1 i t r' there shorter (omega arith) in
      (l', fire_all-cons w ws l i s found ∙ all, r'', gone)

  -- If the event loop takes every event and every connection yields READ and WRITE only and returns
  -- HALT, then in every state that the loop can reach, a connection is deleted by its own events, one
  -- for each wait that is still before it and one for the wait that it is in; none of them finds it
  -- deleted before.
  pub fire_all-deletes :
      (ws : List World) (l : Loop) (i : ℕ) (s : Session)
      → Reach os io IsExec no_connections l
      → l.live i ≡ some s
      → length ws ≡ suc (length s.io.yields)
      → (l' : Loop) × (fire_all os io ws l i ≡ some l')
        × Reach os io IsExec no_connections l'
        × (l'.live i ≡ none)
  fire_all-deletes ws l i s r found count = deletes s.io.yields ws l i s r found refl count
