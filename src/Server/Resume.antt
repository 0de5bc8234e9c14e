-- ===== src/Server/Resume.antt =====
-- What becomes of a connection between two events.
use libstutter.Common.{◌≡◌, refl, ◌≢◌, Bool, true, false, List, [], ◌∷◌, if◌then◌else◌}
use libstutter.Common.Int.{ℤ, pos, eqb_ℤ}
use libstutter.Os.{Os}
use libstutter.Coroutine
use libstutter.Coroutine.{Coroutine, State, init, running, done, run_on}
use libstutter.Server.{waiting, deleted, dropped, register_connection, need_of, resume}

-- READ or WRITE as an int.
abbrev pub need : Bool → ℤ
need for_write = if for_write then pos 1 else pos 0

resumed :
    (io : Coroutine) (v : ℤ) (more : List ℤ)
    → io.state ≢ done
    → io.yields ≡ v ∷ more
    → Coroutine.resume io ≡ (record io { state = running; value = v; yields = more }, v)
unfolding Coroutine.resume run_on
resumed io v more h e = go io.state refl
  where
    go :
        (s : State)
        → io.state ≡ s
        → Coroutine.resume io ≡ (record io { state = running; value = v; yields = more }, v)
    go init i = rw (i, Coroutine.resume, e, run_on)
    go running i = rw (i, Coroutine.resume, e, run_on)
    go done i = absurd (h i)

finished :
    (io : Coroutine)
    → io.state ≢ done
    → io.yields ≡ []
    → Coroutine.resume io ≡ (record io { state = done; value = io.result; yields = [] }, io.result)
unfolding Coroutine.resume run_on
finished io h e = go io.state refl
  where
    go :
        (s : State)
        → io.state ≡ s
        → Coroutine.resume io
          ≡ (record io { state = done; value = io.result; yields = [] }, io.result)
    go init i = rw (i, Coroutine.resume, e, run_on)
    go running i = rw (i, Coroutine.resume, e, run_on)
    go done i = absurd (h i)

module _ (os : Os) where
  open os use {World}

  -- What becomes of a coroutine that asks for a read or a write.
  resume_next :
      (w : World) (io : Coroutine) (fd : ℤ) (for_write : Bool) (more : List ℤ)
      → io.state ≢ done
      → io.yields ≡ need for_write ∷ more
      → let asked : Coroutine = record io {
        state = running;
        value = need for_write;
        yields = more;
      } in
        let (w', added) = os.event_add w fd for_write in
        resume os w io fd ≡ (
          if eqb_ℤ added (pos 0)
          then (w', asked, waiting)
          else (w', (Coroutine.resume asked).0, dropped))
  unfolding resume need_of register_connection
  resume_next w io fd true more h e = rw (resumed io (pos 1) more h e, resume)
  resume_next w io fd false more h e = rw (resumed io (pos 0) more h e, resume)

  -- If the loop takes the event, the coroutine waits for it.
  pub resume_waits :
      (w : World) (io : Coroutine) (fd : ℤ) (for_write : Bool) (more : List ℤ)
      → io.state ≢ done
      → io.yields ≡ need for_write ∷ more
      → (os.event_add w fd for_write).1 ≡ pos 0
      → resume os w io fd ≡ (
        (os.event_add w fd for_write).0,
        record io { state = running; value = need for_write; yields = more },
        waiting,
      )
  resume_waits w io fd for_write more h e taken =
      rw (resume_next w io fd for_write more h e, taken) refl

  -- A coroutine that returns HALT is deleted.
  pub resume_halts :
      (w : World) (io : Coroutine) (fd : ℤ)
      → io.state ≢ done
      → io.yields ≡ []
      → io.result ≡ pos 2
      → (resume os w io fd).2 ≡ deleted
  unfolding resume need_of
  resume_halts w io fd h e r = rw (finished io h e, resume, r) refl
