-- ===== src/Server/Loop/Invariant.antt =====
-- The pointers of the event loop.
use libstutter.Common.{
  ℕ, suc, ◌<◌, ◌≡◌, refl, sym, ◌≢◌, true, false, not, List, [], ◌∷◌, Option, none, some, ◌==◌, ◌||◌,
  ◌&&◌, arith, Bool-cases, ap, Option-cases, inl, inr,
}
use mathlib.Core.Path.{subst}
use libstutter.Common.Int.{ℤ}
use libstutter.Io.{Strategy}
use libstutter.Os.{Os}
use libstutter.Parser.{Head}
use libstutter.Connection.{Connection, new_connection}
use libstutter.Server.{Fate, waiting, deleted, dropped}
use libstutter.Server.Loop.{
  Plan, Session, new_session, Loop, no_connections, put, has, remove, settle, resume_at,
  on_possible_accept, on_connection_event, Step, accepted, fired, Reach, here, next,
}

-- No event is pending twice.
abbrev pub Distinct : List ℕ → Type 0
Distinct [] = Unit {0}
Distinct (i ∷ es) = (has i es ≡ false) × Distinct es

-- Every pending event has an object, once, and the objects are below the next address.
pub record IsLoop (l : Loop) : Type 0 where
  pub distinct : Distinct l.events
  pub pointed : (i : ℕ) → has i l.events ≡ true → l.live i ≢ none
  pub allocated : (i : ℕ) → l.live i ≢ none → i < l.next

pub has-remove :
    (i j : ℕ) (es : List ℕ) → Distinct es → has j (remove i es) ≡ (not (j == i) && has j es)
unfolding has remove
has-remove i j [] d = ground arith
has-remove i j (k ∷ es) d = ground (arith, has-remove i j es d.1)

remove-Distinct : (i : ℕ) (es : List ℕ) → Distinct es → Distinct (remove i es)
unfolding remove has
remove-Distinct i [] d = tt
remove-Distinct i (k ∷ es) d = ground (arith, has-remove i k es d.1, remove-Distinct i es d.1)

pub no_connections-IsLoop : IsLoop no_connections
unfolding has
no_connections-IsLoop = record {
  distinct = tt;
  pointed = λ i h. cc;
  allocated = λ i h. absurd (h refl);
}

-- What holds of an address other than `i`, and of `i` itself, holds after a change at `i`.
pub put_cases :
    (P : ℕ → Option Session → Type 0) (live : ℕ → Option Session) (i j : ℕ) (o : Option Session)
    → (j ≡ i → P j o)
    → ((j == i) ≡ false → P j (live j))
    → P j (put live i o j)
put_cases P live i j o at other = elim (Bool-cases (j == i)) [
  | inl e ↦ rw e (at (ground arith))
  | inr e ↦ rw e (other e)
]

module _ (os : Os) (io : Strategy os) where
  open os use {World}

  -- The end of a turn, for an object whose event is not pending.
  settle-IsLoop :
      (w : World) (l : Loop) (i : ℕ) (s : Session) (f : Fate os)
      → IsLoop l
      → has i l.events ≡ false
      → i < l.next
      → IsLoop (settle os io w l i s f).1
  unfolding settle has
  settle-IsLoop w l i s waiting v idle low = record {
    distinct = (idle, v.distinct);
    pointed = λ j.
        put_cases (λ k o. (k == i || has k l.events) ≡ true → o ≢ none) l.live i j (some s)
          (λ e h k. cc) (λ e h. v.pointed j (ground arith));
    allocated = λ j.
        put_cases (λ k o. o ≢ none → k < l.next) l.live i j (some s) (λ e h. rw e low)
          (λ e. v.allocated j);
  }
  settle-IsLoop w l i s deleted v idle low = record {
    distinct = v.distinct;
    pointed = λ j.
        put_cases (λ k o. has k l.events ≡ true → o ≢ none) l.live i j none
          (λ e h k. cc (ap (λ k. has k l.events) e)) (λ e. v.pointed j);
    allocated = λ j.
        put_cases (λ k o. o ≢ none → k < l.next) l.live i j none (λ e h. absurd (h refl))
          (λ e. v.allocated j);
  }
  settle-IsLoop w l i s dropped v idle low = record {
    distinct = v.distinct;
    pointed = λ j.
        put_cases (λ k o. has k l.events ≡ true → o ≢ none) l.live i j (some s) (λ e h k. cc)
          (λ e. v.pointed j);
    allocated = λ j.
        put_cases (λ k o. o ≢ none → k < l.next) l.live i j (some s) (λ e h. rw e low)
          (λ e. v.allocated j);
  }

  resume_at-IsLoop :
      (w : World) (l : Loop) (i : ℕ) (s : Session)
      → IsLoop l
      → has i l.events ≡ false
      → i < l.next
      → IsLoop (resume_at os io w l i s).1
  unfolding resume_at
  resume_at-IsLoop w l i s v idle low = settle-IsLoop _ l i _ _ v idle low

  -- The next address is in no event.
  pub next_idle : (l : Loop) → IsLoop l → has l.next l.events ≡ false
  next_idle l v = elim (Bool-cases (has l.next l.events)) [
    | inl h ↦ absurd (omega (arith, v.allocated l.next (v.pointed l.next h)))
    | inr h ↦ h
  ]

  on_possible_accept-IsLoop :
      (w : World) (l : Loop) (fd : ℤ) (h : Head) (exec : Connection → Plan)
      → IsLoop l
      → IsLoop (on_possible_accept os io w l fd h exec).1
  unfolding on_possible_accept
  on_possible_accept-IsLoop w l fd h exec v =
      let v' : IsLoop (record l { next = suc l.next }) = record {
        distinct = v.distinct;
        pointed = v.pointed;
        allocated = λ i live. omega (arith, v.allocated i live);
      } in
      let c = (new_connection os io (os.accept w fd).0 (os.accept w fd).1 h).1 in
      resume_at-IsLoop _ (record l { next = suc l.next }) l.next (new_session c (exec c)) v'
        (next_idle l v) (omega arith)

  pub unpend-IsLoop :
      (l : Loop) (i : ℕ) → IsLoop l → IsLoop (record l { events = remove i l.events })
  unpend-IsLoop l i v = record {
    distinct = remove-Distinct i l.events v.distinct;
    pointed = λ j h. v.pointed j (ground (arith, has-remove i j l.events v.distinct));
    allocated = v.allocated;
  }

  -- A pending event finds its object.
  fires :
      (w : World) (l : Loop) (i : ℕ)
      → IsLoop l
      → has i l.events ≡ true
      → (s : Session) × (l.live i ≡ some s)
  fires w l i v h = elim (Option-cases (l.live i)) [
    | inl none_there ↦ absurd (v.pointed i h none_there)
    | inr found ↦ found
  ]

  pub event_runs :
      (w : World) (l : Loop) (i : ℕ) (s : Session)
      → l.live i ≡ some s
      → on_connection_event os io w l i
        ≡ some (resume_at os io w (record l { events = remove i l.events }) i s)
  unfolding on_connection_event
  event_runs w l i s e = rw (e, on_connection_event)

  -- An event that fires is no longer pending, and its object is resumed.
  pub fired_at :
      (w w' : World) (l l' : Loop) (i : ℕ)
      → IsLoop l
      → has i l.events ≡ true
      → on_connection_event os io w l i ≡ some (w', l')
      → (s : Session) × (l.live i ≡ some s)
        × (resume_at os io w (record l { events = remove i l.events }) i s ≡ (w', l'))
        × (has i (remove i l.events) ≡ false)
        × (i < l.next)
  fired_at w w' l l' i v h e =
      let (s, found) = fires w l i v h in
      (
        s,
        found,
        cc (event_runs w l i s found, e),
        ground (arith, has-remove i i l.events v.distinct),
        v.allocated i (λ n. cc),
      )

  Step-IsLoop :
      {ok : (Connection → Plan) → Type 0} {l l' : Loop} → Step os io ok l l' → IsLoop l → IsLoop l'
  Step-IsLoop {l = l} (accepted w fd h exec p e) v =
      subst IsLoop (sym e) (on_possible_accept-IsLoop w l fd h exec v)
  Step-IsLoop {l = l} {l' = l'} (fired w w' i h e) v =
      let (s, found, ended, idle, low) = fired_at w w' l l' i v h e in
      let m = record l { events = remove i l.events } in
      subst IsLoop (ap (λ (r : World × Loop). r.1) ended)
        (resume_at-IsLoop w m i s (unpend-IsLoop l i v) idle low)

  pub Reach-IsLoop :
      {ok : (Connection → Plan) → Type 0} {l l' : Loop} → IsLoop l → Reach os io ok l l' → IsLoop l'
  Reach-IsLoop v here = v
  Reach-IsLoop v (next r s) = Step-IsLoop s (Reach-IsLoop v r)

  -- In every state that the event loop can reach, whatever the connections do and in whatever order
  -- clients connect and events fire: no event is pending twice, every pending event has an object that
  -- has not been deleted, and so the callback of an event never follows a stale pointer.
  pub never_dangling :
      (ok : (Connection → Plan) → Type 0) (l : Loop)
      → Reach os io ok no_connections l
      → IsLoop l
        × ((w : World) (i : ℕ) → has i l.events ≡ true → on_connection_event os io w l i ≢ none)
  never_dangling ok l r =
      let v = Reach-IsLoop no_connections-IsLoop r in
      (v, λ w i h e. let (s, found) = fires w l i v h in cc (event_runs w l i s found))
