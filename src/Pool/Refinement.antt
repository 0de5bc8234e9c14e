-- ===== src/Pool/Refinement.antt =====
-- A pool keeps its ledger, whatever its callers ask for and in whatever order.
use libstutter.Common.{
  ◌≡◌, refl, ap, ◌≢◌, true, false, List, [], ◌∷◌, arith, length, leb, Bool-cases, inl, inr,
}
use libstutter.Common.Int.{ℤ}
use libstutter.Common.Bytes.{Bytes}
use libstutter.IntSet.{contains, insert, erase}
use libstutter.IntSet.Laws.{contains-insert, contains-erase}
use libstutter.Os.{Os}
use libstutter.Pool.{SocketPool, new_pool, put, del, get, connect}
use libstutter.Pool.Invariant.{
  IsPool, new_pool-IsPool, put-IsPool, del-IsPool, get-IsPool, connect-Attempt, contains_first,
  get_free, get_room, get_full,
}
use libstutter.Pool.Ledger.{
  unknown, free, lent, ledger, Call, put_back, forget, ask, Allowed, returned, not_lent, forgotten,
  reused, opened, refused, History, call, calls, Marks, NoneFree,
}

put-Marks :
    (p : SocketPool) (fd : ℤ)
    → IsPool p
    → contains fd p.taken ≡ true
    → Marks (ledger p) fd free (ledger (put p fd).0)
unfolding put ledger
put-Marks p fd v held i =
    rw held
      (ground (arith, contains-insert fd i p.avail, contains-erase fd i p.taken v.taken_sorted))

del-Marks : (p : SocketPool) (fd : ℤ) → IsPool p → Marks (ledger p) fd unknown (ledger (del p fd).0)
unfolding del ledger
del-Marks p fd v i =
    ground (
      arith,
      contains-erase fd i p.avail v.avail_sorted,
      contains-erase fd i p.taken v.taken_sorted,
    )

put_held : (p : SocketPool) (fd : ℤ) → contains fd p.taken ≡ true → (put p fd).1 ≡ true
unfolding put
put_held p fd h = rw h

-- `fd` is among the taken ones, or is not.
pub ledger-lent : (p : SocketPool) (fd : ℤ) → contains fd p.taken ≡ true → ledger p fd ≡ lent
unfolding ledger
ledger-lent p fd h = rw h

ledger_not_lent : (p : SocketPool) (fd : ℤ) → contains fd p.taken ≡ false → ledger p fd ≢ lent
unfolding ledger
ledger_not_lent p fd h e = ground arith

none_free : (p : SocketPool) → p.avail ≡ [] → NoneFree (ledger p)
unfolding ledger contains
none_free p empty i e = ground (arith, ap (contains i) empty)

free_first :
    (p : SocketPool) (fd : ℤ) (rest : List ℤ) → IsPool p → p.avail ≡ fd ∷ rest → ledger p fd ≡ free
unfolding ledger
free_first p fd rest v e = ground (arith, contains_first p fd rest e, v.disjoint fd)

lent-Marks :
    (p : SocketPool) (fd : ℤ)
    → IsPool p
    → Marks
        (ledger p)
        fd
        lent
        (ledger (record p { avail = erase fd p.avail; taken = insert fd p.taken }))
unfolding ledger
lent-Marks p fd v i =
    ground (arith, contains-insert fd i p.taken, contains-erase fd i p.avail v.avail_sorted)

module _ (os : Os) where
  open os use {World}

  -- What the kernel promises of socket(): its descriptor is not one that is open in the pool.
  abbrev pub FreshAt : SocketPool → Call World → Type 0
  FreshAt p (put_back fd) = Unit {0}
  FreshAt p (forget fd) = Unit {0}
  FreshAt p (ask w out_fd) = contains (os.socket w).1 p.taken ≡ false

  abbrev pub Fresh : SocketPool → List (Call World) → Type 0
  Fresh p [] = Unit {0}
  Fresh p (c ∷ cs) = FreshAt p c × Fresh (call os p c).0 cs

  pub call-IsPool : (p : SocketPool) (c : Call World) → IsPool p → IsPool (call os p c).0
  unfolding call
  call-IsPool p (put_back fd) v = put-IsPool p fd v
  call-IsPool p (forget fd) v = del-IsPool p fd v
  call-IsPool p (ask w out_fd) v = get-IsPool os w p out_fd v

  -- The answer to a get() for which a socket has to be opened.
  connect-Allowed :
      (w : World) (p : SocketPool) (out_fd : ℤ)
      → p.avail ≡ []
      → contains (os.socket w).1 p.taken ≡ false
      → let g = connect os w p out_fd in
        Allowed
          (ledger p)
          (ledger g.pool)
          (ask w out_fd)
          (record { fd = g.fd; success = g.success })
  unfolding ledger
  connect-Allowed w p out_fd empty fresh = elim (connect-Attempt os w p out_fd) [
    | inl (failed, same, fd) ↦
        rw (failed, same, fd) (refused w out_fd (none_free p empty) (λ i. refl))
    | inr (done, added, fd) ↦
        rw (done, added, fd)
          (opened w out_fd (os.socket w).1 (none_free p empty)
            (ledger_not_lent p (os.socket w).1 fresh)
            (λ i. ground (arith, contains-insert (os.socket w).1 i p.taken)))
  ]

  get-Allowed :
      (w : World) (p : SocketPool) (out_fd : ℤ)
      → contains (os.socket w).1 p.taken ≡ false
      → IsPool p
      → let g = get os w p out_fd in
        Allowed
          (ledger p)
          (ledger g.pool)
          (ask w out_fd)
          (record { fd = g.fd; success = g.success })
  unfolding get
  get-Allowed w p out_fd fresh v = go p.avail refl
    where
      go :
          (s : List ℤ)
          → p.avail ≡ s
          → let g = get os w p out_fd in
            Allowed
              (ledger p)
              (ledger g.pool)
              (ask w out_fd)
              (record { fd = g.fd; success = g.success })
      go [] e = elim (Bool-cases (leb 1024 (length p.taken))) [
        | inl full ↦
            rw (get_full os w p out_fd e full) (refused w out_fd (none_free p e) (λ i. refl))
        | inr room ↦ rw (get_room os w p out_fd e room) (connect-Allowed w p out_fd e fresh)
      ]
      go (fd ∷ rest) e =
          rw (get_free os w p out_fd fd rest e)
            (reused w out_fd fd (free_first p fd rest v e) (lent-Marks p fd v))

  call-Allowed :
      (p : SocketPool) (c : Call World)
      → FreshAt p c
      → IsPool p
      → Allowed (ledger p) (ledger (call os p c).0) c (call os p c).1
  unfolding call put del
  call-Allowed p (put_back fd) fresh v = elim (Bool-cases (contains fd p.taken)) [
    | inl held ↦
        rw (put_held p fd held) (returned fd (ledger-lent p fd held) (put-Marks p fd v held))
    | inr not_held ↦ rw not_held (not_lent fd (ledger_not_lent p fd not_held) (λ i. refl))
  ]
  call-Allowed p (forget fd) fresh v = forgotten fd (del-Marks p fd v)
  call-Allowed p (ask w out_fd) fresh v = get-Allowed w p out_fd fresh v

  -- The steps of a pool, from any well-formed one.
  pub calls-History :
      (p : SocketPool) (cs : List (Call World))
      → Fresh p cs
      → IsPool p
      → History (ledger p) (calls os p cs).1 (ledger (calls os p cs).0)
  unfolding calls
  calls-History p [] fresh v = λ i. refl
  calls-History p (c ∷ cs) fresh v = (
    ledger (call os p c).0,
    call-Allowed p c fresh.0 v,
    calls-History (call os p c).0 cs fresh.1 (call-IsPool p c v),
  )

  -- The pool of one target refines the ledger: from a new pool, every sequence of put(), del() and
  -- get(), each get() in a world of its own, gets answers that the ledger allows, which starts with no
  -- descriptor and ends as the ledger of the pool. So get() lends a free descriptor whenever there
  -- is one, and else fails or lends one that nobody has; put() succeeds for the lent ones only. It is
  -- supposed that socket() does not return a descriptor that is lent at the time.
  pub new_pool-refines :
      (host : Bytes) (port : ℤ) (cs : List (Call World))
      → Fresh (new_pool host port) cs
      → History
          (λ i. unknown)
          (calls os (new_pool host port) cs).1
          (ledger (calls os (new_pool host port) cs).0)
  unfolding new_pool ledger contains
  new_pool-refines host port cs fresh =
      calls-History (new_pool host port) cs fresh (new_pool-IsPool host port)
