-- ===== src/Pool/Lease.antt =====
-- What a get() that succeeds has done.
use libstutter.Common.{
  ◌≡◌, refl, true, false, List, [], ◌∷◌, arith, length, leb, ◌&&◌, ◌||◌, not, Bool-cases, inl, inr,
}
use libstutter.Common.Int.{ℤ, eqb_ℤ}
use libstutter.IntSet.{contains, insert, erase}
use libstutter.IntSet.Laws.{contains-insert, contains-erase, erase-insert, insert-erase}
use libstutter.Os.{Os}
use libstutter.Pool.{SocketPool, put, Got, connect, get}
use libstutter.Pool.Invariant.{IsPool, connect-Attempt, contains_first, get_free, get_room}

module _ (os : Os) where
  open os use {World}

  -- What a successful get() has done: the descriptor was nobody's, is now taken and no longer free,
  -- and every other descriptor is where it was.
  pub record IsLease (p : SocketPool) (g : Got os) : Type 0 where
    pub exclusive : contains g.fd p.taken ≡ false
    pub now_taken : (i : ℤ) → contains i g.pool.taken ≡ (eqb_ℤ i g.fd || contains i p.taken)
    pub now_avail : (i : ℤ) → contains i g.pool.avail ≡ (not (eqb_ℤ i g.fd) && contains i p.avail)

  opened-IsLease :
      (w : World) (p : SocketPool) (out_fd : ℤ)
      → p.avail ≡ []
      → contains (os.socket w).1 p.taken ≡ false
      → (connect os w p out_fd).success ≡ true
      → IsLease p (connect os w p out_fd)
  unfolding contains
  opened-IsLease w p out_fd empty fresh done = elim (connect-Attempt os w p out_fd) [
    | inl (not_done, _, _) ↦ cc
    | inr (_, added, same) ↦ record {
      exclusive = rw same fresh;
      now_taken = λ i. rw (added, same) (contains-insert (os.socket w).1 i p.taken);
      now_avail = λ i. rw (added, empty) (ground arith);
    }
  ]

  -- A successful get() on a well-formed pool hands out a descriptor that no client holds, records
  -- it as taken and as no longer free, and leaves every other descriptor where it was, provided
  -- that socket() does not return a descriptor that is taken.
  pub get-IsLease :
      (w : World) (p : SocketPool) (out_fd : ℤ)
      → ((w' : World) → contains (os.socket w').1 p.taken ≡ false)
      → IsPool p
      → (get os w p out_fd).success ≡ true
      → IsLease p (get os w p out_fd)
  unfolding get
  get-IsLease w p out_fd fresh v = go p.avail refl
    where
      go :
          (s : List ℤ)
          → p.avail ≡ s
          → (get os w p out_fd).success ≡ true
          → IsLease p (get os w p out_fd)
      go [] e = elim (Bool-cases (leb 1024 (length p.taken))) [
        | inl full ↦ rw (e, get, full) (λ done. cc)
        | inr room ↦ rw (get_room os w p out_fd e room) (opened-IsLease w p out_fd e (fresh w))
      ]
      go (fd ∷ rest) e = rw (get_free os w p out_fd fd rest e) λ done. record {
        exclusive = v.disjoint fd (contains_first p fd rest e);
        now_taken = λ i. contains-insert fd i p.taken;
        now_avail = λ i. contains-erase fd i p.avail v.avail_sorted;
      }

  -- In a well-formed pool with a free descriptor, get() followed by put() of what it handed out
  -- leaves the pool exactly as it was.
  pub put-get :
      (w : World) (p : SocketPool) (out_fd fd : ℤ) (rest : List ℤ)
      → IsPool p
      → p.avail ≡ fd ∷ rest
      → put (get os w p out_fd).pool (get os w p out_fd).fd ≡ (p, true)
  unfolding get put
  put-get w p out_fd fd rest v e =
      rw (get_free os w p out_fd fd rest e) (rw (held, put, back, whole) (ground arith))
    where
      held : contains fd (insert fd p.taken) ≡ true
      held = ground (arith, contains-insert fd fd p.taken)

      back : erase fd (insert fd p.taken) ≡ p.taken
      back = erase-insert fd p.taken v.taken_sorted (v.disjoint fd (contains_first p fd rest e))

      whole : insert fd (erase fd p.avail) ≡ p.avail
      whole = insert-erase fd p.avail v.avail_sorted (contains_first p fd rest e)
