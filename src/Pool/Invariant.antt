-- ===== src/Pool/Invariant.antt =====
-- What every operation keeps of a pool, and who holds a descriptor.
use libstutter.Common.{
  ◌+◌, ◌≤◌, ◌<◌, ◌≡◌, refl, true, false, List, [], ◌∷◌, arith, length, leb, Bool-cases, inl, inr,
  ◌⊎◌, ap,
}
use libstutter.Common.Int.{ℤ}
use libstutter.Common.Bytes.{Bytes}
use libstutter.IntSet.{contains, insert, erase}
use libstutter.IntSet.Laws.{
  IsSorted, contains-insert, contains-erase, insert-IsSorted, erase-IsSorted, length-insert,
  length-erase,
}
use libstutter.Os.{Os}
use libstutter.Pool.{SocketPool, new_pool, put, del, Got, dial, connect, get}

-- The two sets are in order and disjoint, and hold at most MAX_POOL_SIZE descriptors together.
pub record IsPool (p : SocketPool) : Type 0 where
  pub avail_sorted : IsSorted p.avail
  pub taken_sorted : IsSorted p.taken
  pub disjoint : (i : ℤ) → contains i p.avail ≡ true → contains i p.taken ≡ false
  pub bounded : length p.avail + length p.taken ≤ 1024

pub new_pool-IsPool : (host : Bytes) (port : ℤ) → IsPool (new_pool host port)
unfolding new_pool contains
new_pool-IsPool host port = record {
  avail_sorted = tt;
  taken_sorted = tt;
  disjoint = λ i h. cc;
  bounded = omega arith;
}

pub put-IsPool : (p : SocketPool) (fd : ℤ) → IsPool p → IsPool (put p fd).0
unfolding put
put-IsPool p fd v = elim (Bool-cases (contains fd p.taken)) [
  | inl held ↦ rw held (record {
    avail_sorted = insert-IsSorted fd p.avail v.avail_sorted;
    taken_sorted = erase-IsSorted fd p.taken v.taken_sorted;
    disjoint = λ i h. ground (
      arith,
      contains-insert fd i p.avail,
      contains-erase fd i p.taken v.taken_sorted,
      v.disjoint i,
    );
    bounded =
        ground
          (arith, length-insert fd p.avail v.avail_sorted, length-erase fd p.taken v.taken_sorted);
  })
  | inr free ↦ rw free v
]

pub del-IsPool : (p : SocketPool) (fd : ℤ) → IsPool p → IsPool (del p fd).0
unfolding del
del-IsPool p fd v = record {
  avail_sorted = erase-IsSorted fd p.avail v.avail_sorted;
  taken_sorted = erase-IsSorted fd p.taken v.taken_sorted;
  disjoint = λ i h. ground (
    arith,
    contains-erase fd i p.avail v.avail_sorted,
    contains-erase fd i p.taken v.taken_sorted,
    v.disjoint i,
  );
  bounded = omega (
    arith,
    length-erase fd p.avail v.avail_sorted,
    length-erase fd p.taken v.taken_sorted,
    v.bounded,
  );
}

-- A free descriptor changes hands.
module _ (p : SocketPool) (fd : ℤ) (rest : List ℤ) (shape : p.avail ≡ fd ∷ rest) where
  abbrev lent : SocketPool
  lent = record p { avail = erase fd p.avail; taken = insert fd p.taken }

  pub contains_first : contains fd p.avail ≡ true
  unfolding contains
  contains_first = rw shape (ground arith)

  lent-IsPool : IsPool p → IsPool lent
  lent-IsPool v = record {
    avail_sorted = erase-IsSorted fd p.avail v.avail_sorted;
    taken_sorted = insert-IsSorted fd p.taken v.taken_sorted;
    disjoint = λ i h. ground (
      arith,
      contains-erase fd i p.avail v.avail_sorted,
      contains-insert fd i p.taken,
      v.disjoint i,
    );
    bounded = ground (
      arith,
      contains_first,
      length-erase fd p.avail v.avail_sorted,
      length-insert fd p.taken v.taken_sorted,
    );
  }

module _ (os : Os) where
  open os use {World}

  -- What a connection attempt with the descriptor `fd` does to the pool.
  abbrev pub Attempt : SocketPool → ℤ → ℤ → Got os → Type 0
  Attempt p out_fd fd g =
      ((g.success ≡ false) × (g.pool ≡ p) × (g.fd ≡ out_fd))
      ⊎ ((g.success ≡ true) × (g.pool ≡ record p { taken = insert fd p.taken }) × (g.fd ≡ fd))

  dial-Attempt :
      (w : World) (p : SocketPool) (out_fd fd : ℤ) (info : List os.Addr)
      → Attempt p out_fd fd (dial os w p out_fd fd info)
  unfolding dial
  dial-Attempt w p out_fd fd [] = inl (refl, refl, refl)
  dial-Attempt w p out_fd fd (ai ∷ more) = ground arith

  -- A connection attempt changes the pool and the caller's descriptor only if it succeeds; then the
  -- new descriptor is the one that socket() returned, and it is recorded as taken.
  pub connect-Attempt :
      (w : World) (p : SocketPool) (out_fd : ℤ)
      → Attempt p out_fd (os.socket w).1 (connect os w p out_fd)
  unfolding connect
  connect-Attempt w p out_fd = ground (arith, dial-Attempt _ p out_fd (os.socket w).1 _)

  opened-IsPool :
      (p : SocketPool) (fd : ℤ)
      → p.avail ≡ []
      → length p.taken < 1024
      → IsPool p
      → IsPool (record p { taken = insert fd p.taken })
  unfolding contains
  opened-IsPool p fd empty room v = record {
    avail_sorted = v.avail_sorted;
    taken_sorted = insert-IsSorted fd p.taken v.taken_sorted;
    disjoint = λ i h. cc (ap (contains i) empty);
    bounded = ground (arith, length-insert fd p.taken v.taken_sorted, ap (length {A = ℤ}) empty);
  }

  connect-IsPool :
      (w : World) (p : SocketPool) (out_fd : ℤ)
      → p.avail ≡ []
      → length p.taken < 1024
      → IsPool p
      → IsPool (connect os w p out_fd).pool
  connect-IsPool w p out_fd empty room v = elim (connect-Attempt w p out_fd) [
    | inl (_, same, _) ↦ rw same v
    | inr (_, added, _) ↦ rw added (opened-IsPool p _ empty room v)
  ]

  pub get_room :
      (w : World) (p : SocketPool) (out_fd : ℤ)
      → p.avail ≡ []
      → leb 1024 (length p.taken) ≡ false
      → get os w p out_fd ≡ connect os w p out_fd
  unfolding get
  get_room w p out_fd e room = ground arith

  pub get_full :
      (w : World) (p : SocketPool) (out_fd : ℤ)
      → p.avail ≡ []
      → leb 1024 (length p.taken) ≡ true
      → get os w p out_fd ≡ record { world = w; pool = p; fd = out_fd; success = false }
  unfolding get
  get_full w p out_fd e full = ground arith

  pub get_free :
      (w : World) (p : SocketPool) (out_fd fd : ℤ) (rest : List ℤ)
      → p.avail ≡ fd ∷ rest
      → get os w p out_fd ≡ record {
        world = w;
        pool = record p { avail = erase fd p.avail; taken = insert fd p.taken };
        fd = fd;
        success = true;
      }
  unfolding get
  get_free w p out_fd fd rest e = ground arith

  -- get() keeps the pool well formed, whatever the system calls answer: in particular the free and
  -- the taken descriptors together never exceed MAX_POOL_SIZE.
  pub get-IsPool :
      (w : World) (p : SocketPool) (out_fd : ℤ) → IsPool p → IsPool (get os w p out_fd).pool
  unfolding get
  get-IsPool w p out_fd v = go p.avail refl
    where
      go : (s : List ℤ) → p.avail ≡ s → IsPool (get os w p out_fd).pool
      go [] e = elim (Bool-cases (leb 1024 (length p.taken))) [
        | inl full ↦ rw (e, get, full) v
        | inr room ↦ rw (e, get, room) (connect-IsPool w p out_fd e (ground arith) v)
      ]
      go (fd ∷ rest) e = rw (e, get) (lent-IsPool p fd rest e v)
