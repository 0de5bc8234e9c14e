-- ===== src/Pool/Ledger.antt =====
-- What a pool promises to its callers, without its sets: a ledger of the descriptors it has seen.
use libstutter.Common.{◌≡◌, ◌≢◌, Bool, true, false, List, [], ◌∷◌, if◌then◌else◌}
use libstutter.Common.Int.{ℤ, eqb_ℤ}
use libstutter.IntSet.{contains}
use libstutter.Os.{Os}
use libstutter.Pool.{SocketPool, put, del, get}

pub data Status : Type 0 where
  unknown free lent : Status

abbrev pub Ledger : Type 0
Ledger = ℤ → Status

-- The ledger of a pool.
unfoldable pub ledger : SocketPool → Ledger
ledger p i = if contains i p.taken then lent else if contains i p.avail then free else unknown

-- A call of put(fd), of del(fd), or of get(fd) for a variable that holds `out_fd` in a world.
pub data Call (W : Type 0) : Type 0 where
  put_back forget : ℤ → Call W
  ask : W → ℤ → Call W

-- What the caller sees: the return value, and the descriptor that it then has.
pub record Answer : Type 0 where
  pub fd : ℤ
  pub success : Bool

-- `new` is `old` with another entry for `fd`.
abbrev pub Marks : Ledger → ℤ → Status → Ledger → Type 0
Marks old fd s new = (i : ℤ) → new i ≡ (if eqb_ℤ i fd then s else old i)

abbrev pub Same : Ledger → Ledger → Type 0
Same old new = (i : ℤ) → new i ≡ old i

abbrev pub NoneFree : Ledger → Type 0
NoneFree l = (i : ℤ) → l i ≢ free

-- The answers that a caller may get, and the ledger afterwards.
pub data Allowed {W : Type 0} (old : Ledger) (new : Ledger) : Call W → Answer → Type 0 where
  returned :
      (fd : ℤ)
      → old fd ≡ lent
      → Marks old fd free new
      → Allowed old new (put_back fd) (record { fd = fd; success = true })
  not_lent :
      (fd : ℤ)
      → old fd ≢ lent
      → Same old new
      → Allowed old new (put_back fd) (record { fd = fd; success = false })
  forgotten :
      (fd : ℤ)
      → Marks old fd unknown new
      → Allowed old new (forget fd) (record { fd = fd; success = true })
  reused :
      (w : W) (out_fd fd : ℤ)
      → old fd ≡ free
      → Marks old fd lent new
      → Allowed old new (ask w out_fd) (record { fd = fd; success = true })
  opened :
      (w : W) (out_fd fd : ℤ)
      → NoneFree old
      → old fd ≢ lent
      → Marks old fd lent new
      → Allowed old new (ask w out_fd) (record { fd = fd; success = true })
  refused :
      (w : W) (out_fd : ℤ)
      → NoneFree old
      → Same old new
      → Allowed old new (ask w out_fd) (record { fd = out_fd; success = false })

-- A history of calls with their answers, each allowed by the ledger that the ones before leave.
abbrev pub History : {W : Type 0} → Ledger → List (Call W × Answer) → Ledger → Type 0
History first [] last = Same first last
History first ((c, a) ∷ h) last = (next : Ledger) × Allowed first next c a × History next h last

module _ (os : Os) where
  open os use {World}

  -- One call of the pool.
  unfoldable pub call : SocketPool → Call World → SocketPool × Answer
  call p (put_back fd) = ((put p fd).0, record { fd = fd; success = (put p fd).1 })
  call p (forget fd) = ((del p fd).0, record { fd = fd; success = (del p fd).1 })
  call p (ask w out_fd) =
      let g = get os w p out_fd in (g.pool, record { fd = g.fd; success = g.success })

  -- The calls in order, each in its own world.
  unfoldable pub calls : SocketPool → List (Call World) → SocketPool × List (Call World × Answer)
  calls p [] = (p, [])
  calls p (c ∷ cs) = let (p', a) = call p c in let (p'', h) = calls p' cs in (p'', (c, a) ∷ h)
