-- ===== src/PoolManager/Laws.antt =====
-- Pools by host and port.
use libstutter.Common.{◌≡◌, Option, some, Bool, if◌then◌else◌, arith}
use libstutter.Common.Int.{ℤ}
use libstutter.Common.Bytes.{Bytes, eq_bytes, eq_bytes_refl}
use libstutter.OrderedMap.{find, insert}
use libstutter.OrderedMap.Laws.{find-assign, find-insert}
use libstutter.Pool.{SocketPool, new_pool}
use libstutter.PoolManager.{PoolManager, pair_rank, key, get_pool, set_pool}

-- The pool that a manager holds for a host and a port.
abbrev pub pool_at : PoolManager → Bytes → ℤ → Option SocketPool
pool_at pm host port = find pair_rank (key host port) pm.pools

abbrev same_target : Bytes → ℤ → Bytes → ℤ → Bool
same_target h p h' p' = eq_bytes (pair_rank (key h p)) (pair_rank (key h' p'))

-- After get_pool the map holds the pool that it returned.
pub pool_at-get_pool :
    (pm : PoolManager) (host : Bytes) (port : ℤ)
    → pool_at (get_pool pm host port).0 host port ≡ some (get_pool pm host port).1
unfolding get_pool
pool_at-get_pool pm host port =
    rw
      (
        find-insert pair_rank (key host port) (new_pool host port) (key host port) pm.pools,
        eq_bytes_refl (pair_rank (key host port)),
      )
      (ground arith)

-- A client asks for the pool of a target and changes it through the reference: the manager then holds
-- the changed pool at that target, and at every other target what it held before.
pub pool_at-set_pool :
    (pm : PoolManager) (host : Bytes) (port : ℤ) (p : SocketPool) (host' : Bytes) (port' : ℤ)
    → pool_at (set_pool (get_pool pm host port).0 host port p) host' port'
      ≡ (if same_target host port host' port' then some p else pool_at pm host' port')
unfolding get_pool set_pool
pool_at-set_pool pm host port p host' port' =
    rw
      (
        find-assign pair_rank (key host port) p (key host' port')
            (insert pair_rank (key host port) (new_pool host port) pm.pools),
        find-insert pair_rank (key host port) (new_pool host port) (key host' port') pm.pools,
      )
      (ground arith)
