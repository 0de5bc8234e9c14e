-- ===== src/PoolManager.antt =====
-- PoolManager of stutter/pool.cpp: the process-wide map of pools.
pub mod Laws
use libstutter.Common.{ℕ, suc, ◌+◌, ◌-◌, List, [], ◌∷◌, ◌++◌, map, Option, none, some, Bool}
use libstutter.Common.Int.{ℤ, pos, negsuc}
use libstutter.Common.Bytes.{Bytes}
use libstutter.OrderedMap.{find, assign, insert}
use libstutter.Os.{Os}
use libstutter.Pool
use libstutter.Pool.{SocketPool, new_pool, Got}

-- std::pair<std::string, short>.
pub record HostPort : Type 0 where
  pub host : Bytes
  pub port : ℤ

-- A short, counted from SHRT_MIN.
abbrev short_rank : ℤ → ℕ
short_rank (pos n) = 32768 + n
short_rank (negsuc n) = 32767 - n

-- operator< on pairs: the host first, then the port. The 0 ends the host below every byte.
unfoldable pub pair_rank : HostPort → Bytes
pair_rank hp = map suc hp.host ++ 0 ∷ short_rank hp.port ∷ []

pub record PoolManager : Type 0 where
  pub pools : List (HostPort × SocketPool)

abbrev pub key : Bytes → ℤ → HostPort
key host port = record { host = host; port = port }

or_new : Option SocketPool → Bytes → ℤ → SocketPool
or_new none host port = new_pool host port
or_new (some p) host port = p

-- get_pool: the pool at (host, port), made at the first request. The reference that it returns is
-- the entry of the map; `set_pool` is a change made through it.
unfoldable pub get_pool : PoolManager → Bytes → ℤ → PoolManager × SocketPool
unfolding or_new new_pool
get_pool pm host port = (
  record { pools = insert pair_rank (key host port) (new_pool host port) pm.pools },
  or_new (find pair_rank (key host port) pm.pools) host port,
)

unfoldable pub set_pool : PoolManager → Bytes → ℤ → SocketPool → PoolManager
set_pool pm host port p = record { pools = assign pair_rank (key host port) p pm.pools }
