-- ===== src/Pool.antt =====
-- stutter/pool.cpp: the pool of connections to one server, and the pools by host and port.
pub mod Invariant
pub mod Measure
pub mod Lease
pub mod Ledger
pub mod Refinement
pub mod Exclusive
use libstutter.Common.{
  ℕ, suc, ◌+◌, ◌*◌, Bool, true, false, List, [], ◌∷◌, ◌++◌, Option, none, some, leb, length,
  if◌then◌else◌, map,
}
use libstutter.Common.Int.{ℤ, pos, negsuc, is_neg, eqb_ℤ}
use libstutter.Common.Bytes.{Bytes}
use libstutter.IntSet
use libstutter.Os.{Os}

abbrev pub max_pool_size : ℕ
max_pool_size = 1024

pub record SocketPool : Type 0 where
  pub host : Bytes
  pub port : ℤ
  pub avail : List ℤ
  pub taken : List ℤ

-- SocketPool(host, port).
unfoldable pub new_pool : Bytes → ℤ → SocketPool
new_pool host port = record { host = host; port = port; avail = []; taken = [] }

unfoldable pub put : SocketPool → ℤ → SocketPool × Bool
put p fd =
    if IntSet.contains fd p.taken
    then (record p { taken = IntSet.erase fd p.taken; avail = IntSet.insert fd p.avail }, true)
    else (p, false)

unfoldable pub del : SocketPool → ℤ → SocketPool × Bool
del p fd = (record p { taken = IntSet.erase fd p.taken; avail = IntSet.erase fd p.avail }, true)

module _ (os : Os) where
  open os use {World, Addr}

  -- What a call leaves: the world, the pool, the caller's descriptor and the success flag.
  pub record Got : Type 0 where
    pub world : World
    pub pool : SocketPool
    pub fd : ℤ
    pub success : Bool

  -- The steps of SocketPool::connect; a failure leaves the descriptor of the caller alone.
  refused : World → SocketPool → ℤ → Got
  refused w p out_fd = record { world = w; pool = p; fd = out_fd; success = false }

  -- The loop over the addresses ends by `break` in its first round.
  dial : World → SocketPool → ℤ → ℤ → List Addr → Got
  unfolding refused
  dial w p out_fd fd [] = refused w p out_fd
  dial w p out_fd fd (ai ∷ more) =
      let (w', ret) = os.connect w fd ai p.port in
      if eqb_ℤ ret (pos 0)
      then record {
        world = w';
        pool = record p { taken = IntSet.insert fd p.taken };
        fd = fd;
        success = true;
      }
      else refused w' p out_fd

  resolve : World → SocketPool → ℤ → ℤ → Got
  unfolding dial
  resolve w p out_fd fd =
      let (w', ret, info) = os.getaddrinfo w p.host in
      if is_neg ret then refused w' p out_fd else dial w' p out_fd fd info

  configure : World → SocketPool → ℤ → ℤ → Got
  unfolding resolve
  configure w p out_fd fd =
      let (w', ret) = os.set_nonblock w fd in
      if eqb_ℤ ret (pos 0) then resolve w' p out_fd fd else refused w' p out_fd

  unfoldable pub connect : World → SocketPool → ℤ → Got
  unfolding configure
  connect w p out_fd =
      let (w', fd) = os.socket w in
      if is_neg fd then refused w' p out_fd else configure w' p out_fd fd

  -- SocketPool::get: the smallest free descriptor, or a new connection under the limit.
  unfoldable pub get : World → SocketPool → ℤ → Got
  unfolding connect
  get w p out_fd = elim p.avail [
    | [] ↦ if leb max_pool_size (length p.taken) then refused w p out_fd else connect w p out_fd
    | fd ∷ rest ↦ record {
      world = w;
      pool = record p { avail = IntSet.erase fd p.avail; taken = IntSet.insert fd p.taken };
      fd = fd;
      success = true;
    }
  ]
