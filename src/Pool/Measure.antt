-- ===== src/Pool/Measure.antt =====
-- A measure of the world that the calls of a pool do not raise.
use libstutter.Common.{ℕ, ◌≤◌, ◌≡◌, refl, List, [], ◌∷◌, arith}
use libstutter.Common.Int.{ℤ}
use libstutter.Common.Bytes.{Bytes}
use libstutter.Os.{Os}
use libstutter.Pool.{SocketPool, dial, connect, get}

module _ (os : Os) (left : os.World → ℕ)
    (socket_keeps : (w : os.World) → left (os.socket w).0 ≤ left w)
    (set_nonblock_keeps : (w : os.World) (fd : ℤ) → left (os.set_nonblock w fd).0 ≤ left w)
    (getaddrinfo_keeps : (w : os.World) (host : Bytes) → left (os.getaddrinfo w host).0 ≤ left w)
    (connect_keeps : (w : os.World) (fd : ℤ) (addr : os.Addr) (port : ℤ)
      → left (os.connect w fd addr port).0 ≤ left w) where
  open os use {World}

  dial-left :
      (w : World) (p : SocketPool) (out_fd fd : ℤ) (info : List os.Addr)
      → left (dial os w p out_fd fd info).world ≤ left w
  unfolding dial
  dial-left w p out_fd fd [] = omega arith
  dial-left w p out_fd fd (ai ∷ more) = ground (arith, connect_keeps w fd ai p.port)

  connect-left :
      (w : World) (p : SocketPool) (out_fd : ℤ) → left (connect os w p out_fd).world ≤ left w
  unfolding connect
  connect-left w p out_fd =
      let (w₁, fd) = os.socket w in
      let w₂ = (os.set_nonblock w₁ fd).0 in
      let (w₃, ret, info) = os.getaddrinfo w₂ p.host in
      ground (
        arith,
        socket_keeps w,
        set_nonblock_keeps w₁ fd,
        getaddrinfo_keeps w₂ p.host,
        dial-left w₃ p out_fd fd info,
      )

  pub get-left : (w : World) (p : SocketPool) (out_fd : ℤ) → left (get os w p out_fd).world ≤ left w
  unfolding get
  get-left w p out_fd = go p.avail refl
    where
      go : (s : List ℤ) → p.avail ≡ s → left (get os w p out_fd).world ≤ left w
      go [] e = rw (e, get) (ground (arith, connect-left w p out_fd))
      go (fd ∷ rest) e = rw (e, get) (omega arith)
