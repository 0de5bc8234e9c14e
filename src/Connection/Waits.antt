-- ===== src/Connection/Waits.antt =====
-- exec() of a connection as the body of a coroutine: what it yields and which descriptors it watches.
use libstutter.Common.{◌≡◌, ◌≢◌, refl, List, [], ◌∷◌, ◌++◌, All}
use libstutter.Common.Int.{ℤ, pos}
use libstutter.Os.{Os}
use libstutter.Io.{Strategy, Need, need_read, need_write, halt, yielding}
use libstutter.Connection.Keeps.{Keeps}

-- The waits so far, the last of them at the end.
abbrev pub Trace : Type 0
Trace = List (Need × ℤ)

-- A call that is not a wait.
abbrev pub aside : {W B : Type 0} → W × B → Trace → (W × Trace) × B
aside (w, b) t = ((w, t), b)

abbrev pub aside_two : {W B C : Type 0} → W × B × C → Trace → (W × Trace) × B × C
aside_two (w, b, c) t = ((w, t), b, c)

-- The same system, with the waits as a part of its world.
abbrev pub traced : Os → Os
traced os = record {
  World = os.World × Trace;
  Addr = os.Addr;
  read = λ s fd sz. aside (os.read s.0 fd sz) s.1;
  write = λ s fd p. aside (os.write s.0 fd p) s.1;
  sendfile =
      λ s out_fd in_fd offset count. aside_two (os.sendfile s.0 out_fd in_fd offset count) s.1;
  close = λ s fd. (os.close s.0 fd, s.1);
  dup = λ s fd. aside (os.dup s.0 fd) s.1;
  mkstemp = λ s template. aside_two (os.mkstemp s.0 template) s.1;
  open_read = λ s name. aside (os.open_read s.0 name) s.1;
  fstat = λ s fd. aside (os.fstat s.0 fd) s.1;
  unlink = λ s name. (os.unlink s.0 name, s.1);
  socket = λ s. aside (os.socket s.0) s.1;
  set_nonblock = λ s fd. aside (os.set_nonblock s.0 fd) s.1;
  reuse_addr = λ s fd. aside (os.reuse_addr s.0 fd) s.1;
  bind = λ s fd host port. aside (os.bind s.0 fd host port) s.1;
  listen = λ s fd. aside (os.listen s.0 fd) s.1;
  accept = λ s fd. aside (os.accept s.0 fd) s.1;
  getaddrinfo = λ s host. aside_two (os.getaddrinfo s.0 host) s.1;
  connect = λ s fd addr port. aside (os.connect s.0 fd addr port) s.1;
  event_add = λ s fd for_write. aside (os.event_add s.0 fd for_write) s.1;
  event_add_listener = λ s fd. aside (os.event_add_listener s.0 fd) s.1;
  getpwnam = λ s name. aside (os.getpwnam s.0 name) s.1;
  getgrnam = λ s name. aside (os.getgrnam s.0 name) s.1;
  setuid = λ s uid. aside (os.setuid s.0 uid) s.1;
  setgid = λ s gid. aside (os.setgid s.0 gid) s.1;
  ignore_sigpipe = λ s. (os.ignore_sigpipe s.0, s.1);
  fork = λ s. aside (os.fork s.0) s.1;
  setsid = λ s. (os.setsid s.0, s.1);
  open_null = λ s. aside (os.open_null s.0) s.1;
  dup2 = λ s fd target. (os.dup2 s.0 fd target, s.1);
}

-- watch_fd(fd) and yield(need), while the rest of the program and of the world does `others`.
abbrev pub logged :
    (os : Os) → (os.World → Need → ℤ → os.World) → os.World × Trace → Need → ℤ → os.World × Trace
logged os others (w, t) need fd = (others w need fd, t ++ (need, fd) ∷ [])

-- The strategy of a connection of the server.
unfoldable pub waiting_io : (os : Os) → (os.World → Need → ℤ → os.World) → Strategy (traced os)
unfolding yielding
waiting_io os others = yielding (traced os) (logged os others)

abbrev pub need_code : Need → ℤ
need_code need_read = pos 0
need_code need_write = pos 1
need_code halt = pos 2

-- A wait for READ or WRITE on `fd`.
abbrev pub IsOwn : ℤ → Need × ℤ → Type 0
IsOwn fd (need, watched) = (need ≢ halt) × (watched ≡ fd)

abbrev pub AllOwn : (os : Os) → ℤ → os.World × Trace → Type 0
AllOwn os fd (w, t) = All (IsOwn fd) t

All-snoc : {A : Type 0} (P : A → Type 0) (t : List A) (x : A) → All P t → P x → All P (t ++ x ∷ [])
All-snoc P [] x a p = (p, tt)
All-snoc P (y ∷ t) x a p = (a.0, All-snoc P t x a.1 p)

module _ (os : Os) (others : os.World → Need → ℤ → os.World) where
  pub waits-Keeps : (fd : ℤ) → Keeps (traced os) (waiting_io os others) fd (AllOwn os fd)
  unfolding waiting_io yielding
  waits-Keeps fd = record {
    keeps_write = λ s out p a. a;
    keeps_mkstemp = λ s t a. a;
    keeps_close = λ s out a. a;
    keeps_unlink = λ s name a. a;
    keeps_read = λ s n a. All-snoc (IsOwn fd) s.1 (need_read, fd) a ((λ e. cc), refl);
    keeps_safe_write = λ s p a. All-snoc (IsOwn fd) s.1 (need_write, fd) a ((λ e. cc), refl);
    keeps_sendfile =
        λ s in_fd offset count a. All-snoc (IsOwn fd) s.1 (need_write, fd) a ((λ e. cc), refl);
  }
