-- ===== src/Os.antt =====
-- The operating system, libevent and the user database, which the sources call and do not contain.
-- Each call takes the state of the world and returns it with the call's results; -1 is an error.
use libstutter.Common.{ℕ, Bool, List, Option}
use libstutter.Common.Int.{ℤ}
use libstutter.Common.Bytes.{Bytes}

-- What ::read gives: `none` for -1, else the bytes read, none of them at the end of the stream.
abbrev pub Read : Type 0
Read = Option Bytes

pub record Os : Type 1 where
  pub World : Type 0
  -- An address as getaddrinfo lists it.
  pub Addr : Type 0
  -- read(fd, p, sz), write(fd, p, sz).
  pub read : World → ℤ → ℕ → World × Read
  pub write : World → ℤ → Bytes → World × ℤ
  -- sendfile(out, in, &offset, count): the result, and the offset that the call leaves.
  pub sendfile : World → ℤ → ℤ → ℕ → ℕ → World × ℤ × ℕ
  pub close : World → ℤ → World
  pub dup : World → ℤ → World × ℤ
  -- mkstemp: the descriptor and the name made from the template.
  pub mkstemp : World → Bytes → World × ℤ × Bytes
  pub open_read : World → Bytes → World × ℤ
  -- fstat: the size, if the call succeeds.
  pub fstat : World → ℤ → World × Option ℕ
  pub unlink : World → Bytes → World
  pub socket : World → World × ℤ
  -- fcntl(fd, F_SETFD, O_NONBLOCK).
  pub set_nonblock : World → ℤ → World × ℤ
  pub reuse_addr : World → ℤ → World × ℤ
  pub bind : World → ℤ → Bytes → ℤ → World × ℤ
  pub listen : World → ℤ → World × ℤ
  pub accept : World → ℤ → World × ℤ
  pub getaddrinfo : World → Bytes → World × ℤ × List Addr
  pub connect : World → ℤ → Addr → ℤ → World × ℤ
  -- event_add for a descriptor, for writing or for reading, and the call that starts the loop's watch
  -- over the listening descriptor.
  pub event_add : World → ℤ → Bool → World × ℤ
  pub event_add_listener : World → ℤ → World × ℤ
  -- The user database: an id, if the name is known.
  pub getpwnam : World → Bytes → World × Option ℕ
  pub getgrnam : World → Bytes → World × Option ℕ
  pub setuid : World → ℕ → World × ℤ
  pub setgid : World → ℕ → World × ℤ
  pub ignore_sigpipe : World → World
  pub fork : World → World × ℤ
  pub setsid : World → World
  pub open_null : World → World × ℤ
  pub dup2 : World → ℤ → ℤ → World
