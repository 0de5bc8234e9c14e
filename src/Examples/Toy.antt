-- ===== src/Examples/Toy.antt =====
-- A small operating system whose world is the bytes that were written last: a write takes at most
-- four bytes, as does sendfile, and every file and socket is the same.
use libstutter.Common.{
  ℕ, suc, ◌+◌, ◌-◌, ◌≤◌, ◌<◌, ◌≡◌, refl, [], ◌∷◌, ◌++◌, some, arith, ltb, length, length-take, take,
  true, if◌then◌else◌,
}
use libstutter.Common.Int.{ℤ, pos, minus_one, eqb_ℤ}
use libstutter.Common.Bytes.{Bytes, codes}
use libstutter.Os.{Os, Read}
use libstutter.Client.{reply_buffer_size}
use libstutter.Client.Returns.{FiniteLaws}
use libstutter.Io.{Strategy, blocking}
use libstutter.Io.Stream.{StreamLaws}
use libstutter.Io.File.{SendfileLaws}
use libstutter.Body.Content.{FileLaws}
use libstutter.Message.Laws.{Works}

abbrev pub lesser : ℕ → ℕ → ℕ
lesser a b = if ltb a b then a else b

-- setgid after a setuid, which leaves a mark in the world.
abbrev pub toy_setgid : Bytes → ℕ → Bytes × ℤ
toy_setgid [] gid = ([], pos 0)
toy_setgid (c ∷ w) gid = (c ∷ w, minus_one)

abbrev pub toy_sendfile : Bytes → ℤ → ℤ → ℕ → ℕ → Bytes × ℤ × ℕ
toy_sendfile w out_fd in_fd offset count =
    let n = lesser 4 (lesser count (10 - offset)) in (w, pos n, offset + n)

abbrev pub toy : Os
toy = record {
  World = Bytes;
  Addr = Unit {0};
  read = λ w fd sz. (w, some (codes "GET"));
  write = λ w fd p. (w ++ take 4 p, pos (length (take 4 p)));
  sendfile = toy_sendfile;
  close = λ w fd. w;
  dup = λ w fd. (w, pos 8);
  mkstemp = λ w template. ([], pos 5, codes "/tmp/body-123456");
  open_read = λ w name. (w, pos 6);
  fstat = λ w fd. (w, some 10);
  unlink = λ w name. w;
  socket = λ w. (w, pos 9);
  set_nonblock = λ w fd. (w, pos 0);
  reuse_addr = λ w fd. (w, pos 0);
  bind = λ w fd host port. (w, pos 0);
  listen = λ w fd. (w, pos 0);
  accept = λ w fd. (w, pos 10);
  getaddrinfo = λ w host. (w, pos 0, tt ∷ []);
  connect = λ w fd addr port. (w, pos 0);
  event_add = λ w fd for_write. (w, minus_one);
  event_add_listener = λ w fd. (w, pos 0);
  getpwnam = λ w name. (w, some 1000);
  getgrnam = λ w name. (w, some 1000);
  setuid = λ w uid. (0 ∷ w, pos 0);
  setgid = toy_setgid;
  ignore_sigpipe = λ w. w;
  fork = λ w. (w, pos 0);
  setsid = λ w. w;
  open_null = λ w. (w, pos 3);
  dup2 = λ w fd target. w;
}

abbrev pub toy_io : Strategy toy
toy_io = blocking toy

abbrev pub sub_four : Bytes → ℕ
sub_four p = length (take 4 p)

pub sub_four_fits : (p : Bytes) → sub_four p ≤ length p
sub_four_fits p = omega (arith, length-take 4 p)

pub take-sub_four : (w p : Bytes) → w ++ take 4 p ≡ w ++ take (length (take 4 p)) p
take-sub_four w [] = refl
take-sub_four w (a ∷ []) = refl
take-sub_four w (a ∷ b ∷ []) = refl
take-sub_four w (a ∷ b ∷ c ∷ []) = refl
take-sub_four w (a ∷ b ∷ c ∷ d ∷ p) = refl

pub ltb-suc : (n : ℕ) → ltb 0 (suc n) ≡ true
ltb-suc n = ground arith

pub lesser_fits :
    (a b offset : ℕ) → (lesser a (lesser b offset) ≤ b) × (lesser a (lesser b offset) ≤ offset)
lesser_fits a b offset = ground arith

abbrev pub toy_stream : StreamLaws toy toy_io
unfolding blocking
toy_stream = record {
  sent = λ w fd. w;
  write_sends = λ w fd p. (sub_four_fits p, take-sub_four w p);
}

abbrev pub toy_file : FileLaws toy
toy_file = record {
  content = λ w fd. w;
  write_appends = λ w fd p. (sub_four_fits p, take-sub_four w p);
  mkstemp_new = λ w template. refl;
}

abbrev pub toy_works : Works toy
toy_works = record {
  is_open = λ w fd. eqb_ℤ fd (pos 5);
  mkstemp_works = λ w template. (refl, refl);
  write_works = λ w fd c rest open_now. (ltb-suc (length (take 3 rest)), open_now);
}

abbrev pub toy_disk : SendfileLaws toy toy_io
unfolding blocking
toy_disk = record {
  file_size = λ fd. 10;
  within = λ w out_fd in_fd offset count.
      ((lesser_fits 4 count (10 - offset)).0, (lesser_fits 4 count (10 - offset)).1, refl);
}

-- The same system with a stream that ends: the world is what is still to come, a byte for each read.
abbrev pub finite_read : Bytes → ℤ → ℕ → Bytes × Read
finite_read [] fd sz = ([], some [])
finite_read (c ∷ w) fd sz = (w, some (c ∷ []))

abbrev pub finite : Os
finite = record toy { read = finite_read; write = λ w fd p. (w, pos (length (take 4 p))) }

abbrev pub finite_io : Strategy finite
finite_io = blocking finite

pub finite_read_takes :
    (w : Bytes) (fd : ℤ) (b : ℕ) (bytes : Bytes)
    → (finite_io.safe_read w fd reply_buffer_size).1 ≡ some (b ∷ bytes)
    → length (finite_io.safe_read w fd reply_buffer_size).0 < length w
unfolding blocking
finite_read_takes [] fd b bytes e = cc
finite_read_takes (c ∷ w) fd b bytes e = omega arith

unfoldable pub finite_laws : FiniteLaws finite finite_io
unfolding blocking
finite_laws = record {
  left = λ w. length w;
  read_takes = finite_read_takes;
  write_keeps = λ w fd p. omega arith;
  mkstemp_keeps = λ w t. omega arith;
  close_keeps = λ w fd. omega arith;
  unlink_keeps = λ w name. omega arith;
  socket_keeps = λ w. omega arith;
  set_nonblock_keeps = λ w fd. omega arith;
  getaddrinfo_keeps = λ w host. omega arith;
  connect_keeps = λ w fd addr port. omega arith;
  safe_write_keeps = λ w fd p. omega arith;
  safe_sendfile_keeps = λ w out_fd in_fd offset count. omega arith;
}
