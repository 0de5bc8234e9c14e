-- ===== src/Io.antt =====
-- stutter/io: the strategies, and the two loops that send through them.
pub mod Stream
pub mod File
use libstutter.Common.{
  ℕ, zero, suc, ◌+◌, ◌-◌, Bool, true, false, List, [], ◌∷◌, length, drop, if◌then◌else◌,
}
use libstutter.Common.Int.{ℤ, is_pos, pos_part}
use libstutter.Common.Bytes.{Bytes}
use libstutter.Body.{Body, size_on_disk}
use libstutter.Os.{Os, Read}

-- What a coroutine waits for when it yields; `halt` ends it.
pub data Need : Type 0 where
  need_read need_write halt : Need

-- The virtual methods of IOStrategy.
pub record Strategy (os : Os) : Type 0 where
  pub safe_read : os.World → ℤ → ℕ → os.World × Read
  pub safe_write : os.World → ℤ → Bytes → os.World × ℤ
  pub safe_sendfile : os.World → ℤ → ℤ → ℕ → ℕ → os.World × ℤ × ℕ

-- BlockingIOStrategy: the system calls themselves.
unfoldable pub blocking : (os : Os) → Strategy os
blocking os = record { safe_read = os.read; safe_write = os.write; safe_sendfile = os.sendfile }

-- YieldingIOStrategy: watch the descriptor, give way to the event loop, and then make the call.
-- `suspend` is what the rest of the program and of the world does between the yield and the
-- resumption.
unfoldable pub yielding : (os : Os) → (os.World → Need → ℤ → os.World) → Strategy os
yielding os suspend = record {
  safe_read = λ w fd sz. os.read (suspend w need_read fd) fd sz;
  safe_write = λ w fd p. os.write (suspend w need_write fd) fd p;
  safe_sendfile = λ w out_fd in_fd offset count.
      os.sendfile (suspend w need_write out_fd) out_fd in_fd offset count;
}

module _ (os : Os) (io : Strategy os) where
  open os use {World}

  -- The loop of send_raw over the bytes that are left; each round sends one or more.
  unfoldable pub write_rest : ℕ → World → ℤ → Bytes → World × Bool
  write_rest zero w fd rest = (w, true)
  write_rest (suc fuel) w fd [] = (w, true)
  write_rest (suc fuel) w fd (c ∷ rest) =
      let (w', ret) = io.safe_write w fd (c ∷ rest) in
      let more = write_rest fuel w' fd (drop (pos_part ret) (c ∷ rest)) in
      if is_pos ret then more else (w', false)

  unfoldable pub send_raw : World → ℤ → Bytes → World × Bool
  unfolding write_rest
  send_raw w fd bytes = write_rest (length bytes) w fd bytes

  -- The loop of send_buffered_body. sendfile moves the offset, and the loop adds to it once more.
  unfoldable pub sendfile_rest : ℕ → World → ℤ → ℤ → ℕ → ℕ → World × Bool
  sendfile_rest zero w out_fd in_fd offset remain = (w, true)
  sendfile_rest (suc fuel) w out_fd in_fd offset zero = (w, true)
  sendfile_rest (suc fuel) w out_fd in_fd offset (suc remain) =
      let (w', sent, moved) = io.safe_sendfile w out_fd in_fd offset (suc remain) in
      let more =
        sendfile_rest fuel w' out_fd in_fd (moved + pos_part sent) (suc remain - pos_part sent) in
      if is_pos sent then more else (w', false)

  unfoldable pub send_buffered_body : World → ℤ → Body → World × Bool
  unfolding sendfile_rest
  send_buffered_body w out_fd body =
      if is_pos body.fd
      then sendfile_rest (size_on_disk body) w out_fd body.fd 0 (size_on_disk body)
      else (w, true)
