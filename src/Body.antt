-- ===== src/Body.antt =====
-- stutter/http/body.cpp: a message body, its first MAX_BUFFER_SIZE bytes in memory and the rest in
-- a temporary file; or a file on disk. Sizes stay below 2^64.
pub mod Invariant
pub mod Content
use mathlib.Core.Option
use libstutter.Common.{
  ℕ, ◌+◌, ◌-◌, ◌==◌, Bool, true, false, List, [], ◌++◌, Option, none, some, ltb, length, take,
  if◌then◌else◌,
}
use libstutter.Common.Int.{ℤ, pos, minus_one, is_pos, is_neg, pos_part}
use libstutter.Common.Bytes.{Bytes, codes}
use libstutter.Os.{Os}

abbrev pub max_buffer_size : ℕ
max_buffer_size = 8192

abbrev pub tmp_file_template : Bytes
tmp_file_template = codes "/tmp/body-XXXXXX"

-- `memory` is the vector m_data.
pub record Body : Type 0 where
  pub memory : Bytes
  pub filename : Bytes
  pub fd : ℤ
  pub size : ℕ
  pub unlinks : Bool

-- Body().
abbrev pub new_body : Body
new_body = record { memory = []; filename = []; fd = minus_one; size = 0; unlinks = false }

-- The part of the body that is on disk.
unfoldable pub size_on_disk : Body → ℕ
size_on_disk b = b.size - length b.memory

unfoldable pub buffer_in_memory : Body → Bytes → Body × ℤ
buffer_in_memory b p =
    let avail = max_buffer_size - length b.memory in
    let insert = if ltb avail (length p) then avail else length p in
    (record b { memory = b.memory ++ take insert p; size = b.size + insert }, pos insert)

module _ (os : Os) where
  open os use {World}

  -- Body(const Body &): the copy shares the file through a descriptor of its own.
  unfoldable pub copy : World → Body → World × Body
  copy w b = let (w', fd) = os.dup w b.fd in (w', record b { fd = fd; unlinks = false })

  unfoldable pub clear : World → Body → World × Body
  clear w b =
      let w₁ = if is_pos b.fd then os.close w b.fd else w in
      let w₂ = if b.unlinks then os.unlink w₁ b.filename else w₁ in
      (
        w₂,
        record {
          memory = [];
          filename = [];
          fd = if is_pos b.fd then minus_one else b.fd;
          size = 0;
          unlinks = false;
        },
      )

  unfoldable pub create_file : World → Body → World × Body × Bool
  create_file w b =
      let (w', fd, name) = os.mkstemp w tmp_file_template in
      if is_pos b.fd
      then (w, b, true)
      else if is_pos fd
      then (w', record b { fd = fd; filename = name; unlinks = true }, true)
      else (w', record b { fd = fd }, false)

  unfoldable pub write_file : World → Body → Bytes → World × Body × ℤ
  write_file w b p =
      let (w', ret) = os.write w b.fd p in
      (w', record b { size = if is_pos ret then b.size + pos_part ret else b.size }, ret)

  unfoldable pub buffer_on_disk : World → Body → Bytes → World × Body × ℤ
  buffer_on_disk w b p =
      let (w', b', ready) = create_file w b in
      if ready then write_file w' b' p else (w', b', minus_one)

  -- The number of bytes taken, or a negative number.
  unfoldable pub add : World → Body → Bytes → World × Body × ℤ
  add w b p =
      if length b.memory == max_buffer_size
      then buffer_on_disk w b p
      else (w, (buffer_in_memory b p).0, (buffer_in_memory b p).1)

  unfoldable pub set_file : World → Body → Bytes → World × Body × Bool
  unfolding clear
  set_file w b name =
      let (w₁, fd) = os.open_read w name in
      let (w₂, cleared) = clear w₁ b in
      let (w₃, st) = os.fstat w₂ fd in
      if is_neg fd then (w₁, b, false) else (
        w₃,
        record cleared { fd = fd; filename = name; size = Option.get_or st cleared.size },
        true,
      )
