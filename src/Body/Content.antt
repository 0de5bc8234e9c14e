-- ===== src/Body/Content.antt =====
-- The bytes that a body stands for: its buffer, then what its temporary file holds.
use libstutter.Common.{
  ℕ, ◌+◌, ◌-◌, ◌≤◌, ◌≡◌, sym, ◌∙◌, true, false, [], ◌++◌, arith, length, take, ltb, ◌==◌,
  Bool-cases, inl, inr, append_assoc, append-nil, if◌then◌else◌,
}
use libstutter.Common.Int.{ℤ, pos, is_pos, pos_part}
use libstutter.Common.Bytes.{Bytes}
use libstutter.Os.{Os}
use libstutter.Body.{
  Body, buffer_in_memory, create_file, write_file, buffer_on_disk, add, tmp_file_template,
}
use libstutter.Body.Invariant.{IsBody}

-- What POSIX says of files: a write appends the bytes that it counts and leaves the file alone if
-- it fails, and the file of mkstemp is new.
pub record FileLaws (os : Os) : Type 0 where
  pub content : os.World → ℤ → Bytes
  pub write_appends :
      (w : os.World) (fd : ℤ) (p : Bytes)
      → (pos_part (os.write w fd p).1 ≤ length p)
        × (content (os.write w fd p).0 fd ≡ content w fd ++ take (pos_part (os.write w fd p).1) p)
  pub mkstemp_new :
      (w : os.World) (template : Bytes)
      → content (os.mkstemp w template).0 (os.mkstemp w template).1 ≡ []

-- A body made by add() alone: it has a file only when the buffer is full.
abbrev pub IsSpilled : Body → Type 0
IsSpilled b = is_pos b.fd ≡ true → length b.memory ≡ 8192

module _ (os : Os) (laws : FileLaws os) where
  open os use {World}

  abbrev pub on_disk : World → Body → Bytes
  on_disk w b = if is_pos b.fd then laws.content w b.fd else []

  abbrev pub stored : World → Body → Bytes
  stored w b = b.memory ++ on_disk w b

  -- An add that took as many bytes of `p` as its result says, none if that is negative.
  pub record Took (w : World) (b : Body) (p : Bytes) (r : World × Body × ℤ) : Type 0 where
    pub fits : pos_part r.2 ≤ length p
    pub grown : stored r.0 r.1 ≡ stored w b ++ take (pos_part r.2) p
    pub spilled : IsSpilled r.1

  write_file-Took :
      (w : World) (b : Body) (p : Bytes)
      → length b.memory ≡ 8192
      → is_pos b.fd ≡ true
      → Took w b p (write_file os w b p)
  unfolding write_file
  write_file-Took w b p full file =
      let (fits, appended) = laws.write_appends w b.fd p in
      record {
        fits = fits;
        grown = rw (file, appended) (sym (append_assoc b.memory (laws.content w b.fd) _));
        spilled = λ _. full;
      }

  -- With the file at hand or made, a body stands for the same bytes as before.
  create_file-stored :
      (w : World) (b : Body)
      → let (w', b', ready) = create_file os w b in
        (stored w' b' ≡ stored w b) × (b'.memory ≡ b.memory) × (is_pos b'.fd ≡ ready)
  unfolding create_file
  create_file-stored w b = ground (arith, laws.mkstemp_new w tmp_file_template)

  later :
      (w : World) (b : Body) (w' : World) (b' : Body) (p : Bytes) (r : World × Body × ℤ)
      → stored w' b' ≡ stored w b
      → Took w' b' p r
      → Took w b p r
  later w b w' b' p r same t = record {
    fits = t.fits;
    grown = rw (← same) t.grown;
    spilled = t.spilled;
  }

  memory_grown :
      (w : World) (b : Body) (p : Bytes) (n : ℕ)
      → n ≤ length p
      → is_pos b.fd ≡ false
      → Took w b p (w, record b { memory = b.memory ++ take n p; size = b.size + n }, pos n)
  memory_grown w b p n fits no_file = record {
    fits = fits;
    grown = rw no_file (simp append-nil);
    spilled = λ h. cc;
  }

  buffer_on_disk-Took :
      (w : World) (b : Body) (p : Bytes)
      → length b.memory ≡ 8192
      → Took w b p (buffer_on_disk os w b p)
  unfolding buffer_on_disk
  buffer_on_disk-Took w b p full =
      let made = create_file os w b in
      let (same, kept, file) = create_file-stored w b in
      elim (Bool-cases made.2) [
        | inl ready ↦ rw ready (
            later w b made.0 made.1 p _ same
              (write_file-Took made.0 made.1 p (rw kept full) (file ∙ ready)))
        | inr refused ↦ rw refused record {
          fits = omega arith;
          grown = rw same (sym (append-nil _));
          spilled = λ h. rw kept full;
        }
      ]

  buffer_in_memory-Took :
      (w : World) (b : Body) (p : Bytes)
      → (length b.memory ≡ 8192 → ⊥)
      → IsBody b
      → IsSpilled b
      → Took w b p (w, (buffer_in_memory b p).0, (buffer_in_memory b p).1)
  unfolding buffer_in_memory
  buffer_in_memory-Took w b p room v s =
      elim (Bool-cases (ltb (8192 - length b.memory) (length p))) [
        | inl over ↦ rw over (memory_grown w b p _ (ground arith) no_file)
        | inr fits ↦ rw fits (memory_grown w b p _ (omega arith) no_file)
      ]
    where
      no_file : is_pos b.fd ≡ false
      no_file = ground arith

  -- For a well-formed body made by add() alone, on a file system where a write appends what it
  -- counts: add() appends to the bytes that the body stands for as many bytes of its argument as
  -- it reports, in memory or in the temporary file, and none when it fails.
  pub add-Took :
      (w : World) (b : Body) (p : Bytes) → IsBody b → IsSpilled b → Took w b p (add os w b p)
  unfolding add
  add-Took w b p v s = elim (Bool-cases (length b.memory == 8192)) [
    | inl full ↦ rw (full, add) (buffer_on_disk-Took w b p (ground arith))
    | inr room ↦ rw (room, add) (buffer_in_memory-Took w b p (ground arith) v s)
  ]
