-- ===== src/Body/Invariant.antt =====
-- What every operation keeps of a body.
use libstutter.Common.{
  ℕ, ◌+◌, ◌≤◌, ◌≡◌, refl, ◌≢◌, false, ◌++◌, arith, length, length-append, length-take, take, ltb,
  ◌-◌, Bool-cases, inl, inr,
}
use libstutter.Common.Int.{pos, is_pos}
use libstutter.Common.Bytes.{Bytes}
use libstutter.Os.{Os}
use libstutter.Body.{
  Body, new_body, buffer_in_memory, clear, create_file, write_file, buffer_on_disk, add, set_file,
}

-- The buffer stays within its limit, the size counts it, and a body without a file is all in it.
pub record IsBody (b : Body) : Type 0 where
  pub within : length b.memory ≤ 8192
  pub counted : length b.memory ≤ b.size
  pub all_in_memory : is_pos b.fd ≡ false → b.size ≡ length b.memory

pub new_body-IsBody : IsBody new_body
new_body-IsBody = record { within = omega arith; counted = omega arith; all_in_memory = λ h. refl }

grown-IsBody :
    (b : Body) (p : Bytes) (n : ℕ)
    → n ≤ length p
    → length b.memory + n ≤ 8192
    → IsBody b
    → IsBody (record b { memory = b.memory ++ take n p; size = b.size + n })
grown-IsBody b p n fits room v =
    let grown = length-append b.memory (take n p) in
    let taken = length-take n p in
    record {
      within = omega (arith, grown, taken);
      counted = omega (arith, grown, taken, v.counted);
      all_in_memory = λ h. omega (arith, grown, taken, v.all_in_memory h);
    }

pub buffer_in_memory-IsBody : (b : Body) (p : Bytes) → IsBody b → IsBody (buffer_in_memory b p).0
unfolding buffer_in_memory
buffer_in_memory-IsBody b p v = elim (Bool-cases (ltb (8192 - length b.memory) (length p))) [
  | inl over ↦
      rw over (grown-IsBody b p (8192 - length b.memory) (ground arith) (omega (arith, v.within)) v)
  | inr fits ↦ rw fits (grown-IsBody b p (length p) (omega arith) (ground arith) v)
]

module _ (os : Os) where
  open os use {World}

  pub clear-IsBody : (w : World) (b : Body) → IsBody (clear os w b).1
  unfolding clear
  clear-IsBody w b = ground arith

  buffer_on_disk-IsBody :
      (w : World) (b : Body) (p : Bytes) → IsBody b → IsBody (buffer_on_disk os w b p).1
  unfolding buffer_on_disk create_file write_file
  buffer_on_disk-IsBody w b p v = ground arith

  -- Adding bytes keeps a well-formed body well formed, whatever the system calls answer.
  pub add-IsBody : (w : World) (b : Body) (p : Bytes) → IsBody b → IsBody (add os w b p).1
  unfolding add
  add-IsBody w b p v = ground (arith, buffer_on_disk-IsBody w b p v, buffer_in_memory-IsBody b p v)

  pub set_file-IsBody :
      (w : World) (b : Body) (name : Bytes)
      → (os.open_read w name).1 ≢ pos 0
      → IsBody b
      → IsBody (set_file os w b name).1
  unfolding set_file
  set_file-IsBody w b name open_ne v = ground arith
