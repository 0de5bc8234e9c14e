-- ===== src/Message/Laws.antt =====
-- Headers and body of a message.
use libstutter.Common.{
  ℕ, zero, suc, ◌≤◌, ◌<◌, ◌≡◌, refl, sym, ap, ◌∙◌, Bool, true, false, [], ◌∷◌, ◌++◌, arith, length,
  length-drop_lt, take, drop, take-append-drop, if◌then◌else◌, append_assoc, append-nil, Bool-cases,
  Option-cases, none, inl, inr,
}
use libstutter.Common.Int.{ℤ, pos, negsuc, is_pos, pos_part, pos_part-is_pos}
use libstutter.Common.Bytes.{Bytes, fold_case, eq_bytes, eq_bytes→eq}
use libstutter.OrderedMap.{find}
use libstutter.OrderedMap.Laws.{
  IsSorted, find-assign, find-erase, find_same, assign-IsSorted, erase-IsSorted,
}
use libstutter.Body
use libstutter.Body.{
  Body, buffer_in_memory, buffer_on_disk, create_file, write_file, tmp_file_template,
}
use libstutter.Body.Invariant.{IsBody, add-IsBody}
use libstutter.Body.Content.{FileLaws, IsSpilled, stored, add-Took}
use libstutter.Os.{Os}
use libstutter.Message.{Message, add_header, get_header, del_header, add_rest, add_body}

-- Two header names that strcasecmp does not tell apart.
abbrev pub same_name : Bytes → Bytes → Bool
same_name key name = eq_bytes (fold_case key) (fold_case name)

-- A header is found under every spelling of its name, with the value that was set last; the other
-- headers stay.
pub get_header-add_header :
    (m : Message) (key val name : Bytes)
    → get_header (add_header m key val) name
      ≡ (if same_name key name then val else get_header m name)
unfolding get_header add_header
get_header-add_header m key val name =
    rw (find-assign fold_case key val name m.headers) (ground arith)

-- The headers are in the order of `nocase_less`, each name once.
abbrev pub HasSortedHeaders : Message → Type 0
HasSortedHeaders m = IsSorted fold_case m.headers

pub add_header-HasSortedHeaders :
    (m : Message) (key val : Bytes) → HasSortedHeaders m → HasSortedHeaders (add_header m key val)
unfolding add_header
add_header-HasSortedHeaders m key val s = assign-IsSorted fold_case key val m.headers s

pub del_header-HasSortedHeaders :
    (m : Message) (key : Bytes) → HasSortedHeaders m → HasSortedHeaders (del_header m key).0
unfolding del_header
del_header-HasSortedHeaders m key s = ground (arith, erase-IsSorted fold_case key m.headers s)

find-del_header :
    (m : Message) (key name : Bytes)
    → HasSortedHeaders m
    → find fold_case name (del_header m key).0.headers
      ≡ (if same_name key name then none else find fold_case name m.headers)
unfolding del_header
find-del_header m key name s = elim (Option-cases (find fold_case key m.headers)) [
  | inl missing ↦
      rw (missing, del_header)
        (elim (Bool-cases (same_name key name)) [
          | inl same ↦
              rw same
                (sym (find_same fold_case key name m.headers (eq_bytes→eq _ _ same)) ∙ missing)
          | inr other ↦ rw other
        ])
  | inr (val, found) ↦ rw (found, del_header) (find-erase fold_case key name m.headers s)
]

-- In a map of headers that is in order: a deleted header is gone under every spelling of its name,
-- and the other headers stay.
pub get_header-del_header :
    (m : Message) (key name : Bytes)
    → HasSortedHeaders m
    → get_header (del_header m key).0 name ≡ (if same_name key name then [] else get_header m name)
unfolding get_header
get_header-del_header m key name s = rw (find-del_header m key name s) (ground arith)

module _ (os : Os) (laws : FileLaws os) where
  open os use {World}

  -- The bytes that a loop has put away and those that it has left are those that it was given.
  pub record Stored (w : World) (b : Body) (p : Bytes) (r : World × Body × Bytes) : Type 0 where
    pub whole : stored os laws r.0 r.1 ++ r.2 ≡ stored os laws w b ++ p
    pub valid : IsBody r.1
    pub spilled : IsSpilled r.1

  continued :
      (w : World) (b : Body) (p : Bytes) (w' : World) (b' : Body) (n : ℕ)
      → stored os laws w' b' ≡ stored os laws w b ++ take n p
      → (r : World × Body × Bytes) → Stored w' b' (drop n p) r
      → Stored w b p r
  continued w b p w' b' n grown r s = record {
    whole =
        s.whole
        ∙ ap (λ t. t ++ drop n p) grown
        ∙ append_assoc (stored os laws w b) (take n p) (drop n p)
        ∙ ap (◌++◌ (stored os laws w b)) (take-append-drop n p);
    valid = s.valid;
    spilled = s.spilled;
  }

  unchanged :
      (w : World) (b : Body) (p : Bytes) (n : ℤ)
      → is_pos n ≡ false
      → stored os laws w b ++ take (pos_part n) p ≡ stored os laws w b
  unchanged w b p (pos zero) h = append-nil _
  unchanged w b p (pos (suc n)) h = absurd (ground arith)
  unchanged w b p (negsuc n) h = append-nil _

  add_rest-Stored :
      (fuel : ℕ) (w : World) (b : Body) (p : Bytes)
      → IsBody b
      → IsSpilled b
      → Stored w b p (add_rest os fuel w b p)
  unfolding add_rest
  add_rest-Stored zero w b p v s = record { whole = refl; valid = v; spilled = s }
  add_rest-Stored (suc fuel) w b [] v s = record { whole = refl; valid = v; spilled = s }
  add_rest-Stored (suc fuel) w b (c ∷ rest) v s =
      let added = Body.add os w b (c ∷ rest) in
      let took = add-Took os laws w b (c ∷ rest) v s in
      let valid = add-IsBody os w b (c ∷ rest) v in
      elim (Bool-cases (is_pos added.2)) [
        | inl more ↦ rw more (
            continued w b (c ∷ rest) added.0 added.1 (pos_part added.2) took.grown _ (
              add_rest-Stored fuel added.0 added.1 (drop (pos_part added.2) (c ∷ rest)) valid
                took.spilled))
        | inr stopped ↦ rw stopped record {
          whole =
              rw took.grown (ap (λ t. t ++ c ∷ rest) (unchanged w b (c ∷ rest) added.2 stopped));
          valid = valid;
          spilled = took.spilled;
        }
      ]

  -- For a well-formed body made by add() alone, on a file system where a write appends what it
  -- counts: every byte given to add_body() is either in the body, in order behind what was there,
  -- or among those that the loop gave up on, and the body stays such a body.
  pub add_body-Stored :
      (w : World) (m : Message) (p : Bytes)
      → IsBody m.body
      → IsSpilled m.body
      → let (w', m', left) = add_body os w m p in
        (stored os laws w' m'.body ++ left ≡ stored os laws w m.body ++ p)
        × IsBody m'.body
        × IsSpilled m'.body
  unfolding add_body
  add_body-Stored w m p v s =
      let r = add_rest-Stored (length p) w m.body p v s in (r.whole, r.valid, r.spilled)

-- The disk takes what it is given: mkstemp() makes a file, and write() on such a file accepts a byte
-- or more and leaves it open. Nothing is said of other descriptors.
pub record Works (os : Os) : Type 0 where
  pub is_open : os.World → ℤ → Bool
  pub mkstemp_works :
      (w : os.World) (template : Bytes)
      → let (w', fd, name) = os.mkstemp w template in (is_pos fd ≡ true) × (is_open w' fd ≡ true)
  pub write_works :
      (w : os.World) (fd : ℤ) (c : ℕ) (rest : Bytes)
      → is_open w fd ≡ true
      → (is_pos (os.write w fd (c ∷ rest)).1 ≡ true)
        × (is_open (os.write w fd (c ∷ rest)).0 fd ≡ true)

-- The file of the body, if it has one, is open.
abbrev pub HasFile : {os : Os} → Works os → os.World → Body → Type 0
HasFile works w b = is_pos b.fd ≡ true → works.is_open w b.fd ≡ true

module _ (os : Os) (works : Works os) where
  open os use {World}

  buffer_in_memory-pos :
      (b : Body) (c : ℕ) (rest : Bytes)
      → length b.memory < 8192
      → is_pos (buffer_in_memory b (c ∷ rest)).1 ≡ true
  unfolding buffer_in_memory
  buffer_in_memory-pos b c rest room = ground arith

  add-pos :
      (w : World) (b : Body) (c : ℕ) (rest : Bytes)
      → IsBody b
      → HasFile works w b
      → is_pos (Body.add os w b (c ∷ rest)).2 ≡ true
  unfolding Body.add buffer_on_disk create_file write_file
  add-pos w b c rest v file = ground (
    arith,
    buffer_in_memory-pos b c rest,
    works.mkstemp_works w tmp_file_template,
    works.write_works w b.fd c rest,
    works.write_works (os.mkstemp w tmp_file_template).0 (os.mkstemp w tmp_file_template).1 c rest,
  )

  add-HasFile :
      (w : World) (b : Body) (c : ℕ) (rest : Bytes)
      → HasFile works w b
      → let (w', b', added) = Body.add os w b (c ∷ rest) in HasFile works w' b'
  unfolding Body.add buffer_on_disk create_file write_file buffer_in_memory
  add-HasFile w b c rest file = ground (
    arith,
    works.mkstemp_works w tmp_file_template,
    works.write_works w b.fd c rest,
    works.write_works (os.mkstemp w tmp_file_template).0 (os.mkstemp w tmp_file_template).1 c rest,
  )

  add_rest_all :
      (fuel : ℕ) (w : World) (b : Body) (p : Bytes)
      → IsBody b
      → HasFile works w b
      → length p ≤ fuel
      → let (w', b', left) = add_rest os fuel w b p in (left ≡ []) × HasFile works w' b'
  unfolding add_rest
  add_rest_all zero w b [] v file h = (refl, file)
  add_rest_all zero w b (c ∷ rest) v file h = absurd (omega arith)
  add_rest_all (suc fuel) w b [] v file h = (refl, file)
  add_rest_all (suc fuel) w b (c ∷ rest) v file h =
      let added = Body.add os w b (c ∷ rest) in
      let taken = add-pos w b c rest v file in
      rw taken (
        add_rest_all fuel added.0 added.1 (drop (pos_part added.2) (c ∷ rest))
          (add-IsBody os w b (c ∷ rest) v) (add-HasFile w b c rest file)
          (length-drop_lt (pos_part added.2) c rest fuel (pos_part-is_pos added.2 taken) h))

  -- When mkstemp() succeeds and every write of one byte or more to the file of the body takes a byte
  -- or more, the loop of add_body() ends with nothing left, for a well-formed body, and the file of the
  -- body stays open.
  pub add_body_all :
      (w : World) (m : Message) (p : Bytes)
      → IsBody m.body
      → HasFile works w m.body
      → let (w', m', left) = add_body os w m p in (left ≡ []) × HasFile works w' m'.body
  unfolding add_body
  add_body_all w m p v file = add_rest_all (length p) w m.body p v file (omega arith)
