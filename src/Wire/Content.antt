-- ===== src/Wire/Content.antt =====
-- What the headers and the body of a message come to.
use libstutter.Common.{
  ℕ, zero, suc, length, drop, true, arith, ◌⊎◌, inl, inr, Bool-cases, ◌≡◌, refl, sym, ap, ◌∙◌, List,
  [], ◌∷◌, ◌++◌, map, append_assoc, append-nil,
}
use mathlib.Core.Path.{subst}
use libstutter.Common.Bytes.{Bytes, fold_case}
use libstutter.OrderedMap.Laws.{IsSorted, assign_last}
use libstutter.Common.Int.{is_pos, pos_part, minus_one}
use libstutter.Body
use libstutter.Body.{
  Body, buffer_in_memory, buffer_on_disk, create_file, write_file, tmp_file_template,
}
use libstutter.Body.Invariant.{IsBody}
use libstutter.Body.Content.{FileLaws, IsSpilled, stored}
use libstutter.Message.{Message, Headers, add_header, add_body, add_rest}
use libstutter.Message.Laws.{HasFile, Works, add_body-Stored, add_body_all}
use libstutter.Os.{Os}
use libstutter.Parser.{
  Parser, Target, request, response, Event, on_body, msg, add_body_fragment, handle_event, run,
}
use libstutter.Parser.Headers.{concat}
use libstutter.Wire.{with_header, with_headers, set_headers, set_body}
use libstutter.Wire.Pieces.{at_name}

set_headers_self : (t : Target) → set_headers t (msg t).headers ≡ t
set_headers_self (request r) = refl
set_headers_self (response r) = refl

set_headers_twice :
    (t : Target) (hs hs' : Headers) → set_headers (set_headers t hs) hs' ≡ set_headers t hs'
set_headers_twice (request r) hs hs' = refl
set_headers_twice (response r) hs hs' = refl

headers-set_headers : (t : Target) (hs : Headers) → (msg (set_headers t hs)).headers ≡ hs
headers-set_headers (request r) hs = refl
headers-set_headers (response r) hs = refl

with_header_last :
    (t : Target) (key val : Bytes) (rest : Headers)
    → IsSorted fold_case ((msg t).headers ++ (key, val) ∷ rest)
    → with_header t (key, val) ≡ set_headers t ((msg t).headers ++ (key, val) ∷ [])
unfolding add_header
with_header_last t key val rest s =
    ap (λ hs. set_headers t hs) (assign_last fold_case key val (msg t).headers rest s)

-- Headers that continue those of the message in the order of the map are appended to them.
pub with_headers_sorted :
    (t : Target) (hs : Headers)
    → IsSorted fold_case ((msg t).headers ++ hs)
    → with_headers t hs ≡ set_headers t ((msg t).headers ++ hs)
with_headers_sorted t [] s = sym (ap (set_headers t) (append-nil _) ∙ set_headers_self t)
with_headers_sorted t ((key, val) ∷ hs) s =
    let t' = set_headers t ((msg t).headers ++ (key, val) ∷ []) in
    let e : (msg t').headers ++ hs ≡ (msg t).headers ++ (key, val) ∷ hs =
      ap (λ h. h ++ hs) (headers-set_headers t _)
      ∙ append_assoc (msg t).headers ((key, val) ∷ []) hs in
    ap (λ u. with_headers u hs) (with_header_last t key val hs s)
    ∙ with_headers_sorted t' hs (subst (IsSorted fold_case) (sym e) s)
    ∙ ap (set_headers t') e
    ∙ set_headers_twice t _ _

pub body-set_body : (t : Target) (b : Body) → (msg (set_body t b)).body ≡ b
body-set_body (request r) b = refl
body-set_body (response r) b = refl

pub set_body_twice : (t : Target) (b c : Body) → set_body (set_body t b) c ≡ set_body t c
set_body_twice (request r) b c = refl
set_body_twice (response r) b c = refl

pub set_body_self : (t : Target) → set_body t (msg t).body ≡ t
set_body_self (request r) = refl
set_body_self (response r) = refl

-- The body has a file of its own, or none.
abbrev pub IsTidy : Body → Type 0
IsTidy b = (is_pos b.fd ≡ true) ⊎ (b.fd ≡ minus_one)

module _ (os : Os) (works : Works os) where
  open os use {World}

  add-IsTidy : (w : World) (b : Body) (p : Bytes) → IsTidy b → IsTidy (Body.add os w b p).1
  unfolding Body.add buffer_on_disk create_file write_file buffer_in_memory
  add-IsTidy w b p t = ground (arith, (works.mkstemp_works w tmp_file_template).0)

  pub add_rest-IsTidy :
      (fuel : ℕ) (w : World) (b : Body) (p : Bytes) → IsTidy b → IsTidy (add_rest os fuel w b p).1
  unfolding add_rest
  add_rest-IsTidy zero w b p t = t
  add_rest-IsTidy (suc fuel) w b [] t = t
  add_rest-IsTidy (suc fuel) w b (c ∷ rest) t =
      let (w', b', added) = Body.add os w b (c ∷ rest) in
      let first = add-IsTidy w b (c ∷ rest) t in
      elim (Bool-cases (is_pos added)) [
        | inl taken ↦ rw taken (add_rest-IsTidy fuel w' b' (drop (pos_part added) (c ∷ rest)) first)
        | inr stopped ↦ rw stopped first
      ]

module _ (os : Os) (laws : FileLaws os) (works : Works os) where
  open os use {World}

  -- A body that a world holds, for some bytes.
  pub record Kept (w : World) (b : Body) (p : Bytes) : Type 0 where
    pub file : HasFile works w b
    pub content : stored os laws w b ≡ p
    pub valid : IsBody b
    pub spilled : IsSpilled b
    pub tidy : IsTidy b

  -- Bytes that are added to a message stand behind those of its body.
  pub add_body-Kept :
      (w : World) (m : Message) (at p : Bytes)
      → Kept w m.body p
      → Kept (add_body os w m at).0 (add_body os w m at).1.body (p ++ at)
  unfolding add_body
  add_body-Kept w m at p k =
      let (whole, valid, spilled) = add_body-Stored os laws w m at k.valid k.spilled in
      let (all, file) = add_body_all os works w m at k.valid k.file in
      let r = add_body os w m at in
      record {
        file = file;
        content =
            sym (append-nil _)
            ∙ ap (stored os laws r.0 r.1.body ++◌) (sym all)
            ∙ whole
            ∙ ap (λ q. q ++ at) k.content;
        valid = valid;
        spilled = spilled;
        tidy = add_rest-IsTidy os works (length at) w m.body at k.tidy;
      }

  piece :
      (w : World) (t : Target) (at p : Bytes)
      → Kept w (msg t).body p
      → (w' : World) × (b : Body) × (handle_event os w (at_name t []) (on_body at)
          ≡ (w', at_name (set_body t b) []))
        × Kept w' b (p ++ at)
  unfolding handle_event add_body_fragment add_body
  piece w (request q) at p k =
      let r = add_body os w q.message at in (r.0, r.1.body, refl, add_body-Kept w q.message at p k)
  piece w (response q) at p k =
      let r = add_body os w q.message at in (r.0, r.1.body, refl, add_body-Kept w q.message at p k)

  -- Every piece of the body is kept, in order.
  pub run-on_body :
      (w : World) (t : Target) (parts : List Bytes) (p : Bytes) (rest : List Event)
      → Kept w (msg t).body p
      → (w' : World) × (b : Body) × (run os w (at_name t []) (map on_body parts ++ rest)
          ≡ run os w' (at_name (set_body t b) []) rest)
        × Kept w' b (p ++ concat parts)
  unfolding run
  run-on_body w t [] p rest k = (
    w,
    (msg t).body,
    ap (λ u. run os w (at_name u []) rest) (sym (set_body_self t)),
    record {
      file = k.file;
      content = k.content ∙ sym (append-nil p);
      valid = k.valid;
      spilled = k.spilled;
      tidy = k.tidy;
    },
  )
  run-on_body w t (at ∷ parts) p rest k =
      let (w₁, b₁, first, k₁) = piece w t at p k in
      let (w₂, b₂, later, k₂) =
        run-on_body w₁ (set_body t b₁) parts (p ++ at) rest
          (subst (λ b. Kept w₁ b (p ++ at)) (sym (body-set_body t b₁)) k₁) in
      (
        w₂,
        b₂,
        ap (λ (s : World × Parser). run os s.0 s.1 (map on_body parts ++ rest)) first
            ∙ later
            ∙ ap (λ u. run os w₂ (at_name u []) rest) (set_body_twice t b₁ b₂),
        record {
          file = k₂.file;
          content = k₂.content ∙ append_assoc p at (concat parts);
          valid = k₂.valid;
          spilled = k₂.spilled;
          tidy = k₂.tidy;
        },
      )
