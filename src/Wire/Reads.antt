-- ===== src/Wire/Reads.antt =====
-- A message that arrives in several reads. Between two of them the rest of the world goes on, and
-- leaves the file of the body that is being received alone; the parser then ends as if there had been one read.
use libstutter.Common.{
  false, true, ◌≢◌, ◌≡◌, refl, sym, ap, ◌∙◌, true, List, [], ◌∷◌, ◌++◌, arith, if◌then◌else◌,
  Bool-cases, inl, inr,
}
use mathlib.Core.Path.{subst}
use libstutter.Common.Int.{is_pos}
use libstutter.Common.Bytes.{Bytes}
use libstutter.Os.{Os}
use libstutter.Body.{Body}
use libstutter.Body.Content.{FileLaws, stored}
use libstutter.Message.{add_body}
use libstutter.Message.Laws.{Works}
use libstutter.Parser.{
  Parser, Target, request, response, Event, on_url, on_header_field, on_header_value, on_body,
  on_headers_complete, on_message_complete, handle_event, run, add_url_fragment, url_fragment,
  save_last_header, flush_header, check_request, complete, is_too_large, msg, set_msg,
  add_body_fragment, too_large, wants_100,
}
use libstutter.Message.{add_header, get_header}
use libstutter.Parser.{Head}
use libstutter.Wire.{set_body}
use libstutter.Wire.Content.{Kept, add_body-Kept, body-set_body, set_body_twice}

-- The same parser with another body.
abbrev pub with_body : Parser → Body → Parser
with_body q b = record q { target = set_body q.target b }

-- What a call does to a parser but for the body.
unfoldable pub rest_of_event : Parser → Event → Parser
rest_of_event p (on_url at) = add_url_fragment p at
rest_of_event p (on_header_field at) =
    let p' = save_last_header p in record p' { header_key = p'.header_key ++ at }
rest_of_event p (on_header_value at) = record p {
  header_val = p.header_val ++ at;
  header_gotval = true;
}
rest_of_event p (on_body at) = p
rest_of_event p on_headers_complete = save_last_header p
rest_of_event p (on_message_complete h) = record p { target = complete h p.target }

-- The parser but for its body, and the bytes of the body.
abbrev pub Outline : Type 0
Outline = Parser × Bytes

unfoldable pub outline_event : Outline → Event → Outline
outline_event (q, p) (on_body at) = (q, if is_too_large q.error then p else p ++ at)
outline_event (q, p) e = (rest_of_event q e, p)

unfoldable pub outline : Outline → List Event → Outline
outline s [] = s
outline s (e ∷ es) = outline (outline_event s e) es

add_url_fragment-with_body :
    (t : Target) (q : Parser) (b : Body) (at : Bytes)
    → q.target ≡ t
    → add_url_fragment (with_body q b) at ≡ with_body (add_url_fragment q at) b
unfolding add_url_fragment url_fragment
add_url_fragment-with_body (request r) q b at e = rw e (ground arith)
add_url_fragment-with_body (response r) q b at e = rw e (ground arith)

save_last_header-with_body :
    (t : Target) (q : Parser) (b : Body)
    → q.target ≡ t
    → save_last_header (with_body q b) ≡ with_body (save_last_header q) b
unfolding save_last_header flush_header check_request too_large wants_100 get_header add_header
save_last_header-with_body (request r) q b e = rw e (ground arith)
save_last_header-with_body (response r) q b e = rw e (ground arith)

complete-with_body :
    (t : Target) (q : Parser) (b : Body) (h : Head)
    → q.target ≡ t
    → rest_of_event (with_body q b) (on_message_complete h)
      ≡ with_body (rest_of_event q (on_message_complete h)) b
unfolding rest_of_event complete
complete-with_body (request r) q b h e = rw e refl
complete-with_body (response r) q b h e = rw e refl

-- A call does not look at the body.
rest_of_event-with_body :
    (q : Parser) (b : Body) (e : Event)
    → rest_of_event (with_body q b) e ≡ with_body (rest_of_event q e) b
unfolding rest_of_event
rest_of_event-with_body q b (on_url at) = add_url_fragment-with_body q.target q b at refl
rest_of_event-with_body q b (on_header_field at) =
    ap (λ (p : Parser). record p { header_key = p.header_key ++ at })
      (save_last_header-with_body q.target q b refl)
rest_of_event-with_body q b (on_header_value at) = refl
rest_of_event-with_body q b (on_body at) = refl
rest_of_event-with_body q b on_headers_complete = save_last_header-with_body q.target q b refl
rest_of_event-with_body q b (on_message_complete h) = complete-with_body q.target q b h refl

module _ (os : Os) where
  open os use {World}

  -- Only a call for the body touches the world.
  abbrev pub IsBodyEvent : Event → Type 0
  IsBodyEvent (on_body at) = Unit {0}
  IsBodyEvent _ = ⊥

  handle_event-rest :
      (w : World) (p : Parser) (e : Event)
      → ¬ IsBodyEvent e
      → handle_event os w p e ≡ (w, rest_of_event p e)
  unfolding handle_event rest_of_event
  handle_event-rest w p (on_url at) other = refl
  handle_event-rest w p (on_header_field at) other = refl
  handle_event-rest w p (on_header_value at) other = refl
  handle_event-rest w p (on_body at) other = absurd (other tt)
  handle_event-rest w p on_headers_complete other = refl
  handle_event-rest w p (on_message_complete h) other = refl

unmade : false ≢ true
unmade e = cc

module _ (os : Os) (laws : FileLaws os) (works : Works os) where
  open os use {World}

  -- A parser with this outline, whose body the world holds.
  abbrev pub Shows : World → Parser → Outline → Type 0
  Shows w p (q, bytes) = (b : Body) × (p ≡ with_body q b) × Kept os laws works w b bytes

  add_body-set_body :
      (w : World) (t : Target) (b : Body) (at : Bytes)
      → set_msg (set_body t b) (add_body os w (msg (set_body t b)) at).1
        ≡ set_body t (add_body os w (msg (set_body t b)) at).1.body
  unfolding add_body
  add_body-set_body w (request r) b at = refl
  add_body-set_body w (response r) b at = refl

  body-Shows :
      (w : World) (p : Parser) (s : Outline) (at : Bytes)
      → Shows w p s
      → Shows
          (handle_event os w p (on_body at)).0
          (handle_event os w p (on_body at)).1
          (outline_event s (on_body at))
  unfolding handle_event add_body_fragment outline_event
  body-Shows w p (q, bytes) at (b, shape, k) =
      let m = msg (set_body q.target b) in
      elim (Bool-cases (is_too_large q.error)) [
        | inl large ↦ rw (shape, large) (b, refl, k)
        | inr fine ↦
            rw (shape, fine)
              (
                (add_body os w m at).1.body,
                ap (λ t. record q { target = t }) (add_body-set_body w q.target b at),
                add_body-Kept os laws works w m at bytes
                    (subst (λ c. Kept os laws works w c bytes) (sym (body-set_body q.target b)) k),
              )
      ]

  other-Shows :
      (w : World) (p q : Parser) (bytes : Bytes) (e : Event)
      → ¬ IsBodyEvent os e
      → Shows w p (q, bytes)
      → Shows (handle_event os w p e).0 (handle_event os w p e).1 (rest_of_event q e, bytes)
  other-Shows w p q bytes e other (b, shape, k) =
      rw (handle_event-rest os w p e other)
        (b, ap (λ u. rest_of_event u e) shape ∙ rest_of_event-with_body q b e, k)

  event-Shows :
      (w : World) (p : Parser) (s : Outline) (e : Event)
      → Shows w p s
      → Shows (handle_event os w p e).0 (handle_event os w p e).1 (outline_event s e)
  unfolding outline_event
  event-Shows w p s (on_body at) k = body-Shows w p s at k
  event-Shows w p (q, bytes) e k = other-Shows w p q bytes e (λ n. n) k

  -- The calls of one read.
  pub run-Shows :
      (w : World) (p : Parser) (s : Outline) (es : List Event)
      → Shows w p s
      → Shows (run os w p es).0 (run os w p es).1 (outline s es)
  unfolding run outline
  run-Shows w p s [] k = k
  run-Shows w p s (e ∷ es) k =
      let (w', p') = handle_event os w p e in
      run-Shows w' p' (outline_event s e) es (event-Shows w p s e k)

  -- A change of the world that leaves the file of a body alone, if the body has one.
  abbrev pub Quiet : World → World → Body → Type 0
  Quiet w w' b =
      is_pos b.fd ≡ true
      → (laws.content w' b.fd ≡ laws.content w b.fd)
        × (works.is_open w b.fd ≡ true → works.is_open w' b.fd ≡ true)

  Quiet-Kept :
      (w w' : World) (b : Body) (bytes : Bytes)
      → Quiet w w' b
      → Kept os laws works w b bytes
      → Kept os laws works w' b bytes
  Quiet-Kept w w' b bytes quiet k = elim (Bool-cases (is_pos b.fd)) [
    | inl file ↦ record {
      file = λ h. (quiet file).1 (k.file file);
      content = ap (λ c. b.memory ++ (if is_pos b.fd then c else [])) (quiet file).0 ∙ k.content;
      valid = k.valid;
      spilled = k.spilled;
      tidy = k.tidy;
    }
    | inr none_made ↦ record {
      file = λ h. absurd (unmade (sym none_made ∙ h));
      content =
          ap (λ t. b.memory ++ (if t then laws.content w' b.fd else [])) none_made
          ∙ sym (ap (λ t. b.memory ++ (if t then laws.content w b.fd else [])) none_made)
          ∙ k.content;
      valid = k.valid;
      spilled = k.spilled;
      tidy = k.tidy;
    }
  ]

  pub Quiet-Shows :
      (w w' : World) (p : Parser) (s : Outline)
      → Quiet w w' (msg p.target).body
      → Shows w p s
      → Shows w' p s
  Quiet-Shows w w' p (q, bytes) quiet (b, shape, k) =
      let own : (msg p.target).body ≡ b =
        ap (λ (u : Parser). (msg u.target).body) shape ∙ body-set_body q.target b in
      (b, shape, Quiet-Kept w w' b bytes (subst (Quiet w w') own quiet) k)

  -- Two parsers with one outline differ in their bodies only, which stand for the same bytes.
  pub Shows-same :
      (w w' : World) (p p' : Parser) (s : Outline) (bytes : Bytes)
      → Shows w p s
      → Shows w' p' s
      → Kept os laws works w (msg p.target).body bytes
      → (b : Body) × (p' ≡ with_body p b) × Kept os laws works w' b bytes
  Shows-same w w' p p' (q, known) bytes (b, shape, k) (b', shape', k') held =
      let own : (msg p.target).body ≡ b =
        ap (λ (u : Parser). (msg u.target).body) shape ∙ body-set_body q.target b in
      let same : bytes ≡ known = sym held.content ∙ ap (λ c. stored os laws w c) own ∙ k.content in
      (
        b',
        shape'
            ∙ ap (λ t. record q { target = t }) (sym (set_body_twice q.target b b'))
            ∙ ap (λ u. with_body u b') (sym shape),
        subst (Kept os laws works w' b') (sym same) k',
      )
