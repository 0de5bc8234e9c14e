-- ===== src/Client/Sends.antt =====
-- What Client::send puts on the stream.
use libstutter.Common.{
  ◌≡◌, ◌≢◌, refl, sym, ap, ◌∙◌, true, false, [], ◌++◌, append_assoc, append-nil, Bool-cases, inl,
  inr, if◌then◌else◌,
}
use mathlib.Core.Path.{subst}
use libstutter.Common.Int.{ℤ, is_pos}
use libstutter.Common.Bytes.{Bytes}
use libstutter.Os.{Os}
use libstutter.Io.{Strategy, send_raw, send_buffered_body}
use libstutter.Io.Stream.{StreamLaws, Sent, send_raw-Sent}
use libstutter.Request.{Request, prepare, own_headers, head_text, expects_100}
use libstutter.Request.Laws.{own_headers-output, own_headers-body}
use libstutter.Client.{Client, send_headers, send_body}

-- After a success everything has gone out.
Sent_whole : (before after p : Bytes) → Sent before after p true → after ≡ before ++ p
Sent_whole before after p s =
    s.grown
    ∙ ap (◌++◌ before)
        (sym (append-nil s.part) ∙ ap (◌++◌ s.part) (sym (s.complete refl)) ∙ s.split)

unsent : false ≢ true
unsent e = cc

pub prepare-body : (r : Request) → (prepare r).message.body ≡ r.message.body
unfolding prepare
prepare-body r = own_headers-body r

module _ (os : Os) (io : Strategy os) (laws : StreamLaws os io) where
  open os use {World}
  open laws use {sent}

  raw_whole :
      (w : World) (fd : ℤ) (p : Bytes)
      → (send_raw os io w fd p).1 ≡ true
      → sent (send_raw os io w fd p).0 fd ≡ sent w fd ++ p
  raw_whole w fd p ok =
      let after = sent (send_raw os io w fd p).0 fd in
      Sent_whole (sent w fd) after p
        (subst (Sent (sent w fd) after p) ok (send_raw-Sent os io laws w fd p))

  -- What is held back until the 100-continue.
  abbrev held_back : Request → Bytes
  held_back r = if r.require_100 then r.message.body.memory else []

  pub send_headers_whole :
      (w : World) (c : Client) (r : Request)
      → (send_headers os io w c r).1 ≡ true
      → sent (send_headers os io w c r).0 c.fd ≡ sent w c.fd ++ r.message.output
  unfolding send_headers
  send_headers_whole w c r ok = raw_whole w c.fd r.message.output ok

  send_body_whole :
      (w : World) (c : Client) (r : Request)
      → is_pos r.message.body.fd ≡ false
      → (send_body os io w c r).1 ≡ true
      → sent (send_body os io w c r).0 c.fd ≡ sent w c.fd ++ held_back r
  unfolding send_body send_buffered_body
  send_body_whole w c r memory ok = elim (Bool-cases r.require_100) [
    | inl waits ↦ elim (Bool-cases (send_raw os io w c.fd r.message.body.memory).1) [
      | inl out ↦ rw (waits, out, memory) (raw_whole w c.fd r.message.body.memory out)
      | inr broken ↦ absurd (unsent (rw (waits, broken) at ok))
    ]
    | inr plain ↦ rw (plain, memory) (sym (append-nil _))
  ]

  -- With the buffered body in the message or behind it, it is there once.
  prepare-held_back :
      (req : Request)
      → req.message.output ≡ []
      → req.require_100 ≡ false
      → (prepare req).message.output ++ held_back (prepare req)
        ≡ head_text req (own_headers req) ++ req.message.body.memory
  unfolding prepare
  prepare-held_back req fresh calm = elim (Bool-cases (expects_100 (own_headers req))) [
    | inl waits ↦ rw (waits, own_headers-output req, own_headers-body req, fresh) refl
    | inr plain ↦
        rw (plain, own_headers-output req, own_headers-body req, fresh, calm) (append-nil _)
  ]

  -- A client whose sends succeed puts the request line and the headers on the stream and then the
  -- buffered body, in order and each byte once, whether or not it waits for a 100-continue between
  -- the two. The request is sent for the first time, its body is in memory, and nothing else goes out
  -- on the socket before the body.
  pub send_body-send_headers :
      (w w' : World) (c : Client) (req : Request)
      → is_pos req.message.body.fd ≡ false
      → req.message.output ≡ []
      → req.require_100 ≡ false
      → (send_headers os io w c (prepare req)).1 ≡ true
      → sent w' c.fd ≡ sent (send_headers os io w c (prepare req)).0 c.fd
      → (send_body os io w' c (prepare req)).1 ≡ true
      → sent (send_body os io w' c (prepare req)).0 c.fd
        ≡ sent w c.fd ++ (head_text req (own_headers req) ++ req.message.body.memory)
  send_body-send_headers w w' c req memory fresh calm headers_ok quiet body_ok =
      let r = prepare req in
      send_body_whole w' c r (rw (prepare-body req) memory) body_ok
      ∙ ap (λ s. s ++ held_back r) (quiet ∙ send_headers_whole w c r headers_ok)
      ∙ append_assoc (sent w c.fd) r.message.output (held_back r)
      ∙ ap (◌++◌ (sent w c.fd)) (prepare-held_back req fresh calm)
