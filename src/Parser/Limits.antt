-- ===== src/Parser/Limits.antt =====
-- The limits that the callbacks enforce.
use libstutter.Common.{
  ℕ, ◌≤◌, ◌≡◌, refl, ap, ◌∙◌, true, false, List, [], ◌∷◌, map, arith, length, length-append,
}
use libstutter.Common.Bytes.{Bytes}
use libstutter.Request.{Request}
use libstutter.Message.{Message, add_header}
use libstutter.Os.{Os}
use libstutter.Parser.{
  Parser, Target, request, response, Event, on_url, on_header_field, on_header_value, on_body,
  on_headers_complete, on_message_complete, parse_need_100_continue, parse_body_too_large, msg,
  set_msg, Head, check_request, url_fragment, flush_header, save_last_header, add_url_fragment,
  add_body_fragment, complete, handle_event, run, too_large, wants_100, is_too_large,
}

-- The bytes of the URL; a reply has none.
abbrev pub url_length : Target → ℕ
url_length (request r) = length r.url
url_length (response r) = 0

url_length-set_msg : (t : Target) (m : Message) → url_length (set_msg t m) ≡ url_length t
url_length-set_msg (request r) m = refl
url_length-set_msg (response r) m = refl

url_length-save_last_header :
    (p : Parser) → url_length (save_last_header p).target ≡ url_length p.target
unfolding save_last_header flush_header
url_length-save_last_header p =
    ground
      (arith, url_length-set_msg p.target (add_header (msg p.target) p.header_key p.header_val))

url_fragment_bounded :
    (p : Parser) (t : Target) (at : Bytes)
    → p.target ≡ t
    → url_length t ≤ 4096
    → url_length (url_fragment p t at).target ≤ 4096
unfolding url_fragment
url_fragment_bounded p (request r) at e h = ground (arith, length-append r.url at, ap url_length e)
url_fragment_bounded p (response r) at e h = omega (arith, ap url_length e)

url_length-complete : (h : Head) (t : Target) → url_length (complete h t) ≡ url_length t
unfolding complete
url_length-complete h (request r) = refl
url_length-complete h (response r) = refl

save_too_large :
    (p : Parser) (r : Request)
    → (flush_header p).target ≡ request r
    → too_large r.message ≡ true
    → save_last_header p ≡ record (flush_header p) { error = parse_body_too_large }
unfolding save_last_header check_request
save_too_large p r e large = ground (arith, ap (check_request (flush_header p)) e)

save_wants_100 :
    (p : Parser) (r : Request)
    → (flush_header p).target ≡ request r
    → too_large r.message ≡ false
    → wants_100 r.message ≡ true
    → (save_last_header p).error ≡ parse_need_100_continue
unfolding save_last_header check_request
save_wants_100 p r e small wants = ground (arith, ap (check_request (flush_header p)) e)

module _ (os : Os) where
  open os use {World}

  handle_event_bounded :
      (w : World) (p : Parser) (e : Event)
      → url_length p.target ≤ 4096
      → url_length (handle_event os w p e).1.target ≤ 4096
  unfolding handle_event add_url_fragment add_body_fragment
  handle_event_bounded w p (on_url at) h = url_fragment_bounded p p.target at refl h
  handle_event_bounded w p (on_header_field at) h = omega (arith, url_length-save_last_header p)
  handle_event_bounded w p (on_header_value at) h = h
  handle_event_bounded w p (on_body at) h = ground (arith, url_length-set_msg p.target)
  handle_event_bounded w p on_headers_complete h = omega (arith, url_length-save_last_header p)
  handle_event_bounded w p (on_message_complete c) h = omega (arith, url_length-complete c p.target)

  -- When the URL is within MAX_URI_LENGTH it stays so, whatever the library calls.
  pub run_bounded :
      (w : World) (p : Parser) (events : List Event)
      → url_length p.target ≤ 4096
      → url_length (run os w p events).1.target ≤ 4096
  unfolding run
  run_bounded w p [] h = h
  run_bounded w p (e ∷ events) h =
      run_bounded (handle_event os w p e).0 (handle_event os w p e).1 events
        (handle_event_bounded w p e h)

  body_event_ignored :
      (w : World) (p : Parser) (at : Bytes)
      → is_too_large p.error ≡ true
      → handle_event os w p (on_body at) ≡ (w, p)
  unfolding handle_event add_body_fragment
  body_event_ignored w p at h = rw (h, add_body_fragment)

  body_ignored :
      (w : World) (p : Parser) (parts : List Bytes)
      → is_too_large p.error ≡ true
      → run os w p (map on_body parts) ≡ (w, p)
  unfolding run
  body_ignored w p [] h = refl
  body_ignored w p (at ∷ parts) h =
      ap (λ (s : World × Parser). run os s.0 s.1 (map on_body parts)) (body_event_ignored w p at h)
      ∙ body_ignored w p parts h

  event_keeps_error :
      (w : World) (p : Parser) (at : Bytes) → (handle_event os w p (on_body at)).1.error ≡ p.error
  unfolding handle_event add_body_fragment
  event_keeps_error w p at = ground arith

  body_keeps_error :
      (w : World) (p : Parser) (parts : List Bytes)
      → (run os w p (map on_body parts)).1.error ≡ p.error
  unfolding run
  body_keeps_error w p [] = refl
  body_keeps_error w p (at ∷ parts) =
      body_keeps_error (handle_event os w p (on_body at)).0 (handle_event os w p (on_body at)).1
        parts
      ∙ event_keeps_error w p at

  -- A request whose Content-Length, with the header just read, is negative or above
  -- MAX_UPLOAD_SIZE is marked when its headers are complete, and from then on its body is neither
  -- kept nor written anywhere.
  pub oversized_body_ignored :
      (w : World) (p : Parser) (r : Request) (parts : List Bytes)
      → (flush_header p).target ≡ request r
      → too_large r.message ≡ true
      → run os w p (on_headers_complete ∷ map on_body parts)
        ≡ (w, record (flush_header p) { error = parse_body_too_large })
  unfolding run handle_event
  oversized_body_ignored w p r parts e large =
      ap (λ p'. run os w p' (map on_body parts)) (save_too_large p r e large)
      ∙ body_ignored w (record (flush_header p) { error = parse_body_too_large }) parts refl

  -- A request of an acceptable length that expects a 100-continue, with the header just read, is
  -- marked as such when its headers are complete, and stays marked while its body comes in.
  pub expectation_marked :
      (w : World) (p : Parser) (r : Request) (parts : List Bytes)
      → (flush_header p).target ≡ request r
      → too_large r.message ≡ false
      → wants_100 r.message ≡ true
      → (run os w p (on_headers_complete ∷ map on_body parts)).1.error ≡ parse_need_100_continue
  unfolding run handle_event
  expectation_marked w p r parts e small wants =
      body_keeps_error w (save_last_header p) parts ∙ save_wants_100 p r e small wants
