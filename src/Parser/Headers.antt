-- ===== src/Parser/Headers.antt =====
-- Headers that arrive in pieces.
use libstutter.Common.{
  ◌≡◌, refl, sym, ap, ◌∙◌, Bool, true, false, List, [], ◌∷◌, ◌++◌, map, arith, append_assoc,
  append-nil,
}
use mathlib.Core.Path.{subst}
use libstutter.Common.Bytes.{Bytes}
use libstutter.Message.{add_header}
use libstutter.Os.{Os}
use libstutter.Parser.{
  Parser, Target, Event, on_header_field, on_header_value, on_headers_complete, msg, set_msg,
  flush_header, save_last_header, handle_event, run,
}

abbrev pub concat : List Bytes → Bytes
concat [] = []
concat (s ∷ parts) = s ++ concat parts

-- What the parser has gathered: nothing but the error may differ.
abbrev pub Holds : Parser → Target → Bytes → Bytes → Bool → Type 0
Holds p t key val gotval =
    (p.target ≡ t) × (p.header_key ≡ key) × (p.header_val ≡ val) × (p.header_gotval ≡ gotval)

module _ (os : Os) where
  open os use {World}

  run-append :
      (w : World) (p : Parser) (xs ys : List Event)
      → run os w p (xs ++ ys) ≡ run os (run os w p xs).0 (run os w p xs).1 ys
  unfolding run
  run-append w p [] ys = refl
  run-append w p (x ∷ xs) ys = run-append (handle_event os w p x).0 (handle_event os w p x).1 xs ys

  field-Holds :
      (w : World) (p : Parser) (t : Target) (key at : Bytes)
      → Holds p t key [] false
      → Holds (handle_event os w p (on_header_field at)).1 t (key ++ at) [] false
  unfolding handle_event save_last_header flush_header
  field-Holds w p t key at h = ground arith

  fields-Holds :
      (w : World) (p : Parser) (t : Target) (key : Bytes) (parts : List Bytes)
      → Holds p t key [] false
      → Holds (run os w p (map on_header_field parts)).1 t (key ++ concat parts) [] false
  unfolding run handle_event
  fields-Holds w p t key [] h = (h.0, h.1 ∙ sym (append-nil key), h.2, h.3)
  fields-Holds w p t key (at ∷ parts) h = rw (← append_assoc key at (concat parts)) (
      fields-Holds w (handle_event os w p (on_header_field at)).1 t (key ++ at) parts
        (field-Holds w p t key at h))

  values-Holds :
      (w : World) (p : Parser) (t : Target) (key val : Bytes) (parts : List Bytes)
      → Holds p t key val true
      → Holds (run os w p (map on_header_value parts)).1 t key (val ++ concat parts) true
  unfolding run handle_event
  values-Holds w p t key val [] h = (h.0, h.1, h.2 ∙ sym (append-nil val), h.3)
  values-Holds w p t key val (at ∷ parts) h = rw (← append_assoc val at (concat parts)) (
      values-Holds w (record p { header_val = p.header_val ++ at; header_gotval = true }) t key
        (val ++ at) parts (h.0, h.1, ap (λ v. v ++ at) h.2, refl))

  first_value-Holds :
      (w : World) (p : Parser) (t : Target) (key : Bytes) (at : Bytes) (parts : List Bytes)
      → Holds p t key [] false
      → Holds (run os w p (map on_header_value (at ∷ parts))).1 t key (at ++ concat parts) true
  unfolding run handle_event
  first_value-Holds w p t key at parts h =
      values-Holds w (record p { header_val = p.header_val ++ at; header_gotval = true }) t key at
        parts (h.0, h.1, ap (λ v. v ++ at) h.2, refl)

  flush-Holds :
      (p : Parser) (t : Target) (key val : Bytes)
      → Holds p t key val true
      → Holds (save_last_header p) (set_msg t (add_header (msg t) key val)) [] [] false
  unfolding save_last_header flush_header
  flush-Holds p t key val h = rw h.3 (ap₃ h.0 h.1 h.2, refl, refl, refl)
    where
      ap₃ :
          p.target ≡ t
          → p.header_key ≡ key
          → p.header_val ≡ val
          → set_msg p.target (add_header (msg p.target) p.header_key p.header_val)
            ≡ set_msg t (add_header (msg t) key val)
      ap₃ a b c = rw (a, b, c)

  complete-Holds :
      (w : World) (p : Parser) (t : Target) (key val : Bytes)
      → Holds p t key val true
      → Holds
          (run os w p (on_headers_complete ∷ [])).1
          (set_msg t (add_header (msg t) key val))
          []
          []
          false
  unfolding run handle_event
  complete-Holds w p t key val h = flush-Holds p t key val h

  -- When the parser holds no piece of a header, and however the library cuts the name and the
  -- value of the last header, the message gets the one header that is their concatenation, and the
  -- parser again holds none.
  pub header_pieces :
      (w : World) (p : Parser) (names : List Bytes) (at : Bytes) (values : List Bytes)
      → Holds p p.target [] [] false
      → let events =
          map on_header_field names
          ++ map on_header_value (at ∷ values)
          ++ on_headers_complete ∷ [] in
        Holds
          (run os w p events).1
          (set_msg p.target (add_header (msg p.target) (concat names) (at ++ concat values)))
          []
          []
          false
  header_pieces w p names at values h =
      let named = run os w p (map on_header_field names) in
      let valued = run os named.0 named.1 (map on_header_value (at ∷ values)) in
      let cut =
        run-append w p (map on_header_field names ++ map on_header_value (at ∷ values))
          (on_headers_complete ∷ [])
        ∙ ap (λ (s : World × Parser). run os s.0 s.1 (on_headers_complete ∷ []))
            (run-append w p (map on_header_field names) (map on_header_value (at ∷ values))) in
      subst
        (λ (s : World × Parser).
          Holds s.1
            (set_msg p.target (add_header (msg p.target) (concat names) (at ++ concat values))) []
            [] false)
        (sym cut)
        (complete-Holds valued.0 valued.1 p.target (concat names) (at ++ concat values) (
          first_value-Holds named.0 named.1 p.target (concat names) at values
            (fields-Holds w p p.target [] names h)))
