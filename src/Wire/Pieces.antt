-- ===== src/Wire/Pieces.antt =====
-- The headers of a message, in any pieces.
use libstutter.Common.{
  ◌≡◌, sym, ap, ◌∙◌, true, false, List, [], ◌∷◌, ◌++◌, map, append_assoc, append-nil,
}
use libstutter.Common.Bytes.{Bytes}
use libstutter.Message.{Headers}
use libstutter.Os.{Os}
use libstutter.Parser.{
  Parser, Target, request, response, Event, on_header_field, on_header_value, on_headers_complete,
  parse_ok, kind_of, check_request, flush_header, save_last_header, handle_event, run,
}
use libstutter.Parser.Headers.{concat}
use libstutter.Wire.{Cut, header_of, headers_events, with_header, with_headers}

-- A parser without a mark that has read the name of a header in part, or its value too.
abbrev pub at_name : Target → Bytes → Parser
at_name t key = record {
  target = t;
  kind = kind_of t;
  error = parse_ok;
  header_key = key;
  header_val = [];
  header_gotval = false;
}

abbrev pub at_value : Target → Bytes → Bytes → Parser
at_value t key val = record {
  target = t;
  kind = kind_of t;
  error = parse_ok;
  header_key = key;
  header_val = val;
  header_gotval = true;
}

-- The check at the end of a header leaves the mark alone; at every header that is added.
abbrev pub Accepts : Target → Type 0
Accepts t = (p : Parser) → check_request p t ≡ p.error

abbrev pub Admits : Target → Headers → Type 0
Admits t [] = Accepts t
Admits t (h ∷ hs) = Accepts t × Admits (with_header t h) hs

Admits-Accepts : (t : Target) (hs : Headers) → Admits t hs → Accepts t
Admits-Accepts t [] a = a
Admits-Accepts t (h ∷ hs) a = a.0

module _ (os : Os) where
  open os use {World}

  names_lem :
      (w : World) (t : Target) (key : Bytes) (parts : List Bytes) (rest : List Event)
      → Accepts t
      → run os w (at_name t key) (map on_header_field parts ++ rest)
        ≡ run os w (at_name t (key ++ concat parts)) rest
  unfolding run handle_event save_last_header flush_header
  names_lem w t key [] rest a = ap (λ k. run os w (at_name t k) rest) (sym (append-nil key))
  names_lem w t key (at ∷ parts) rest a =
      ap
        (λ e.
          run os w (record (at_name t (key ++ at)) { error = e })
            (map on_header_field parts ++ rest))
        (a (at_name t key))
      ∙ names_lem w t (key ++ at) parts rest a
      ∙ ap (λ k. run os w (at_name t k) rest) (append_assoc key at (concat parts))

  values_lem :
      (w : World) (t : Target) (key val : Bytes) (parts : List Bytes) (rest : List Event)
      → run os w (at_value t key val) (map on_header_value parts ++ rest)
        ≡ run os w (at_value t key (val ++ concat parts)) rest
  unfolding run handle_event
  values_lem w t key val [] rest = ap (λ v. run os w (at_value t key v) rest) (sym (append-nil val))
  values_lem w t key val (at ∷ parts) rest =
      values_lem w t key (val ++ at) parts rest
      ∙ ap (λ v. run os w (at_value t key v) rest) (append_assoc val at (concat parts))

  -- The name and the value of one header, from the end of the one before.
  header_lem :
      (w : World) (t : Target) (c : Cut) (rest : List Event)
      → Accepts t
      → run os w (at_name t c.name) (
          map on_header_field c.names
          ++ (on_header_value c.value ∷ (map on_header_value c.values ++ rest)))
        ≡ run os w (at_value t (header_of c).0 (header_of c).1) rest
  unfolding run handle_event
  header_lem w t c rest a =
      names_lem w t c.name c.names
        (on_header_value c.value ∷ (map on_header_value c.values ++ rest)) a
      ∙ values_lem w t (header_of c).0 c.value c.values rest

  -- The header that is complete goes into the message at the next call.
  flushed :
      (t : Target) (key val : Bytes)
      → Accepts (with_header t (key, val))
      → save_last_header (at_value t key val) ≡ at_name (with_header t (key, val)) []
  unfolding save_last_header flush_header
  flushed (request r) key val a =
      ap (λ e. record (at_name (with_header (request r) (key, val)) []) { error = e })
        (a (at_name (with_header (request r) (key, val)) []))
  flushed (response r) key val a =
      ap (λ e. record (at_name (with_header (response r) (key, val)) []) { error = e })
        (a (at_name (with_header (response r) (key, val)) []))

  more_headers :
      (w : World) (t : Target) (key val : Bytes) (cuts : List Cut) (rest : List Event)
      → Admits (with_header t (key, val)) (map header_of cuts)
      → run os w (at_value t key val) (headers_events cuts (on_headers_complete ∷ rest))
        ≡ run os w (at_name (with_headers t ((key, val) ∷ map header_of cuts)) []) rest
  unfolding run handle_event
  more_headers w t key val [] rest a = ap (λ p. run os w p rest) (flushed t key val a)
  more_headers w t key val (c ∷ cuts) rest a =
      ap
        (λ (p : Parser).
          run os w (record p { header_key = p.header_key ++ c.name })
            (map on_header_field c.names
              ++ (on_header_value c.value
                  ∷ (map on_header_value c.values
                      ++ headers_events cuts (on_headers_complete ∷ rest)))))
        (flushed t key val a.0)
      ∙ header_lem w (with_header t (key, val)) c (headers_events cuts (on_headers_complete ∷ rest))
          a.0
      ∙ more_headers w (with_header t (key, val)) (header_of c).0 (header_of c).1 cuts rest a.1

  unmarked : (t : Target) → Accepts t → save_last_header (at_name t []) ≡ at_name t []
  unfolding save_last_header flush_header
  unmarked t a = ap (λ e. record (at_name t []) { error = e }) (a (at_name t []))

  -- From the start of the headers to their end: each is added to the message, in order.
  pub run-headers_events :
      (w : World) (t : Target) (cuts : List Cut) (rest : List Event)
      → Admits t (map header_of cuts)
      → run os w (at_name t []) (headers_events cuts (on_headers_complete ∷ rest))
        ≡ run os w (at_name (with_headers t (map header_of cuts)) []) rest
  unfolding run handle_event
  run-headers_events w t [] rest a = ap (λ p. run os w p rest) (unmarked t a)
  run-headers_events w t (c ∷ cuts) rest a =
      ap
        (λ (p : Parser).
          run os w (record p { header_key = p.header_key ++ c.name })
            (map on_header_field c.names
              ++ (on_header_value c.value
                  ∷ (map on_header_value c.values
                      ++ headers_events cuts (on_headers_complete ∷ rest)))))
        (unmarked t a.0)
      ∙ header_lem w t c (headers_events cuts (on_headers_complete ∷ rest)) a.0
      ∙ more_headers w t (header_of c).0 (header_of c).1 cuts rest a.1
