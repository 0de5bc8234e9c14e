-- ===== src/Wire/Exec.antt =====
-- exec() on a request that is divided into reads.
use libstutter.Common.{◌≡◌, refl, sym, ap, ◌∙◌, List, [], ◌∷◌, ◌++◌, some, All}
use mathlib.Core.Path.{subst}
use libstutter.Os.{Os}
use libstutter.Io.{Strategy}
use libstutter.Dispatcher.{Dispatcher}
use libstutter.Body.Content.{FileLaws}
use libstutter.Message.Laws.{Works}
use libstutter.Parser.{
  Head, Event, on_url, on_header_field, on_header_value, on_body, on_headers_complete,
  on_message_complete, run, handle_event,
}
use libstutter.Connection.{
  Connection, ready_for_data, Handler, feed, on_event, process, turn, after_feed, after_read, exec,
  exec_round, Progress, going, halted, fault, read_buffer_size,
}
use libstutter.Connection.Exec.{IsPartial}
use libstutter.Wire.Served.{noted, Ends, feed-run}
use libstutter.Wire.Rounds.{Split, Finds, Readable, rounds_run}

module _ (os : Os) (io : Strategy os) where
  open os use {World}

  feed-partial :
      (router : Dispatcher (Handler os io)) (es : List Event) (w : World) (c : Connection)
      → All IsPartial es
      → let (w', p) = run os w c.parser es in
        feed os io w c router es ≡ some (w', record c { parser = p })
  unfolding feed on_event run handle_event
  feed-partial router [] w c partial = refl
  feed-partial router (on_message_complete h ∷ es) w c (e, partial) = absurd e
  feed-partial router (on_url at ∷ es) w c (e, partial) = feed-partial router es _ _ partial
  feed-partial router (on_header_field at ∷ es) w c (e, partial) =
      feed-partial router es _ _ partial
  feed-partial router (on_header_value at ∷ es) w c (e, partial) =
      feed-partial router es _ _ partial
  feed-partial router (on_body at ∷ es) w c (e, partial) = feed-partial router es _ _ partial
  feed-partial router (on_headers_complete ∷ es) w c (e, partial) =
      feed-partial router es _ _ partial

  -- What more rounds make of the loop.
  abbrev pub and_then :
      Progress os io → Dispatcher (Handler os io) → List (List Event) → Progress os io
  and_then (halted w c need) router rounds = halted w c need
  and_then fault router rounds = fault
  and_then (going w c) router rounds = exec os io w c router rounds

  round_then :
      (p : Progress os io) (router : Dispatcher (Handler os io)) (rounds : List (List Event))
      → elim p [
        | halted w c need ↦ halted w c need
        | fault ↦ fault
        | going w c ↦ exec os io w c router rounds
      ]
        ≡ and_then p router rounds
  round_then (halted w c need) router rounds = refl
  round_then fault router rounds = refl
  round_then (going w c) router rounds = refl

  exec-cons :
      (w : World) (c : Connection) (router : Dispatcher (Handler os io)) (es : List Event)
      (rounds : List (List Event))
      → exec os io w c router (es ∷ rounds)
        ≡ and_then (exec_round os io w c router es) router rounds
  unfolding exec
  exec-cons w c router es rounds = round_then (exec_round os io w c router es) router rounds

  and_then-append :
      (p : Progress os io) (router : Dispatcher (Handler os io)) (rounds more : List (List Event))
      → ((w : World) (c : Connection)
          → exec os io w c router (rounds ++ more)
            ≡ and_then (exec os io w c router rounds) router more)
      → and_then p router (rounds ++ more) ≡ and_then (and_then p router rounds) router more
  and_then-append (halted w c need) router rounds more h = refl
  and_then-append fault router rounds more h = refl
  and_then-append (going w c) router rounds more h = h w c

  pub exec-append :
      (w : World) (c : Connection) (router : Dispatcher (Handler os io))
      (rounds more : List (List Event))
      → exec os io w c router (rounds ++ more) ≡ and_then (exec os io w c router rounds) router more
  unfolding exec
  exec-append w c router [] more = refl
  exec-append w c router (es ∷ rounds) more =
      let p = exec_round os io w c router es in
      exec-cons w c router es (rounds ++ more)
      ∙ and_then-append p router rounds more (λ w' c'. exec-append w' c' router rounds more)
      ∙ sym (ap (λ q. and_then q router more) (exec-cons w c router es rounds))

  and_then-nil :
      (p : Progress os io) (router : Dispatcher (Handler os io)) → and_then p router [] ≡ p
  unfolding exec
  and_then-nil (halted w c need) router = refl
  and_then-nil fault router = refl
  and_then-nil (going w c) router = refl

  exec-one :
      (w : World) (c : Connection) (router : Dispatcher (Handler os io)) (es : List Event)
      → exec os io w c router (es ∷ []) ≡ exec_round os io w c router es
  exec-one w c router es =
      exec-cons w c router es [] ∙ and_then-nil (exec_round os io w c router es) router

  -- What holds if the loop goes on.
  abbrev pub Onward : (World → Connection → Type 0) → Progress os io → Type 0
  Onward P (halted w c need) = Unit {0}
  Onward P fault = Unit {0}
  Onward P (going w c) = P w c

  pub turn_ready :
      (w : World) (c : Connection) → c.state ≡ ready_for_data → turn os io w c ≡ going w c
  unfolding turn
  turn_ready w c ready = rw ready refl

module _ (os : Os) (io : Strategy os) (laws : FileLaws os) (works : Works os) where
  open os use {World}

  -- Every read of the loop finds a byte or more, and leaves the file of the body that is being
  -- received alone.
  abbrev pub Arrives : World → Connection → Dispatcher (Handler os io) → List (List Event) → Type 0
  Arrives w c router [] = Unit {0}
  Arrives w c router (es ∷ rounds) =
      Finds os io laws works w c.fd read_buffer_size c.parser
      × Onward os io (λ w' c'. Arrives w' c' router rounds) (exec_round os io w c router es)

  abbrev pub ArrivesAfter : Progress os io → Dispatcher (Handler os io) → List (List Event) → Type 0
  ArrivesAfter p router rounds = Onward os io (λ w c. Arrives w c router rounds) p

  after_round :
      (p : Progress os io) (router : Dispatcher (Handler os io)) (rounds more : List (List Event))
      → ((w : World) (c : Connection)
          → Arrives w c router (rounds ++ more)
          → Arrives w c router rounds × ArrivesAfter (exec os io w c router rounds) router more)
      → ArrivesAfter p router (rounds ++ more)
      → ArrivesAfter p router rounds × ArrivesAfter (and_then os io p router rounds) router more
  after_round (halted w c need) router rounds more h a = (tt, tt)
  after_round fault router rounds more h a = (tt, tt)
  after_round (going w c) router rounds more h a = h w c a

  pub Arrives-append :
      (w : World) (c : Connection) (router : Dispatcher (Handler os io))
      (rounds more : List (List Event))
      → Arrives w c router (rounds ++ more)
      → Arrives w c router rounds × ArrivesAfter (exec os io w c router rounds) router more
  Arrives-append w c router [] more a = (tt, unfold exec in a)
  Arrives-append w c router (es ∷ rounds) more (found, a) =
      let p = exec_round os io w c router es in
      let (first, rest) =
        after_round p router rounds more (λ w' c' a'. Arrives-append w' c' router rounds more a')
          a in
      (
        (found, first),
        subst (λ q. ArrivesAfter q router more) (sym (exec-cons os io w c router es rounds)) rest,
      )

  -- The round of a read that completes no message.
  partial_round :
      (w : World) (c : Connection) (router : Dispatcher (Handler os io)) (es : List Event)
      → c.state ≡ ready_for_data
      → Finds os io laws works w c.fd read_buffer_size c.parser
      → All IsPartial es
      → let (w', p) = run os (io.safe_read w c.fd read_buffer_size).0 c.parser es in
        exec_round os io w c router es ≡ going w' (record c { parser = p })
  unfolding exec_round after_read after_feed
  partial_round w c router es ready ((b, bytes, got), quiet) partial =
      let w₁ = (io.safe_read w c.fd read_buffer_size).0 in
      rw (got, feed-partial os io router es w₁ c partial) (turn_ready os io _ _ ready)

  -- The round of the read that completes it.
  last_round :
      (w : World) (c : Connection) (router : Dispatcher (Handler os io)) (es : List Event)
      (h : Head)
      → Finds os io laws works w c.fd read_buffer_size c.parser
      → Ends h es
      → let (w', p) = run os (io.safe_read w c.fd read_buffer_size).0 c.parser es in
        exec_round os io w c router es
        ≡ after_feed os io
            (noted os io (process os io w' (record c { parser = p; head = h }) router))
  unfolding exec_round after_read after_feed
  last_round w c router es h ((b, bytes, got), quiet) ends =
      let w₁ = (io.safe_read w c.fd read_buffer_size).0 in
      rw (got, feed-run os io router es h w₁ c ends) refl

  -- What exec() makes of a message that is divided into reads: the parser gets them all, and then
  -- process() is called.
  pub exec-Split :
      (h : Head) (rounds : List (List Event)) (w : World) (c : Connection)
      (router : Dispatcher (Handler os io))
      → c.state ≡ ready_for_data
      → Split h rounds
      → Arrives w c router rounds
      → let (w', p) = rounds_run os io c.fd read_buffer_size w c.parser rounds in
        (exec os io w c router rounds
          ≡ after_feed os io
              (noted os io (process os io w' (record c { parser = p; head = h }) router)))
        × Readable os io laws works c.fd read_buffer_size w c.parser rounds
  unfolding rounds_run
  exec-Split h [] w c router ready split a = absurd split
  exec-Split h (es ∷ []) w c router ready split (found, a) =
      (exec-one os io w c router es ∙ last_round w c router es h found split, (found, tt))
  exec-Split h (es ∷ fs ∷ rounds) w c router ready (partial, split) (found, a) =
      let (w', p) = run os (io.safe_read w c.fd read_buffer_size).0 c.parser es in
      let first = partial_round w c router es ready found partial in
      let (later, readable) =
        exec-Split h (fs ∷ rounds) w' (record c { parser = p }) router ready split
          (subst (λ q. ArrivesAfter q router (fs ∷ rounds)) first a) in
      (
        exec-cons os io w c router es (fs ∷ rounds)
            ∙ ap (λ q. and_then os io q router (fs ∷ rounds)) first
            ∙ later,
        (found, readable),
      )
