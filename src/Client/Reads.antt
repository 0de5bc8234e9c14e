-- ===== src/Client/Reads.antt =====
-- The reads of Client::read_reply, as the parser sees them.
use libstutter.Common.{
  ℕ, ◌≡◌, refl, ap, ◌∙◌, Bool, true, false, List, [], ◌∷◌, ◌++◌, some, All, Option, if◌then◌else◌,
  length, arith, Bool-cases, inl, inr,
}
use libstutter.Common.Int.{ℤ}
use libstutter.Common.Bytes.{Bytes}
use libstutter.Body.Content.{FileLaws}
use libstutter.Message.Laws.{Works}
use libstutter.Parser.{
  Parser, response, Head, Event, on_url, on_header_field, on_header_value, on_body,
  on_headers_complete, on_message_complete, parse_ok, handle_event, run, add_result, complete, msg,
  save_last_header, flush_header, check_request, add_url_fragment, url_fragment, add_body_fragment,
}
use libstutter.Reply.{Reply}
use libstutter.Io.{Strategy}
use libstutter.Os.{Os}
use libstutter.Client.{Round, Reading, feed, read_rounds, after_read, returned, reply_buffer_size}
use libstutter.Connection.{is_ok}
use libstutter.Connection.Exec.{IsPartial}
use libstutter.Wire.Served.{Ends}
use libstutter.Wire.Reads.{Quiet}
use libstutter.Wire.Rounds.{Split, Readable, rounds_run}

-- What the rounds bring.
abbrev pub brought : List Round → List (List Event)
brought [] = []
brought ((es, n) ∷ rounds) = es ∷ brought rounds

-- A parser that reads a reply, and has not marked it.
abbrev pub IsReading : Parser → Type 0
IsReading p = (into : Reply) × (p.target ≡ response into) × (p.error ≡ parse_ok)

checked-IsReading :
    (p : Parser) → IsReading p → IsReading (record p { error = check_request p p.target })
unfolding check_request
checked-IsReading p (into, mode, fine) = rw mode (into, refl, fine)

flush_header-IsReading : (p : Parser) → IsReading p → IsReading (flush_header p)
unfolding flush_header
flush_header-IsReading p (into, mode, fine) = elim (Bool-cases p.header_gotval) [
  | inl got ↦ rw (got, mode) (_, refl, fine)
  | inr empty ↦ rw empty (into, mode, fine)
]

save_last_header-IsReading : (p : Parser) → IsReading p → IsReading (save_last_header p)
unfolding save_last_header
save_last_header-IsReading p r = checked-IsReading (flush_header p) (flush_header-IsReading p r)

module _ (os : Os) (io : Strategy os) where
  open os use {World}

  -- What read_reply leaves of a whole message that the parser does not mark.
  abbrev pub read_whole : World → Parser → List Round → Reading os io
  read_whole w p rest = record { world = w; parser = p; done = true; rest = rest; success = true }

  feed-partial :
      (es : List Event) (w : World) (p : Parser)
      → All IsPartial es
      → feed os io w p false es ≡ ((run os w p es).0, (run os w p es).1, false)
  unfolding feed run
  feed-partial [] w p partial = refl
  feed-partial (on_message_complete h ∷ es) w p (e, partial) = absurd e
  feed-partial (on_url at ∷ es) w p (e, partial) = feed-partial es _ _ partial
  feed-partial (on_header_field at ∷ es) w p (e, partial) = feed-partial es _ _ partial
  feed-partial (on_header_value at ∷ es) w p (e, partial) = feed-partial es _ _ partial
  feed-partial (on_body at ∷ es) w p (e, partial) = feed-partial es _ _ partial
  feed-partial (on_headers_complete ∷ es) w p (e, partial) = feed-partial es _ _ partial

  -- A whole message sets m_done, and its last call is the last.
  feed-Ends :
      (es : List Event) (h : Head) (w : World) (p : Parser) (done : Bool)
      → Ends h es
      → feed os io w p done es ≡ ((run os w p es).0, (run os w p es).1, true)
  unfolding feed run
  feed-Ends [] h w p done e = absurd e
  feed-Ends (on_message_complete k ∷ rest) h w p done (same, last) = rw last refl
  feed-Ends (on_url at ∷ rest) h w p done e = feed-Ends rest h _ _ done e
  feed-Ends (on_header_field at ∷ rest) h w p done e = feed-Ends rest h _ _ done e
  feed-Ends (on_header_value at ∷ rest) h w p done e = feed-Ends rest h _ _ done e
  feed-Ends (on_body at ∷ rest) h w p done e = feed-Ends rest h _ _ done e
  feed-Ends (on_headers_complete ∷ rest) h w p done e = feed-Ends rest h _ _ done e

  event-IsReading :
      (w : World) (p : Parser) (e : Event) → IsReading p → IsReading (handle_event os w p e).1
  unfolding handle_event complete save_last_header flush_header check_request add_url_fragment
      url_fragment add_body_fragment
  event-IsReading w p (on_url at) (into, mode, fine) = rw (mode, fine) (into, refl, refl)
  event-IsReading w p (on_header_field at) r = save_last_header-IsReading p r
  event-IsReading w p (on_header_value at) (into, mode, fine) = (into, mode, fine)
  event-IsReading w p (on_body at) (into, mode, fine) = rw (mode, fine) (_, refl, refl)
  event-IsReading w p on_headers_complete r = save_last_header-IsReading p r
  event-IsReading w p (on_message_complete h) (into, mode, fine) = rw mode (_, refl, fine)

  run-IsReading :
      (es : List Event) (w : World) (p : Parser) → IsReading p → IsReading (run os w p es).1
  unfolding run
  run-IsReading [] w p r = r
  run-IsReading (e ∷ es) w p r = run-IsReading es _ _ (event-IsReading w p e r)

  fine_result :
      (w : World) (p : Parser) (es : List Event) (n sz : ℕ)
      → IsReading p
      → n ≡ sz
      → is_ok (add_result n sz (run os w p es).1) ≡ true
  unfolding add_result
  fine_result w p es n sz r whole = rw (whole, (run-IsReading es w p r).2) (ground arith)

  -- A round whose bytes the library reads to their end.
  after_read-found :
      (w : World) (p : Parser) (es : List Event) (n : ℕ) (done : Bool) (b : ℕ) (bytes : Bytes)
      → IsReading p
      → n ≡ length (b ∷ bytes)
      → feed os io w p false es ≡ ((run os w p es).0, (run os w p es).1, done)
      → after_read os io w p (es, n) (some (b ∷ bytes))
        ≡ ((run os w p es).0, (run os w p es).1, done, true)
  unfolding after_read
  after_read-found w p es n done b bytes r whole fed =
      rw (fed, fine_result w p es n (length (b ∷ bytes)) r whole) refl

  -- The end of a round.
  abbrev next : ℤ → List Round → World × Parser × Bool × Bool → Option (Reading os io)
  next fd rounds (w, p, done, ok) =
      let stop = some (returned os io w p done rounds ok) in
      if ok then if done then stop else read_rounds os io w fd p rounds else stop

  read_found :
      (w : World) (fd : ℤ) (p : Parser) (es : List Event) (n : ℕ) (rounds : List Round)
      (done : Bool) (b : ℕ) (bytes : Bytes)
      → IsReading p
      → (io.safe_read w fd reply_buffer_size).1 ≡ some (b ∷ bytes)
      → n ≡ length (b ∷ bytes)
      → (let (w', p') = run os (io.safe_read w fd reply_buffer_size).0 p es in
          feed os io (io.safe_read w fd reply_buffer_size).0 p false es ≡ (w', p', done))
      → let (w', p') = run os (io.safe_read w fd reply_buffer_size).0 p es in
        read_rounds os io w fd p ((es, n) ∷ rounds) ≡ next fd rounds (w', p', done, true)
  unfolding read_rounds
  read_found w fd p es n rounds done b bytes r got whole fed =
      let w₁ = (io.safe_read w fd reply_buffer_size).0 in
      ap (λ x. next fd rounds (after_read os io w₁ p (es, n) x)) got
      ∙ ap (next fd rounds) (after_read-found w₁ p es n done b bytes r whole fed)

module _ (os : Os) (io : Strategy os) (laws : FileLaws os) (works : Works os) where
  open os use {World}

  -- Every read finds a byte or more, which the library reads to their end; what goes on before it
  -- ends leaves the file of the body that is being received alone.
  abbrev pub Delivered : World → ℤ → Parser → List Round → Type 0
  Delivered w fd p [] = Unit {0}
  Delivered w fd p ((es, n) ∷ rounds) =
      let (w₁, recvd) = io.safe_read w fd reply_buffer_size in
      let (w', p') = run os w₁ p es in
      ((b : ℕ) × (bytes : Bytes) × (recvd ≡ some (b ∷ bytes)) × (n ≡ length (b ∷ bytes)))
      × Quiet os laws works w w₁ (msg p.target).body
      × Delivered w' fd p' rounds

  pub Delivered-Readable :
      (w : World) (fd : ℤ) (p : Parser) (rounds : List Round)
      → Delivered w fd p rounds
      → Readable os io laws works fd reply_buffer_size w p (brought rounds)
  Delivered-Readable w fd p [] d = tt
  Delivered-Readable w fd p ((es, n) ∷ rounds) ((b, bytes, got, whole), quiet, d) =
      let (w', p') = run os (io.safe_read w fd reply_buffer_size).0 p es in
      (((b, bytes, got), quiet), Delivered-Readable w' fd p' rounds d)

  -- What read_reply makes of a message that is divided into reads: the parser gets them all, and no
  -- read follows the last one.
  pub read_rounds-Split :
      (h : Head) (rounds rest : List Round) (w : World) (fd : ℤ) (p : Parser)
      → IsReading p
      → Split h (brought rounds)
      → Delivered w fd p rounds
      → let (w', p') = rounds_run os io fd reply_buffer_size w p (brought rounds) in
        read_rounds os io w fd p (rounds ++ rest) ≡ some (read_whole os io w' p' rest)
  unfolding read_rounds rounds_run returned
  read_rounds-Split h [] rest w fd p r split d = absurd split
  read_rounds-Split h ((es, n) ∷ []) rest w fd p r split ((b, bytes, got, whole), quiet, d) =
      let w₁ = (io.safe_read w fd reply_buffer_size).0 in
      read_found os io w fd p es n rest true b bytes r got whole
        (feed-Ends os io es h w₁ p false split)
  read_rounds-Split h ((es, n) ∷ round ∷ rounds) rest w fd p r (partial, split)
        ((b, bytes, got, whole), quiet, d) =
      let w₁ = (io.safe_read w fd reply_buffer_size).0 in
      let (w', p') = run os w₁ p es in
      read_found os io w fd p es n (round ∷ rounds ++ rest) false b bytes r got whole
        (feed-partial os io es w₁ p partial)
      ∙ read_rounds-Split h (round ∷ rounds) rest w' fd p' (run-IsReading os io es w₁ p r) split d
