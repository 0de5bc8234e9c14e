-- ===== src/Connection/Answer.antt =====
-- What a client is answered.
use libstutter.Common.{
  ◌≡◌, refl, ◌≢◌, ap, true, false, [], none, some, arith, Option-cases, inl, inr, ◌⊎◌, Bool-cases,
}
use libstutter.Common.Bytes.{eq_bytes, eq_bytes_refl, eq_bytes→eq, fold_case}
use libstutter.Dispatcher
use libstutter.Dispatcher.{Dispatcher}
use libstutter.Dispatcher.Laws.{get_total}
use libstutter.Message.{get_header, connec, close}
use libstutter.Message.Laws.{get_header-add_header}
use libstutter.Request.{Request}
use libstutter.Reply.{Reply}
use libstutter.Io.{Strategy}
use libstutter.Os.{Os}
use libstutter.Connection.{
  Connection, should_close, Handler, is_ok, answer, is_http_1_0, asks_close, say_close, close_old,
  close_asked, finish, process, request_of,
}

-- The connection is to end, and its reply tells the client.
abbrev pub SaysClose : Connection → Type 0
SaysClose c = (c.state ≡ should_close) × (get_header c.reply.message connec ≡ close)

module _ (os : Os) (io : Strategy os) where
  open os use {World}

  answer_total :
      (w : World) (c : Connection) (d : Dispatcher (Handler os io)) (h : Handler os io)
      → answer os io w c (Dispatcher.add d [] h).0 ≢ none
  unfolding answer
  answer_total w c d h =
      let (g, found) = get_total d (request_of c.parser.target).url h in
      elim (Bool-cases (is_ok c.parser.error)) [
        | inl good ↦ rw (good, answer, found) (λ e. cc)
        | inr marked ↦ rw (marked, answer) (λ e. cc)
      ]

  process-some :
      (w : World) (c : Connection) (d : Dispatcher (Handler os io)) (r : World × Connection)
      → answer os io w c d ≡ some r
      → process os io w c d ≡ some (finish os io r.0 (close_asked (close_old r.1)))
  unfolding process
  process-some w c d r e = rw (e, process)

  -- For every router to which a route "" has been added, process() ends without a call of the null
  -- handler.
  pub process_total :
      (w : World) (c : Connection) (d : Dispatcher (Handler os io)) (h : Handler os io)
      → process os io w c (Dispatcher.add d [] h).0 ≢ none
  process_total w c d h e = elim (Option-cases (answer os io w c (Dispatcher.add d [] h).0)) [
    | inl fault ↦ answer_total w c d h fault
    | inr (r, found) ↦ cc (process-some w c (Dispatcher.add d [] h).0 r found)
  ]

said : (r : Reply) → get_header (say_close r).message connec ≡ close
unfolding say_close
said r = rw (get_header-add_header r.message connec close connec, eq_bytes_refl (fold_case connec))

said_old : (c : Connection) → is_http_1_0 c.head ≡ true → SaysClose (close_old c)
unfolding close_old
said_old c old = rw old (refl, said _)

said_asked :
    (c : Connection) → asks_close (request_of c.parser.target) ≡ true → SaysClose (close_asked c)
unfolding close_asked
said_asked c asked = rw asked (refl, said _)

said_before : (c : Connection) → SaysClose c → SaysClose (close_asked c)
unfolding close_asked
said_before c s = elim (Bool-cases (asks_close (request_of c.parser.target))) [
  | inl asked ↦ rw asked (refl, said _)
  | inr not_asked ↦ rw not_asked s
]

close_old-parser : (c : Connection) → (close_old c).parser ≡ c.parser
unfolding close_old
close_old-parser c = ground arith

close_old_kept : (c : Connection) → is_http_1_0 c.head ≡ false → close_old c ≡ c
unfolding close_old
close_old_kept c new = rw new

close_asked_kept :
    (c : Connection) → asks_close (request_of c.parser.target) ≡ false → close_asked c ≡ c
unfolding close_asked
close_asked_kept c not_asked = rw not_asked

not_close : (r : Request) → asks_close r ≡ false → get_header r.message connec ≢ close
unfolding asks_close
not_close r h e = cc (ap (λ v. eq_bytes v close) e, eq_bytes_refl close)

is_close : (r : Request) → asks_close r ≡ true → get_header r.message connec ≡ close
unfolding asks_close
is_close r h = eq_bytes→eq _ _ h

-- A connection ends after its reply when the request came in HTTP 1.0 or its Connection header is
-- the text "Close", in this spelling only, and the reply then says so; otherwise nothing changes.
pub closes_exactly :
    (c : Connection)
    → (SaysClose (close_asked (close_old c))
        × ((is_http_1_0 c.head ≡ true)
            ⊎ (get_header (request_of c.parser.target).message connec ≡ close)))
      ⊎ ((close_asked (close_old c) ≡ c)
          × (is_http_1_0 c.head ≡ false)
          × (get_header (request_of c.parser.target).message connec ≢ close))
closes_exactly c = elim (Bool-cases (is_http_1_0 c.head)) [
  | inl old ↦ inl (said_before (close_old c) (said_old c old), inl old)
  | inr new ↦ elim (Bool-cases (asks_close (request_of c.parser.target))) [
    | inl asked ↦ inl (
      rw (close_old_kept c new) (said_asked c asked),
      inr (is_close (request_of c.parser.target) asked),
    )
    | inr not_asked ↦ inr (
      rw (close_old_kept c new) (close_asked_kept c not_asked),
      new,
      not_close (request_of c.parser.target) not_asked,
    )
  ]
]
