-- ===== src/Wire/Again.antt =====
-- A connection after a request that it has answered.
use libstutter.Common.{◌≡◌, ◌≢◌, refl, true, false, [], arith, ◌⊎◌, inl, inr, Bool-cases}
use libstutter.Os.{Os}
use libstutter.Io.{Strategy}
use libstutter.Body
use libstutter.Body.{Body, new_body}
use libstutter.Message
use libstutter.Request
use libstutter.Request.{Request, new_request}
use libstutter.Reply.{Reply}
use libstutter.Parser.{Head, request, reset, note_answer}
use libstutter.Connection.{
  Connection, Handler, io_error, send, finish, renew, close_old, close_asked, request_of,
}
use libstutter.Wire.Pieces.{at_name}
use libstutter.Wire.Content.{IsTidy}
use libstutter.Wire.Served.{handled, reply_sent}

unsent : false ≢ true
unsent e = cc

closing-parser : (c : Connection) → (close_asked (close_old c)).parser ≡ c.parser
unfolding close_asked close_old
closing-parser c = ground arith

module _ (os : Os) (io : Strategy os) where
  open os use {World}

  -- A body that is cleared is a new one.
  clear-new_body : (w : World) (b : Body) → IsTidy b → (Body.clear os w b).1 ≡ new_body
  unfolding Body.clear
  clear-new_body w b (inl file) = rw file refl
  clear-new_body w b (inr no_file) = rw no_file refl

  finish_waits :
      (w : World) (c : Connection)
      → IsTidy (request_of c.parser.target).message.body
      → (finish os io w c).2 ≡ true
      → (finish os io w c).1.parser ≡ reset (request new_request)
  unfolding finish renew Request.reset Message.reset
  finish_waits w c tidy sent =
      let cleared =
        clear-new_body (send os io w c c.reply).0 (request_of c.parser.target).message.body tidy in
      elim (Bool-cases (send os io w c c.reply).1) [
        | inl out ↦ rw (out, cleared) refl
        | inr broken ↦ absurd (unsent (rw broken at sent))
      ]

  finish_broken :
      (w : World) (c : Connection)
      → (finish os io w c).2 ≡ false
      → (finish os io w c).1.state ≡ io_error
  unfolding finish
  finish_broken w c broken = ground arith

  -- After a request that it has answered a connection either could not send the reply, and then its
  -- state is ST_IO_ERROR, or it waits for the next request as a new connection does: the parser has no
  -- mark, and its request is a new one without a body. It is supposed that the body of the request
  -- has a file of its own or none, and that the handler leaves it so.
  pub handled_waits :
      (w : World) (c : Connection) (g : Handler os io) (h : Head) (r : Request)
      → IsTidy r.message.body
      → ((w' : World) (req : Request) (rep : Reply)
          → IsTidy req.message.body
          → IsTidy (g w' req rep).1.message.body)
      → ((reply_sent os io w c g h r ≡ false) × ((handled os io w c g h r).1.state ≡ io_error))
        ⊎ ((reply_sent os io w c g h r ≡ true)
            × ((handled os io w c g h r).1.parser ≡ reset (request new_request)))
  unfolding note_answer
  handled_waits w c g h r tidy keeps =
      let (w', req, rep) = g w r c.reply in
      let answered = record c { parser = at_name (request req) []; reply = rep; head = h } in
      let c' = close_asked (close_old answered) in
      let own = keeps w r c.reply tidy in
      elim (Bool-cases (finish os io w' c').2) [
        | inl sent ↦
            inr (sent, rw sent (finish_waits w' c' (rw (closing-parser answered) own) sent))
        | inr broken ↦ inl (broken, finish_broken w' c' broken)
      ]
