-- ===== src/Connection/Keeps.antt =====
-- What every call that a connection makes keeps of the world, exec() keeps of it.
pub mod Rounds
use libstutter.Common.{
  ℕ, zero, suc, ◌-◌, ◌≡◌, refl, ◌∙◌, Bool, true, false, List, [], ◌∷◌, Option, none, some, All,
  arith, length, drop, if◌then◌else◌, ◌+◌, Bool-cases, Option-cases, inl, inr,
}
use libstutter.Common.Int.{ℤ, is_pos, pos_part, eqb_ℤ}
use libstutter.Common.Bytes.{Bytes, codes}
use libstutter.Os.{Os, Read}
use libstutter.Io.{Strategy, write_rest, send_raw, sendfile_rest, send_buffered_body}
use libstutter.Body
use libstutter.Body.{
  Body, size_on_disk, buffer_on_disk, create_file, write_file, tmp_file_template, clear,
}
use libstutter.Message
use libstutter.Message.{add_rest, add_body}
use libstutter.Request
use libstutter.Request.{Request}
use libstutter.Reply
use libstutter.Reply.{Reply}
use libstutter.Parser.{
  Parser, Head, Event, on_url, on_header_field, on_header_value, on_body, on_headers_complete,
  on_message_complete, handle_event, add_body_fragment, msg, complete, is_too_large, note_answer,
}
use libstutter.Dispatcher
use libstutter.Dispatcher.{Dispatcher}
use libstutter.Connection.{
  Connection, Handler, State, ready_for_data, need_100_continue, io_error, parse_error,
  should_close, run_handler, answer, send_headers, send, renew, finish, process, deliver, on_event,
  feed, send_100_continue, Progress, halted, fault, going, turn, after_feed, after_read, exec_round,
  exec, close_old, close_asked, request_of, read_buffer_size, is_ok,
}

-- `P` is kept by the system calls on files and by the waits on `fd`.
pub record Keeps (os : Os) (io : Strategy os) (fd : ℤ) (P : os.World → Type 0) : Type 0 where
  pub keeps_write : (w : os.World) (out : ℤ) (p : Bytes) → P w → P (os.write w out p).0
  pub keeps_mkstemp : (w : os.World) (t : Bytes) → P w → P (os.mkstemp w t).0
  pub keeps_close : (w : os.World) (out : ℤ) → P w → P (os.close w out)
  pub keeps_unlink : (w : os.World) (name : Bytes) → P w → P (os.unlink w name)
  pub keeps_read : (w : os.World) (n : ℕ) → P w → P (io.safe_read w fd n).0
  pub keeps_safe_write : (w : os.World) (p : Bytes) → P w → P (io.safe_write w fd p).0
  pub keeps_sendfile :
      (w : os.World) (in_fd : ℤ) (offset count : ℕ)
      → P w
      → P (io.safe_sendfile w fd in_fd offset count).0

-- A handler that keeps it.
abbrev pub IsKeeper : (os : Os) (io : Strategy os) → (os.World → Type 0) → Handler os io → Type 0
IsKeeper os io P g = (w : os.World) (req : Request) (rep : Reply) → P w → P (g w req rep).0

module _ (os : Os) (io : Strategy os) (fd : ℤ) (P : os.World → Type 0)
    (keeps : Keeps os io fd P) where
  open os use {World}

  -- The one or the other.
  if-P : {B : Type 0} (t : Bool) (a b : World × B) → P a.0 → P b.0 → P (if t then a else b).0
  if-P true a b h k = h
  if-P false a b h k = k

  if_world : (t : Bool) (a b : World) → P a → P b → P (if t then a else b)
  if_world true a b h k = h
  if_world false a b h k = k

  clear-P : (w : World) (b : Body) → P w → P (clear os w b).0
  unfolding clear
  clear-P w b h =
      let closed = if_world (is_pos b.fd) (os.close w b.fd) w (keeps.keeps_close w b.fd h) h in
      if_world b.unlinks _ _ (keeps.keeps_unlink _ b.filename closed) closed

  add-P : (w : World) (b : Body) (p : Bytes) → P w → P (Body.add os w b p).0
  unfolding Body.add buffer_on_disk create_file write_file
  add-P w b p h = ground (
    arith,
    keeps.keeps_mkstemp w tmp_file_template h,
    keeps.keeps_write w b.fd p h,
    keeps.keeps_write (os.mkstemp w tmp_file_template).0 (os.mkstemp w tmp_file_template).1 p,
  )

  add_rest-P : (fuel : ℕ) (w : World) (b : Body) (p : Bytes) → P w → P (add_rest os fuel w b p).0
  unfolding add_rest
  add_rest-P zero w b p h = h
  add_rest-P (suc fuel) w b [] h = h
  add_rest-P (suc fuel) w b (c ∷ rest) h =
      let (w', b', added) = Body.add os w b (c ∷ rest) in
      let first = add-P w b (c ∷ rest) h in
      elim (Bool-cases (is_pos added)) [
        | inl taken ↦ rw taken (add_rest-P fuel w' b' (drop (pos_part added) (c ∷ rest)) first)
        | inr stopped ↦ rw stopped first
      ]

  handle_event-P : (w : World) (p : Parser) (e : Event) → P w → P (handle_event os w p e).0
  unfolding handle_event add_body_fragment add_body
  handle_event-P w p (on_body at) h =
      if-P (is_too_large p.error) _ _ h (add_rest-P (length at) w (msg p.target).body at h)
  handle_event-P w p (on_url at) h = h
  handle_event-P w p (on_header_field at) h = h
  handle_event-P w p (on_header_value at) h = h
  handle_event-P w p on_headers_complete h = h
  handle_event-P w p (on_message_complete k) h = h

  write_rest-P : (fuel : ℕ) (w : World) (p : Bytes) → P w → P (write_rest os io fuel w fd p).0
  unfolding write_rest
  write_rest-P zero w p h = h
  write_rest-P (suc fuel) w [] h = h
  write_rest-P (suc fuel) w (c ∷ rest) h =
      let (w', ret) = io.safe_write w fd (c ∷ rest) in
      let first = keeps.keeps_safe_write w (c ∷ rest) h in
      if-P (is_pos ret) _ _ (write_rest-P fuel w' (drop (pos_part ret) (c ∷ rest)) first) first

  sendfile_rest-P :
      (fuel : ℕ) (w : World) (in_fd : ℤ) (offset remain : ℕ)
      → P w
      → P (sendfile_rest os io fuel w fd in_fd offset remain).0
  unfolding sendfile_rest
  sendfile_rest-P zero w in_fd offset remain h = h
  sendfile_rest-P (suc fuel) w in_fd offset zero h = h
  sendfile_rest-P (suc fuel) w in_fd offset (suc remain) h =
      let (w', sent, moved) = io.safe_sendfile w fd in_fd offset (suc remain) in
      let first = keeps.keeps_sendfile w in_fd offset (suc remain) h in
      if-P (is_pos sent) _ _
        (sendfile_rest-P fuel w' in_fd (moved + pos_part sent) (suc remain - pos_part sent) first)
        first

  send_buffered_body-P : (w : World) (b : Body) → P w → P (send_buffered_body os io w fd b).0
  unfolding send_buffered_body
  send_buffered_body-P w b h =
      if-P (is_pos b.fd) _ _ (sendfile_rest-P (size_on_disk b) w b.fd 0 (size_on_disk b) h) h

  send_raw-P : (w : World) (p : Bytes) → P w → P (send_raw os io w fd p).0
  unfolding send_raw
  send_raw-P w p h = write_rest-P (length p) w p h

  send_100_continue-P :
      (w : World) (c : Connection) → c.fd ≡ fd → P w → P (send_100_continue os io w c).0
  unfolding send_100_continue
  send_100_continue-P w c same h = rw same (send_raw-P w (codes "HTTP/1.1 100 Continue\r\n\r\n") h)

  send-P : (w : World) (c : Connection) (r : Reply) → c.fd ≡ fd → P w → P (send os io w c r).0
  unfolding send send_headers
  send-P w c r same h =
      let out = (Reply.prepare r).message.output in
      let sent = send_raw-P w out h in
      rw same (
        if-P (send_raw os io w fd out).1 _ _
          (send_buffered_body-P _ (Reply.prepare r).message.body sent) sent)

  renew-P : (w : World) (c : Connection) → P w → P (renew os io w c).0
  unfolding renew Request.reset Reply.reset Message.reset
  renew-P w c h =
      clear-P _ c.reply.message.body (clear-P w (request_of c.parser.target).message.body h)

  finish-P : (w : World) (c : Connection) → c.fd ≡ fd → P w → P (finish os io w c).0
  unfolding finish
  finish-P w c same h =
      let sent = send-P w c c.reply same h in
      elim (Bool-cases (send os io w c c.reply).1) [
        | inl out ↦ rw out (renew-P _ (record c { reply = Reply.prepare c.reply }) sent)
        | inr broken ↦ rw broken sent
      ]

  fd-finish : (w : World) (c : Connection) → (finish os io w c).1.fd ≡ c.fd
  unfolding finish renew
  fd-finish w c = ground arith
