-- ===== src/Handlers.antt =====
-- stutter/handlers: the handlers that come with the library, as changes to the reply.
use libstutter.Common.Int.{ℤ, to_int16}
use libstutter.Common.Bytes.{Bytes}
use libstutter.Reply
use libstutter.Reply.{Reply}
use libstutter.Request.{Request}

-- ErrorHandler: a fixed status.
pub record ErrorHandler : Type 0 where
  pub status : ℤ
  pub msg : Bytes

-- ErrorHandler::handle, which does not look at the request; set_status takes the int as a short.
unfoldable pub handle_error : ErrorHandler → Request → Reply → Reply
handle_error h req reply = Reply.set_status reply (to_int16 h.status) h.msg

-- FileHandler::handle, whose body is a comment.
unfoldable pub handle_file : Request → Reply → Reply
handle_file req reply = reply
