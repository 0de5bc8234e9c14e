-- ===== src/Wire/Exchange.antt =====
-- A request and its reply, from a client to the handler of a server and back.
use libstutter.Common.{[]}
use libstutter.Os.{Os}
use libstutter.Io.{Strategy}
use libstutter.Dispatcher.{Dispatcher}
use libstutter.Request.{Request}
use libstutter.Reply.{Reply}
use libstutter.Parser.{Parser, request, Head}
use libstutter.Connection.{Connection, Handler, close_old, close_asked}
use libstutter.Client.{Client}
use libstutter.Wire.Pieces.{at_name}

module _ (os : Os) (io : Strategy os) where
  open os use {World}

  -- The reply that the connection sends after the handler `g`.
  abbrev pub outgoing : World → Connection → Handler os io → Head → Request → Reply
  outgoing w c g h r =
      let (w', req, rep) = g w r c.reply in
      let answered = record c { parser = at_name (request req) []; reply = rep; head = h } in
      (close_asked (close_old answered)).reply
