-- ===== src/Client/Whole.antt =====
-- A reply that arrives in reads of its own, at Client::read_reply.
use mathlib.Core.Option
use libstutter.Common.{◌≡◌, refl, List, [], map, some, sym, ap, ◌∙◌, ◌++◌}
use mathlib.Core.Path.{subst}
use libstutter.Common.Bytes.{Bytes, fold_case}
use libstutter.OrderedMap.{find}
use libstutter.Body.{new_body}
use libstutter.Body.Content.{FileLaws}
use libstutter.Message.{get_header}
use libstutter.Message.Laws.{HasSortedHeaders, Works}
use libstutter.Reply
use libstutter.Reply.{Reply}
use libstutter.Parser.{response, Head, reset}
use libstutter.Parser.Headers.{concat}
use libstutter.Io.{Strategy}
use libstutter.Os.{Os}
use libstutter.Client.{Client, Round, read_reply, reply_buffer_size}
use libstutter.Client.Reads.{brought, Delivered, Delivered-Readable, read_whole, read_rounds-Split}
use libstutter.Wire.{Cut, header_of, message_events}
use libstutter.Wire.Pieces.{at_name}
use libstutter.Wire.Content.{Kept}
use libstutter.Wire.Requests.{new_body-Kept}
use libstutter.Wire.Replies.{reply_received}
use libstutter.Wire.Served.{Ends, message_events-Ends}
use libstutter.Wire.Rounds.{Divides, flatten-Split, rounds_run, rounds_run-same}

module _ (os : Os) (io : Strategy os) (laws : FileLaws os) (works : Works os) where
  open os use {World}

  pub empty_reply-Kept :
      (w : World) (into : Reply)
      → into.message.body ≡ new_body
      → Kept os laws works w into.message.body []
  empty_reply-Kept w into empty =
      subst (λ b. Kept os laws works w b []) (sym empty) (new_body-Kept os laws works w)

  -- read_reply() on a reply that arrives in one read or in several, divided in any way: it returns
  -- true, m_done is set, no other read takes place, and the reply has the status that the library
  -- reports, the body that it reports behind the one that the reply had, every header that the
  -- server sent under every spelling of its name, and its other headers as they were. The library
  -- reports the headers that were sent and reads what it is given to the end, the headers of the
  -- server are in order, the last read brings a call, and every read finds a byte or more and
  -- leaves open and as it is the temporary file, if any, of the body that is being received; what
  -- is done on other descriptors meanwhile does not matter.
  -- It is supposed that temporary files can be made, and written while they are open.
  pub reply_read :
      (w : World) (c : Client) (r into : Reply) (cuts : List Cut) (parts : List Bytes) (h : Head)
      (rounds rest : List Round) (known : Bytes)
      → HasSortedHeaders r.message
      → map header_of cuts ≡ (Reply.prepare r).message.headers
      → Kept os laws works w into.message.body known
      → Divides (brought rounds) (message_events [] cuts parts h)
      → Delivered os io laws works w c.fd (reset (response into)) rounds
      → (w' : World) × (got : Reply) × (read_reply os io w c into (rounds ++ rest)
          ≡ some (read_whole os io w' (at_name (response got) []) rest))
        × (got.code ≡ h.status_code)
        × Kept os laws works w' got.message.body (known ++ concat parts)
        × ((name : Bytes)
            → get_header got.message name
              ≡ Option.get_or
                  (find fold_case name (Reply.prepare r).message.headers)
                  (get_header into.message name))
  unfolding read_reply get_header reset
  reply_read w c r into cuts parts h rounds rest known sorted heads had d arrives =
      let es = message_events [] cuts parts h in
      let p = reset (response into) in
      let (w₁, one, parsed, status, kept, found) =
        reply_received os laws works w r into cuts parts h known sorted heads had in
      let split =
        flatten-Split h (brought rounds) d.last
          (subst (Ends h) (sym d.joined) (message_events-Ends [] cuts parts h)) in
      let looped =
        read_rounds-Split os io laws works h rounds rest w c.fd p (into, refl, refl) split
          arrives in
      let (b, same, held) =
        rounds_run-same os io laws works c.fd reply_buffer_size w w₁ p _ (brought rounds) es known
          (known ++ concat parts) d.joined
          (Delivered-Readable os io laws works w c.fd p rounds arrives) had parsed kept in
      let w' = (rounds_run os io c.fd reply_buffer_size w p (brought rounds)).0 in
      (
        w',
        record one { message = record one.message { body = b } },
        looped ∙ ap (λ q. some (read_whole os io w' q rest)) same,
        status,
        held,
        found,
      )
