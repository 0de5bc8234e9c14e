-- ===== src/Examples/Loop.antt =====
-- The event loop with one client.
use libstutter.Common.{List, ◌≡◌, refl, ◌≢◌, ◌↔◌, true, false, [], ◌∷◌, ℕ, none, some, All, length}
use libstutter.Common.Int.{ℤ, pos}
use libstutter.Common.Bytes.{Bytes, codes}
use libstutter.Os.{Os}
use libstutter.Io.{Strategy, blocking}
use libstutter.Parser.{request, Event, on_url, Head, http_get}
use libstutter.Connection
use libstutter.Connection.{Connection, Handler, ready_for_data, io_error}
use libstutter.Coroutine
use libstutter.Server
use libstutter.Server.Loop.{
  Plan, Session, new_session, Loop, no_connections, has, on_possible_accept, on_connection_event,
  settle, resume_at, accepted, fired, Reach, here, next,
}
use libstutter.Server.Loop.Invariant.{IsLoop, never_dangling}
use libstutter.Server.Loop.Served.{Proper, IsExec, live_iff}
use libstutter.Examples.Toy.{toy, finite}
use libstutter.Request.{new_request, add_url_fragment}
use libstutter.Reply.{new_reply}
use libstutter.Dispatcher
use libstutter.Dispatcher.{Dispatcher}
use libstutter.Io.{Need, need_read, halt, yielding}
use libstutter.Parser
use libstutter.Connection.Waits.{traced, waiting_io}
use libstutter.Server.Loop.Ends.{fire_all, fire_all-deletes}
use libstutter.Server.Loop.Exec.{plan_of, exec_plan, exec_plan-Proper}

-- The small system, with an event loop that takes every event.
abbrev taking : Os
taking = record toy { event_add = λ w fd for_write. (w, pos 0) }

abbrev taking_io : Strategy taking
taking_io = blocking taking

-- A connection that waits to read, to write and to read once more.
abbrev three_waits : Connection → Plan
three_waits c = record {
  yields = pos 0 ∷ pos 1 ∷ pos 0 ∷ [];
  watches = pos 10 ∷ pos 10 ∷ pos 10 ∷ [];
  result = pos 2;
  last = c;
}

abbrev three_waits-IsExec : IsExec three_waits
three_waits-IsExec c = (((false, refl), ((true, refl), ((false, refl), tt))), refl)

abbrev some_head : Head
some_head = record {
  method = http_get;
  status_code = pos 0;
  http_major = pos 1;
  http_minor = pos 1;
}

abbrev after_accept : Loop
after_accept =
    (on_possible_accept taking taking_io [] no_connections (pos 3) some_head three_waits).1

accept_reached : Reach taking taking_io IsExec no_connections after_accept
accept_reached = next here (accepted [] (pos 3) some_head three_waits three_waits-IsExec refl)

-- Its descriptor can be read.
abbrev after_event : Loop
after_event = elim (on_connection_event taking taking_io [] after_accept 0) [
  | none ↦ no_connections
  | some (w, l) ↦ l
]

event_reached : Reach taking taking_io IsExec no_connections after_event
unfolding has on_possible_accept resume_at settle Server.resume Coroutine.resume
    Coroutine.new_coroutine Coroutine.run_on Server.register_connection on_connection_event
event_reached = next accept_reached (fired [] [] 0 refl refl)

never_dangling_example :
    IsLoop after_event
    × ((w : Bytes) (i : ℕ)
        → has i after_event.events ≡ true
        → on_connection_event taking taking_io w after_event i ≢ none)
never_dangling_example = never_dangling taking taking_io IsExec after_event event_reached

live_iff_example : (after_event.live 0 ≢ none) ↔ (has 0 after_event.events ≡ true)
live_iff_example = live_iff taking taking_io (λ w fd b. refl) after_event 0 event_reached

-- A connection to which one byte comes before the end of the stream, and no route.
abbrev short_lived : Connection
short_lived = record {
  fd = pos 7;
  parser = Parser.reset (request new_request);
  reply = (new_reply toy []).1;
  head = some_head;
  state = ready_for_data;
}

abbrev idle : Bytes → Need → ℤ → Bytes
idle w need fd = w

abbrev no_routes : Dispatcher (Handler (traced finite) (waiting_io finite idle))
no_routes = record { handlers = [] }

abbrev two_reads : List (List Event)
two_reads = (on_url (codes "/a") ∷ []) ∷ [] ∷ []

abbrev seen : Connection
seen = record short_lived {
  parser = Parser.reset (request (record new_request { url = codes "/a" }));
  state = io_error;
}

abbrev two_waits : Plan
two_waits = plan_of ((need_read, pos 7) ∷ (need_read, pos 7) ∷ []) halt seen

exec_plan-Proper_example :
    Proper two_waits
    × All (λ d. d ≡ pos 7) two_waits.watches
    × (length two_waits.watches ≡ length two_waits.yields)
unfolding exec_plan Dispatcher.get waiting_io yielding Connection.exec Connection.exec_round
    Connection.after_feed Connection.feed Connection.on_event Connection.turn Parser.handle_event
    Parser.add_url_fragment Parser.url_fragment Parser.reset add_url_fragment
exec_plan-Proper_example =
    exec_plan-Proper finite idle (codes "x") no_routes two_reads short_lived two_waits
      (λ url g e. cc) refl

-- The connection above, which has one more wait before it.
abbrev last_wait : Session
last_wait = elim (after_event.live 0) [
  | none ↦ new_session short_lived (three_waits short_lived)
  | some s ↦ s
]

fire_all-deletes_example :
    (l' : Loop) × (fire_all taking taking_io ([] ∷ [] ∷ []) after_event 0 ≡ some l')
    × Reach taking taking_io IsExec no_connections l'
    × (l'.live 0 ≡ none)
unfolding has on_possible_accept resume_at settle Server.resume Coroutine.resume
    Coroutine.new_coroutine Coroutine.run_on Server.register_connection on_connection_event
fire_all-deletes_example =
    fire_all-deletes taking taking_io (λ w fd b. refl) ([] ∷ [] ∷ []) after_event 0 last_wait
      event_reached refl refl
