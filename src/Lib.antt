-- ===== src/Lib.antt =====
-- libstutter is an event-driven HTTP server and client library in C++. A Server accepts connections and
-- resumes them from a libevent loop; each connection is a coroutine that reads bytes, hands them to the
-- http-parser library, whose callbacks build a request, asks the router for a handler, and sends the
-- reply that the handler has filled in. A Client sends a request over a pooled socket and reads the
-- reply with the same parser.
--
-- Common: shared names and tests, lists by native numbers (Common/Lists), int and long as signed
--   numbers (Common/Int), std::string as a list of bytes with its orders (Common/Bytes).
-- OrderedMap, IntSet: std::map and std::set<int> as ordered lists.
-- Os: the system calls, libevent and the user database, as functions of a state of the world. They are
--   parameters of every definition that calls them; what POSIX says of them is stated in records of laws
--   (Io/Stream, Io/File, Body/Content, Message/Laws).
-- Io: stutter/io, the strategies and the loops of send_raw and send_buffered_body. Their fuel is the
--   number of bytes, of which each round sends one or more. A yielding strategy is given what the rest of
--   the world does before it is resumed.
-- Body, Message, Query, Search, Decimal, Request, Reply: stutter/http/body, message, request and reply.
--   A body is a buffer and the descriptor of a file; sizes are below 2^64. The loop over a query string
--   has the length of the URL as fuel, since the position grows in each round; that of add_body has the
--   number of bytes.
-- Parser: stutter/http/parser. The calls of the http-parser library are an argument, any list of Event;
--   of the state of the library only the kind of message that http_parser_init was given is kept.
-- Handlers, Dispatcher: stutter/handlers and stutter/dispatcher.
-- Connection: stutter/http/connection. process() is a function of the world and the connection, in the
--   steps answer, close_old, close_asked and finish; exec() runs over a list that holds the library's
--   calls for each read, and ends with the Need that the source returns there. A null handler is the
--   result `none`.
-- Pool, PoolManager: stutter/pool. The reference that get_pool returns is an entry of the map, which
--   set_pool writes. Pool/Ledger is the contract of a pool, a ledger without its sets.
-- Client: stutter/http/client, over a list that holds the library's calls and result for each read;
--   send() is `none` when it reads on after the last of them. The PoolManager is one object of the
--   process, so send() is given what other coroutines do to it between its connect() and the return of
--   its socket. Client/Twice is about a request that is sent a second time.
-- Coroutine: stutter/coroutine, for a body given by the values that it yields and returns.
-- Wire: a message as the http-parser library reports it, cut anywhere, from the object that one side has
--   prepared to the object that the other side gets, and on to the handler; in one read or, with
--   Wire/Reads, Wire/Rounds, Wire/Exec, Wire/Session and Client/Reads, in any number of reads, between
--   which the rest of the world goes on, other sockets and files included, but leaves alone the
--   temporary file of the body that is received. Wire/Exchange and Client/Exchange are a request and
--   its reply.
-- Server: stutter/server. Server/Loop: its two callbacks, on the objects that have not been deleted and
--   the events that are pending; the loop is a relation whose steps libevent chooses. What exec() does
--   between two yields is an argument (a Plan), and so is the world of each step; Server/Loop/Exec
--   makes such a plan of a run of exec() by the waits that Connection/Waits records. Log: stutter/log.
-- Examples: a small operating system on which the laws hold, and an instance of each theorem.
--
-- Not modelled: the copy of http-parser in stutter/http/joyent and libevent, which are other projects;
-- ucontext and the stacks of coroutines; log messages; memory that is leaked or freed twice, but for the
-- connections of Server/Loop; the branches for Apple and BSD; the programs in tests; the abstract classes without code.
pub mod Common
pub mod OrderedMap
pub mod Os
pub mod IntSet
pub mod Dispatcher
pub mod Pool
pub mod PoolManager
pub mod Decimal
pub mod Body
pub mod Message
pub mod Search
pub mod Query
pub mod Request
pub mod Reply
pub mod Handlers
pub mod Parser
pub mod Io
pub mod Connection
pub mod Client
pub mod Wire
pub mod Coroutine
pub mod Log
pub mod Server
pub mod Examples
