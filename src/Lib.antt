-- ===== src/Lib.antt =====
-- mapepire-rs is an asynchronous client for the Mapepire daemon of IBM i: SQL and CL over JSON
-- messages on a WebSocket. This library models its logic and proves what holds of it.
--
-- The parts of the program and how they interact. A `Job` (src/job.rs) is one connection. Each of
-- its calls takes an id from an `IdAllocator` (src/protocol/codec.rs), makes a `Request`
-- (src/protocol/request.rs) and hands it to the dispatcher task (src/transport/dispatcher.rs), which
-- writes it, keeps the caller under the id, decodes the frames that come in
-- (src/protocol/decode.rs, response.rs) and gives each caller its response. Results are `Rows`, read
-- to the end by a paging stream (src/query.rs). A `Pool` (src/pool) routes each request to a
-- connection by the counters of the dispatchers, and lends a connection as a `Reserved` for a
-- transaction.
--
-- The files:
--   Prelude       names of the libraries, Boolean tests, lists, wrapping counters, texts, Result
--   Error         src/error.rs, src/job_helpers.rs
--   Config        src/config.rs: DaemonServer and its builder
--   Debug         what `{:?}` shows: src/config.rs and src/password.rs, and Requests for
--                 src/protocol/request.rs, with Faithful on it
--   Protocol      Json and Serde: serde_json's values and the decoders that serde derives;
--                 Request, Params: src/protocol/request.rs; Ids: src/protocol/codec.rs;
--                 Response: src/protocol/response.rs; Decode: src/protocol/decode.rs;
--                 Encode: the serde derives of request.rs and response.rs; Rendering: the texts
--                 that serde and Debug produce, a record of parameters; RoundTrip, NamedRows,
--                 TerseRows, Frames, Results: theorems on encodings, rows, frames and results
--   Transport     Kinds, Remap and Dispatcher: src/transport/dispatcher.rs, whose loop `run` is
--                 the function `step` over the events that its `select!` sees, and
--                 Dispatcher/Spec what it promises, a relation on maps from ids to callers, and
--                 Dispatcher/Shared its counter with the stores of `Reserved`;
--                 Exchange: `send` from its call to its return, with a daemon at the other end;
--                 Handshake and Upgrade: src/transport/handshake.rs; Tls: src/transport/tls.rs,
--                 Connect over rustls and Native over native-tls; Socket:
--                 src/transport/socket.rs
--   Client        a connection as the calls see it: the allocator and the requests sent; the
--                 daemon is a function from the session and a request to the answer
--   Query         Options, Rows, Statement, Stream: src/query.rs and src/from_row.rs;
--                 Stream/Ending: the end of a stream and the pages that lead to it
--   Job           src/job.rs; Outcome: ClOutcome; Execute, Prepared, Batch, Acks, Ping:
--                 theorems
--   Pool          Registry: src/pool/routing.rs; Routing, Calls, Reaper, Logging:
--                 src/pool/runtime.rs; Reserved: src/pool/reserved.rs and its part of
--                 src/executor.rs; Executor: the rest of it; Builder: src/pool/builder.rs;
--                 Manager: src/pool/manager.rs; Calls/Traffic and Calls/Isolation: the
--                 registry under any traffic, and the connection that is held meanwhile
--   Tests         concrete instances
--
-- State is passed explicitly: `Dispatcher`, `Session`, `StreamState`, `Pool` and `Reserved` are the
-- structs of the source with what their operations change. A caller's oneshot channel is a number,
-- and a sender that is dropped is a reply `dropped`. Atomic counters are numbers below 2^32 or 2^64
-- that wrap as `fetch_add` and `fetch_sub` do. A time is a number of nanoseconds, an f64 the JSON
-- number that it came as. A `HashMap` is an association list, whose order a drain follows.
-- Destructors that send are written out where a value is dropped. `run` alone has the dispatcher as
-- the only writer of its counter.
--
-- Bounds and fuel: the collection of a stream takes fuel for its polls. Each poll but the last yields
-- a row, so one more than the number of rows is enough. The decimal form of a number takes one more
-- than the number, which has no more digits than that. Every other function is structurally recursive.
--
-- Parameters: the parser of JSON texts, the texts of errors, the daemon, deadpool's checkout and
-- return, rustls, native-tls and TCP (records of functions; what a theorem needs of them is a
-- hypothesis of it), base64, tungstenite, the clock, and the reader of a typed row.
--
-- Not modelled: the wiping of passwords in src/password.rs, the layout of Debug texts, `set_nodelay`,
-- src/observability.rs, tracing and metrics but for what a span records of parameters, the capacity
-- of channels, the elapsed times of calls, and what happens without a Tokio runtime, where
-- best-effort sends are skipped. A scan of the registry sees one value of each counter, and serde
-- reports the first fault in declaration order.
pub mod Prelude
pub mod Error
pub mod Config
pub mod Debug
pub mod Protocol
pub mod Transport
pub mod Client
pub mod Query
pub mod Job
pub mod Pool
pub mod Tests
