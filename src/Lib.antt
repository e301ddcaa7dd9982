-- ===== src/Lib.antt =====
-- navar, an HTTP client that is composed of a transport (how bytes travel), an application protocol (how
-- requests are spoken) and a runtime. This library models its core and the logic of its plugins.
--
-- A request goes this way. `Client` (src/lib.rs) starts a `BoundRequestBuilder` (src/bound_request.rs,
-- src/bound_request/json.rs); sending it normalises the body and runs the `Pipeline` (src/service.rs),
-- whose innermost service is `BaseService` (src/base_service.rs). That keeps a pool of sessions by
-- authority, and opens a missing one through the plugins. The helpers of the response
-- (src/response_helpers.rs, src/response_helpers/sse.rs and ndjson.rs) read its normalised body.
--
-- Files:
--   Base: shared names, lists and tests over the native numbers, `Result`, `Poll`, the binds.
--   Std: of Rust's standard library, `VecDeque` as a ring of two runs, UTF-8, and functions of `str`.
--   Buf, Body, Http: the crates bytes, http_body and http, as interfaces with their documented laws. A
--     body is the sequence of the answers that it gives to one poll after another.
--   Lines: the code that the two streams share. `read_frame`, `scan` and `extract_line` are the loops and
--     the slice copies of `append_frame`.
--   Reader: what both streams promise, as a machine with no buffers, and a task that polls a stream;
--     Reader/Failing cuts a body that fails into the runs of bytes between its errors, and Reader/Wakes is
--     about polls that are not ready, and the end.
--   Sse, Ndjson: `SseStream` and `NdjsonStream`, field by field, with `new`, `append_frame` and
--     `poll_next`; the children state the reference (Sse/View, Lines/Split), the format that a server
--     writes (Sse/Format), and the proofs; Sse/Failing and Ndjson/Failing are about bodies that fail
--     on the way.
--   Request, Client, Service, Normalize, Response: src/bound_request.rs with json.rs, src/lib.rs,
--     src/service.rs, the normalisation of bodies, and src/response_helpers.rs. Client/Pooled is the client
--     that `Client::new` makes over the pool, and Client/Streams follows a request through it to a stream
--     of its response.
--   Pool: `BaseService::handle`, a function by clauses for each of its steps; the world is the list of
--     the effects so far. Pool/Tasks is the same function as tasks that run at the same time: a task goes
--     from one await to the next, any free thread may take any task, the lock of a shard of the map is
--     part of the state, and a future may be dropped where it waits. Pool/Tasks/Alone joins the two.
--     Pool/Origin and Pool/Tasks/Origin say where sessions come from, Pool/Failures what a failed request
--     leaves, Pool/Serving which session serves a request. Pool/Steady and Pool/Tasks/Serial compare
--     tasks that run at the same time with calls one after another, over a network that answers the same
--     at all times.
--   Transport, Application: the traits of src/transport.rs and src/application.rs, as records.
--   H3: navar-h3/src/adapter.rs (H3/Streams, H3/Connect, H3/Errors), and of navar-h3/src/lib.rs the
--     handshake (H3/Handshake) and `send_request` with the response body (H3/Session; H3/Session/Received
--     has the answers that the body gives to one poll after another).
--   Hyper: navar-hyper/src/lib.rs, the choice of the protocol, the handshake and requests; Hyper/Shared has
--     requests that share an HTTP/1 session, whose sender is behind a mutex, as tasks.
--   Runtime: the trait AsyncRuntime of src/lib.rs, and its instances.
--   Tokio: navar-tokio/src/lib.rs, connecting (Tokio, Tokio/Connecting), its streams (Tokio/Streams) and
--     how a transport is made (Tokio/Config). Iroh: navar-iroh/src/lib.rs.
--   Plugins: hyper over the streams of the two transports (Plugins/Http2), the base service over Tokio and
--     hyper (Plugins/Stack, Plugins/Encryption), and over Iroh with hyper or HTTP/3 (Plugins/OverIroh, with
--     connections and streams from Plugins/Reaching).
--   Mocks: navar-mocks/src/lib.rs, as instances of the traits.
--   Fetch: examples/navar_fetch.rs, the command: `exec_request` (Fetch), and `main` with its choice of a
--     client by the scheme (Fetch/Main). Fetch/First and Fetch/OverH3 put the whole program together, from
--     the command through the client, its pipeline and the pool to a session, and back to what is printed.
--   Tests: runs on small inputs, with concrete interfaces.
--
-- Fuel and bounds: `read_frame` runs on the bytes that remain, and one round more, since each round passes
-- at least one byte; `take_all` takes two rounds, since the first one takes all bytes; `write_out` takes a
-- round for each buffered byte and one more, where every write that is ready takes at least one byte;
-- `drive` takes a poll for each item and each answer of the body, and one more. A panic of the source (an
-- index or a slice out of bounds, an advance past the end) is `none`. Numbers are not bounded: lengths of
-- buffers stay below the range of usize, which allocation ensures.
--
-- The body of a response over HTTP/3 is polled once for each answer that is still to come, and once more;
-- such a body is taken to come to an end.
--
-- The tasks need no fuel: their steps are a relation.
--
-- Not modelled: the wakers of tasks, so that a task which waits for the network may run at any time; the
-- mutexes in which the pool keeps its sessions, which are held only to clone them; the work of the
-- drivers of connections; the capacity of the scratch buffers; the version of HTTP that a request names;
-- the parsing of the command's arguments and its choice of a provider for rustls; the tests. The crates
-- that the program uses are arguments of the definitions.
pub mod Base
pub mod Std
pub mod Buf
pub mod Body
pub mod Lines
pub mod Reader
pub mod Sse
pub mod Ndjson
pub mod Http
pub mod Request
pub mod Response
pub mod Normalize
pub mod Service
pub mod Client
pub mod Pool
pub mod H3
pub mod Hyper
pub mod Tokio
pub mod Transport
pub mod Application
pub mod Iroh
pub mod Plugins
pub mod Runtime
pub mod Mocks
pub mod Fetch
pub mod Tests
