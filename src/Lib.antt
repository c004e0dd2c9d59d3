-- ===== src/Lib.antt =====
-- The OpenMSO capture protocol of rust/openmso, and its C++ frontend of cpp: an instrument plugin (the
-- server) and a frontend (the client) that talk over two nng sockets. On the control socket the client
-- sends one request at a time and the server answers it; on the event socket the plugin pushes what it
-- captures, cut into chunks.
--
-- Parts, and how they interact. `CaptureClient::launch` makes the `Endpoints`, listens on both of them
-- and starts the plugin, whose `Args::from_env` reads where `serve` dials. From then on every operation
-- of the client is one `request`. The loop of `serve` receives requests, and `dispatch` answers them by
-- the greeted flag and the running flag and calls the plugin's handlers. A `StreamSender` cuts and
-- encodes samples and pushes them through `Events`, which also watches for the end of a capture and
-- which acquisition threads share with the loop; the frontend receives them, by `next_event` or an
-- `EventStream`, and decodes a chunk by `decode_payload`. The drop of a client stops the plugin, closes
-- its sockets and removes the endpoints' directory. The C++ library has the frontend's half again, for
-- frontends in C++ that start the same plugins: launching, requests, negotiation, encodings, manifests.
--
-- Files:
--   Prelude and its children: lists, bytes, bits, chunks and paths as std has them, over native numbers;
--     Prelude/Utf8 is `from_utf8_lossy`, by which `Path::display` and `to_string_lossy` print a path.
--   Proto: the messages of proto/omso/capture/v1/, as records and data types with the same fields.
--   Failure: rust/openmso/src/lib.rs, the errors and the outcome of a call. Failure/Text is `Display`.
--   World: the operating system and nng as this crate calls them. World/Calls has how calls compose.
--   Encoding: rust/openmso/src/encoding.rs. Varint is `put_varint` and `get_varint`, Transition is
--     `encode_transition` and `decode_transition`, Negotiate is `intersect` and what calls it, Payload
--     is `decode_payload`. Their children hold the proofs, named for what they prove.
--   Transport: rust/openmso/src/transport.rs, the limits and `send`; Transport/Sockets is the other
--     functions on sockets, Transport/Endpoints is `Endpoints`, with `create` on Unix and on Windows, and
--     Transport/Base its base directory.
--   Manifest: rust/openmso/src/manifest.rs, `resolve_argv`; Manifest/Loading is `parse` and `load`.
--   Server: rust/openmso/src/server/. Args is args.rs, Events and Sender are events.rs, Plugin is the
--     trait `CaptureServer`, Dispatch is `dispatch`, Serve is the loop of `serve` and `hello_result`,
--     Start is `serve` from its dialling on, with `exit_on_stdin_eof`. Race is `Events::send` one atomic
--     access at a time, and Race/Gaps is `dispatch` with other threads between its own steps.
--   Client: rust/openmso/src/client.rs, the state of `CaptureClient` (`seq`, `capture_id`, and `world`,
--     what the sockets lead to) and its operations under their names. Client/Session connects a client
--     to `dispatch`. Client/Launch is `launch`, the handles that it gives and their drop; Client/Events
--     is the timeouts, the event stream and the waiting `shutdown`, over those handles.
--   Harness: rust/openmso/tests/control_loop.rs, the plugin's capture and the frontend that drains it;
--     Harness/Start is `Harness::start`, Harness/Frontend is `Stub` and the rest of `Harness`,
--     Harness/Scenarios is the tests.
--   Conformance: the unit tests in rust/openmso/src/, run over the model.
--   Cpp: the C++ library under cpp/, a module for each of its classes and files. Cpp/Errors is error.cpp,
--     Cpp/Encoding is encoding.cpp, Cpp/Manifest is manifest.cpp, Cpp/Endpoints and Cpp/Sockets are the
--     classes of transport.cpp, and of client.cpp Cpp/Client is `CaptureClient` with its process,
--     Cpp/Launch is `launch` and Cpp/Spawn is `spawnPlugin`. Their children compare them with the Rust
--     modules; Client/Process and Spawn/Descriptors are about processes and descriptors, and
--     Client/Serving connects a C++ client to `dispatch`.
--   Tests: concrete data, and each theorem below at a concrete input.
--
-- Conventions. A call returns an `Outcome`: a result, an error or a panic. A function on a mutable
-- object returns its new state too. `usize` and `u64` are numbers below 2 ^ 64 whose wrap-around is
-- written out; `checks` says whether the build panics on overflow. Texts are byte lists, doubles and
-- `i32` values are bit patterns, a `Duration` is its milliseconds. A message of `Error::Protocol` is a
-- constructor of `Fault` with what it prints. The event socket is the list of what nng has taken; `net n`
-- is what nng answers to push number `n`, and is a parameter. The event pushes of acquisition threads are
-- lists: those of a handler are part of what the handler returns, and those between two requests are part
-- of a `Turn`. For the calls of nng and the system a `World` holds the log of those that succeeded and
-- the sockets, directories and children that are held; a `System`, a parameter, says what each call
-- answers. A directory is its path and the mode that it was made with. What Rust drops on an early return is written out at that return.
--
-- In the Cpp modules a call gives a `Result`: it returns, throws an `Error`, or throws an exception of
-- the C++ library. A position in a string is the text from there on, `max_size` is the longest string,
-- and `none` is a process id or descriptor of -1. `as_result` and `counterpart` say which C++ result a
-- Rust outcome is; `blur` forgets the text of a failure that nng, the system or the peer worded, since the
-- two languages word it differently. A descriptor has one number in every process, and which numbers
-- `pipe` gives is a parameter.
--
-- Bounds and fuel. `put_varint` and a number's decimal digits recur on the accessibility of `<`, so
-- they need no fuel. The loop of `decode_transition` has the payload's length as fuel, which is enough
-- since each round takes a byte at least. The chunks of `StreamSender::send` are counted, the length
-- over the size rounded up. `Endpoints::new` tries 64 tags, as the code does. The loop of `serve` runs
-- over the list of what comes in, `exit_on_stdin_eof` over the reads to come, and the frontend that
-- drains a capture over the events to come. The C++ decoder has the fuel of the Rust one, and its
-- constructor of `Endpoints` its 64 tags.
--
-- Not modelled: nng, prost, serde_json and the operating system, which are parameters; an allocation
-- that the system refuses; what only holds a handle of something else, like nng's listeners and the
-- child's stdin pipe; build.rs, which generates the messages' code; of the C++ library the moves of a
-- client and of a socket, `Socket::send` and `Socket::recv`, whose outcomes are parameters,
-- `nextEvent`, and its tests; a removal of the endpoints' directory that fails, which both languages
-- ignore, and which leaves it behind.
pub mod Prelude
pub mod Proto
pub mod Failure
pub mod World
pub mod Encoding
pub mod Transport
pub mod Manifest
pub mod Server
pub mod Client
pub mod Harness
pub mod Conformance
pub mod Cpp
mod Tests
