-- ===== src/Cpp/Client.antt =====
-- cpp/src/client.cpp and cpp/include/openmso/client.h: the C++ frontend's side of the protocol, and
-- the life of the plugin's process. `exchange` is what happens to one request on the control socket,
-- `W` the state of the world behind it, `nng_number` the number of an nng error and `strerror` what
-- nng calls it.
pub mod Operations
pub mod Process
pub mod Serving
use openmso_api.Prelude.{
  ℕ, ◌+◌, ◌%◌, ◌^◌, Bool, true, false, not, Option, none, some, List, [], ◌∷◌, ◌++◌, map, ◌==◌, Str,
  codes,
}
use openmso_api.Proto.Enums.{AcquireMode, mode_number, encoding_number, codec_number}
use openmso_api.Proto.Device.{Description, Config}
use openmso_api.Proto.Control.{Hello, HelloResult, RequestArm, Request, ResponseArm, Response}
use openmso_api.Failure.{NngError, protocol_version}
use openmso_api.Failure.Text.{decimal}
use openmso_api.Client.{Exchange, not_sent, not_received, garbled, replied}
use openmso_api.Cpp.Errors.{
  Error, nng_error, decode_error, protocol_error, remote_error, Result, returned, thrown, escaped,
  stuck, ◌>>=◌, ◌>>◌, throw_if,
}
use openmso_api.Cpp.Encoding.{supported_encodings, supported_codecs}

-- The calls that end the plugin's process.
pub data SystemCall : Type 0 where
  close_fd kill waitpid : ℕ → SystemCall

-- `CaptureClient`, less its sockets and endpoints. A `pid_` or a `stdinFd_` of -1 is `none`; `calls`
-- are the calls made so far.
pub record CaptureClient (W : Type 0) : Type 0 where
  pub pid : Option ℕ
  pub stdin_fd : Option ℕ
  pub calls : List SystemCall
  pub seq : ℕ
  pub capture_id : ℕ
  pub world : W

-- The client that `launch` returns, of process `pid` and the write end `fd` of its pipe.
abbrev pub launched : {W : Type 0} → ℕ → ℕ → W → CaptureClient W
launched pid fd world = record {
  pid = some pid;
  stdin_fd = some fd;
  calls = [];
  seq = 0;
  capture_id = 0;
  world = world;
}

-- `++captureId_` on a `uint64_t`.
unfoldable pub next_capture_id : {W : Type 0} → CaptureClient W → CaptureClient W × ℕ
next_capture_id c = let id = (c.capture_id + 1) % 2 ^ 64 in (record c { capture_id = id }, id)

-- `isRunning`
abbrev pub is_running : {W : Type 0} → CaptureClient W → Bool
is_running c = elim c.pid [ none ↦ false | some pid ↦ true ]

-- `responseName` of a reply that has a result.
abbrev pub response_name : ResponseArm → Str
response_name (ResponseArm.hello _) = codes "Hello"
response_name (ResponseArm.describe _) = codes "Describe"
response_name (ResponseArm.get_config _) = codes "GetConfig"
response_name (ResponseArm.set_config _) = codes "SetConfig"
response_name ResponseArm.acquire_start = codes "AcquireStart"
response_name ResponseArm.acquire_stop = codes "AcquireStop"
response_name ResponseArm.reset = codes "Reset"
response_name ResponseArm.shutdown = codes "Shutdown"

abbrev pub unexpected : Str → ResponseArm → Error
unexpected request got =
    protocol_error (request ++ codes " answered with a " ++ response_name got ++ codes " result")

-- The test of each operation on the result that a reply carries.
abbrev pub expect_hello : ResponseArm → Result HelloResult
expect_hello (ResponseArm.hello r) = returned r
expect_hello other = thrown (unexpected (codes "Hello") other)

abbrev pub expect_describe : ResponseArm → Result Description
expect_describe (ResponseArm.describe r) = returned r
expect_describe other = thrown (unexpected (codes "Describe") other)

abbrev pub expect_get_config : ResponseArm → Result Config
expect_get_config (ResponseArm.get_config r) = returned r
expect_get_config other = thrown (unexpected (codes "GetConfig") other)

abbrev pub expect_set_config : ResponseArm → Result Config
expect_set_config (ResponseArm.set_config r) = returned r
expect_set_config other = thrown (unexpected (codes "SetConfig") other)

abbrev pub expect_acquire_start : ResponseArm → Result (Unit {0})
expect_acquire_start ResponseArm.acquire_start = returned tt
expect_acquire_start other = thrown (unexpected (codes "AcquireStart") other)

abbrev pub expect_acquire_stop : ResponseArm → Result (Unit {0})
expect_acquire_stop ResponseArm.acquire_stop = returned tt
expect_acquire_stop other = thrown (unexpected (codes "AcquireStop") other)

abbrev pub expect_reset : ResponseArm → Result (Unit {0})
expect_reset ResponseArm.reset = returned tt
expect_reset other = thrown (unexpected (codes "Reset") other)

abbrev pub expect_shutdown : ResponseArm → Result (Unit {0})
expect_shutdown ResponseArm.shutdown = returned tt
expect_shutdown other = thrown (unexpected (codes "Shutdown") other)

-- The `Hello` of this library's client.
abbrev pub own_hello : Str → Str → Hello
own_hello name version = record {
  protocol = protocol_version;
  client_name = name;
  client_version = version;
  accept_encodings = map encoding_number supported_encodings;
  accept_codecs = map codec_number supported_codecs;
}

-- The closing of `stdinFd_`.
unfoldable pub close_stdin : {W : Type 0} → CaptureClient W → CaptureClient W
close_stdin c = elim c.stdin_fd [
  | none ↦ c
  | some fd ↦ record c { stdin_fd = none; calls = c.calls ++ close_fd fd ∷ [] }
]

-- `CaptureClient::terminate`, which is also the destructor.
unfoldable pub terminate : {W : Type 0} → CaptureClient W → CaptureClient W
unfolding close_stdin
terminate c =
    let closed = close_stdin c in
    elim closed.pid [
      | none ↦ closed
      | some pid ↦ record closed { pid = none; calls = closed.calls ++ kill pid ∷ waitpid pid ∷ [] }
    ]

-- A client and what an operation did.
abbrev pub Called : Type 0 → Type 0 → Type 0
Called W A = CaptureClient W × Result A

abbrev pub expecting : {W A B : Type 0} → (A → Result B) → Called W A → Called W B
expecting f (c, r) = (c, r >>= f)

-- What `shutdown` does with process `pid` after its request.
unfoldable pub after_shutdown : {W : Type 0} → ℕ → Called W (Unit {0}) → Called W (Unit {0})
unfolding close_stdin terminate
after_shutdown pid (c, returned _) =
    let closed = close_stdin c in
    (record closed { pid = none; calls = closed.calls ++ waitpid pid ∷ [] }, returned tt)
after_shutdown pid (c, thrown x) = (terminate c, thrown x)
after_shutdown pid (c, escaped) = (terminate c, escaped)
after_shutdown pid (c, stuck) = (terminate c, stuck)

module _ (nng_number : NngError → ℕ) (strerror : ℕ → Str) where
  -- `control_.send` and `control_.recv`, and the tests on the reply.
  unfoldable pub receive : ℕ → Exchange → Result ResponseArm
  unfolding decimal
  receive seq (not_sent e) = thrown (nng_error strerror (nng_number e) (codes "send"))
  receive seq (not_received e) = thrown (nng_error strerror (nng_number e) (codes "recv"))
  receive seq (garbled text) =
      thrown (decode_error (codes "could not parse omso.capture.v1.Response"))
  receive seq (replied r) =
      throw_if (not (r.seq == seq)) (
        protocol_error (
          codes "plugin answered request "
          ++ decimal seq
          ++ codes " with a reply to "
          ++ decimal r.seq))
      >> elim r.error [
        | some e ↦ thrown (remote_error e)
        | none ↦ elim r.response [
          | none ↦ thrown (protocol_error (codes "reply carries neither result nor error"))
          | some arm ↦ returned arm
        ]
      ]

  module _ {W : Type 0} (exchange : Request → W → W × Exchange) where
    -- `CaptureClient::request`
    unfoldable pub request : RequestArm → CaptureClient W → Called W ResponseArm
    unfolding receive
    request arm c =
        let seq = (c.seq + 1) % 2 ^ 32 in
        let (world, x) = exchange (record { seq = seq; request = some arm }) c.world in
        (record c { seq = seq; world = world }, receive seq x)

    unfoldable pub hello : Str → Str → CaptureClient W → Called W HelloResult
    unfolding request
    hello name version c =
        expecting expect_hello (request (RequestArm.hello (own_hello name version)) c)

    unfoldable pub describe : CaptureClient W → Called W Description
    unfolding request
    describe c = expecting expect_describe (request RequestArm.describe c)

    unfoldable pub get_config : CaptureClient W → Called W Config
    unfolding request
    get_config c = expecting expect_get_config (request RequestArm.get_config c)

    unfoldable pub set_config : Config → CaptureClient W → Called W Config
    unfolding request
    set_config config c =
        expecting expect_set_config
          (request (RequestArm.set_config (record { config = some config })) c)

    unfoldable pub acquire_start : ℕ → AcquireMode → CaptureClient W → Called W (Unit {0})
    unfolding request
    acquire_start capture_id mode c = expecting expect_acquire_start (
        request
          (RequestArm.acquire_start (record { capture_id = capture_id; mode = mode_number mode }))
          c)

    unfoldable pub acquire_stop : ℕ → CaptureClient W → Called W (Unit {0})
    unfolding request
    acquire_stop capture_id c =
        expecting expect_acquire_stop
          (request (RequestArm.acquire_stop (record { capture_id = capture_id })) c)

    unfoldable pub reset : CaptureClient W → Called W (Unit {0})
    unfolding request
    reset c = expecting expect_reset (request RequestArm.reset c)

    unfoldable pub shutdown : CaptureClient W → Called W (Unit {0})
    unfolding request after_shutdown
    shutdown c = elim c.pid [
      | none ↦ (c, returned tt)
      | some pid ↦ after_shutdown pid (expecting expect_shutdown (request RequestArm.shutdown c))
    ]
