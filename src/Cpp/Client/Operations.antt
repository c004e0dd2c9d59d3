-- ===== src/Cpp/Client/Operations.antt =====
-- The C++ client and the Rust client do the same on the control socket.
use openmso_api.Prelude.{
  ℕ, ◌<◌, ◌^◌, arith, true, false, Option, none, some, [], ◌≡◌, ◌∙◌, refl, ap, ◌==◌, Bool-cases,
  inl, inr, Str,
}
use openmso_api.Proto.Enums.{AcquireMode}
use openmso_api.Proto.Device.{Config, ProtoError}
use openmso_api.Proto.Control.{RequestArm, Request, ResponseArm}
use openmso_api.Failure.{NngError, IoError, Outcome, ok, err}
use openmso_api.Failure
use openmso_api.Failure.Text.{error_text, fault_text}
use openmso_api.Client.{Exchange, not_sent, not_received, garbled, replied}
use openmso_api.Client
use openmso_api.Cpp.Errors.{
  ErrorKind, Error, counterpart, as_result, Result, returned, thrown, escaped, stuck, ◌>>=◌,
}
use openmso_api.Cpp.Client.{
  CaptureClient, Called, receive, hello, describe, get_config, set_config, acquire_start,
  acquire_stop, reset, shutdown, terminate, close_stdin, request, after_shutdown, next_capture_id,
  is_running,
}
use openmso_api.Cpp.Client as CppClient

-- An error without the text of what nng, protobuf or the plugin says.
abbrev pub blur : Error → Error
blur x = elim x.kind [
  | ErrorKind.protocol ↦ x
  | ErrorKind.nng ↦ record x { what = [] }
  | ErrorKind.decode ↦ record x { what = [] }
  | ErrorKind.io ↦ record x { what = [] }
  | ErrorKind.json ↦ record x { what = [] }
  | ErrorKind.remote ↦ record x { what = [] }
]

abbrev pub blurred {ℓ} : {A : Type ℓ} → Result A → Result A
blurred (returned a) = returned a
blurred (thrown x) = thrown (blur x)
blurred escaped = escaped
blurred stuck = stuck

-- The Rust client that a C++ client stands for.
abbrev pub frontend : {W : Type 0} → CaptureClient W → Client.CaptureClient W
frontend c = record { seq = c.seq; capture_id = c.capture_id; world = c.world }

-- What a call of the C++ client, and what one of the Rust client, shows.
abbrev pub shown : {W A : Type 0} → Called W A → Client.CaptureClient W × Result A
shown (c, r) = (frontend c, blurred r)

module _ (nng_number : NngError → ℕ) (strerror : ℕ → Str) (nng_text : NngError → Str)
    (io_text : IoError → Str) (debug : Str → Str) where
  abbrev pub shown_rust : {W A : Type 0} → Client.Called W A → Client.CaptureClient W × Result A
  shown_rust (c, o) = (c, blurred (as_result nng_text io_text debug o))

  -- A test of the C++ client on the result of a reply, and one of the Rust client.
  abbrev Alike : {A : Type 0} → (ResponseArm → Result A) → (ResponseArm → Outcome A) → Type 0
  Alike g f = (arm : ResponseArm) → g arm ≡ as_result nng_text io_text debug (f arm)

  reply_same :
      {A : Type 0} (g : ResponseArm → Result A) (f : ResponseArm → Outcome A)
      → Alike g f
      → (seq got : ℕ) (e : Option ProtoError) (r : Option ResponseArm) → (got == seq) ≡ true
      → let x : Exchange = replied (record { seq = got; error = e; response = r }) in
        blurred (receive nng_number strerror seq x >>= g)
        ≡ blurred (as_result nng_text io_text debug (Failure.◌>>=◌ (Client.receive seq x) f))
  unfolding receive Client.receive counterpart error_text fault_text
  reply_same g f alike seq got (some e) r h = rw h refl
  reply_same g f alike seq got none none h = rw h refl
  reply_same g f alike seq got none (some arm) h = rw h (ap blurred (alike arm))

  receive_same :
      {A : Type 0} (g : ResponseArm → Result A) (f : ResponseArm → Outcome A)
      → Alike g f
      → (seq : ℕ) (x : Exchange)
      → blurred (receive nng_number strerror seq x >>= g)
        ≡ blurred (as_result nng_text io_text debug (Failure.◌>>=◌ (Client.receive seq x) f))
  unfolding receive Client.receive counterpart error_text fault_text
  receive_same g f alike seq (not_sent e) = refl
  receive_same g f alike seq (not_received e) = refl
  receive_same g f alike seq (garbled text) = refl
  receive_same g f alike seq (replied r) = elim (Bool-cases (r.seq == seq)) [
    | inl h ↦ reply_same g f alike seq r.seq r.error r.response h
    | inr h ↦ rw h refl
  ]

  -- The eight tests, at one result.
  arms_alike :
      (arm : ResponseArm)
      → (CppClient.expect_hello arm ≡ as_result nng_text io_text debug (Client.expect_hello arm))
        × (CppClient.expect_describe arm
            ≡ as_result nng_text io_text debug (Client.expect_describe arm))
        × (CppClient.expect_get_config arm
            ≡ as_result nng_text io_text debug (Client.expect_get_config arm))
        × (CppClient.expect_set_config arm
            ≡ as_result nng_text io_text debug (Client.expect_set_config arm))
        × (CppClient.expect_acquire_start arm
            ≡ as_result nng_text io_text debug (Client.expect_acquire_start arm))
        × (CppClient.expect_acquire_stop arm
            ≡ as_result nng_text io_text debug (Client.expect_acquire_stop arm))
        × (CppClient.expect_reset arm ≡ as_result nng_text io_text debug (Client.expect_reset arm))
        × (CppClient.expect_shutdown arm
            ≡ as_result nng_text io_text debug (Client.expect_shutdown arm))
  unfolding counterpart error_text fault_text
  arms_alike (ResponseArm.hello _) = (refl, refl, refl, refl, refl, refl, refl, refl)
  arms_alike (ResponseArm.describe _) = (refl, refl, refl, refl, refl, refl, refl, refl)
  arms_alike (ResponseArm.get_config _) = (refl, refl, refl, refl, refl, refl, refl, refl)
  arms_alike (ResponseArm.set_config _) = (refl, refl, refl, refl, refl, refl, refl, refl)
  arms_alike ResponseArm.acquire_start = (refl, refl, refl, refl, refl, refl, refl, refl)
  arms_alike ResponseArm.acquire_stop = (refl, refl, refl, refl, refl, refl, refl, refl)
  arms_alike ResponseArm.reset = (refl, refl, refl, refl, refl, refl, refl, refl)
  arms_alike ResponseArm.shutdown = (refl, refl, refl, refl, refl, refl, refl, refl)

  module _ {W : Type 0} (exchange : Request → W → W × Exchange) where
    call_same :
        {A : Type 0} (g : ResponseArm → Result A) (f : ResponseArm → Outcome A)
        → Alike g f
        → (arm : RequestArm) (c : CaptureClient W)
        → shown (CppClient.expecting g (request nng_number strerror exchange arm c))
          ≡ shown_rust (Client.expecting f (Client.request exchange arm (frontend c)))
    unfolding request Client.request
    call_same g f alike arm c =
        let seq = Client.next_seq c.seq in
        let (world, x) = exchange (record { seq = seq; request = some arm }) c.world in
        ap (λ r. (frontend (record c { seq = seq; world = world }), r))
          (receive_same g f alike seq x)

    -- What `shutdown` does to the process does not show.
    frontend-close_stdin :
        (c : CaptureClient W) (fd : Option ℕ)
        → frontend (close_stdin (record c { stdin_fd = fd })) ≡ frontend c
    unfolding close_stdin
    frontend-close_stdin c none = refl
    frontend-close_stdin c (some fd) = refl

    frontend-terminate :
        (c : CaptureClient W) (fd pid : Option ℕ)
        → frontend (terminate (record c { stdin_fd = fd; pid = pid })) ≡ frontend c
    unfolding terminate close_stdin
    frontend-terminate c none none = refl
    frontend-terminate c none (some pid) = refl
    frontend-terminate c (some fd) none = refl
    frontend-terminate c (some fd) (some pid) = refl

    shown-after_shutdown :
        (pid : ℕ) (c : CaptureClient W) (r : Result (Unit {0}))
        → shown (after_shutdown pid (c, r)) ≡ shown (c, r)
    unfolding after_shutdown
    shown-after_shutdown pid c (returned _) =
        ap (λ f. (f, returned tt)) (frontend-close_stdin c c.stdin_fd)
    shown-after_shutdown pid c (thrown x) =
        ap (λ f. (f, thrown (blur x))) (frontend-terminate c c.stdin_fd c.pid)
    shown-after_shutdown pid c escaped =
        ap (λ f. (f, escaped)) (frontend-terminate c c.stdin_fd c.pid)
    shown-after_shutdown pid c stuck = ap (λ f. (f, stuck)) (frontend-terminate c c.stdin_fd c.pid)

    running_pid :
        (p : Option ℕ)
        → (elim p [ none ↦ false | some pid ↦ true ]) ≡ true
        → (pid : ℕ) × (p ≡ some pid)
    running_pid none h = ground arith
    running_pid (some pid) h = (pid, refl)

    shutdown_running :
        (c : CaptureClient W) (pid : ℕ)
        → shown (shutdown nng_number strerror exchange (record c { pid = some pid }))
          ≡ shown_rust (Client.shutdown exchange (frontend c))
    unfolding shutdown Client.shutdown
    shutdown_running c pid =
        let running = record c { pid = some pid } in
        let (c', r) =
          CppClient.expecting CppClient.expect_shutdown
            (request nng_number strerror exchange RequestArm.shutdown running) in
        shown-after_shutdown pid c' r
        ∙ call_same CppClient.expect_shutdown Client.expect_shutdown (λ arm. (arms_alike arm).7)
            RequestArm.shutdown running

    shutdown_same :
        (c : CaptureClient W)
        → is_running c ≡ true
        → shown (shutdown nng_number strerror exchange c)
          ≡ shown_rust (Client.shutdown exchange (frontend c))
    shutdown_same c h =
        let (pid, e) = running_pid c.pid h in
        ap (λ p. shown (shutdown nng_number strerror exchange (record c { pid = p }))) e
        ∙ shutdown_running c pid

    next_capture_id_same :
        (c : CaptureClient W)
        → c.capture_id < 2 ^ 64
        → shown (let (c', id) = next_capture_id c in (c', returned id))
          ≡ shown_rust (Client.next_capture_id false (frontend c))
    unfolding next_capture_id Client.next_capture_id
    next_capture_id_same c bound = ground arith

    -- A C++ client whose process runs, with a capture id of 64 bits, does what the Rust client of a
    -- build without overflow checks does, whatever the control socket leads to: each operation,
    -- `shutdown` included, sends the same request, leaves the same request number, capture id and
    -- world, and gives the same result, or a failure of the same kind with the same refusal and, if
    -- the plugin broke the protocol, the same text.
    pub operations_same :
        (c : CaptureClient W) (name version : Str) (config : Config) (id : ℕ) (mode : AcquireMode)
        → is_running c ≡ true
        → c.capture_id < 2 ^ 64
        → (shown (hello nng_number strerror exchange name version c)
            ≡ shown_rust (Client.hello exchange name version (frontend c)))
          × (shown (describe nng_number strerror exchange c)
              ≡ shown_rust (Client.describe exchange (frontend c)))
          × (shown (get_config nng_number strerror exchange c)
              ≡ shown_rust (Client.get_config exchange (frontend c)))
          × (shown (set_config nng_number strerror exchange config c)
              ≡ shown_rust (Client.set_config exchange config (frontend c)))
          × (shown (acquire_start nng_number strerror exchange id mode c)
              ≡ shown_rust (Client.acquire_start exchange id mode (frontend c)))
          × (shown (acquire_stop nng_number strerror exchange id c)
              ≡ shown_rust (Client.acquire_stop exchange id (frontend c)))
          × (shown (reset nng_number strerror exchange c)
              ≡ shown_rust (Client.reset exchange (frontend c)))
          × (shown (shutdown nng_number strerror exchange c)
              ≡ shown_rust (Client.shutdown exchange (frontend c)))
          × (shown (let (c', id) = next_capture_id c in (c', returned id))
              ≡ shown_rust (Client.next_capture_id false (frontend c)))
    unfolding hello describe get_config set_config acquire_start acquire_stop reset Client.hello
        Client.describe Client.get_config Client.set_config Client.acquire_start Client.acquire_stop
        Client.reset
    operations_same c name version config id mode h bound = (
      call_same CppClient.expect_hello Client.expect_hello (λ arm. (arms_alike arm).0) _ c,
      call_same CppClient.expect_describe Client.expect_describe (λ arm. (arms_alike arm).1) _ c,
      call_same CppClient.expect_get_config Client.expect_get_config (λ arm. (arms_alike arm).2) _
          c,
      call_same CppClient.expect_set_config Client.expect_set_config (λ arm. (arms_alike arm).3) _
          c,
      call_same CppClient.expect_acquire_start Client.expect_acquire_start
          (λ arm. (arms_alike arm).4) _ c,
      call_same CppClient.expect_acquire_stop Client.expect_acquire_stop (λ arm. (arms_alike arm).5)
          _ c,
      call_same CppClient.expect_reset Client.expect_reset (λ arm. (arms_alike arm).6) _ c,
      shutdown_same c h,
      next_capture_id_same c bound,
    )
