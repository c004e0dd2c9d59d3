-- ===== src/Client/Lifecycle.antt =====
-- What a connected client sees of `Hello` and of a running capture.
use openmso_api.Prelude.{ℕ, true, false, Option, some, [], ◌∷◌, ◌≡◌, ◌∙◌, refl, ap, arith, map}
use openmso_api.Prelude.{Str}
use openmso_api.Proto.Enums.{AcquireMode, mode_number, encoding_number, codec_number}
use openmso_api.Proto.Device.{Config}
use openmso_api.Proto.Control.{
  AcquireStart, HelloResult, PluginInfo, Capabilities, DeviceInfo, RequestArm, ResponseArm,
}
use openmso_api.Failure.{NngError, Reply, accept, Outcome, ok, err, remote, ◌>>=◌}
use openmso_api.Encoding.Negotiate.{encodings, codecs, contains}
use openmso_api.Encoding.Negotiate.Members.{negotiate_own}
use openmso_api.Server.Events.{set_running}
use openmso_api.Server.Events.Flag.{any_end, push_all_running}
use openmso_api.Server.Plugin.{CaptureServer}
use openmso_api.Server.Dispatch.{Session, dispatch, in_progress, run}
use openmso_api.Server.Dispatch.Phases.{phase_of, dispatch-gate, gate, running}
use openmso_api.Server.Serve.{hello_result}
use openmso_api.Client.{CaptureClient, next_seq, own_hello, request, Called, expecting}
use openmso_api.Client
use openmso_api.Client.Session.{connected, request-dispatch, outcome_of}

-- A call that was refused as busy.
abbrev pub refused_busy : {W A : Type 0} → CaptureClient W → Called W A
refused_busy c = (record c { seq = next_seq c.seq }, err (remote in_progress))

module _ (net : ℕ → Option NngError) (P : CaptureServer) where
  -- A call of a connected client, by what `dispatch` replies.
  call :
      {A : Type 0} (f : ResponseArm → Outcome A) (arm : RequestArm)
      (c : CaptureClient (Session P.State)) {s' : Session P.State} {reply : Reply ResponseArm}
      → dispatch net P (record { seq = next_seq c.seq; request = some arm }) c.world ≡ (s', reply)
      → expecting f (request (connected net P) arm c)
        ≡ (record c { seq = next_seq c.seq; world = s' }, outcome_of reply >>= f)
  call f arm c e =
      ap (expecting f) (request-dispatch net P arm c)
      ∙ ap (λ d. (record c { seq = next_seq c.seq; world = d.0 }, outcome_of d.1 >>= f)) e

  -- A `hello` of a connected client to a server that is not greeted, whose plugin answers with
  -- `hello_result`, succeeds, settles on TRANSITION and then PACKED, and on the codec NONE, and
  -- leaves the server greeted.
  pub hello_negotiates :
      (c : CaptureClient (Session P.State)) (name version : Str) (plugin : PluginInfo)
      (capabilities : Capabilities) (device : DeviceInfo)
      → c.world.greeted ≡ false
      → (P.hello (own_hello name version) c.world.plugin).2
        ≡ accept (hello_result (own_hello name version) plugin capabilities device)
      → (r : HelloResult) × ((Client.hello (connected net P) name version c).1 ≡ ok r)
        × (r.encodings ≡ 2 ∷ 1 ∷ [])
        × (r.codecs ≡ 1 ∷ [])
        × ((Client.hello (connected net P) name version c).0.world.greeted ≡ true)
  unfolding Client.hello hello_result dispatch run
  hello_negotiates c name version plugin capabilities device g e =
      let arm : RequestArm = RequestArm.hello (own_hello name version) in
      let r : HelloResult = hello_result (own_hello name version) plugin capabilities device in
      let greeted : Session P.State =
        record (run net P (P.hello (own_hello name version) c.world.plugin) c.world).0 {
          greeted = true;
        } in
      let d : dispatch net P (record { seq = next_seq c.seq; request = some arm }) c.world
          ≡ (greeted, accept (ResponseArm.hello r)) =
        ground arith in
      let (encodings_own, codecs_own) =
        negotiate_own (map encoding_number encodings) (map codec_number codecs) in
      (
        r,
        ap (λ t. t.1) (call Client.expect_hello arm c d),
        encodings_own ∙ unfold contains in refl,
        codecs_own,
        ap (λ t. t.0.world.greeted) (call Client.expect_hello arm c d),
      )

  busy_call :
      {A : Type 0} (f : ResponseArm → Outcome A) (arm : RequestArm)
      (c : CaptureClient (Session P.State))
      → gate (phase_of c.world) arm ≡ some in_progress
      → expecting f (request (connected net P) arm c) ≡ refused_busy c
  busy_call f arm c h = call f arm c (dispatch-gate net P (next_seq c.seq) arm c.world h)

  -- While a capture runs, `describe`, `get_config`, `set_config` and `acquire_start` of a connected
  -- client are refused as busy, and change nothing but the client's request number.
  pub running_locks :
      (c : CaptureClient (Session P.State)) (id : ℕ) (mode : AcquireMode) (config : Config)
      → phase_of c.world ≡ running
      → (Client.describe (connected net P) c ≡ refused_busy c)
        × (Client.get_config (connected net P) c ≡ refused_busy c)
        × (Client.set_config (connected net P) config c ≡ refused_busy c)
        × (Client.acquire_start (connected net P) id mode c ≡ refused_busy c)
  unfolding Client.describe Client.get_config Client.set_config Client.acquire_start
  running_locks c id mode config h = (
    busy_call Client.expect_describe _ c (rw h refl),
    busy_call Client.expect_get_config _ c (rw h refl),
    busy_call Client.expect_set_config _ c (rw h refl),
    busy_call Client.expect_acquire_start _ c (rw h refl),
  )

  -- An `acquire_start` of a connected client that the plugin accepts, greeted and with no capture
  -- running, succeeds, and a capture runs behind it if none of the events pushed meanwhile ended
  -- one.
  pub acquire_start_runs :
      (c : CaptureClient (Session P.State)) (id : ℕ) (mode : AcquireMode)
      → let req : AcquireStart = record { capture_id = id; mode = mode_number mode } in
        c.world.greeted ≡ true
        → c.world.events.running ≡ false
        → (P.acquire_start req c.world.plugin).2 ≡ accept tt
        → any_end (P.acquire_start req c.world.plugin).1 ≡ false
        → ((Client.acquire_start (connected net P) id mode c).1 ≡ ok tt)
          × (phase_of (Client.acquire_start (connected net P) id mode c).0.world ≡ running)
  unfolding Client.acquire_start dispatch run
  acquire_start_runs c id mode g r a q =
      let req : AcquireStart = record { capture_id = id; mode = mode_number mode } in
      let arm : RequestArm = RequestArm.acquire_start req in
      let started : Session P.State =
        (run net P (P.acquire_start req c.world.plugin)
          (record c.world { events = set_running true c.world.events })).0 in
      let d : dispatch net P (record { seq = next_seq c.seq; request = some arm }) c.world
          ≡ (started, accept ResponseArm.acquire_start) =
        ground arith in
      (
        ap (λ t. t.1) (call Client.expect_acquire_start arm c d),
        ap (λ t. phase_of t.0.world) (call Client.expect_acquire_start arm c d)
            ∙ ground (
              arith,
              push_all_running net (P.acquire_start req c.world.plugin).1
                  (set_running true c.world.events),
            ),
      )
