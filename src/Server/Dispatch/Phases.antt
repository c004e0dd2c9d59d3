-- ===== src/Server/Dispatch/Phases.antt =====
-- The protocol's phases, and how a request moves between them.
use openmso_api.Prelude.{ℕ, Bool, true, false, not, ◌&&◌, Option, none, some, List, [], ◌≡◌, arith}
use openmso_api.Prelude.{if◌then◌else◌}
use openmso_api.Proto.Device.{ProtoError}
use openmso_api.Proto.Control.{RequestArm, ResponseArm}
use openmso_api.Failure.{NngError, Reply, accept, refuse}
use openmso_api.Server.Events.{set_running}
use openmso_api.Proto.Stream.{Event}
use openmso_api.Server.Events.Flag.{any_end, push_all_running}
use openmso_api.Server.Plugin.{CaptureServer}
use openmso_api.Server.Dispatch.{
  Session, Answered, dispatch, hello_first, hello_again, in_progress, config_or_default,
}

-- Before `Hello`, with a device and no capture, and with a capture running.
pub data Phase : Type 0 where
  fresh ready running : Phase

abbrev pub phase_of : {S : Type 0} → Session S → Phase
phase_of s = if s.greeted then if s.events.running then running else ready else fresh

-- No capture runs before `Hello` has been answered.
abbrev pub IsSound : {S : Type 0} → Session S → Type 0
IsSound s = (not s.greeted && s.events.running) ≡ false

-- What the server refuses by itself.
abbrev pub gate : Phase → RequestArm → Option ProtoError
gate fresh (RequestArm.hello _) = none
gate fresh _ = some hello_first
gate _ (RequestArm.hello _) = some hello_again
gate running RequestArm.describe = some in_progress
gate running RequestArm.get_config = some in_progress
gate running (RequestArm.set_config _) = some in_progress
gate running (RequestArm.acquire_start _) = some in_progress
gate _ _ = none

abbrev pub is_accepted {ℓ} : {A : Type ℓ} → Reply A → Bool
is_accepted (accept _) = true
is_accepted (refuse _) = false

-- The phase behind a request, by the phase before it, whether it was accepted, and whether a capture
-- ended while the plugin handled it.
abbrev pub next_phase : Phase → RequestArm → Bool → Bool → Phase
next_phase fresh (RequestArm.hello _) true _ = ready
next_phase fresh _ _ _ = fresh
next_phase ready (RequestArm.acquire_start _) true false = running
next_phase ready _ _ _ = ready
next_phase running RequestArm.reset true _ = ready
next_phase running RequestArm.reset false true = ready
next_phase running (RequestArm.acquire_stop _) _ true = ready
next_phase running _ _ _ = running

module _ (net : ℕ → Option NngError) (P : CaptureServer) where
  -- A request that `gate` refuses in the session's phase (anything but `Hello` before it has been
  -- answered, a second `Hello`, and what describes, configures or starts during a capture) is
  -- answered with that refusal, and the session, with the plugin and the event stream, stays as it
  -- was.
  pub dispatch-gate :
      (seq : ℕ) (arm : RequestArm) (s : Session P.State) {e : ProtoError}
      → gate (phase_of s) arm ≡ some e
      → dispatch net P (record { seq = seq; request = some arm }) s ≡ (s, refuse e)
  unfolding dispatch
  dispatch-gate seq arm s h = ground arith

  -- What the plugin and its threads push while it handles a request.
  pub pushed_by : RequestArm → P.State → List Event
  pushed_by (RequestArm.hello req) p = (P.hello req p).1
  pushed_by RequestArm.describe p = (P.describe p).1
  pushed_by RequestArm.get_config p = (P.get_config p).1
  pushed_by (RequestArm.set_config req) p = (P.set_config (config_or_default req.config) p).1
  pushed_by (RequestArm.acquire_start req) p = (P.acquire_start req p).1
  pushed_by (RequestArm.acquire_stop req) p = (P.acquire_stop req p).1
  pushed_by RequestArm.reset p = (P.reset p).1
  pushed_by RequestArm.shutdown p = []

  module _ (seq : ℕ) (s : Session P.State) (sound : IsSound s) where
    abbrev pub after : RequestArm → Answered P.State ResponseArm
    after arm = dispatch net P (record { seq = seq; request = some arm }) s

    -- In a session in which no capture runs before `Hello` has been answered, every request moves
    -- the phase as `next_phase` says, by whether it was accepted and whether an event pushed
    -- meanwhile ended a capture, and the session stays such a one.
    pub dispatch_phase :
        (arm : RequestArm)
        → (phase_of (after arm).0
            ≡ next_phase
                (phase_of s)
                arm
                (is_accepted (after arm).1)
                (any_end (pushed_by arm s.plugin)))
          × IsSound (after arm).0
    unfolding dispatch pushed_by
    dispatch_phase (RequestArm.hello req) =
        ground (arith, push_all_running net (P.hello req s.plugin).1 s.events)
    dispatch_phase RequestArm.describe =
        ground (arith, push_all_running net (P.describe s.plugin).1 s.events)
    dispatch_phase RequestArm.get_config =
        ground (arith, push_all_running net (P.get_config s.plugin).1 s.events)
    dispatch_phase (RequestArm.set_config req) = ground (
      arith,
      push_all_running net (P.set_config (config_or_default req.config) s.plugin).1 s.events,
    )
    dispatch_phase (RequestArm.acquire_start req) =
        ground
          (arith, push_all_running net (P.acquire_start req s.plugin).1 (set_running true s.events))
    dispatch_phase (RequestArm.acquire_stop req) =
        ground (arith, push_all_running net (P.acquire_stop req s.plugin).1 s.events)
    dispatch_phase RequestArm.reset =
        ground (arith, push_all_running net (P.reset s.plugin).1 s.events)
    dispatch_phase RequestArm.shutdown = ground arith
