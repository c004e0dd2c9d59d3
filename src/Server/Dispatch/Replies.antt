-- ===== src/Server/Dispatch/Replies.antt =====
-- Which arm answers which request, and what a stale end of a capture does.
use openmso_api.Prelude.{ℕ, Bool, true, false, Option, some, ◌≡◌, arith}
use openmso_api.Proto.Stream.{CaptureEnd, capture_end}
use openmso_api.Proto.Control.{RequestArm, Request, SetConfig, ResponseArm}
use openmso_api.Failure.{NngError, accept, refuse}
use openmso_api.Server.Events.{send}
use openmso_api.Server.Plugin.{CaptureServer}
use openmso_api.Server.Dispatch.{Session, dispatch, config_or_default, in_progress}

-- The one legal reply arm of a request.
abbrev pub answers : RequestArm → ResponseArm → Bool
answers (RequestArm.hello _) (ResponseArm.hello _) = true
answers RequestArm.describe (ResponseArm.describe _) = true
answers RequestArm.get_config (ResponseArm.get_config _) = true
answers (RequestArm.set_config _) (ResponseArm.set_config _) = true
answers (RequestArm.acquire_start _) ResponseArm.acquire_start = true
answers (RequestArm.acquire_stop _) ResponseArm.acquire_stop = true
answers RequestArm.reset ResponseArm.reset = true
answers RequestArm.shutdown ResponseArm.shutdown = true
answers _ _ = false

module _ (net : ℕ → Option NngError) (P : CaptureServer) where
  -- A request that `dispatch` accepts is answered with the arm of that request.
  pub dispatch-answers :
      (seq : ℕ) (arm : RequestArm) (s : Session P.State) {r : ResponseArm}
      → (dispatch net P (record { seq = seq; request = some arm }) s).1 ≡ accept r
      → answers arm r ≡ true
  unfolding dispatch
  dispatch-answers seq arm s h = ground arith

  -- In a greeted session with a running capture, `SetConfig` is refused as busy; after a push of a
  -- `CaptureEnd` of whatever capture, and whether nng takes it or not, it reaches the plugin.
  pub capture_end_reopens :
      (s : Session P.State) (end : CaptureEnd) (seq : ℕ) (req : SetConfig)
      → s.greeted ≡ true
      → s.events.running ≡ true
      → let request : Request = record { seq = seq; request = some (RequestArm.set_config req) } in
        let s' : Session P.State = record s { events = (send net (capture_end end) s.events).0 } in
        (dispatch net P request s ≡ (s, refuse in_progress))
        × ((dispatch net P request s').0.plugin
            ≡ (P.set_config (config_or_default req.config) s.plugin).0)
  unfolding dispatch send
  capture_end_reopens s end seq req g r = (ground arith, ground arith)
