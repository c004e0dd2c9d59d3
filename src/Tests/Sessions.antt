-- ===== src/Tests/Sessions.antt =====
-- The properties of `dispatch`, at concrete requests.
use openmso_api.Prelude.{some, ◌≡◌, refl}
use openmso_api.Proto.Device.{default_config}
use openmso_api.Proto.Control.{RequestArm, SetConfig}
use openmso_api.Failure.{refuse}
use openmso_api.Server.Events.{send}
use openmso_api.Proto.Stream.{capture_end}
use openmso_api.Server.Dispatch.{dispatch, in_progress, hello_first}
use openmso_api.Server.Dispatch.Phases.{
  IsSound, is_accepted, phase_of, next_phase, pushed_by, dispatch-gate, dispatch_phase,
}
use openmso_api.Server.Dispatch.Replies.{capture_end_reopens}
use openmso_api.Server.Events.Flag.{any_end}
use openmso_api.Tests.{quiet, demo, ready_session, running_session, fresh_session, an_end}

abbrev start : RequestArm
start = RequestArm.acquire_start (record { capture_id = 1; mode = 1 })

abbrev config_request : SetConfig
config_request = record { config = some default_config }

dispatch_phase_example :
    (phase_of (dispatch quiet demo (record { seq = 5; request = some start }) ready_session).0
      ≡ next_phase
          (phase_of ready_session)
          start
          (is_accepted
            (dispatch quiet demo (record { seq = 5; request = some start }) ready_session).1)
          (any_end (pushed_by quiet demo start 0)))
    × IsSound (dispatch quiet demo (record { seq = 5; request = some start }) ready_session).0
dispatch_phase_example = dispatch_phase quiet demo 5 ready_session refl start

dispatch-gate_example :
    dispatch quiet demo (record { seq = 5; request = some start }) fresh_session
    ≡ (fresh_session, refuse hello_first)
dispatch-gate_example = dispatch-gate quiet demo 5 start fresh_session refl

capture_end_reopens_example :
    (dispatch quiet demo
        (record { seq = 5; request = some (RequestArm.set_config config_request) })
        running_session
      ≡ (running_session, refuse in_progress))
    × ((dispatch quiet demo
          (record { seq = 5; request = some (RequestArm.set_config config_request) })
          (record running_session {
            events = (send quiet (capture_end an_end) running_session.events).0;
          })).0.plugin
        ≡ 1)
capture_end_reopens_example =
    capture_end_reopens quiet demo running_session an_end 5 config_request refl refl
