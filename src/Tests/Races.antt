-- ===== src/Tests/Races.antt =====
-- Two threads that push at the same time, and a request between their sends.
use openmso_api.Prelude.{false, List, [], ◌∷◌, ◌++◌, map, ◌≡◌, ◌&&◌, refl, if◌then◌else◌}
use openmso_api.Proto.Stream.{Event, capture_end, log}
use openmso_api.Proto.Control.{RequestArm, Request}
use openmso_api.Prelude.{some}
use openmso_api.Server.Events.{push_all}
use openmso_api.Server.Dispatch.{dispatch}
use openmso_api.Server.Race.{Action, clear, push, program, run_actions, Merge, Interleaved}
use openmso_api.Server.Race.Threads.{run_actions-push_all}
use openmso_api.Server.Race.Order.{run_actions_ended}
use openmso_api.Server.Race.Gaps.{
  meanwhile, ended, dispatch_gaps, is_locked, dispatch_gaps-dispatch,
}
use openmso_api.Tests.{quiet, failing, demo, an_end, running_session}

abbrev note : Event
note = log (record { level = 2; message = [] })

abbrev threads : List (List Event)
threads = (capture_end an_end ∷ []) ∷ (note ∷ note ∷ []) ∷ []

-- The second thread pushes between the two accesses of the first.
abbrev early : List Action
early = clear ∷ push note ∷ push (capture_end an_end) ∷ []

abbrev later : List Action
later = push note ∷ []

order : Interleaved (map program threads) (early ++ later)
order =
    Interleaved.thread (Merge.left (Merge.right (Merge.left (Merge.right Merge.done))))
      (Interleaved.thread (Merge.left (Merge.left Merge.done)) Interleaved.idle)

run_actions-push_all_example :
    Interleaved threads (note ∷ capture_end an_end ∷ note ∷ [])
    × (run_actions failing (early ++ later) running_session.events
        ≡ push_all failing (note ∷ capture_end an_end ∷ note ∷ []) running_session.events)
run_actions-push_all_example =
    run_actions-push_all failing threads (early ++ later) running_session.events order

run_actions_ended_example : (run_actions failing early running_session.events).running ≡ false
run_actions_ended_example =
    run_actions_ended failing threads early later running_session.events order refl

-- The capture ends while its configuration is refused.
abbrev request : Request
request = record { seq = 3; request = some RequestArm.get_config }

abbrev gap : List Event
gap = capture_end an_end ∷ []

dispatch_gaps-dispatch_example :
    dispatch_gaps quiet demo gap (note ∷ []) request running_session ≡ (
      if running_session.events.running && is_locked quiet demo request.request
      then ended
          (λ x. meanwhile quiet (note ∷ []) (meanwhile quiet gap x))
          (dispatch quiet demo request running_session)
      else ended
          (meanwhile quiet (note ∷ []))
          (dispatch quiet demo request (meanwhile quiet gap running_session)))
dispatch_gaps-dispatch_example =
    dispatch_gaps-dispatch quiet demo gap (note ∷ []) request running_session refl
