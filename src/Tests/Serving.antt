-- ===== src/Tests/Serving.antt =====
-- The properties of the loop of `serve`, on a short run.
use openmso_api.Prelude.{ℕ, none, some, ◌≡◌, refl, List, [], ◌∷◌, ◌++◌}
use openmso_api.Proto.Control.{RequestArm, ResponseArm}
use openmso_api.Failure.{ok, accept}
use openmso_api.Server.Events.{push_all}
use openmso_api.Server.Dispatch.Phases.{IsSound}
use openmso_api.Server.Serve.{Turn, received, malformed, serve_loop, response_of}
use openmso_api.Server.Serve.Answers.{seq_list, serve_loop_answers_all}
use openmso_api.Server.Serve.Protocol.{Steps, serve_loop-Steps}
use openmso_api.Server.Serve.Ending.{serve_loop_shutdown, serve_loop-IsSound}
use openmso_api.Tests.{quiet, demo, ready_session}

abbrev turn_of : ℕ → RequestArm → Turn
turn_of seq arm = record {
  pushed = [];
  incoming = received (record { seq = seq; request = some arm });
  answer = none;
}

-- Two requests with an undecodable message between them.
abbrev turns : List Turn
turns =
    turn_of 1 RequestArm.describe
    ∷ record { pushed = []; incoming = malformed []; answer = none }
    ∷ turn_of 2 RequestArm.reset
    ∷ []

waits : (serve_loop quiet demo turns ready_session []).result ≡ none
waits = unfold serve_loop in refl

serve_loop_answers_all_example :
    seq_list (serve_loop quiet demo turns ready_session []).responses ≡ 1 ∷ 0 ∷ 2 ∷ []
serve_loop_answers_all_example = serve_loop_answers_all quiet demo turns ready_session [] waits

serve_loop-IsSound_example : IsSound (serve_loop quiet demo turns ready_session []).session
serve_loop-IsSound_example = serve_loop-IsSound quiet demo turns ready_session [] refl waits

serve_loop_shutdown_example :
    serve_loop quiet demo (turn_of 7 RequestArm.shutdown ∷ turns) ready_session [] ≡ record {
      session = ready_session;
      responses = [] ++ response_of 7 (accept ResponseArm.shutdown) ∷ [];
      result = some (ok tt);
    }
unfolding push_all
serve_loop_shutdown_example =
    serve_loop_shutdown quiet demo (turn_of 7 RequestArm.shutdown) turns 7 ready_session [] refl
      refl refl

serve_loop-Steps_example :
    Steps quiet demo turns ready_session (serve_loop quiet demo turns ready_session []).session
serve_loop-Steps_example = serve_loop-Steps quiet demo turns ready_session [] refl
