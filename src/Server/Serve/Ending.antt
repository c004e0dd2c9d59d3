-- ===== src/Server/Serve/Ending.antt =====
-- How the loop of `serve` ends, and what it keeps.
use openmso_api.Prelude.{ℕ, true, inl, inr, Option, none, some, List, [], ◌∷◌, ◌++◌, ◌≡◌, arith}
use openmso_api.Prelude.{if◌then◌else◌}
use openmso_api.Proto.Control.{RequestArm, ResponseArm, Response}
use openmso_api.Failure.{NngError, ok, err, nng, accept}
use openmso_api.Proto.Stream.{Event}
use openmso_api.Server.Events.{push_all}
use openmso_api.Server.Events.Flag.{push_all_running}
use openmso_api.Server.Plugin.{CaptureServer}
use openmso_api.Server.Dispatch.{Session, dispatch}
use openmso_api.Server.Dispatch.Phases.{IsSound, dispatch_phase}
use openmso_api.Server.Serve.{
  Incoming, received, malformed, broken, Turn, again, round, round_on, serve_loop, response_of,
  is_closed,
}
use openmso_api.Server.Serve.Answers.{Round-cases, serve_loop_again, serve_loop_returned}

module _ (net : ℕ → Option NngError) (P : CaptureServer) where
  -- In a greeted session, a `Shutdown` whose response nng takes ends the loop with success: the
  -- plugin's own shutdown has run, the response is the last, and no later message is looked at.
  pub serve_loop_shutdown :
      (turn : Turn) (turns : List Turn) (seq : ℕ) (s : Session P.State) (sent : List Response)
      → s.greeted ≡ true
      → turn.incoming ≡ received (record { seq = seq; request = some RequestArm.shutdown })
      → turn.answer ≡ none
      → let (p, pushed) = P.shutdown s.plugin in
        serve_loop net P (turn ∷ turns) s sent ≡ record {
          session = record s {
            plugin = p;
            events = push_all net pushed (push_all net turn.pushed s.events);
          };
          responses = sent ++ response_of seq (accept ResponseArm.shutdown) ∷ [];
          result = some (ok tt);
        }
  unfolding round dispatch
  serve_loop_shutdown turn turns seq s sent g i a =
      serve_loop_returned net P turn turns s sent (ground arith)

  -- A message that could not be received ends the loop: with success when nng says that the
  -- connection is closed, and with nng's error otherwise.
  pub serve_loop_broken :
      (turn : Turn) (turns : List Turn) (s : Session P.State) (sent : List Response) (e : NngError)
      → turn.incoming ≡ broken e
      → (serve_loop net P (turn ∷ turns) s sent).result
        ≡ some (if is_closed e then ok tt else err (nng e))
  unfolding serve_loop round
  serve_loop_broken turn turns s sent e i = ground arith

  dispatch-IsSound :
      (seq : ℕ) (arm : Option RequestArm) (s : Session P.State)
      → IsSound s
      → IsSound (dispatch net P (record { seq = seq; request = arm }) s).0
  dispatch-IsSound seq none s h = unfold dispatch in h
  dispatch-IsSound seq (some arm) s h = (dispatch_phase net P seq s h arm).1

  round_on-IsSound :
      (i : Incoming) (answer : Option NngError) (s : Session P.State) {s' : Session P.State}
      {more : List Response}
      → IsSound s
      → round_on net P i answer s ≡ again s' more
      → IsSound s'
  unfolding round_on
  round_on-IsSound (broken x) answer s h e = ground arith
  round_on-IsSound (malformed text) answer s h e = ground arith
  round_on-IsSound (received r) answer s h e = ground (arith, dispatch-IsSound r.seq r.request s h)

  pub pushes-IsSound :
      (events : List Event) (s : Session P.State)
      → IsSound s
      → IsSound (record s { events = push_all net events s.events })
  pushes-IsSound events s h = ground (arith, push_all_running net events s.events)

  pub round-IsSound :
      (turn : Turn) (s : Session P.State) {s' : Session P.State} {more : List Response}
      → IsSound s
      → round net P turn s ≡ again s' more
      → IsSound s'
  unfolding round
  round-IsSound turn s h e =
      round_on-IsSound turn.incoming turn.answer
        (record s { events = push_all net turn.pushed s.events }) (pushes-IsSound turn.pushed s h) e

  -- From a session in which no capture runs before `Hello` has been answered, and as long as the
  -- loop of `serve` has not returned, whatever comes in and whatever the threads push, the session
  -- stays such a one.
  pub serve_loop-IsSound :
      (turns : List Turn) (s : Session P.State) (sent : List Response)
      → IsSound s
      → (serve_loop net P turns s sent).result ≡ none
      → IsSound (serve_loop net P turns s sent).session
  serve_loop-IsSound [] s sent h waiting = unfold serve_loop in h
  serve_loop-IsSound (turn ∷ turns) s sent h waiting =
      elim (Round-cases net P (round net P turn s)) [
        | inl (s', more, e) ↦ rw (serve_loop_again net P turn turns s sent e) (
            serve_loop-IsSound turns s' (sent ++ more) (round-IsSound turn s h e)
              (rw (serve_loop_again net P turn turns s sent e) at waiting))
        | inr (s', more, result, e) ↦
            let over : some result ≡ none =
              rw (serve_loop_returned net P turn turns s sent e) at waiting in
            cc
      ]
