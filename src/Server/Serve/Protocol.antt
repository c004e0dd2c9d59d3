-- ===== src/Server/Serve/Protocol.antt =====
-- The loop of `serve` steps through the protocol's phases.
use mathlib.Core.Path.{subst}
use openmso_api.Prelude.{
  ℕ, Bool, true, false, inl, inr, Option, none, some, List, [], ◌∷◌, ◌++◌, ◌≡◌, ◌∙◌, refl, ap,
  arith, Bool-cases, if◌then◌else◌,
}
use openmso_api.Proto.Control.{RequestArm, Request, ResponseArm, Response}
use openmso_api.Proto.Stream.{Event}
use openmso_api.Failure.{NngError, accept, refuse, Outcome}
use openmso_api.Server.Events.{push_all}
use openmso_api.Server.Events.Flag.{any_end, push_all_running}
use openmso_api.Server.Plugin.{CaptureServer}
use openmso_api.Server.Dispatch.{Session, Answered, dispatch}
use openmso_api.Server.Dispatch.Phases.{
  Phase, ready, running, phase_of, next_phase, is_accepted, IsSound, pushed_by, dispatch_phase,
}
use openmso_api.Server.Serve.{
  Incoming, received, malformed, broken, Turn, Round, again, returned, round, round_on, serve_loop,
  shut_down, finish, is_closed, is_shutdown,
}
use openmso_api.Server.Serve.Answers.{Round-cases, serve_loop_again, serve_loop_returned}
use openmso_api.Server.Serve.Ending.{round-IsSound, pushes-IsSound}

-- The phase behind pushed events: the end of a capture ends it.
abbrev pub after_pushes : List Event → Phase → Phase
after_pushes events running = if any_end events then ready else running
after_pushes events p = p

module _ (net : ℕ → Option NngError) (P : CaptureServer) where
  -- The phase behind an answer: an accepted `Shutdown` whose response nng took runs the plugin's own,
  -- which may push events.
  abbrev pub after_answer : Bool → Option NngError → Answered P.State ResponseArm → Phase → Phase
  after_answer true none (s, accept arm) p = after_pushes (P.shutdown s.plugin).1 p
  after_answer _ _ _ p = p

  -- The phase behind what came in: a request moves it as `next_phase` says, by whether the plugin accepted
  -- it and by whether the plugin's pushes ended a capture.
  abbrev pub after_incoming : Incoming → Option NngError → Session P.State → Phase → Phase
  after_incoming (broken e) answer s p = p
  after_incoming (malformed text) answer s p = p
  after_incoming (received r) answer s p =
      let a = dispatch net P r s in
      elim r.request [
        | none ↦ p
        | some arm ↦
            after_answer (is_shutdown (some arm)) answer a
              (next_phase p arm (is_accepted a.1) (any_end (pushed_by net P arm s.plugin)))
      ]

  -- The phase behind a turn: the pushes of the threads come first.
  abbrev pub phase_behind : Turn → Session P.State → Phase
  phase_behind turn s =
      after_incoming turn.incoming turn.answer
        (record s { events = push_all net turn.pushed s.events })
        (after_pushes turn.pushed (phase_of s))

  -- A run of the loop over some turns, from one session to another: every turn moves the phase as
  -- `phase_behind` says, and a turn that returns is the last one.
  pub data Steps : List Turn → Session P.State → Session P.State → Type 0 where
    waiting : {s : Session P.State} → Steps [] s s
    step :
        {turn : Turn} {turns : List Turn} {s s' t : Session P.State} {more : List Response}
        → round net P turn s ≡ again s' more
        → phase_of s' ≡ phase_behind turn s
        → Steps turns s' t
        → Steps (turn ∷ turns) s t
    stop :
        {turn : Turn} {turns : List Turn} {s s' : Session P.State} {more : List Response}
        {result : Outcome (Unit {0})}
        → round net P turn s ≡ returned s' more result
        → phase_of s' ≡ phase_behind turn s
        → Steps (turn ∷ turns) s s'

  pushes_phase :
      (events : List Event) (s : Session P.State)
      → phase_of (record s { events = push_all net events s.events })
        ≡ after_pushes events (phase_of s)
  pushes_phase events s = ground (arith, push_all_running net events s.events)

  abbrev session_of : Round net P → Session P.State
  session_of (again s more) = s
  session_of (returned s more result) = s

  finish_phase :
      (shutting_down : Bool) (seq : ℕ) (answer : Option NngError) (a : Answered P.State ResponseArm)
      → phase_of (session_of (finish net P shutting_down seq answer a))
        ≡ after_answer shutting_down answer a (phase_of a.0)
  unfolding finish shut_down
  finish_phase true seq (some e) (s, reply) = refl
  finish_phase false seq (some e) (s, reply) = refl
  finish_phase true seq none (s, accept arm) =
      pushes_phase (P.shutdown s.plugin).1 (record s { plugin = (P.shutdown s.plugin).0 })
  finish_phase true seq none (s, refuse e) = refl
  finish_phase false seq none (s, reply) = refl

  received_phase :
      (seq : ℕ) (request : Option RequestArm) (answer : Option NngError) (s : Session P.State)
      → IsSound s
      → let r : Request = record { seq = seq; request = request } in
        phase_of (session_of (finish net P (is_shutdown request) seq answer (dispatch net P r s)))
        ≡ after_incoming (received r) answer s (phase_of s)
  received_phase seq none answer s h = finish_phase false seq answer _ ∙ unfold dispatch in refl
  received_phase seq (some arm) answer s h =
      finish_phase (is_shutdown (some arm)) seq answer _
      ∙ ap
          (after_answer (is_shutdown (some arm)) answer
            (dispatch net P (record { seq = seq; request = some arm }) s))
          (dispatch_phase net P seq s h arm).0

  round_on_phase :
      (i : Incoming) (answer : Option NngError) (s : Session P.State)
      → IsSound s
      → phase_of (session_of (round_on net P i answer s)) ≡ after_incoming i answer s (phase_of s)
  unfolding round_on
  round_on_phase (broken e) answer s h = elim (Bool-cases (is_closed e)) [
    | inl gone ↦ rw gone refl
    | inr failed ↦ rw failed refl
  ]
  round_on_phase (malformed text) (some e) s h = refl
  round_on_phase (malformed text) none s h = refl
  round_on_phase (received r) answer s h = received_phase r.seq r.request answer s h

  round_phase :
      (turn : Turn) (s : Session P.State)
      → IsSound s
      → phase_of (session_of (round net P turn s)) ≡ phase_behind turn s
  unfolding round
  round_phase turn s h =
      round_on_phase turn.incoming turn.answer _ (pushes-IsSound net P turn.pushed s h)
      ∙ ap
          (after_incoming turn.incoming turn.answer
            (record s { events = push_all net turn.pushed s.events }))
          (pushes_phase turn.pushed s)

  -- From a session in which no capture runs before `Hello` has been answered, the loop of `serve` steps
  -- through the protocol's phases, whatever comes in, and however it ends: in each turn the pushes of the
  -- threads may end a capture, then a request moves the phase as `next_phase` says, by whether it was
  -- accepted and whether the plugin's pushes ended a capture, anything else that comes in leaves it, and
  -- an accepted `Shutdown` whose response nng took may end a capture by the pushes of the plugin's own.
  pub serve_loop-Steps :
      (turns : List Turn) (s : Session P.State) (sent : List Response)
      → IsSound s
      → Steps turns s (serve_loop net P turns s sent).session
  serve_loop-Steps [] s sent h = unfold serve_loop in Steps.waiting
  serve_loop-Steps (turn ∷ turns) s sent h = elim (Round-cases net P (round net P turn s)) [
    | inl (s', more, e) ↦ rw (serve_loop_again net P turn turns s sent e) (
        Steps.step e
          (subst (λ r. phase_of (session_of r) ≡ phase_behind turn s) e (round_phase turn s h))
          (serve_loop-Steps turns s' (sent ++ more) (round-IsSound net P turn s h e)))
    | inr (s', more, result, e) ↦ rw (serve_loop_returned net P turn turns s sent e) (
        Steps.stop e
          (subst (λ r. phase_of (session_of r) ≡ phase_behind turn s) e (round_phase turn s h)))
  ]
