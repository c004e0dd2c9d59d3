-- ===== src/Server/Race/Threads.antt =====
-- The sends of several threads are as good as atomic.
use mathlib.Core.Path.{subst}
use openmso_api.Prelude.{
  ℕ, Bool, true, false, not, ◌&&◌, ◌||◌, Option, none, some, List, [], ◌∷◌, ◌++◌, map, ◌≡◌, ◌∙◌,
  refl, sym, ap, arith, Bool-cases, inl, inr,
}
use openmso_api.Proto.Stream.{Event}
use openmso_api.Failure.{NngError}
use openmso_api.Server.Events.{Events, set_running, ends_capture, push_socket, push_all}
use openmso_api.Server.Events.Flag.{any_end}
use openmso_api.Server.Race.{Action, clear, push, program, pushes, run_actions, Merge, Interleaved}

abbrev pub any_clear : List Action → Bool
any_clear [] = false
any_clear (clear ∷ actions) = true
any_clear (push _ ∷ actions) = any_clear actions

any_end-append : (es fs : List Event) → any_end (es ++ fs) ≡ (any_end es || any_end fs)
any_end-append [] fs = refl
any_end-append (e ∷ es) fs = ground (arith, any_end-append es fs)

pushes-program : (events : List Event) → pushes (program events) ≡ events
pushes-program [] = refl
pushes-program (event ∷ events) = ground (arith, pushes-program events)

any_clear-program : (events : List Event) → any_clear (program events) ≡ any_end events
any_clear-program [] = refl
any_clear-program (event ∷ events) = ground (arith, any_clear-program events)

pushes-Merge : {xs ys zs : List Action} → Merge xs ys zs → Merge (pushes xs) (pushes ys) (pushes zs)
pushes-Merge Merge.done = Merge.done
pushes-Merge (Merge.left {x = clear} m) = pushes-Merge m
pushes-Merge (Merge.left {x = push event} m) = Merge.left (pushes-Merge m)
pushes-Merge (Merge.right {y = clear} m) = pushes-Merge m
pushes-Merge (Merge.right {y = push event} m) = Merge.right (pushes-Merge m)

any_clear-Merge :
    {xs ys zs : List Action} → Merge xs ys zs → any_clear zs ≡ (any_clear xs || any_clear ys)
any_clear-Merge Merge.done = refl
any_clear-Merge (Merge.left {x = clear} m) = refl
any_clear-Merge (Merge.left {x = push event} m) = any_clear-Merge m
any_clear-Merge (Merge.right {y = clear} {xs = xs} m) = ground arith
any_clear-Merge (Merge.right {y = push event} m) = any_clear-Merge m

any_end-Merge : {xs ys zs : List Event} → Merge xs ys zs → any_end zs ≡ (any_end xs || any_end ys)
any_end-Merge Merge.done = refl
any_end-Merge (Merge.left {x = x} m) = ground (arith, any_end-Merge m)
any_end-Merge (Merge.right {y = y} m) = ground (arith, any_end-Merge m)

-- What the threads share, apart from the flag: the pushes alone.
pushes-Interleaved :
    (threads : List (List Event)) {zs : List Action}
    → Interleaved (map program threads) zs
    → Interleaved threads (pushes zs)
pushes-Interleaved [] Interleaved.idle = Interleaved.idle
pushes-Interleaved (events ∷ threads) {zs} (Interleaved.thread {ys = ys} m rest) =
    Interleaved.thread
      (subst (λ t. Merge t (pushes ys) (pushes zs)) (pushes-program events) (pushes-Merge m))
      (pushes-Interleaved threads rest)

-- All threads have ended: the flag was cleared if and only if the end of a capture was pushed.
clears_ends :
    (threads : List (List Event)) {zs : List Action}
    → Interleaved (map program threads) zs
    → any_clear zs ≡ any_end (pushes zs)
clears_ends [] Interleaved.idle = refl
clears_ends (events ∷ threads) {zs} (Interleaved.thread {ys = ys} m rest) = ground (
  arith,
  any_clear-Merge m,
  any_end-Merge (pushes-Merge m),
  any_clear-program events,
  pushes-program events,
  clears_ends threads rest,
)

push_socket_flag :
    (answer : Option NngError) (event : Event) (e : Events) (b : Bool)
    → push_socket answer event (record e { running = b })
      ≡ record (push_socket answer event e) { running = b }
unfolding push_socket
push_socket_flag none event e b = refl
push_socket_flag (some _) event e b = refl

push_socket_running :
    (answer : Option NngError) (event : Event) (e : Events)
    → (push_socket answer event e).running ≡ e.running
unfolding push_socket
push_socket_running none event e = refl
push_socket_running (some _) event e = refl

module _ (net : ℕ → Option NngError) where
  -- The pushes of some events, with the flag left alone.
  push_only : List Event → Events → Events
  push_only [] e = e
  push_only (event ∷ events) e = push_only events (push_socket (net e.tries) event e)

  push_only_flag :
      (events : List Event) (e : Events) (b : Bool)
      → push_only events (record e { running = b }) ≡ record (push_only events e) { running = b }
  unfolding push_only
  push_only_flag [] e b = refl
  push_only_flag (event ∷ events) e b =
      ap (push_only events) (push_socket_flag (net e.tries) event e b)
      ∙ push_only_flag events (push_socket (net e.tries) event e) b

  run_actions_lem :
      (actions : List Action) (e : Events)
      → run_actions net actions e
        ≡ record (push_only (pushes actions) e) { running = e.running && not (any_clear actions) }
  unfolding run_actions push_only
  run_actions_lem [] e = ground arith
  run_actions_lem (clear ∷ actions) e =
      run_actions_lem actions (set_running false e)
      ∙ ground (arith, push_only_flag (pushes actions) e false)
  run_actions_lem (push event ∷ actions) e =
      let e' : Events = push_socket (net e.tries) event e in
      run_actions_lem actions e' ∙ ground (arith, push_socket_running (net e.tries) event e)

  pub run_actions_running :
      (actions : List Action) (e : Events)
      → (run_actions net actions e).running ≡ (e.running && not (any_clear actions))
  run_actions_running actions e = ap (λ x. x.running) (run_actions_lem actions e)

  push_all_lem :
      (events : List Event) (e : Events)
      → push_all net events e
        ≡ record (push_only events e) { running = e.running && not (any_end events) }
  unfolding push_all push_only
  push_all_lem [] e = ground arith
  push_all_lem (event ∷ events) e =
      let e' : Events = push_socket (net e.tries) event e in
      elim (Bool-cases (ends_capture event)) [
        | inl ends ↦ rw ends (
            ap (push_all net events) (push_socket_flag (net e.tries) event e false)
            ∙ push_all_lem events (record e' { running = false })
            ∙ ground (arith, push_only_flag events e' false))
        | inr goes_on ↦
            rw goes_on
              (push_all_lem events e' ∙ ground (arith, push_socket_running (net e.tries) event e))
      ]

  -- A store of `false` to the flag may as well come before or behind the sends of others.
  pub push_all-set_running :
      (events : List Event) (e : Events)
      → push_all net events (set_running false e) ≡ set_running false (push_all net events e)
  push_all-set_running events e =
      push_all_lem events (set_running false e)
      ∙ ground (arith, push_only_flag events e false, push_all_lem events e)

  -- Threads that send at the same time, with their accesses to the flag and to the socket in any
  -- order that keeps the order of each thread, leave the flag, the pushes and their results as the
  -- sends do one after the other, in some order that keeps the order of each thread.
  pub run_actions-push_all :
      (threads : List (List Event)) (actions : List Action) (e : Events)
      → Interleaved (map program threads) actions
      → Interleaved threads (pushes actions)
        × (run_actions net actions e ≡ push_all net (pushes actions) e)
  run_actions-push_all threads actions e i = (
    pushes-Interleaved threads i,
    run_actions_lem actions e
        ∙ ap (λ b. record (push_only (pushes actions) e) { running = e.running && not b })
            (clears_ends threads i)
        ∙ sym (push_all_lem (pushes actions) e),
  )
