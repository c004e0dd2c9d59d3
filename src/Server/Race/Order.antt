-- ===== src/Server/Race/Order.antt =====
-- At any time the flag is cleared before the end of a capture is on the wire.
use openmso_api.Prelude.{
  ℕ, Bool, true, false, not, ◌&&◌, ◌||◌, Option, List, [], ◌∷◌, ◌++◌, map, ◌≡◌, ◌∙◌, refl, arith,
}
use openmso_api.Proto.Stream.{Event}
use openmso_api.Failure.{NngError}
use openmso_api.Server.Events.{Events, ends_capture}
use openmso_api.Server.Events.Flag.{any_end}
use openmso_api.Server.Race.{Action, clear, push, program, pushes, run_actions, Merge, Interleaved}
use openmso_api.Server.Race.Threads.{any_clear, run_actions_running}

-- Every push of an end of a capture stands behind a clear, or one came before.
abbrev guarded : Bool → List Action → Bool
guarded seen [] = true
guarded seen (clear ∷ actions) = guarded true actions
guarded seen (push event ∷ actions) = (not (ends_capture event) || seen) && guarded seen actions

guarded-program : (seen : Bool) (events : List Event) → guarded seen (program events) ≡ true
guarded-program seen [] = refl
guarded-program seen (event ∷ events) =
    ground (arith, guarded-program seen events, guarded-program true events)

guarded_sooner :
    (actions : List Action) → guarded false actions ≡ true → guarded true actions ≡ true
guarded_sooner [] h = refl
guarded_sooner (clear ∷ actions) h = h
guarded_sooner (push event ∷ actions) h = ground (arith, guarded_sooner actions)

guarded-Merge :
    (seen : Bool) {xs ys zs : List Action}
    → Merge xs ys zs
    → guarded seen xs ≡ true
    → guarded seen ys ≡ true
    → guarded seen zs ≡ true
guarded-Merge seen Merge.done h k = refl
guarded-Merge false (Merge.left {x = clear} {ys = ys} m) h k =
    guarded-Merge true m h (guarded_sooner ys k)
guarded-Merge true (Merge.left {x = clear} m) h k = guarded-Merge true m h k
guarded-Merge seen (Merge.left {x = push event} m) h k = ground (arith, guarded-Merge seen m)
guarded-Merge false (Merge.right {y = clear} {xs = xs} m) h k =
    guarded-Merge true m (guarded_sooner xs h) k
guarded-Merge true (Merge.right {y = clear} m) h k = guarded-Merge true m h k
guarded-Merge seen (Merge.right {y = push event} m) h k = ground (arith, guarded-Merge seen m)

guarded-Interleaved :
    (threads : List (List Event)) {zs : List Action}
    → Interleaved (map program threads) zs
    → guarded false zs ≡ true
guarded-Interleaved [] Interleaved.idle = refl
guarded-Interleaved (events ∷ threads) (Interleaved.thread m rest) =
    guarded-Merge false m (guarded-program false events) (guarded-Interleaved threads rest)

-- What has run of a guarded order.
guarded_clears :
    (actions later : List Action)
    → guarded false (actions ++ later) ≡ true
    → any_end (pushes actions) ≡ true
    → any_clear actions ≡ true
guarded_clears [] later h ends = cc
guarded_clears (clear ∷ actions) later h ends = refl
guarded_clears (push event ∷ actions) later h ends = ground (arith, guarded_clears actions later)

-- Whatever accesses of some threads that send at the same time have run: once a `CaptureEnd` or a
-- `DeviceLost` is pushed, the flag says that no capture is running, so that a frontend that has seen
-- it is not refused as busy.
pub run_actions_ended :
    (net : ℕ → Option NngError) (threads : List (List Event)) (actions later : List Action)
    (e : Events)
    → Interleaved (map program threads) (actions ++ later)
    → any_end (pushes actions) ≡ true
    → (run_actions net actions e).running ≡ false
run_actions_ended net threads actions later e i ends =
    run_actions_running net actions e
    ∙ ground (arith, guarded_clears actions later (guarded-Interleaved threads i) ends)
