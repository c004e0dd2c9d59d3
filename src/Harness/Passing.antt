-- ===== src/Harness/Passing.antt =====
-- The tests of the control loop pass.
use openmso_api.Prelude.{
  ℕ, Bool, true, Option, none, some, List, ◌≡◌, refl, All, IsByte, length, arith, ◌<◌, ◌^◌,
}
use openmso_api.Failure.{NngError, ok, assert}
use openmso_api.Server.Events.{push_all}
use openmso_api.Failure.{invalid}
use openmso_api.Prelude.{[], ◌++◌, ap, ◌∙◌, bytes_eq, bytes_eq_iff}
use openmso_api.Proto.Stream.{CaptureData}
use openmso_api.Harness.{acquire_thread, drain_capture}
use openmso_api.Harness.Draining.{capture_events, drain_events}
use openmso_api.Harness.Capture.{captured, acquire_pushes}
use openmso_api.Server.Dispatch.{dispatch}
use openmso_api.Harness.Frontend.{
  lift, thread, Step, ◌>>=◌, ◌>>◌, Harness, started, send, send_raw_empty, granted, refused,
  greeted, drain,
}
use openmso_api.Harness.Scenarios.{
  nothing_is_answered_before_hello, a_capture_that_ends_on_its_own_returns_to_ready,
  reset_returns_to_ready_from_a_running_capture, a_request_with_no_arm_is_refused,
  shutdown_is_answered,
}

module _ (net : ℕ → Option NngError) (checks : Bool) (packed : List ℕ) where
  before_hello_passes : (nothing_is_answered_before_hello net checks packed started).1 ≡ ok tt
  unfolding nothing_is_answered_before_hello send granted refused greeted dispatch push_all invalid
  before_hello_passes = refl

  reset_passes : (reset_returns_to_ready_from_a_running_capture net checks packed started).1 ≡ ok tt
  unfolding reset_returns_to_ready_from_a_running_capture send granted refused greeted dispatch
      push_all invalid
  reset_passes = refl

  no_arm_passes : (a_request_with_no_arm_is_refused net checks packed started).1 ≡ ok tt
  unfolding a_request_with_no_arm_is_refused send_raw_empty send granted refused greeted dispatch
      push_all invalid
  no_arm_passes = refl

  shutdown_passes : (shutdown_is_answered net checks packed started).1 ≡ ok tt
  unfolding shutdown_is_answered send granted refused greeted dispatch push_all invalid
  shutdown_passes = refl

-- The harness once the thread has run.
abbrev behind : ℕ → List CaptureData → Harness → Harness
behind id ds h = record h {
  session = record h.session { events = captured id ds h.session.events };
}

same_bytes : (xs : List ℕ) → bytes_eq xs xs ≡ true
same_bytes xs = (bytes_eq_iff xs xs).1 refl

pub same_asserted :
    {A : Type 0} (xs : List ℕ) (k : Step A) (h : Harness)
    → (lift (assert (bytes_eq xs xs)) >> k) h ≡ k h
same_asserted xs k h = rw (same_bytes xs) refl

module _ (net : ℕ → Option NngError) (checks : Bool) (packed : List ℕ)
    (quiet : (n : ℕ) → net n ≡ none) (bytes : All IsByte packed)
    (short : length packed < 2 ^ 64) where
  capture_drained :
      {A : Type 0} (id : ℕ) (h : Harness) (k : List ℕ → Step A)
      → h.session.events.sent ≡ []
      → (ds : List CaptureData) × ((thread (acquire_thread net checks id packed true)
              >> (drain checks >>= k))
            h
          ≡ k packed (behind id ds h))
  unfolding drain
  capture_drained id h k fresh =
      let (ds, ran, d, few) =
        acquire_pushes net checks id packed h.session.events quiet bytes short in
      let arrived : drain_capture checks (h.session.events.sent ++ capture_events id ds)
          ≡ some (ok packed) =
        ap (λ sent. drain_capture checks (sent ++ capture_events id ds)) fresh
        ∙ drain_events checks id ds d (omega arith) short in
      (ds, rw (ran, arrived) refl)

  ended_capture_passes :
      (a_capture_that_ends_on_its_own_returns_to_ready net checks packed started).1 ≡ ok tt
  unfolding a_capture_that_ends_on_its_own_returns_to_ready send granted refused greeted dispatch
      push_all
  ended_capture_passes = let (ds, drains) = capture_drained 1 _ _ refl in ap (λ r. r.1) drains
