-- ===== src/Harness.antt =====
-- The capture of rust/openmso/tests/control_loop.rs: the thread of its plugin, and the frontend that
-- reads the events of a capture to its end.
pub mod Draining
pub mod Capture
pub mod Frontend
pub mod Scenarios
pub mod Passing
pub mod Blocking
pub mod Start
use openmso_api.Prelude.{
  ℕ, ◌+◌, Bool, Option, none, some, List, [], ◌∷◌, ◌++◌, length, ◌==◌, if◌then◌else◌,
}
use openmso_api.Proto.Stream.{
  Event, CaptureBegin, CaptureData, CaptureEnd, capture_begin, capture_data, capture_end,
}
use openmso_api.Failure.{NngError, Outcome, ok, err, panic, stuck, ◌>>=◌, ◌>>◌, assert}
use openmso_api.Proto.Device.{ProtoError}
use openmso_api.Encoding.Transition.{decode_transition}
use openmso_api.Server.Events.{Events}
use openmso_api.Server.Events
use openmso_api.Server.Sender.{StreamSender, new_sender, transition, send_stream, u64_add}

-- `UNITSIZE`
abbrev pub unitsize : ℕ
unitsize = 1

-- The events around the chunks; the sample rate is the double 1e6.
abbrev pub begin_of : ℕ → CaptureBegin
begin_of id = record { capture_id = id; samplerate = 4696837146684686336; streams = [] }

abbrev pub end_of : ℕ → CaptureEnd
end_of id = record { capture_id = id; error = none }

-- `unwrap`
abbrev pub unwrap {ℓ} : {A : Type ℓ} → Outcome A → Outcome A
unwrap (ok a) = ok a
unwrap (err _) = panic
unwrap panic = panic
unwrap stuck = stuck

-- The event stream, and what the thread's last call gave.
abbrev pub Pushed : Type 0
Pushed = Events × Outcome (Unit {0})

-- A call that is unwrapped, and what follows it.
abbrev pub unwrapped : Pushed → (Events → Pushed) → Pushed
unwrapped (e, ok _) next = next e
unwrapped (e, err _) next = (e, panic)
unwrapped (e, panic) next = (e, panic)
unwrapped (e, stuck) next = (e, stuck)

module _ (net : ℕ → Option NngError) (checks : Bool) where
  -- `StreamSender::new(…).transition()` and its one `send`.
  push_samples : List ℕ → Outcome StreamSender → Events → Pushed
  push_samples packed (ok s) e =
      let (_, e', result) = send_stream net checks packed (transition s) e in (e', result)
  push_samples packed (err x) e = (e, err x)
  push_samples packed panic e = (e, panic)
  push_samples packed stuck e = (e, stuck)

  -- The thread of `Stub::acquire_start`; `ended` says whether it has left the loop that waits for a
  -- continuous capture to be stopped.
  unfoldable pub acquire_thread : ℕ → List ℕ → Bool → Events → Pushed
  unfolding push_samples new_sender
  acquire_thread id packed ended e =
      unwrapped (Events.send net (capture_begin (begin_of id)) e) λ e.
        unwrapped (push_samples packed (new_sender id 0 0 unitsize) e) λ e.
          if ended
          then unwrapped (Events.send net (capture_end (end_of id)) e) (λ e. (e, ok tt))
          else (e, ok tt)

-- `assert_eq!` of two numbers.
abbrev pub assert_eq : ℕ → ℕ → Outcome (Unit {0})
assert_eq a b = assert (a == b)

-- The arm of a chunk: its samples, and the next expected numbers.
unfoldable pub take_chunk : Bool → CaptureData → ℕ → ℕ → Outcome (List ℕ × ℕ × ℕ)
unfolding u64_add
take_chunk checks d seq first = do
  assert_eq d.seq seq
  assert_eq d.first_sample first
  assert_eq d.decoded_len (length d.payload)
  seq' ← u64_add checks seq 1
  first' ← u64_add checks first d.sample_count
  bytes ← unwrap (decode_transition checks d.payload unitsize d.sample_count)
  ok (bytes, seq', first')

-- `assert_eq!(end.error, None)`
abbrev pub no_error : Option ProtoError → Outcome (Unit {0})
no_error none = ok tt
no_error (some _) = panic

-- The loop of `drain_capture` over the events to come; behind them it waits.
unfoldable pub drain_loop : Bool → List Event → List ℕ → ℕ → ℕ → Option (Outcome (List ℕ))
drain_loop checks [] samples seq first = none
drain_loop checks (capture_begin _ ∷ events) samples seq first =
    drain_loop checks events samples seq first
drain_loop checks (capture_data d ∷ events) samples seq first =
    elim (take_chunk checks d seq first) [
      | ok next ↦ drain_loop checks events (samples ++ next.0) next.1 next.2
      | err x ↦ some (err x)
      | panic ↦ some panic
      | stuck ↦ some stuck
    ]
drain_loop checks (capture_end end ∷ events) samples seq first =
    some (no_error end.error >> ok samples)
drain_loop checks (_ ∷ events) samples seq first = some panic

unfoldable pub drain_capture : Bool → List Event → Option (Outcome (List ℕ))
unfolding drain_loop
drain_capture checks events = drain_loop checks events [] 0 0
