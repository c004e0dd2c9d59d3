-- ===== src/Tests/Stream.antt =====
-- The properties of a stream's sender, at concrete inputs.
use openmso_api.Prelude.{
  ℕ, ◌∷◌, ◌+◌, arith, true, ◌≡◌, ◌≤◌, refl, List, [], ◌++◌, map, length, concat, All, IsByte,
}
use openmso_api.Proto.Stream.{CaptureData, capture_data}
use openmso_api.Failure.{ok}
use openmso_api.Server.Events.{new_events}
use openmso_api.Server.Sender.{send_stream}
use openmso_api.Server.Sender.Chunk.{Delivers}
use openmso_api.Server.Sender.Parts.{at}
use openmso_api.Server.Sender.Delivery.{send_stream_delivers}
use openmso_api.Server.Sender.Counting.{InStep, send_stream-InStep}
use openmso_api.Server.Sender.Calls.{send_calls, send_calls_deliver}
use openmso_api.Tests.{quiet, failing, samples, bytes_samples, sender}

send_stream_delivers_example :
    (ds : List CaptureData) × (send_stream quiet true samples sender new_events ≡ (
      at sender (4 + length ds) (100 + 3),
      record new_events { sent = [] ++ map capture_data ds; tries = 0 + length ds },
      ok tt,
    ))
    × Delivers true sender 4 100 ds samples
    × (length ds ≤ 3)
send_stream_delivers_example =
    send_stream_delivers quiet true sender samples 3 new_events (λ n. refl) (omega arith)
      (omega arith) refl bytes_samples (omega arith) (omega arith)

send_stream-InStep_example :
    InStep sender new_events (send_stream failing true samples sender new_events)
send_stream-InStep_example =
    send_stream-InStep failing true samples sender new_events (omega arith) (omega arith)

-- Three samples, and one more that goes on with the last run.
abbrev calls : List (List ℕ)
calls = samples ∷ (9 ∷ []) ∷ []

bytes_calls : All IsByte (concat calls)
bytes_calls = ground arith

send_calls_deliver_example :
    (ds : List CaptureData) × (send_calls quiet true calls sender new_events ≡ (
      at sender (4 + length ds) (100 + 4),
      record new_events { sent = [] ++ map capture_data ds; tries = 0 + length ds },
      ok tt,
    ))
    × Delivers true sender 4 100 ds (7 ∷ 7 ∷ 9 ∷ 9 ∷ [])
send_calls_deliver_example =
    send_calls_deliver quiet true sender (λ n. refl) (omega arith) (omega arith) (3 ∷ 1 ∷ []) calls
      new_events (refl, (refl, tt)) bytes_calls (omega arith) (omega arith)
