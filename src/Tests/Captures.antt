-- ===== src/Tests/Captures.antt =====
-- The capture of the tests, of three samples.
use openmso_api.Prelude.{
  ℕ, ◌<◌, [], ◌∷◌, ◌==◌, if◌then◌else◌, true, false, some, List, ◌++◌, ◌≡◌, refl, arith,
}
use openmso_api.Proto.Stream.{Event, CaptureData, capture_begin, capture_data, capture_end}
use openmso_api.Server.Events.Flag.{any_end}
use openmso_api.Failure.{ok}
use openmso_api.Server.Events.{Events, new_events, send}
use openmso_api.Server.Sender.{send_stream}
use openmso_api.Prelude.Chunks.{chunks, chunks_exact}
use openmso_api.Encoding.Transition.{encode_transition}
use openmso_api.Encoding.Varint.{put_varint}
use openmso_api.Harness.{begin_of, end_of, acquire_thread, drain_capture}
use openmso_api.Harness.Capture.{drain_capture-acquire_thread}
use openmso_api.Harness.Frontend.{started, arrive}
use openmso_api.Harness.Scenarios.{a_running_capture_blocks_configuration}
use openmso_api.Harness.Blocking.{running_capture_passes}
use openmso_api.Tests.{quiet, samples, bytes_samples}

drain_capture-acquire_thread_example :
    (events : List Event) × (e' : Events) × (acquire_thread quiet true 7 samples true new_events
      ≡ (e', ok tt))
    × (e'.sent ≡ new_events.sent ++ events)
    × (e'.running ≡ false)
    × (drain_capture true events ≡ some (ok samples))
drain_capture-acquire_thread_example =
    drain_capture-acquire_thread quiet true 7 samples new_events (λ _. refl) bytes_samples
      (omega arith)

-- The events of the capture, between the requests.
abbrev captured_chunk : CaptureData
captured_chunk = record {
  capture_id = 7;
  acquisition = 0;
  stream = 0;
  seq = 0;
  first_sample = 0;
  sample_count = 3;
  encoding = 2;
  codec = 1;
  decoded_len = 4;
  payload = 2 ∷ 7 ∷ 1 ∷ 9 ∷ [];
}

abbrev between : ℕ → List Event
between n =
    if n == 1
    then capture_begin (begin_of 7) ∷ []
    else if n == 3
    then capture_data captured_chunk ∷ []
    else if n == 5
    then capture_end (end_of 7) ∷ []
    else []

between_sent :
    (acquire_thread quiet true 7 samples true new_events).0.sent
    ≡ ((((between 0 ++ between 1) ++ between 2) ++ between 3) ++ between 4) ++ between 5
unfolding acquire_thread send send_stream chunks encode_transition chunks_exact put_varint
between_sent = refl

no_early_end : (n : ℕ) → n < 5 → any_end (between n) ≡ false
no_early_end n h = ground arith

running_capture_passes_example :
    (a_running_capture_blocks_configuration quiet true samples
      (λ n. arrive quiet (between n))
      started).1
    ≡ ok tt
running_capture_passes_example =
    running_capture_passes quiet true samples (λ _. refl) bytes_samples (omega arith) between
      between_sent no_early_end
