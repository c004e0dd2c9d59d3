-- ===== src/Harness/Draining.antt =====
-- The frontend that drains a capture gets what its chunks deliver.
use mathlib.Core.Path.{subst}
use mathlib.Core.List.{append_assoc, append-nil}
use openmso_api.Prelude.{
  ℕ, ◌+◌, ◌^◌, ◌<◌, arith, Bool, some, List, [], ◌∷◌, ◌++◌, map, ◌≡◌, ◌∙◌, refl, sym, ap, length,
}
use openmso_api.Proto.Enums.{SampleEncoding, encoding_number}
use openmso_api.Proto.Stream.{Event, CaptureData, capture_begin, capture_data, capture_end}
use openmso_api.Failure.{ok}
use openmso_api.Encoding.Transition.{decode_transition}
use openmso_api.Encoding.Payload.{Cow, bytes_of, decode_payload}
use openmso_api.Encoding.Payload.Branches.{decode_payload_branches}
use openmso_api.Server.Sender.{StreamSender}
use openmso_api.Server.Sender.Chunk.{Delivers}
use openmso_api.Server.Sender.Calls.{chunk_samples, length-Delivers}
use openmso_api.Harness.{begin_of, end_of, take_chunk, drain_loop, drain_capture}

decodes :
    (checks : Bool) (d : CaptureData) (u : ℕ) {cow : Cow}
    → d.encoding ≡ 2
    → decode_payload checks d u ≡ ok cow
    → decode_transition checks d.payload u d.sample_count ≡ ok (bytes_of cow)
decodes checks d u {cow} e h =
    let branches = sym (decode_payload_branches checks d u) ∙ h in ground arith

take_chunk_ok :
    (checks : Bool) (d : CaptureData) (seq first : ℕ) {bytes : List ℕ}
    → d.seq ≡ seq
    → d.first_sample ≡ first
    → d.decoded_len ≡ length d.payload
    → decode_transition checks d.payload 1 d.sample_count ≡ ok bytes
    → seq + 1 < 2 ^ 64
    → first + d.sample_count < 2 ^ 64
    → take_chunk checks d seq first ≡ ok (bytes, seq + 1, first + d.sample_count)
unfolding take_chunk
take_chunk_ok checks d seq first a b c h s f = ground arith

drain_chunk :
    (checks : Bool) (d : CaptureData) (events : List Event) (samples : List ℕ) (seq first : ℕ)
    {next : List ℕ × ℕ × ℕ}
    → take_chunk checks d seq first ≡ ok next
    → drain_loop checks (capture_data d ∷ events) samples seq first
      ≡ drain_loop checks events (samples ++ next.0) next.1 next.2
unfolding drain_loop
drain_chunk checks d events samples seq first h = rw (h, drain_loop) refl

same_drain :
    (checks : Bool) (events : List Event) {a a' : List ℕ} {b b' c c' : ℕ}
    → a ≡ a'
    → b ≡ b'
    → c ≡ c'
    → drain_loop checks events a b c ≡ drain_loop checks events a' b' c'
same_drain checks events ea eb ec = rw (ea, eb, ec) refl

module _ (checks : Bool) (s : StreamSender) (unit : s.unitsize ≡ 1)
    (runs : s.encoding ≡ SampleEncoding.transition) where
  drain_chunks :
      (ds : List CaptureData) (events : List Event) (samples : List ℕ) {seq first : ℕ}
      {bytes : List ℕ}
      → Delivers checks s seq first ds bytes
      → seq + length ds < 2 ^ 64
      → first + chunk_samples ds < 2 ^ 64
      → drain_loop checks (map capture_data ds ++ events) samples seq first
        ≡ drain_loop checks events (samples ++ bytes) (seq + length ds) (first + chunk_samples ds)
  drain_chunks ds events samples Delivers.nothing hs hf =
      same_drain checks events (sym (append-nil samples)) (omega arith) (omega arith)
  drain_chunks ds events samples {seq} {first}
        (Delivers.chunk {d = d} {ds = ds'} {rest = rest} cow k e l later) hs hf =
      let taken : take_chunk checks d seq first
          ≡ ok (bytes_of cow, seq + 1, first + d.sample_count) =
        take_chunk_ok checks d seq first k.placed k.sampled k.measured
          (subst (λ u. decode_transition checks d.payload u d.sample_count ≡ ok (bytes_of cow)) unit
            (decodes checks d s.unitsize (k.encoded ∙ ap encoding_number runs) e))
          (omega arith) (omega arith) in
      drain_chunk checks d (map capture_data ds' ++ events) samples seq first taken
      ∙ drain_chunks ds' events (samples ++ bytes_of cow) later (omega arith) (omega arith)
      ∙ same_drain checks events (append_assoc samples (bytes_of cow) rest) (omega arith)
          (omega arith)

-- The sender of the thread.
abbrev pub sender_of : ℕ → StreamSender
sender_of id = record {
  capture_id = id;
  acquisition = 0;
  stream = 0;
  unitsize = 1;
  encoding = SampleEncoding.transition;
  seq = 0;
  first_sample = 0;
}

-- The events of a capture.
abbrev pub capture_events : ℕ → List CaptureData → List Event
capture_events id ds =
    capture_begin (begin_of id) ∷ map capture_data ds ++ capture_end (end_of id) ∷ []

pub drain_events :
    (checks : Bool) (id : ℕ) (ds : List CaptureData) {packed : List ℕ}
    → Delivers checks (sender_of id) 0 0 ds packed
    → length ds < 2 ^ 64
    → length packed < 2 ^ 64
    → drain_capture checks (capture_events id ds) ≡ some (ok packed)
unfolding drain_capture drain_loop
drain_events checks id ds d few short =
    drain_chunks checks (sender_of id) refl refl ds (capture_end (end_of id) ∷ []) [] d
      (omega arith) (omega (arith, length-Delivers d))
