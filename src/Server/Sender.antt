-- ===== src/Server/Sender.antt =====
-- `StreamSender` of rust/openmso/src/server/events.rs: a stream cut into `CaptureData` events.
pub mod Chunk
pub mod Parts
pub mod Delivery
pub mod Counting
pub mod Calls
use openmso_api.Prelude.{ℕ, suc, ◌+◌, ◌-◌, ◌*◌, ◌/◌, ◌%◌, ◌^◌, Bool, Option, List, [], ◌∷◌, length}
use openmso_api.Prelude.{ltb, ◌==◌, ◌||◌, if◌then◌else◌}
use openmso_api.Prelude.Chunks.{chunks}
use openmso_api.Proto.Enums.{SampleEncoding, Codec, encoding_number, codec_number}
use openmso_api.Proto.Stream.{Event, CaptureData, capture_data}
use openmso_api.Failure.{NngError, Outcome, ok, err, panic, stuck, ◌>>=◌, ◌>>◌, assert}
use openmso_api.Encoding.Transition.{encode_transition}
use openmso_api.Transport.{max_payload}
use openmso_api.Server.Events.{Events}
use openmso_api.Server.Events

pub record StreamSender : Type 0 where
  pub capture_id : ℕ
  pub acquisition : ℕ
  pub stream : ℕ
  pub unitsize : ℕ
  pub encoding : SampleEncoding
  pub seq : ℕ
  pub first_sample : ℕ

-- `StreamSender::new`
unfoldable pub new_sender : ℕ → ℕ → ℕ → ℕ → Outcome StreamSender
new_sender capture_id acquisition stream unitsize = do
  assert (ltb 0 unitsize)
  ok (record {
    capture_id = capture_id;
    acquisition = acquisition;
    stream = stream;
    unitsize = unitsize;
    encoding = SampleEncoding.packed;
    seq = 0;
    first_sample = 0;
  })

-- `StreamSender::transition`
abbrev pub transition : StreamSender → StreamSender
transition s = record s { encoding = SampleEncoding.transition }

-- `a + b` on `u64`, in a build with overflow checks or without.
unfoldable pub u64_add : Bool → ℕ → ℕ → Outcome ℕ
u64_add checks a b =
    if ltb (a + b) (2 ^ 64) then ok (a + b) else if checks then panic else ok ((a + b) % 2 ^ 64)

-- `match self.encoding`
pub payload_of : SampleEncoding → ℕ → List ℕ → Outcome (List ℕ)
payload_of SampleEncoding.transition unitsize part = encode_transition part unitsize
payload_of SampleEncoding.packed unitsize part = ok part
payload_of SampleEncoding.unspecified unitsize part = ok part

-- The event of one part.
abbrev pub chunk_of : StreamSender → ℕ → List ℕ → CaptureData
chunk_of s samples payload = record {
  capture_id = s.capture_id;
  acquisition = s.acquisition;
  stream = s.stream;
  seq = s.seq;
  first_sample = s.first_sample;
  sample_count = samples;
  encoding = encoding_number s.encoding;
  codec = codec_number Codec.uncompressed;
  decoded_len = length payload;
  payload = payload;
}

-- `self.seq += 1`
pub advance_seq : Bool → StreamSender → Outcome StreamSender
unfolding u64_add
advance_seq checks s = do seq ← u64_add checks s.seq 1; ok (record s { seq = seq })

-- `self.first_sample += samples`
pub advance_samples : Bool → ℕ → StreamSender → Outcome StreamSender
unfolding u64_add
advance_samples checks samples s = do
  first ← u64_add checks s.first_sample samples
  ok (record s { first_sample = first })

-- What a call leaves: the sender, the event stream and the result.
abbrev pub Sent : Type 0
Sent = StreamSender × Events × Outcome (Unit {0})

-- A failed step leaves the sender as it is, and the call returns.
abbrev pub stop {ℓ} : {A : Type ℓ} → Outcome A → StreamSender → Events → (A → Sent) → Sent
stop (ok a) s e next = next a
stop (err x) s e next = (s, e, err x)
stop panic s e next = (s, e, panic)
stop stuck s e next = (s, e, stuck)

module _ (net : ℕ → Option NngError) (checks : Bool) where
  -- The loop over the parts.
  unfoldable pub send_parts : List (List ℕ) → StreamSender → Events → Sent
  unfolding payload_of advance_seq advance_samples
  send_parts [] s e = (s, e, ok tt)
  send_parts (part ∷ parts) s e =
      let samples = length part / s.unitsize in
      stop (payload_of s.encoding s.unitsize part) s e λ payload.
        let (e', result) = Events.send net (capture_data (chunk_of s samples payload)) e in
        stop result s e' λ _.
          stop (advance_seq checks s) s e'
            λ s'. stop (advance_samples checks samples s') s' e' λ s''. send_parts parts s'' e'

  -- `StreamSender::send`; `% 0` and `chunks(0)` panic.
  unfoldable pub send_stream : List ℕ → StreamSender → Events → Sent
  unfolding send_parts
  send_stream packed s e =
      let chunk = max_payload - max_payload % s.unitsize in
      if s.unitsize == 0 || chunk == 0 then (s, e, panic) else send_parts (chunks chunk packed) s e
