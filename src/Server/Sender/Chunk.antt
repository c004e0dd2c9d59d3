-- ===== src/Server/Sender/Chunk.antt =====
-- One chunk of `StreamSender::send`, and what a frontend makes of it.
use mathlib.Core.Path.{subst}
use openmso_api.Prelude.{ℕ, ◌+◌, ◌*◌, ◌^◌, ◌≤◌, ◌<◌, arith, Bool, false}
use openmso_api.Prelude.{List, [], ◌∷◌, ◌++◌, ◌≡◌, ◌∙◌, refl, length, All, IsByte}
use openmso_api.Prelude.{◌==◌}
use openmso_api.Proto.Enums.{SampleEncoding, encoding_number}
use openmso_api.Proto.Stream.{CaptureData}
use openmso_api.Failure.{ok, ◌>>=◌}
use openmso_api.Encoding.Transition.{isize_max}
use openmso_api.Encoding.Transition.Encode.{length-encode_transition, le_times}
use openmso_api.Encoding.Transition.RoundTrip.{decode_transition-encode_transition}
use openmso_api.Encoding.Payload.{Cow, borrowed, owned, bytes_of, decode_payload}
use openmso_api.Encoding.Payload.Branches.{decode_payload_branches}
use openmso_api.Transport.{max_payload}
use openmso_api.Server.Sender.{StreamSender, chunk_of, payload_of}

-- The fields of one chunk of the stream of `s`, at place `seq` and sample `first`.
pub record IsChunk (s : StreamSender) (seq first : ℕ) (d : CaptureData) : Type 0 where
  pub capture : d.capture_id ≡ s.capture_id
  pub acquired : d.acquisition ≡ s.acquisition
  pub streamed : d.stream ≡ s.stream
  pub placed : d.seq ≡ seq
  pub sampled : d.first_sample ≡ first
  pub encoded : d.encoding ≡ encoding_number s.encoding
  pub measured : d.decoded_len ≡ length d.payload
  pub short : length d.payload ≤ 2 * max_payload

-- A frontend that decodes the chunks one by one gets the packed samples, with no gap and no overlap
-- in the numbers.
pub data Delivers (checks : Bool) (s : StreamSender)
    : ℕ → ℕ → List CaptureData → List ℕ → Type 0 where
  nothing : {seq first : ℕ} → Delivers checks s seq first [] []
  chunk :
      {seq first : ℕ} {d : CaptureData} {ds : List CaptureData} {rest : List ℕ} (cow : Cow)
      → IsChunk s seq first d
      → decode_payload checks d s.unitsize ≡ ok cow
      → length (bytes_of cow) ≡ d.sample_count * s.unitsize
      → Delivers checks s (seq + 1) (first + d.sample_count) ds rest
      → Delivers checks s seq first (d ∷ ds) (bytes_of cow ++ rest)

-- A part of `m` whole samples, encoded, and the chunk decoded again.
pub record Encoded (checks : Bool) (s : StreamSender) (m : ℕ) (part : List ℕ) : Type 0 where
  pub payload : List ℕ
  pub written : payload_of s.encoding s.unitsize part ≡ ok payload
  pub short : length payload ≤ length part + m
  pub cow : Cow
  pub decoded : decode_payload checks (chunk_of s m payload) s.unitsize ≡ ok cow
  pub same : bytes_of cow ≡ part

Encoded-verbatim :
    (checks : Bool) (s : StreamSender) (m : ℕ) (part : List ℕ)
    → payload_of s.encoding s.unitsize part ≡ ok part
    → (encoding_number s.encoding == 2) ≡ false
    → Encoded checks s m part
Encoded-verbatim checks s m part w e = record {
  payload = part;
  written = w;
  short = omega arith;
  cow = borrowed part;
  decoded = decode_payload_branches checks (chunk_of s m part) s.unitsize ∙ rw e;
  same = refl;
}

Encoded-runs :
    (checks : Bool) (s : StreamSender) (m : ℕ) (part : List ℕ)
    → s.encoding ≡ SampleEncoding.transition
    → 0 < s.unitsize
    → length part ≡ m * s.unitsize
    → All IsByte part
    → length part ≤ isize_max
    → Encoded checks s m part
Encoded-runs checks s m part e h l b small =
    let samples : m < 2 ^ 64 = omega (arith, le_times s.unitsize m h) in
    let (encoded, w, d) =
      decode_transition-encode_transition checks s.unitsize m part h l b small in
    let (encoded', w', short) = length-encode_transition s.unitsize m part h l samples b in
    let same : encoded' ≡ encoded = cc (w, w') in
    record {
      payload = encoded;
      written = rw e (unfold payload_of in w);
      short = subst (λ t. length t ≤ length part + m) same short;
      cow = owned part;
      decoded = decode_payload_branches checks (chunk_of s m encoded) s.unitsize ∙ rw (e, d, ◌>>=◌);
      same = refl;
    }

pub Encoded-by :
    (checks : Bool) (s : StreamSender) (m : ℕ) (part : List ℕ) (encoding : SampleEncoding)
    → s.encoding ≡ encoding
    → 0 < s.unitsize
    → length part ≡ m * s.unitsize
    → All IsByte part
    → length part ≤ isize_max
    → Encoded checks s m part
Encoded-by checks s m part SampleEncoding.transition e h l b small =
    Encoded-runs checks s m part e h l b small
Encoded-by checks s m part SampleEncoding.packed e h l b small =
    Encoded-verbatim checks s m part (rw e (unfold payload_of in refl)) (rw e)
Encoded-by checks s m part SampleEncoding.unspecified e h l b small =
    Encoded-verbatim checks s m part (rw e (unfold payload_of in refl)) (rw e)
