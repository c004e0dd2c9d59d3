-- ===== src/Encoding/Payload/Branches.antt =====
-- All branches of `decode_payload`, by the numbers on the wire.
use openmso_api.Prelude.{ℕ, Bool, ◌≡◌, ◌≤◌, arith, ◌==◌, if◌then◌else◌}
use openmso_api.Proto.Enums.{Codec}
use openmso_api.Proto.Stream.{CaptureData}
use openmso_api.Failure.{ok, err, protocol, not_decodable, ◌>>=◌}
use openmso_api.Encoding.Transition.{decode_transition}
use openmso_api.Encoding.Payload.{borrowed, owned, decode_payload}

-- `decode_payload` refuses the codecs 2 and 3; under any other number, a known one or not, it expands
-- a chunk of encoding 2 and borrows the payload of a chunk of any other encoding.
pub decode_payload_branches :
    (checks : Bool) (d : CaptureData) (unitsize : ℕ)
    → decode_payload checks d unitsize ≡ (
        if d.codec == 2
        then err (protocol (not_decodable Codec.zstd))
        else if d.codec == 3
        then err (protocol (not_decodable Codec.heatshrink))
        else if d.encoding == 2
        then decode_transition checks d.payload unitsize d.sample_count
          >>= (λ bytes. ok (owned bytes))
        else ok (borrowed d.payload))
unfolding decode_payload
decode_payload_branches checks d unitsize = ground arith

-- A chunk of a codec number from 4 on, which the enumeration does not have, decodes as the same
-- chunk of the codec NONE.
pub decode_payload_unknown_codec :
    (checks : Bool) (d : CaptureData) (unitsize : ℕ)
    → 4 ≤ d.codec
    → decode_payload checks d unitsize ≡ decode_payload checks (record d { codec = 1 }) unitsize
unfolding decode_payload
decode_payload_unknown_codec checks d unitsize h = ground arith
