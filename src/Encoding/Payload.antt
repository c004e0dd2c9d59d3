-- ===== src/Encoding/Payload.antt =====
-- `decode_payload` of rust/openmso/src/encoding.rs.
pub mod Branches
use openmso_api.Prelude.{ℕ, Bool, List, Option, none, some}
use openmso_api.Proto.Enums.{I32, Codec, SampleEncoding, codec_of_number, encoding_of_number}
use openmso_api.Proto.Stream.{CaptureData}
use openmso_api.Failure.{Outcome, ok, err, protocol, not_decodable, ◌>>=◌}
use openmso_api.Encoding.Transition.{decode_transition}

-- `Cow<[u8]>`: the chunk's own bytes, or new ones.
pub data Cow : Type 0 where
  borrowed : List ℕ → Cow
  owned : List ℕ → Cow

-- `&*cow`
abbrev pub bytes_of : Cow → List ℕ
bytes_of (borrowed bytes) = bytes
bytes_of (owned bytes) = bytes

-- `Codec::try_from(…).unwrap_or(Codec::Unspecified)`, and so for the encoding.
codec_or_unspecified : I32 → Codec
codec_or_unspecified n = elim (codec_of_number n) [ none ↦ Codec.unspecified | some c ↦ c ]

encoding_or_unspecified : I32 → SampleEncoding
encoding_or_unspecified n = elim (encoding_of_number n) [
  | none ↦ SampleEncoding.unspecified
  | some e ↦ e
]

-- The second match; `sample_count as usize` keeps the number.
unfoldable pub by_encoding : Bool → SampleEncoding → CaptureData → ℕ → Outcome Cow
by_encoding checks SampleEncoding.packed d unitsize = ok (borrowed d.payload)
by_encoding checks SampleEncoding.unspecified d unitsize = ok (borrowed d.payload)
by_encoding checks SampleEncoding.transition d unitsize = do
  bytes ← decode_transition checks d.payload unitsize d.sample_count
  ok (owned bytes)

-- The first match.
unfoldable pub by_codec : Bool → Codec → CaptureData → ℕ → Outcome Cow
unfolding encoding_or_unspecified by_encoding
by_codec checks Codec.uncompressed d unitsize =
    by_encoding checks (encoding_or_unspecified d.encoding) d unitsize
by_codec checks Codec.unspecified d unitsize =
    by_encoding checks (encoding_or_unspecified d.encoding) d unitsize
by_codec checks Codec.zstd d unitsize = err (protocol (not_decodable Codec.zstd))
by_codec checks Codec.heatshrink d unitsize = err (protocol (not_decodable Codec.heatshrink))

unfoldable pub decode_payload : Bool → CaptureData → ℕ → Outcome Cow
unfolding codec_or_unspecified by_codec
decode_payload checks d unitsize = by_codec checks (codec_or_unspecified d.codec) d unitsize
