-- ===== src/Conformance/Encoding.antt =====
-- The tests of rust/openmso/src/encoding.rs.
pub mod Passing
use openmso_api.Prelude.{ℕ, ◌/◌, Bool, List, [], ◌∷◌, length, ltb, copies}
use openmso_api.Proto.Enums.{SampleEncoding, Codec, encoding_number, codec_number}
use openmso_api.Proto.Stream.{CaptureData}
use openmso_api.Failure.{Outcome, ok, err, panic, stuck, assert, ◌>>=◌, ◌>>◌}
use openmso_api.Encoding.Transition.{encode_transition, decode_transition}
use openmso_api.Encoding.Negotiate.{negotiate_encodings, negotiate_codecs, encodings, codecs}
use openmso_api.Encoding.Payload.{Cow, borrowed, owned, bytes_of, decode_payload}
use openmso_api.Conformance.{unwrap, assert_is_err, assert_same}

-- `roundtrip`; `checks` says whether the build has overflow checks.
unfoldable roundtrip : Bool → List ℕ → ℕ → Outcome (Unit {0})
roundtrip checks packed unitsize = do
  encoded ← encode_transition packed unitsize
  decoded ← unwrap (decode_transition checks encoded unitsize (length packed / unitsize))
  assert_same decoded packed

-- `[byte; n]`
abbrev repeated : ℕ → ℕ → List ℕ
repeated n byte = copies n (byte ∷ [])

unfoldable runs_round_trip : Bool → Outcome (Unit {0})
runs_round_trip checks = do
  roundtrip checks [] 1
  roundtrip checks (7 ∷ []) 1
  roundtrip checks (1 ∷ 1 ∷ 1 ∷ 2 ∷ 2 ∷ 3 ∷ []) 1
  roundtrip checks (repeated 500 0xaa) 1
  roundtrip checks (1 ∷ 2 ∷ 1 ∷ 2 ∷ 3 ∷ 4 ∷ 3 ∷ 4 ∷ []) 2

unfoldable idle_bus_collapses_to_one_run : Outcome (Unit {0})
idle_bus_collapses_to_one_run = do
  encoded ← encode_transition (repeated 100000 0) 1
  assert (ltb (length encoded) 10)

unfoldable long_runs_use_multi_byte_varints : Bool → Outcome (Unit {0})
long_runs_use_multi_byte_varints checks = do
  encoded ← encode_transition (repeated 300 5) 1
  assert_same encoded (0xac ∷ 0x02 ∷ 5 ∷ [])
  roundtrip checks (repeated 100000 5) 1

unfoldable a_short_count_is_an_error : Bool → Outcome (Unit {0})
a_short_count_is_an_error checks = do
  encoded ← encode_transition (1 ∷ 1 ∷ 2 ∷ []) 1
  assert_is_err (decode_transition checks encoded 1 2)
  assert_is_err (decode_transition checks (3 ∷ []) 1 3)
  assert_is_err (decode_transition checks (0 ∷ 9 ∷ []) 1 1)

unfoldable negotiation_keeps_the_mandatory_member : Outcome (Unit {0})
negotiation_keeps_the_mandatory_member = do
  assert_same (negotiate_encodings (1 ∷ []) encodings) (1 ∷ [])
  assert_same (negotiate_encodings (1 ∷ 2 ∷ []) encodings) (2 ∷ 1 ∷ [])
  assert_same (negotiate_encodings (2 ∷ []) (SampleEncoding.packed ∷ [])) (1 ∷ [])
  assert_same (negotiate_encodings [] encodings) (1 ∷ [])
  assert_same (negotiate_codecs [] codecs) (codec_number Codec.uncompressed ∷ [])

-- `assert!(matches!(…, Cow::Borrowed(_)))`
abbrev assert_borrowed : Cow → Outcome (Unit {0})
assert_borrowed (borrowed _) = ok tt
assert_borrowed (owned _) = panic

-- The chunk of the last test, the other fields at their defaults.
abbrev test_chunk : CaptureData
test_chunk = record {
  capture_id = 0;
  acquisition = 0;
  stream = 0;
  seq = 0;
  first_sample = 0;
  sample_count = 4;
  encoding = encoding_number SampleEncoding.packed;
  codec = codec_number Codec.uncompressed;
  decoded_len = 0;
  payload = 1 ∷ 1 ∷ 1 ∷ 2 ∷ [];
}

unfoldable chunks_decode_by_their_declared_encoding : Bool → Outcome (Unit {0})
chunks_decode_by_their_declared_encoding checks = do
  let packed : List ℕ = 1 ∷ 1 ∷ 1 ∷ 2 ∷ []
  first ← unwrap (decode_payload checks test_chunk 1)
  assert_borrowed first
  again ← unwrap (decode_payload checks test_chunk 1)
  assert_same (bytes_of again) packed
  encoded ← encode_transition packed 1
  let chunk : CaptureData = record test_chunk {
    encoding = encoding_number SampleEncoding.transition;
    payload = encoded;
  }
  expanded ← unwrap (decode_payload checks chunk 1)
  assert_same (bytes_of expanded) packed
  assert_is_err (decode_payload checks (record chunk { codec = codec_number Codec.zstd }) 1)
