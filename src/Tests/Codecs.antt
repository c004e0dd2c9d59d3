-- ===== src/Tests/Codecs.antt =====
-- The properties of the varints, of the encoding and of the negotiation, at concrete inputs.
use openmso_api.Prelude.{
  ◌+◌, ℕ, ◌*◌, ◌<◌, ◌≤◌, arith, true, ◌↔◌, ◌≡◌, ◌≢◌, refl, List, [], ◌∷◌, length, All, IsByte,
}
use openmso_api.Failure.{ok, stuck}
use openmso_api.Encoding.Varint.{get_varint}
use openmso_api.Encoding.Varint.RoundTrip.{Reads, get_varint_iff}
use openmso_api.Encoding.Transition.{encode_transition, decode_transition}
use openmso_api.Encoding.Transition.Runs.{Run, emit, expand, IsMaximal}
use openmso_api.Encoding.Transition.Encode.{encode_transition_runs}
use openmso_api.Encoding.Transition.Decode.{Expands}
use openmso_api.Encoding.Transition.RoundTrip.{
  decode_transition_iff, decode_transition-ne-stuck, decode_transition-encode_transition,
}
use openmso_api.Tests.{samples, bytes_samples}

abbrev encoded : List ℕ
encoded = 2 ∷ 7 ∷ 1 ∷ 9 ∷ []

bytes_encoded : All IsByte encoded
bytes_encoded = ground arith

get_varint_iff_example :
    (get_varint encoded ≡ ok (2, 7 ∷ 1 ∷ 9 ∷ [])) ↔ Reads encoded 2 (7 ∷ 1 ∷ 9 ∷ [])
get_varint_iff_example = get_varint_iff encoded (7 ∷ 1 ∷ 9 ∷ []) 2 bytes_encoded

decode_transition-encode_transition_example :
    (encoded : List ℕ) × (encode_transition samples 1 ≡ ok encoded)
    × (decode_transition true encoded 1 3 ≡ ok samples)
decode_transition-encode_transition_example =
    decode_transition-encode_transition true 1 3 samples (omega arith) refl bytes_samples
      (omega arith)

decode_transition_iff_example :
    (decode_transition true encoded 1 3 ≡ ok samples)
    ↔ ((0 < 1) × Expands 1 encoded samples × (length samples ≡ 3 * 1))
decode_transition_iff_example =
    decode_transition_iff true encoded samples 1 3 bytes_encoded (omega arith)

decode_transition-ne-stuck_example : decode_transition true encoded 1 3 ≢ stuck
decode_transition-ne-stuck_example = decode_transition-ne-stuck true encoded 1 3 bytes_encoded

encode_transition_runs_example :
    (rs : List Run) × (encode_transition samples 1 ≡ ok (emit rs))
    × IsMaximal rs
    × (expand rs ≡ samples)
    × (length (emit rs) ≤ length samples + 3)
    × (length (emit rs) ≤ length rs * (1 + 10))
encode_transition_runs_example =
    encode_transition_runs 1 3 samples (omega arith) refl (omega arith) bytes_samples
