-- ===== src/Conformance/Encoding/Passing.antt =====
-- The tests of the encoding pass.
use openmso_api.Prelude.{
  ℕ, zero, suc, true, false, length-copies, ◌*◌, ◌/◌, ◌≤◌, ◌<◌, arith, Bool, List, [], ◌∷◌, length,
  All, IsByte, ◌≡◌, refl, bytes_eq_iff,
}
use native.Mathlib.Nat.{mul-div_cancel}
use openmso_api.Failure.{ok}
use openmso_api.Encoding.Transition.{isize_max, encode_transition, decode_transition}
use openmso_api.Encoding.Transition.RoundTrip.{decode_transition-encode_transition}
use openmso_api.Encoding.Transition.Idle.{encode_transition-copies}
use openmso_api.Encoding.Varint.{put_varint, get_varint}
use openmso_api.Prelude.Chunks.{chunks_exact}
use openmso_api.Encoding.Negotiate.{
  negotiate_encodings, negotiate_codecs, intersect, contains, keep_accepted,
}
use openmso_api.Encoding.Payload.{decode_payload}
use openmso_api.Conformance.Encoding.{
  roundtrip, repeated, runs_round_trip, idle_bus_collapses_to_one_run,
  long_runs_use_multi_byte_varints, a_short_count_is_an_error,
  negotiation_keeps_the_mandatory_member, chunks_decode_by_their_declared_encoding,
}

-- `roundtrip` passes for any whole samples, not only for those of the tests.
pub roundtrip_passes :
    (checks : Bool) (packed : List ℕ) (u k : ℕ)
    → 0 < u
    → length packed ≡ k * u
    → All IsByte packed
    → length packed ≤ isize_max
    → roundtrip checks packed u ≡ ok tt
unfolding roundtrip
roundtrip_passes checks packed u k h e b small =
    let (encoded, w, d) = decode_transition-encode_transition checks u k packed h e b small in
    let count : length packed / u ≡ k = rw e (mul-div_cancel k h) in
    rw (w, count, d, (bytes_eq_iff packed packed).1 refl) refl

repeated-IsByte : (n b : ℕ) → b < 256 → All IsByte (repeated n b)
repeated-IsByte zero b h = tt
repeated-IsByte (suc n) b h = (h, repeated-IsByte n b h)

repeated_passes :
    (checks : Bool) (n b : ℕ) → b < 256 → n ≤ isize_max → roundtrip checks (repeated n b) 1 ≡ ok tt
repeated_passes checks n b h small =
    let count : length (repeated n b) ≡ n * 1 = length-copies n (b ∷ []) in
    roundtrip_passes checks (repeated n b) 1 n (omega arith) count (repeated-IsByte n b h)
      (omega (arith, count))

runs_round_trip_passes : (checks : Bool) → runs_round_trip checks ≡ ok tt
unfolding runs_round_trip
runs_round_trip_passes checks =
    rw
      (
        roundtrip_passes checks [] 1 0 (omega arith) refl tt (omega arith),
        roundtrip_passes checks (7 ∷ []) 1 1 (omega arith) refl (ground arith) (omega arith),
        roundtrip_passes checks (1 ∷ 1 ∷ 1 ∷ 2 ∷ 2 ∷ 3 ∷ []) 1 6 (omega arith) refl (ground arith)
            (omega arith),
        repeated_passes checks 500 0xaa (omega arith) (omega arith),
        roundtrip_passes checks (1 ∷ 2 ∷ 1 ∷ 2 ∷ 3 ∷ 4 ∷ 3 ∷ 4 ∷ []) 2 4 (omega arith) refl
            (ground arith) (omega arith),
      )
      refl

-- The test goes the same way in both builds.
a_short_count_passes : (checks : Bool) → a_short_count_is_an_error checks ≡ ok tt
unfolding a_short_count_is_an_error decode_transition encode_transition chunks_exact put_varint
    get_varint
a_short_count_passes true = refl
a_short_count_passes false = refl

varint_100000 : put_varint [] 100000 ≡ 0xa0 ∷ 0x8d ∷ 0x06 ∷ []
unfolding put_varint
varint_100000 = refl

varint_300 : put_varint [] 300 ≡ 0xac ∷ 0x02 ∷ []
unfolding put_varint
varint_300 = refl

idle_bus_passes : idle_bus_collapses_to_one_run ≡ ok tt
unfolding idle_bus_collapses_to_one_run
idle_bus_passes =
    rw (encode_transition-copies 99999 (0 ∷ []) (omega arith) (omega arith), varint_100000) refl

long_runs_pass : (checks : Bool) → long_runs_use_multi_byte_varints checks ≡ ok tt
unfolding long_runs_use_multi_byte_varints
long_runs_pass checks =
    rw
      (
        encode_transition-copies 299 (5 ∷ []) (omega arith) (omega arith),
        varint_300,
        repeated_passes checks 100000 5 (omega arith) (omega arith),
      )
      refl

negotiation_passes : negotiation_keeps_the_mandatory_member ≡ ok tt
unfolding negotiation_keeps_the_mandatory_member negotiate_encodings negotiate_codecs intersect
    contains keep_accepted
negotiation_passes = refl

chunks_pass : (checks : Bool) → chunks_decode_by_their_declared_encoding checks ≡ ok tt
unfolding chunks_decode_by_their_declared_encoding decode_payload decode_transition
    encode_transition chunks_exact put_varint get_varint
chunks_pass true = refl
chunks_pass false = refl
