-- ===== src/Encoding/Transition/Limits.antt =====
-- What a peer's numbers can do to `decode_transition`.
use openmso_api.Prelude.{ℕ, zero, suc, ◌*◌, ◌%◌, ◌^◌, ◌≤◌, ◌<◌, arith, Bool, true, false}
use openmso_api.Prelude.{List, [], ◌++◌, ◌≡◌, ◌∙◌, refl, length, IsU64}
use openmso_api.Failure.{ok, panic, ◌>>=◌}
use openmso_api.Encoding.Varint.{put_varint}
use openmso_api.Encoding.Varint.RoundTrip.{Reads, Reads-bounds, Reads-put_varint}
use openmso_api.Encoding.Transition.{isize_max, usize_mul, decode_loop, decode_transition}
use openmso_api.Encoding.Transition.Decode.{Expands, decode_loop_next, tail_cut, extend_times_over}
use openmso_api.Encoding.Transition.RoundTrip.{
  checked_loop, checked_loop_complete, decode_transition_starts, usize_mul_fits,
}

-- For a unit that is not empty and a sample count whose bytes pass `isize::MAX`,
-- `decode_transition` panics in a build with overflow checks, whatever the payload.
pub decode_transition_oversized :
    (payload : List ℕ) (u samples : ℕ)
    → 0 < u
    → isize_max < samples * u
    → decode_transition true payload u samples ≡ panic
unfolding decode_transition
decode_transition_oversized payload u samples h big = ground arith

-- In a build without overflow checks the declared size wraps: for a unit that is not empty, a
-- payload that expands to at most `isize::MAX` bytes is accepted for every sample count whose bytes
-- are that length modulo 2 ^ 64.
pub decode_transition_wraps :
    (payload out : List ℕ) (u samples : ℕ)
    → 0 < u
    → Expands u payload out
    → length out ≤ isize_max
    → samples * u % 2 ^ 64 ≡ length out
    → decode_transition false payload u samples ≡ ok out
decode_transition_wraps payload out u samples h x small e =
    decode_transition_starts false payload u samples (length out) h wrapped small
    ∙ checked_loop_complete payload out u samples (length out) x refl small
  where
    wrapped : usize_mul false samples u ≡ ok (length out)
    wrapped = unfold usize_mul in ground arith

first_run_over :
    (fuel u run : ℕ) (payload value rest : List ℕ)
    → 0 < fuel
    → Reads payload run (value ++ rest)
    → length value ≡ u
    → isize_max < run * u
    → decode_loop fuel u payload [] ≡ panic
first_run_over zero u run payload value rest f r l big = absurd (omega arith)
first_run_over (suc fuel) u run payload value rest f r l big =
    let (front, back, long) = tail_cut u (value ++ rest) value rest refl l in
    let over = extend_times_over run value [] (omega arith) (rw l (omega arith)) in
    decode_loop_next fuel u payload [] r ∙ rw (long, front, over, ◌>>=◌)

-- A payload whose first run repeats its value past `isize::MAX` bytes makes `decode_transition`
-- panic, though the declared size is at most `isize::MAX`: runs are expanded before they are
-- counted.
pub decode_transition_long_run :
    (checks : Bool) (u run samples : ℕ) (value rest : List ℕ)
    → 0 < u
    → IsU64 run
    → length value ≡ u
    → isize_max < run * u
    → samples * u ≤ isize_max
    → decode_transition checks (put_varint [] run ++ (value ++ rest)) u samples ≡ panic
decode_transition_long_run checks u run samples value rest h wide l big small =
    decode_transition_starts checks payload u samples (samples * u) h
      (usize_mul_fits checks samples u (omega arith)) small
    ∙ unfold checked_loop in
      rw (first_run_over (length payload) u run payload value rest some_byte reads l big, ◌>>=◌)
  where
    payload : List ℕ
    payload = put_varint [] run ++ (value ++ rest)

    counted : 1 ≤ run
    counted = ground arith

    reads : Reads payload run (value ++ rest)
    reads = Reads-put_varint run payload (value ++ rest) wide counted refl

    some_byte : 0 < length payload
    some_byte = omega (arith, Reads-bounds reads)
