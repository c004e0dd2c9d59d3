-- ===== src/Encoding/Transition.antt =====
-- `encode_transition` and `decode_transition` of rust/openmso/src/encoding.rs, on a target whose
-- `usize` has 64 bits. `checks` says whether the build has overflow checks.
pub mod Runs
pub mod Encode
pub mod Decode
pub mod RoundTrip
pub mod Limits
pub mod Idle
use openmso_api.Prelude.{ℕ, zero, suc, ◌+◌, ◌-◌, ◌*◌, ◌/◌, ◌%◌, ◌^◌}
use openmso_api.Prelude.{Bool, true, false, not, List, [], ◌∷◌, ◌++◌, length, take, drop}
use openmso_api.Prelude.{ltb, leb, ◌==◌, if◌then◌else◌, bytes_eq}
use openmso_api.Prelude.Chunks.{chunks_exact}
use openmso_api.Failure.{Outcome, ok, panic, stuck, ◌>>=◌, ◌>>◌, assert, guard}
use openmso_api.Failure.{unitsize_zero, run_missing_value, wrong_sample_count}
use openmso_api.Encoding.Varint.{put_varint, get_varint}

-- `isize::MAX`, the most bytes that a slice or a `Vec<u8>` holds.
abbrev pub isize_max : ℕ
isize_max = 2 ^ 63 - 1

-- `put_varint(&mut out, run); out.extend_from_slice(current)`
unfoldable pub put_run : List ℕ → ℕ → List ℕ → List ℕ
put_run out run current = put_varint out run ++ current

-- The loop over the samples behind the first, and what follows it.
unfoldable pub encode_loop : List (List ℕ) → List ℕ → List ℕ → ℕ → List ℕ
encode_loop [] out current run = put_run out run current
encode_loop (sample ∷ rest) out current run = elim (bytes_eq sample current) [
  | true ↦ encode_loop rest out current ((run + 1) % 2 ^ 64)
  | false ↦ encode_loop rest (put_run out run current) sample 1
]

unfoldable pub encode_samples : List (List ℕ) → List ℕ
unfolding put_run encode_loop
encode_samples [] = []
encode_samples (current ∷ rest) = encode_loop rest [] current 1

unfoldable pub encode_transition : List ℕ → ℕ → Outcome (List ℕ)
unfolding encode_samples
encode_transition packed unitsize = do
  assert (ltb 0 unitsize)
  ok (encode_samples (chunks_exact unitsize packed))

-- `a * b` on `usize`.
unfoldable pub usize_mul : Bool → ℕ → ℕ → Outcome ℕ
usize_mul checks a b =
    if ltb (a * b) (2 ^ 64) then ok (a * b) else if checks then panic else ok (a * b % 2 ^ 64)

-- `Vec::with_capacity`, which panics on a capacity that no `Vec` can have.
unfoldable pub with_capacity : ℕ → Outcome (List ℕ)
with_capacity capacity = if leb capacity isize_max then ok [] else panic

-- `for _ in 0..run { out.extend_from_slice(value) }`; a `Vec` that would pass `isize::MAX` panics.
unfoldable pub extend_times : ℕ → List ℕ → List ℕ → Outcome (List ℕ)
extend_times zero value out = ok out
extend_times (suc run) value out =
    let more = extend_times run value (out ++ value) in
    if leb (length out + length value) isize_max then more else panic

-- `while !rest.is_empty()`, with fuel.
unfoldable pub decode_loop : ℕ → ℕ → List ℕ → List ℕ → Outcome (List ℕ)
decode_loop fuel unitsize [] out = ok out
decode_loop zero unitsize (b ∷ bs) out = stuck
decode_loop (suc fuel) unitsize (b ∷ bs) out = do
  (run, tail) ← get_varint (b ∷ bs)
  guard (not (ltb (length tail) unitsize)) run_missing_value
  out' ← extend_times run (take unitsize tail) out
  decode_loop fuel unitsize (drop unitsize tail) out'

-- Each round takes a byte at least, so `length payload` rounds are enough.
unfoldable pub decode_transition : Bool → List ℕ → ℕ → ℕ → Outcome (List ℕ)
unfolding usize_mul with_capacity extend_times decode_loop
decode_transition checks payload unitsize samples = do
  guard (not (unitsize == 0)) unitsize_zero
  capacity ← usize_mul checks samples unitsize
  empty ← with_capacity capacity
  out ← decode_loop (length payload) unitsize payload empty
  declared ← usize_mul checks samples unitsize
  guard (length out == declared) (wrong_sample_count (length out / unitsize) samples)
  ok out
