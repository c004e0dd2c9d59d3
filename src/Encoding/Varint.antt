-- ===== src/Encoding/Varint.antt =====
-- `put_varint` and `get_varint` of rust/openmso/src/encoding.rs. A `u64` is a number below 2 ^ 64.
pub mod Put
pub mod Get
pub mod RoundTrip
use mathlib.Core.Logic.{dite}
use mathlib.Core.WellFounded.{Acc}
use native.Mathlib.Decide.{dec_le}
use openmso_api.Prelude.{ℕ, suc, ◌+◌, ◌*◌, ◌/◌, ◌%◌, ◌^◌, ◌≤◌, ◌<◌, bit_and, bit_or, arith}
use openmso_api.Prelude.{List, [], ◌∷◌, ◌++◌, ltb, ◌==◌, if◌then◌else◌}
use openmso_api.Prelude.Order.{lt_wf}
use openmso_api.Failure.{Outcome, ok, err, protocol, zero_run_length, bad_varint}

pub shift_shrinks : (v : ℕ) → 128 ≤ v → v / 128 < v
shift_shrinks v h = omega arith

-- `value as u8` is `value % 256`, and `value >>= 7` is `value / 128`.
put_loop : List ℕ → (value : ℕ) → Acc ◌<◌ value → List ℕ
put_loop out value (Acc.intro _ smaller) =
    dite (dec_le 128 value)
      (λ more.
        put_loop (out ++ (bit_or (value % 256) 0x80 ∷ [])) (value / 128)
          (smaller _ (shift_shrinks value more)))
      (λ _. out ++ (value % 256 ∷ []))

unfoldable pub put_varint : List ℕ → ℕ → List ℕ
unfolding put_loop lt_wf dec_le
put_varint out value = put_loop out value (lt_wf.apply value)

-- `value |= u64::from(byte & 0x7f) << (i * 7)`: what the shift takes past bit 63 is lost.
abbrev pub or_group : ℕ → ℕ → ℕ → ℕ
or_group value byte i = bit_or value (bit_and byte 0x7f * 2 ^ (i * 7) % 2 ^ 64)

-- The loop over `input.iter().enumerate().take(10)`; the list is what it has not reached.
unfoldable pub get_loop : List ℕ → ℕ → ℕ → Outcome (ℕ × List ℕ)
get_loop [] i value = err (protocol bad_varint)
get_loop (byte ∷ rest) i value =
    let value' = or_group value byte i in
    let more = get_loop rest (suc i) value' in
    if ltb i 10
    then if bit_and byte 0x80 == 0
      then if value' == 0 then err (protocol zero_run_length) else ok (value', rest)
      else more
    else err (protocol bad_varint)

unfoldable pub get_varint : List ℕ → Outcome (ℕ × List ℕ)
unfolding get_loop
get_varint input = get_loop input 0 0
