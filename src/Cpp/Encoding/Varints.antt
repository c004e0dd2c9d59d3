-- ===== src/Cpp/Encoding/Varints.antt =====
-- The varints of cpp/src/encoding.cpp and of rust/openmso/src/encoding.rs are the same.
use mathlib.Core.Logic.{dif_pos, dif_neg}
use mathlib.Core.List.{append_assoc}
use mathlib.Core.WellFounded.{Acc}
use native.Mathlib.Decide.{dec_le}
use native.Mathlib.Bridge.{le_prop}
use openmso_api.Prelude.{
  ℕ, zero, suc, ◌+◌, ◌/◌, ◌%◌, ◌<◌, bit_and, arith, sym, Str, List, [], ◌∷◌, ◌++◌, ◌≡◌, ◌∙◌, refl,
  ap, codes, ◌==◌, ltb, true, false, if◌then◌else◌, Bool-cases, inl, inr,
}
use openmso_api.Prelude.Order.{lt_wf}
use openmso_api.Prelude.Bits.{bit_or_top_wide}
use openmso_api.Failure.{Outcome, ok, err, protocol, zero_run_length, NngError, IoError}
use openmso_api.Encoding.Varint
use openmso_api.Encoding.Varint.{shift_shrinks}
use openmso_api.Encoding.Varint.Put.{Digits, Digits-unique, put_varint-Digits, put_varint_appends}
use openmso_api.Cpp.Errors.{Result, protocol_error, thrown, returned, as_result, counterpart}
use openmso_api.Cpp.Encoding.{put_loop, put_varint, get_loop, get_varint}

put_loop-Digits :
    (out : List ℕ) (v : ℕ) (w : Acc ◌<◌ v)
    → (bs : List ℕ) × (put_loop out v w ≡ out ++ bs) × Digits v bs
unfolding put_loop
put_loop-Digits out v (Acc.intro _ smaller) = elim (dec_le 128 v) [
  | yes h ↦
      let b : ℕ = v % 128 + 128 in
      let (bs, e, d) =
        put_loop-Digits (out ++ (b ∷ [])) (v / 128) (smaller _ (shift_shrinks v h)) in
      (
        b ∷ bs,
        rw (dif_pos _ le_prop h, bit_or_top_wide v) (e ∙ append_assoc out (b ∷ []) bs),
        Digits.more h d,
      )
  | no h ↦
      let small : v % 256 ≡ v = omega arith in
      (v ∷ [], rw (dif_neg _ h, small) refl, Digits.last (omega arith))
]

-- `putVarint` and `put_varint` write the same bytes.
pub put_varint_same : (out : List ℕ) (v : ℕ) → put_varint out v ≡ Varint.put_varint out v
unfolding put_varint
put_varint_same out v =
    let (bs, e, d) = put_loop-Digits out v (lt_wf.apply v) in
    e ∙ ap (λ t. out ++ t) (Digits-unique d (put_varint-Digits v)) ∙ sym (put_varint_appends out v)

module _ (nng_text : NngError → Str) (io_text : IoError → Str) (debug : Str → Str) where
  -- At the last byte.
  finish_put :
      (v : ℕ) (input : List ℕ)
      → if◌then◌else◌ {A = Result (ℕ × List ℕ)}
          (v == 0)
          (thrown (protocol_error (codes "transition run length of 0")))
          (returned (v, input))
        ≡ as_result nng_text io_text debug (
            if◌then◌else◌ {A = Outcome (ℕ × List ℕ)}
              (v == 0)
              (err (protocol zero_run_length))
              (ok (v, input)))
  unfolding counterpart
  finish_put v input = elim (Bool-cases (v == 0)) [
    | inl none_left ↦ rw none_left refl
    | inr more ↦ rw more refl
  ]

  get_loop_same :
      (rounds i : ℕ) (input : List ℕ) (value : ℕ)
      → rounds + i ≡ 10
      → get_loop rounds input i value
        ≡ as_result nng_text io_text debug (Varint.get_loop input i value)
  unfolding get_loop Varint.get_loop counterpart
  get_loop_same zero i [] value h = refl
  get_loop_same zero i (byte ∷ input) value h =
      let over : ltb i 10 ≡ false = ground arith in rw over refl
  get_loop_same (suc rounds) i [] value h = refl
  get_loop_same (suc rounds) i (byte ∷ input) value h =
      let within : ltb i 10 ≡ true = ground arith in
      let next : i + 1 ≡ suc i = omega arith in
      elim (Bool-cases (bit_and byte 0x80 == 0)) [
        | inl last ↦ rw (within, last, get_loop) (finish_put (Varint.or_group value byte i) input)
        | inr inner ↦
            rw (within, inner, next, get_loop)
              (get_loop_same rounds (suc i) input (Varint.or_group value byte i) (omega arith))
      ]

  -- `getVarint` answers as `get_varint`, with the same texts.
  pub get_varint_same :
      (input : List ℕ)
      → get_varint input ≡ as_result nng_text io_text debug (Varint.get_varint input)
  unfolding get_varint Varint.get_varint
  get_varint_same input = get_loop_same 10 0 input 0 refl
