-- ===== src/Cpp/Encoding/Samples.antt =====
-- `encodeTransition` of cpp/src/encoding.cpp writes what `encode_transition` writes.
use openmso_api.Prelude.{
  ℕ, zero, suc, ◌+◌, ◌*◌, ◌/◌, ◌%◌, ◌^◌, ◌<◌, arith, true, false, List, [], ◌∷◌, ◌++◌, ◌≡◌, ◌∙◌,
  refl, ap, length, drop, bytes_eq, Bool-cases, inl, inr, ltb, ◌==◌, Str,
}
use openmso_api.Prelude.Chunks.{cut, chunks_exact}
use openmso_api.Failure.{NngError, IoError}
use openmso_api.Encoding.Transition
use openmso_api.Encoding.Varint
use openmso_api.Cpp.Errors.{as_result, returned}
use openmso_api.Cpp.Encoding.{sample_at, encode_loop, encode_samples, encode_transition}
use openmso_api.Cpp.Encoding.Varints.{put_varint_same}

drop-nil : (a : ℕ) → drop {A = ℕ} a [] ≡ []
drop-nil zero = refl
drop-nil (suc a) = refl

drop-drop : (a b : ℕ) (xs : List ℕ) → drop a (drop b xs) ≡ drop (b + a) xs
drop-drop a zero xs = ap (λ n. drop n xs) (let e : a ≡ 0 + a = omega arith in e)
drop-drop a (suc b) [] = let n : suc b + a ≡ suc (b + a) = omega arith in rw n (drop-nil a)
drop-drop a (suc b) (x ∷ xs) =
    let n : suc b + a ≡ suc (b + a) = omega arith in rw n (drop-drop a b xs)

-- The samples from the i-th on.
abbrev behind : List ℕ → ℕ → ℕ → List ℕ
behind packed u i = drop (i * u) packed

encode_loop_same :
    (packed : List ℕ) (u rounds i : ℕ) (out : List ℕ) (run_start run : ℕ)
    → encode_loop packed u rounds i out run_start run
      ≡ Transition.encode_loop
          (cut rounds u (behind packed u i))
          out
          (sample_at packed u run_start)
          run
unfolding encode_loop Transition.encode_loop Transition.put_run cut sample_at
encode_loop_same packed u zero i out run_start run =
    ap (λ t. t ++ sample_at packed u run_start) (put_varint_same out run)
encode_loop_same packed u (suc rounds) i out run_start run =
    let next : drop u (behind packed u i) ≡ behind packed u (i + 1) =
      drop-drop u (i * u) packed ∙ ap (λ n. drop n packed) (grind arith) in
    elim (Bool-cases (bytes_eq (sample_at packed u i) (sample_at packed u run_start))) [
      | inl same ↦
          rw (encode_loop, Transition.encode_loop, same, next)
            (encode_loop_same packed u rounds (i + 1) out run_start ((run + 1) % 2 ^ 64))
      | inr other ↦
          rw (encode_loop, Transition.encode_loop, other, next, put_varint_same out run)
            (encode_loop_same packed u rounds (i + 1)
              (Varint.put_varint out run ++ sample_at packed u run_start) i 1)
    ]

encode_samples_same :
    (packed : List ℕ) (u rounds : ℕ)
    → encode_samples packed u rounds ≡ Transition.encode_samples (cut rounds u packed)
unfolding encode_samples Transition.encode_samples cut
encode_samples_same packed u zero = refl
encode_samples_same packed u (suc rounds) =
    let start : 0 * u ≡ 0 = omega arith in
    let next : 1 * u ≡ u = omega arith in
    encode_loop_same packed u rounds 1 [] 0 1 ∙ unfold sample_at in rw (start, next) refl

module _ (nng_text : NngError → Str) (io_text : IoError → Str) (debug : Str → Str) where
  pub encode_transition_same :
      (packed : List ℕ) (u : ℕ)
      → 0 < u
      → encode_transition packed u
        ≡ as_result nng_text io_text debug (Transition.encode_transition packed u)
  unfolding encode_transition Transition.encode_transition chunks_exact
  encode_transition_same packed u h =
      let positive : ltb 0 u ≡ true = ground arith in
      let not_none : (u == 0) ≡ false = ground arith in
      rw (positive, not_none) (ap returned (encode_samples_same packed u (length packed / u)))
