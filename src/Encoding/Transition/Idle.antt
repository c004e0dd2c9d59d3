-- ===== src/Encoding/Transition/Idle.antt =====
-- A stream that does not change is one run.
use native.Mathlib.Nat.{mul-div_cancel}
use openmso_api.Prelude.{
  ℕ, zero, suc, ◌+◌, ◌/◌, ◌^◌, ◌<◌, arith, List, [], ◌∷◌, ◌++◌, ◌≡◌, ◌∙◌, refl, ap, length, take,
  drop, copies, length-copies, bytes_eq, bytes_eq_iff, true,
}
use mathlib.Core.List.{append-nil}
use openmso_api.Prelude.Chunks.{cut, chunks_exact}
use openmso_api.Failure.{ok}
use openmso_api.Encoding.Varint.{put_varint}
use openmso_api.Encoding.Transition.{encode_transition}
use openmso_api.Encoding.Transition.Runs.{push_run, runs_of, emit}
use openmso_api.Encoding.Transition.Encode.{encode_transition-emit}

take-append : (s t : List ℕ) → take (length s) (s ++ t) ≡ s
take-append [] t = refl
take-append (x ∷ s) t = ap (λ r. x ∷ r) (take-append s t)

drop-append : (s t : List ℕ) → drop (length s) (s ++ t) ≡ t
drop-append [] t = refl
drop-append (x ∷ s) t = drop-append s t

cut-copies :
    (n : ℕ) (s : List ℕ) → runs_of (cut (suc n) (length s) (copies (suc n) s)) ≡ (suc n, s) ∷ []
unfolding cut runs_of
cut-copies zero s = rw (take-append s []) refl
cut-copies (suc n) s =
    rw (take-append s (copies (suc n) s), drop-append s (copies (suc n) s))
      (ap (push_run 1 s) (cut-copies n s)
        ∙ (let same : bytes_eq s s ≡ true = (bytes_eq_iff s s).1 refl in
            let more : 1 + suc n ≡ suc (suc n) = omega arith in rw (same, more) refl))

-- `encode_transition` of any number of samples that are all the same writes one run: their number
-- and the sample.
pub encode_transition-copies :
    (n : ℕ) (s : List ℕ)
    → 0 < length s
    → suc n < 2 ^ 64
    → encode_transition (copies (suc n) s) (length s) ≡ ok (put_varint [] (suc n) ++ s)
unfolding chunks_exact
encode_transition-copies n s h small =
    let pieces : length (copies (suc n) s) / length s ≡ suc n =
      ap (λ l. l / length s) (length-copies (suc n) s) ∙ mul-div_cancel (suc n) h in
    encode_transition-emit (length s) (suc n) (copies (suc n) s) h (length-copies (suc n) s) small
    ∙ ap (λ k. ok (emit (runs_of (cut k (length s) (copies (suc n) s))))) pieces
    ∙ ap (λ r. ok (emit r)) (cut-copies n s)
    ∙ ap ok (append-nil (put_varint [] (suc n) ++ s))
