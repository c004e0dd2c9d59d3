-- ===== src/Encoding/Transition/Encode.antt =====
-- What `encode_transition` writes: the longest runs, and how many bytes they take.
use mathlib.Core.List.{append-nil, append_assoc}
use openmso_api.Prelude.{ℕ, ◌+◌, ◌*◌, ◌%◌, ◌^◌, ◌≤◌, ◌<◌, arith}
use openmso_api.Prelude.{List, [], ◌∷◌, ◌++◌, ◌≡◌, ◌∙◌, refl, sym, ap, length, length-append, All}
use openmso_api.Prelude.{IsByte, All-parts, bytes_eq, Bool-cases, inl, inr}
use openmso_api.Prelude.{concat}
use openmso_api.Prelude.Chunks.{
  chunks_exact, concat-chunks_exact, length-chunks_exact, chunks_exact_whole,
}
use openmso_api.Failure.{ok}
use openmso_api.Encoding.Varint.{put_varint}
use openmso_api.Encoding.Varint.Put.{put_varint_appends, put_varint_bounds}
use openmso_api.Encoding.Transition.{put_run, encode_loop, encode_samples, encode_transition}
use openmso_api.Encoding.Transition.Runs.{
  Run, push_run, runs_of, expand, emit, total, IsMaximal, push_run_same, push_run_other,
  runs_of-total, runs_of-expand, runs_of-IsMaximal,
}

put_run_appends :
    (out : List ℕ) (n : ℕ) (s : List ℕ) → put_run out n s ≡ out ++ (put_varint [] n ++ s)
unfolding put_run
put_run_appends out n s = rw (put_varint_appends out n) (append_assoc out (put_varint [] n) s)

encode_loop-emit :
    (rest : List (List ℕ)) (out current : List ℕ) (run : ℕ)
    → run + length rest < 2 ^ 64
    → encode_loop rest out current run ≡ out ++ emit (push_run run current (runs_of rest))
unfolding encode_loop runs_of
encode_loop-emit [] out current run h =
    put_run_appends out run current ∙ ap (λ t. out ++ t) (sym (append-nil _))
encode_loop-emit (s ∷ rest) out current run h = elim (Bool-cases (bytes_eq s current)) [
  | inl same ↦
      let fits : (run + 1) % 2 ^ 64 ≡ run + 1 = omega arith in
      rw (same, encode_loop, fits)
        (encode_loop-emit rest out current (run + 1) (omega arith)
          ∙ ap (λ t. out ++ emit t) (sym (push_run_same run current s (runs_of rest) same)))
  | inr other ↦
      rw (other, encode_loop)
        (encode_loop-emit rest (put_run out run current) s 1 (omega arith)
          ∙ ap (λ t. t ++ emit (push_run 1 s (runs_of rest))) (put_run_appends out run current)
          ∙ append_assoc out (put_varint [] run ++ current) _
          ∙ ap (λ t. out ++ emit t) (sym (push_run_other run current s (runs_of rest) other)))
]

encode_samples-emit :
    (ss : List (List ℕ)) → length ss < 2 ^ 64 → encode_samples ss ≡ emit (runs_of ss)
unfolding encode_samples runs_of
encode_samples-emit [] h = refl
encode_samples-emit (s ∷ rest) h = encode_loop-emit rest [] s 1 (omega arith)

-- `encode_transition` of `k` whole samples writes their longest runs, in order.
pub encode_transition-emit :
    (u k : ℕ) (packed : List ℕ)
    → 0 < u
    → length packed ≡ k * u
    → k < 2 ^ 64
    → encode_transition packed u ≡ ok (emit (runs_of (chunks_exact u packed)))
unfolding encode_transition
encode_transition-emit u k packed h e small =
    let fits : length (chunks_exact u packed) < 2 ^ 64 =
      omega (arith, length-chunks_exact u k packed h e) in
    ground (arith, encode_samples-emit (chunks_exact u packed) fits)

-- Every run is counted, and its sample is `u` bytes.
abbrev pub IsRun : ℕ → Run → Type 0
IsRun u r = (1 ≤ r.0) × (length r.1 ≡ u) × All IsByte r.1

push_run-IsRun :
    (u n : ℕ) (s : List ℕ) (runs : List Run)
    → IsRun u (n, s)
    → All (IsRun u) runs
    → All (IsRun u) (push_run n s runs)
push_run-IsRun u n s [] p h = (p, tt)
push_run-IsRun u n s ((m, t) ∷ runs) (p, l, b) (h, hs) = elim (Bool-cases (bytes_eq t s)) [
  | inl same ↦ rw same ((omega arith, l, b), hs)
  | inr other ↦ rw other ((p, l, b), (h, hs))
]

runs_of-IsRun :
    (u : ℕ) (ss : List (List ℕ))
    → All (λ s. length s ≡ u) ss
    → All IsByte (concat ss)
    → All (IsRun u) (runs_of ss)
unfolding runs_of
runs_of-IsRun u [] h b = tt
runs_of-IsRun u (s ∷ rest) (h, hs) b =
    let (front, back) = All-parts IsByte s (concat rest) b in
    push_run-IsRun u 1 s (runs_of rest) (omega arith, h, front) (runs_of-IsRun u rest hs back)

pub packed_runs :
    (u k : ℕ) (packed : List ℕ)
    → 0 < u
    → length packed ≡ k * u
    → All IsByte packed
    → All (IsRun u) (runs_of (chunks_exact u packed))
packed_runs u k packed h e b =
    runs_of-IsRun u (chunks_exact u packed) (chunks_exact_whole u packed)
      (rw (concat-chunks_exact u k packed h e) b)

pub packed_total :
    (u k : ℕ) (packed : List ℕ)
    → 0 < u
    → length packed ≡ k * u
    → total (runs_of (chunks_exact u packed)) ≡ k
packed_total u k packed h e =
    runs_of-total (chunks_exact u packed) ∙ length-chunks_exact u k packed h e

pub le_times : (n u : ℕ) → 1 ≤ n → u ≤ n * u
le_times n u p = grind arith

-- A run takes at most one byte more than its sample for each time that it is repeated, and at most
-- ten bytes more than its sample.
length-emit-total :
    (u : ℕ) (runs : List Run)
    → All (IsRun u) runs
    → total runs < 2 ^ 64
    → (length (emit runs) ≤ total runs * (u + 1)) × (length (emit runs) ≤ length runs * (u + 10))
length-emit-total u [] h small = (omega arith, omega arith)
length-emit-total u ((n, s) ∷ runs) ((p, l, b), hs) small =
    let (_, _, ten, few) = put_varint_bounds n (omega arith) p in
    let (rest_total, rest_ten) = length-emit-total u runs hs (omega arith) in
    let size = length-append (put_varint [] n ++ s) (emit runs) in
    let part = length-append (put_varint [] n) s in
    (
      omega (arith, few, size, part, l, rest_total, le_times n u p),
      omega (arith, ten, size, part, l, rest_ten),
    )

module _ (u k : ℕ) (packed : List ℕ) (h : 0 < u) (e : length packed ≡ k * u)
    (small : k < 2 ^ 64) where
  -- `encode_transition` of `k` whole samples (bytes, of a unit that is not empty, with `k` below 2
  -- ^ 64) succeeds and makes them longer by at most one byte a sample.
  pub length-encode_transition :
      All IsByte packed
      → (encoded : List ℕ) × (encode_transition packed u ≡ ok encoded)
        × (length encoded ≤ length packed + k)
  length-encode_transition b =
      let same = packed_total u k packed h e in
      let (by_total, by_runs) =
        length-emit-total u _ (packed_runs u k packed h e b) (rw same small) in
      (
        emit (runs_of (chunks_exact u packed)),
        encode_transition-emit u k packed h e small,
        omega (arith, rw same at by_total, e),
      )

  -- `encode_transition` of `k` whole samples (bytes, of a unit that is not empty, with `k` below 2
  -- ^ 64) succeeds and writes `(varint run, sample)` pairs that expand to the samples, with no empty
  -- run and no two neighbouring runs of one sample. It is longer than the samples by at most one byte
  -- a sample, and takes at most ten bytes and one sample for each run.
  pub encode_transition_runs :
      All IsByte packed
      → (rs : List Run) × (encode_transition packed u ≡ ok (emit rs))
        × IsMaximal rs
        × (expand rs ≡ packed)
        × (length (emit rs) ≤ length packed + k)
        × (length (emit rs) ≤ length rs * (u + 10))
  encode_transition_runs b =
      let same = packed_total u k packed h e in
      let (by_total, by_runs) =
        length-emit-total u _ (packed_runs u k packed h e b) (rw same small) in
      (
        runs_of (chunks_exact u packed),
        encode_transition-emit u k packed h e small,
        runs_of-IsMaximal (chunks_exact u packed),
        runs_of-expand (chunks_exact u packed) ∙ concat-chunks_exact u k packed h e,
        omega (arith, rw same at by_total, e),
        by_runs,
      )
