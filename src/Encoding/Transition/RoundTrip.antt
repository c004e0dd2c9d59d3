-- ===== src/Encoding/Transition/RoundTrip.antt =====
-- `decode_transition` as a whole: when it succeeds, and on what `encode_transition` wrote.
use mathlib.Core.Path.{subst}
use mathlib.Core.List.{append_assoc}
use openmso_api.Prelude.{ℕ, zero, suc, ◌*◌, ◌/◌, ◌^◌, ◌≤◌, ◌<◌, arith, not, Bool, true, false}
use openmso_api.Prelude.{List, [], ◌∷◌, ◌++◌, ◌≡◌, ◌≢◌, ◌∙◌, ◌↔◌, refl, sym, length, All}
use openmso_api.Prelude.{IsByte, ◌==◌}
use openmso_api.Prelude.Chunks.{chunks_exact, concat-chunks_exact}
use openmso_api.Failure.{Outcome, ok, stuck, ◌>>=◌, ◌>>◌, guard, wrong_sample_count, unitsize_zero}
use openmso_api.Failure.{>>=-eq-ok, >>=-ne-stuck, guard-ne-stuck, ok-ne-stuck}
use openmso_api.Encoding.Varint.{put_varint}
use openmso_api.Encoding.Varint.RoundTrip.{Reads-put_varint}
use openmso_api.Encoding.Transition.{isize_max, usize_mul, with_capacity, decode_loop}
use openmso_api.Encoding.Transition.{encode_transition, decode_transition}
use openmso_api.Encoding.Transition.Runs.{total, runs_of, runs_of-expand, Run, emit, expand}
use openmso_api.Encoding.Transition.Encode.{
  packed_total, le_times, IsRun, encode_transition-emit, packed_runs,
}
use openmso_api.Encoding.Transition.Decode.{
  Expands, decode_loop_complete, decode_loop_sound, decode_loop-ne-stuck,
}

-- The two products, and the capacity.
pub usize_mul_fits : (checks : Bool) (a b : ℕ) → a * b < 2 ^ 64 → usize_mul checks a b ≡ ok (a * b)
unfolding usize_mul
usize_mul_fits checks a b h = ground arith

with_capacity_fits : (c : ℕ) → c ≤ isize_max → with_capacity c ≡ ok []
unfolding with_capacity
with_capacity_fits c h = ground arith

usize_mul-ne-stuck : (checks : Bool) (a b : ℕ) → usize_mul checks a b ≢ stuck
unfolding usize_mul
usize_mul-ne-stuck checks a b e = ground arith

with_capacity-ne-stuck : (c : ℕ) → with_capacity c ≢ stuck
unfolding with_capacity
with_capacity-ne-stuck c e = ground arith

-- Behind its first tests, `decode_transition` is its loop and the test of the count.
unfoldable pub checked_loop : List ℕ → ℕ → ℕ → ℕ → Outcome (List ℕ)
checked_loop payload u samples declared = decode_loop (length payload) u payload [] >>= λ out.
    guard (length out == declared) (wrong_sample_count (length out / u) samples) >> ok out

pub decode_transition_starts :
    (checks : Bool) (payload : List ℕ) (u samples declared : ℕ)
    → 0 < u
    → usize_mul checks samples u ≡ ok declared
    → declared ≤ isize_max
    → decode_transition checks payload u samples ≡ checked_loop payload u samples declared
unfolding decode_transition checked_loop
decode_transition_starts checks payload u samples declared h e c =
    let positive : (u == 0) ≡ false = ground arith in
    rw (positive, e, with_capacity_fits declared c, ◌>>=◌)

pub checked_loop_complete :
    (payload out : List ℕ) (u samples declared : ℕ)
    → Expands u payload out
    → length out ≡ declared
    → declared ≤ isize_max
    → checked_loop payload u samples declared ≡ ok out
unfolding checked_loop
checked_loop_complete payload out u samples declared x e h =
    let runs : decode_loop (length payload) u payload [] ≡ ok out =
      decode_loop_complete u (length payload) [] x (omega arith) (omega arith) in
    let counted : (length out == declared) ≡ true = ground arith in rw (runs, ◌>>=◌, counted)

checked_loop_sound :
    (payload : List ℕ) (u samples declared : ℕ) {out : List ℕ}
    → All IsByte payload
    → checked_loop payload u samples declared ≡ ok out
    → Expands u payload out × (length out ≡ declared)
unfolding checked_loop
checked_loop_sound payload u samples declared {out} b e =
    let (res, looped, e1) = >>=-eq-ok (decode_loop (length payload) u payload []) _ e in
    let (_, counted, e2) = >>=-eq-ok (guard (length res == declared) _) _ e1 in
    let (more, eq, x) = decode_loop_sound (length payload) u payload [] b looped in
    let same : more ≡ out = cc in (subst (Expands u payload) same x, ground arith)

-- Where the payload is bytes and the declared size is at most `isize::MAX`, `decode_transition`
-- returns `out` exactly when the unit is not empty, the payload is a sequence of runs that expands
-- to `out`, and `out` is as long as declared.
pub decode_transition_iff :
    (checks : Bool) (payload out : List ℕ) (u samples : ℕ)
    → All IsByte payload
    → samples * u ≤ isize_max
    → (decode_transition checks payload u samples ≡ ok out)
      ↔ ((0 < u) × Expands u payload out × (length out ≡ samples * u))
decode_transition_iff checks payload out zero samples b h =
    (λ e. unfold decode_transition in cc, λ p. absurd (omega arith))
decode_transition_iff checks payload out (suc n) samples b h =
    let u : ℕ = suc n in
    let starts =
      decode_transition_starts checks payload u samples (samples * u) (omega arith)
        (usize_mul_fits checks samples u (omega arith)) h in
    (
      λ e.
          let (x, l) = checked_loop_sound payload u samples (samples * u) b (sym starts ∙ e) in
          (omega arith, x, l),
      λ p. starts ∙ checked_loop_complete payload out u samples (samples * u) p.1 p.2 h,
    )

-- `decode_transition` ends on every payload of bytes: its loop never runs out of fuel.
pub decode_transition-ne-stuck :
    (checks : Bool) (payload : List ℕ) (u samples : ℕ)
    → All IsByte payload
    → decode_transition checks payload u samples ≢ stuck
unfolding decode_transition
decode_transition-ne-stuck checks payload u samples b =
    >>=-ne-stuck (guard (not (u == 0)) unitsize_zero) _ (guard-ne-stuck _ _) λ _ _.
      >>=-ne-stuck (usize_mul checks samples u) _ (usize_mul-ne-stuck checks samples u) λ c _.
        >>=-ne-stuck (with_capacity c) _ (with_capacity-ne-stuck c) λ empty _.
          >>=-ne-stuck (decode_loop (length payload) u payload empty) _
            (decode_loop-ne-stuck (length payload) u payload empty b (omega arith))
            λ out _.
              >>=-ne-stuck (usize_mul checks samples u) _ (usize_mul-ne-stuck checks samples u)
                λ d _.
                  >>=-ne-stuck
                    (guard (length out == d) (wrong_sample_count (length out / u) samples)) _
                    (guard-ne-stuck _ _) λ _ _. ok-ne-stuck out

Expands-emit :
    (u : ℕ) (runs : List Run)
    → All (IsRun u) runs
    → total runs < 2 ^ 64
    → Expands u (emit runs) (expand runs)
Expands-emit u [] h small = Expands.done
Expands-emit u ((n, s) ∷ runs) ((p, l, _), hs) small =
    Expands.next _ (s ++ emit runs) s (emit runs) (expand runs) n
      (Reads-put_varint n _ _ (omega arith) p (append_assoc (put_varint [] n) s (emit runs))) refl l
      (Expands-emit u runs hs (omega arith))

-- `encode_transition` of `k` whole samples, of a unit that is not empty and of at most `isize::MAX`
-- bytes in all, succeeds, and `decode_transition` of what it wrote, with the sample count `k`,
-- gives the samples back.
pub decode_transition-encode_transition :
    (checks : Bool) (u k : ℕ) (packed : List ℕ)
    → 0 < u
    → length packed ≡ k * u
    → All IsByte packed
    → length packed ≤ isize_max
    → (encoded : List ℕ) × (encode_transition packed u ≡ ok encoded)
      × (decode_transition checks encoded u k ≡ ok packed)
decode_transition-encode_transition checks u k packed h e b small =
    let runs : List Run = runs_of (chunks_exact u packed) in
    let samples : k < 2 ^ 64 = omega (arith, le_times u k h) in
    let x : Expands u (emit runs) (expand runs) =
      Expands-emit u runs (packed_runs u k packed h e b)
        (rw (packed_total u k packed h e) samples) in
    let whole : expand runs ≡ packed =
      runs_of-expand (chunks_exact u packed) ∙ concat-chunks_exact u k packed h e in
    (
      emit runs,
      encode_transition-emit u k packed h e samples,
      decode_transition_starts checks (emit runs) u k (k * u) h
            (usize_mul_fits checks k u (omega arith)) (omega arith)
          ∙ checked_loop_complete (emit runs) packed u k (k * u)
              (subst (Expands u (emit runs)) whole x) e (omega arith),
    )
