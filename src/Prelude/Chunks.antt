-- ===== src/Prelude/Chunks.antt =====
-- Rust's `chunks_exact` and `chunks` on a list, and the facts that every use of them needs.
use Prim.Native.Nat.{ℕ, zero, suc, ◌+◌, ◌-◌, ◌*◌, ◌/◌, ◌≤◌, ◌<◌, min}
use mathlib.Core.Path.{◌≡◌, refl, ap, ◌∙◌}
use mathlib.Core.List.{List, [], ◌∷◌, ◌++◌}
use native.Mathlib.Decide.{dec_le}
use native.Mathlib.Nat.{
  lt-div-mul-add, mul-div_cancel, div-mul-le_self, div-le_of_le-mul, div-eq_of_lt,
}
use native.Mathlib.Omega.{arith}
use openmso_api.Prelude.Lists.{length, take, drop, take-append-drop, length-take, length-drop}
use openmso_api.Prelude.Lists.{concat, All}

min-mul : (q k u : ℕ) → min (q * u) (k * u) ≡ min q k * u
min-mul q k u = elim (dec_le q k) [ yes h ↦ grind arith | no h ↦ grind arith ]

sub_mul : (k q u : ℕ) → (k - q) * u ≡ k * u - q * u
sub_mul k q u = elim (dec_le q k) [ yes h ↦ grind arith | no h ↦ grind arith ]

covers : (n c : ℕ) → 0 < c → n ≤ (n + (c - 1)) / c * c
covers n c h = omega (arith, lt-div-mul-add {a = n + (c - 1)} {b = c} h)

few_chunks : (n c : ℕ) → 0 < c → (n + (c - 1)) / c ≤ n
few_chunks zero c h =
    let one_short : c - 1 < c = omega arith in
    let e : 0 + (c - 1) ≡ c - 1 = omega arith in rw (e, div-eq_of_lt one_short) (omega arith)
few_chunks (suc n) c h = div-le_of_le-mul c (grind arith)

module _ {ℓ} {A : Type ℓ} where
  pieces : (u k : ℕ) (xs : List A) → 0 < u → length xs ≡ k * u → length xs / u ≡ k
  pieces u k xs h e = rw e (mul-div_cancel k h)

  -- The first `n` pieces of `u` items; the last ones are short where the list ends.
  unfoldable pub cut : ℕ → ℕ → List A → List (List A)
  cut zero u xs = []
  cut (suc n) u xs = take u xs ∷ cut n u (drop u xs)

  -- `xs.chunks_exact(u)` for `u > 0`: whole pieces only.
  unfoldable pub chunks_exact : ℕ → List A → List (List A)
  unfolding cut
  chunks_exact u xs = cut (length xs / u) u xs

  -- `xs.chunks(c)` for `c > 0`: the last piece may be short.
  unfoldable pub chunks : ℕ → List A → List (List A)
  unfolding cut
  chunks c xs = cut ((length xs + (c - 1)) / c) c xs

  concat-cut : (n u : ℕ) (xs : List A) → length xs ≤ n * u → concat (cut n u xs) ≡ xs
  unfolding cut
  concat-cut zero u [] h = refl
  concat-cut zero u (x ∷ xs) h = absurd (omega arith)
  concat-cut (suc n) u xs h =
      ap (λ t. take u xs ++ t) (concat-cut n u (drop u xs) (omega (arith, length-drop u xs)))
      ∙ take-append-drop u xs

  pub length-cut : (n u : ℕ) (xs : List A) → length (cut n u xs) ≡ n
  unfolding cut
  length-cut zero u xs = refl
  length-cut (suc n) u xs = ap suc (length-cut n u (drop u xs))

  -- Where the list is long enough, every piece is whole.
  cut_whole : (n u : ℕ) (xs : List A) → n * u ≤ length xs → All (λ c. length c ≡ u) (cut n u xs)
  unfolding cut
  cut_whole zero u xs h = tt
  cut_whole (suc n) u xs h =
      (omega (arith, length-take u xs), cut_whole n u (drop u xs) (omega (arith, length-drop u xs)))

  -- A list of `k * u` items cut into pieces of `q * u`: each piece holds whole units.
  cut_units :
      (n q u k : ℕ) (xs : List A)
      → length xs ≡ k * u
      → All (λ c. (m : ℕ) × (m ≤ q) × (length c ≡ m * u)) (cut n (q * u) xs)
  unfolding cut
  cut_units zero q u k xs h = tt
  cut_units (suc n) q u k xs h = (
    (min q k, omega arith, omega (arith, length-take (q * u) xs, min-mul q k u)),
    cut_units n q u (k - q) (drop (q * u) xs)
        (omega (arith, length-drop (q * u) xs, sub_mul k q u)),
  )

  pub concat-chunks : (c : ℕ) (xs : List A) → 0 < c → concat (chunks c xs) ≡ xs
  unfolding chunks
  concat-chunks c xs h = concat-cut _ c xs (covers (length xs) c h)

  pub chunks_units :
      (q u k : ℕ) (xs : List A)
      → length xs ≡ k * u
      → All (λ c. (m : ℕ) × (m ≤ q) × (length c ≡ m * u)) (chunks (q * u) xs)
  unfolding chunks
  chunks_units q u k xs h = cut_units _ q u k xs h

  pub concat-chunks_exact :
      (u k : ℕ) (xs : List A) → 0 < u → length xs ≡ k * u → concat (chunks_exact u xs) ≡ xs
  unfolding chunks_exact
  concat-chunks_exact u k xs h e =
      concat-cut _ u xs (omega (arith, e, ap (λ (t : ℕ). t * u) (pieces u k xs h e)))

  pub length-chunks_exact :
      (u k : ℕ) (xs : List A) → 0 < u → length xs ≡ k * u → length (chunks_exact u xs) ≡ k
  unfolding chunks_exact
  length-chunks_exact u k xs h e = length-cut _ u xs ∙ pieces u k xs h e

  pub chunks_exact_whole : (u : ℕ) (xs : List A) → All (λ c. length c ≡ u) (chunks_exact u xs)
  unfolding chunks_exact
  chunks_exact_whole u xs = cut_whole _ u xs (div-mul-le_self (length xs) u)

  pub length-chunks : (c : ℕ) (xs : List A) → 0 < c → length (chunks c xs) ≤ length xs
  unfolding chunks
  length-chunks c xs h = rw (length-cut _ c xs) (few_chunks (length xs) c h)
