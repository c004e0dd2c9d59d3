-- ===== src/Encoding/Varint/Get.antt =====
-- What `get_varint` answers on any bytes, in plain arithmetic.
use native.Mathlib.Decide.{ℕ_discrete, dec_lt}
use native.Mathlib.Nat.{pow-le-pow_right}
use native.Mathlib.Numerals.{towards_suc}
use openmso_api.Prelude.{ℕ, zero, suc, ◌+◌, ◌-◌, ◌*◌, ◌%◌, ◌^◌, ◌≤◌, ◌<◌, arith}
use openmso_api.Prelude.{List, [], ◌∷◌, ◌++◌, ◌≡◌, ◌∙◌, refl, ap, length, take, All, IsByte}
use openmso_api.Prelude.{◌==◌, if◌then◌else◌, ◌⊎◌, inl, inr}
use openmso_api.Prelude.Bits.{bit_or_field, bit_and_low_seven, bit_and_top}
use openmso_api.Failure.{Outcome, ok, err, protocol, zero_run_length, bad_varint}
use openmso_api.Encoding.Varint.{or_group, get_loop, get_varint}

-- The bytes of one number: the last is the first without the top bit.
pub data IsTerminated : List ℕ → Type 0 where
  last : {b : ℕ} → b < 128 → IsTerminated (b ∷ [])
  more : {b : ℕ} {bs : List ℕ} → 128 ≤ b → b < 256 → IsTerminated bs → IsTerminated (b ∷ bs)

-- The number that groups of seven bits stand for, lowest first.
abbrev pub groups_value : List ℕ → ℕ
groups_value [] = 0
groups_value (b ∷ bs) = b % 128 + 128 * groups_value bs

-- What the loop answers at the last byte.
abbrev pub answer : ℕ → List ℕ → Outcome (ℕ × List ℕ)
answer v rest = if v == 0 then err (protocol zero_run_length) else ok (v, rest)

abbrev place : ℕ → ℕ
place i = 2 ^ (i * 7)

place-suc : (i : ℕ) → place (suc i) ≡ 128 * place i
place-suc i = rw (times i) (simp towards_suc (omega arith))
  where
    times : (i : ℕ) → suc i * 7 ≡ i * 7 + 7
    times i = omega arith

place-le : (i : ℕ) → i ≤ 8 → place i ≤ 2 ^ 56
place-le i h = pow-le-pow_right (omega arith) {i = i * 7} {j = 56} (omega arith)

-- Below the tenth byte nothing is lost.
or_group_low :
    (value b i : ℕ)
    → b < 256
    → i ≤ 8
    → value < place i
    → (or_group value b i ≡ value + b % 128 * place i) × (or_group value b i < place (suc i))
or_group_low value b i hb hi hv = (exact, rw exact (omega (arith, place-suc i, scaled)))
  where
    scaled : b % 128 * place i + place i ≤ 128 * place i
    scaled = grind arith

    fits : b % 128 * place i % 2 ^ 64 ≡ b % 128 * place i
    fits = omega (arith, scaled, place-le i hi)

    exact : or_group value b i ≡ value + b % 128 * place i
    exact = rw (bit_and_low_seven b hb, fits) (bit_or_field (i * 7) (b % 128) value hv)

-- The tenth byte keeps one bit.
or_group_top :
    (value b : ℕ)
    → b < 256
    → value < 2 ^ 63
    → or_group value b 9 ≡ (value + b % 128 * 2 ^ 63) % 2 ^ 64
or_group_top value b hb hv =
    rw (bit_and_low_seven b hb, one_bit) (bit_or_field 63 (b % 2) value hv ∙ omega arith)
  where
    one_bit : b % 128 * 2 ^ 63 % 2 ^ 64 ≡ b % 2 * 2 ^ 63
    one_bit = omega arith

or_group_last :
    (value b i : ℕ)
    → b < 128
    → i ≤ 9
    → value < place i
    → or_group value b i ≡ (value + b % 128 * place i) % 2 ^ 64
or_group_last value b i hb hi hv = elim (ℕ_discrete i 9) [
  | yes e ↦ rw e (or_group_top value b (omega arith) (rw e at hv))
  | no ne ↦
      let (exact, small) = or_group_low value b i (omega arith) (omega arith) hv in
      omega (arith, exact, small, place-suc i, place-le i (omega arith))
]

-- The step at a last byte, and at a byte with the top bit.
get_loop_last :
    (rest : List ℕ) (value b i : ℕ)
    → b < 128
    → i ≤ 9
    → get_loop (b ∷ rest) i value ≡ answer (or_group value b i) rest
unfolding get_loop
get_loop_last rest value b i hb hi = ground (arith, bit_and_top b (omega arith))

get_loop_more :
    (rest : List ℕ) (value b i : ℕ)
    → 128 ≤ b
    → b < 256
    → i ≤ 9
    → get_loop (b ∷ rest) i value ≡ get_loop rest (suc i) (or_group value b i)
unfolding get_loop
get_loop_more rest value b i hb lt hi = ground (arith, bit_and_top b lt)

get_loop_over : (input : List ℕ) (value : ℕ) → get_loop input 10 value ≡ err (protocol bad_varint)
unfolding get_loop
get_loop_over [] value = refl
get_loop_over (b ∷ rest) value = refl

regroup :
    (b g value i : ℕ)
    → value + b % 128 * place i + g * place (suc i) ≡ value + (b % 128 + 128 * g) * place i
regroup b g value i = omega (arith, ap (λ (t : ℕ). g * t) (place-suc i))

pub length-IsTerminated : {front : List ℕ} → IsTerminated front → 1 ≤ length front
length-IsTerminated (IsTerminated.last h) = omega arith
length-IsTerminated (IsTerminated.more h lt t) = omega arith

get_loop-IsTerminated :
    (rest : List ℕ) (i value : ℕ) {front : List ℕ}
    → IsTerminated front
    → i + length front ≤ 10
    → value < place i
    → get_loop (front ++ rest) i value
      ≡ answer ((value + groups_value front * place i) % 2 ^ 64) rest
get_loop-IsTerminated rest i value (IsTerminated.last {b = b} h) le hv =
    get_loop_last rest value b i h (omega arith)
    ∙ ap (λ v. answer v rest) (or_group_last value b i h (omega arith) hv ∙ omega arith)
get_loop-IsTerminated rest i value (IsTerminated.more {b = b} {bs = bs} h lt t) le hv =
    let (exact, small) = or_group_low value b i lt (omega (arith, length-IsTerminated t)) hv in
    get_loop_more (bs ++ rest) value b i h lt (omega arith)
    ∙ get_loop-IsTerminated rest (suc i) (or_group value b i) t (omega arith) small
    ∙ ap (λ v. answer (v % 2 ^ 64) rest) (rw exact (regroup b (groups_value bs) value i))

-- A number of at most ten bytes at the front of the input.
pub record Front (i : ℕ) (input : List ℕ) : Type 0 where
  pub front : List ℕ
  pub rest : List ℕ
  pub splits : input ≡ front ++ rest
  pub terminated : IsTerminated front
  pub fits : i + length front ≤ 10

-- No byte among the first ten is a last one.
abbrev pub Unended : ℕ → List ℕ → Type 0
Unended i input = All (λ b. 128 ≤ b) (take (10 - i) input)

extend : {i b : ℕ} {input : List ℕ} → 128 ≤ b → b < 256 → Front (suc i) input → Front i (b ∷ input)
extend {b = b} h lt f = record {
  front = b ∷ f.front;
  rest = f.rest;
  splits = ap (λ t. b ∷ t) f.splits;
  terminated = IsTerminated.more h lt f.terminated;
  fits = omega (arith, f.fits);
}

Unended-more :
    (i b : ℕ) (input : List ℕ) → i ≤ 9 → 128 ≤ b → Unended (suc i) input → Unended i (b ∷ input)
Unended-more i b input hi h u = let e : 10 - i ≡ suc (10 - suc i) = omega arith in rw e (h, u)

get_loop_cases :
    (input : List ℕ) (k i value : ℕ)
    → i + k ≡ 10
    → All IsByte input
    → Front i input ⊎ (Unended i input × (get_loop input i value ≡ err (protocol bad_varint)))
get_loop_cases input zero i value e h =
    let ten : i ≡ 10 = omega arith in rw ten (inr (tt, get_loop_over input value))
get_loop_cases [] (suc k) i value e h =
    let left : 10 - i ≡ suc k = omega arith in inr (rw left tt, unfold get_loop in refl)
get_loop_cases (b ∷ rest) (suc k) i value e (hb, hs) = elim (dec_lt b 128) [
  | yes small ↦ inl (record {
    front = b ∷ [];
    rest = rest;
    splits = refl;
    terminated = IsTerminated.last small;
    fits = omega arith;
  })
  | no big ↦ elim (get_loop_cases rest k (suc i) (or_group value b i) (omega arith) hs) [
    | inl f ↦ inl (extend (omega arith) hb f)
    | inr (u, r) ↦ inr (
      Unended-more i b rest (omega arith) (omega arith) u,
      get_loop_more rest value b i (omega arith) hb (omega arith) ∙ r,
    )
  ]
]

-- `get_varint` on any bytes.
pub get_varint-IsTerminated :
    (rest : List ℕ) {front : List ℕ}
    → IsTerminated front
    → length front ≤ 10
    → get_varint (front ++ rest) ≡ answer (groups_value front % 2 ^ 64) rest
unfolding get_varint
get_varint-IsTerminated rest {front} t h =
    get_loop-IsTerminated rest 0 0 t (omega arith) (omega arith)
    ∙ ap (λ v. answer (v % 2 ^ 64) rest) (omega arith)

pub get_varint_cases :
    (input : List ℕ)
    → All IsByte input
    → Front 0 input ⊎ (Unended 0 input × (get_varint input ≡ err (protocol bad_varint)))
unfolding get_varint
get_varint_cases input h = get_loop_cases input 10 0 0 refl h
