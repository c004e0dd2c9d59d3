-- ===== src/Encoding/Varint/Put.antt =====
-- What `put_varint` writes.
use mathlib.Core.Logic.{dif_pos, dif_neg}
use mathlib.Core.List.{append_assoc}
use mathlib.Core.WellFounded.{Acc}
use native.Mathlib.Nat.{pow-suc}
use native.Mathlib.Decide.{dec_le}
use native.Mathlib.Bridge.{le_prop}
use openmso_api.Prelude.{ℕ, zero, suc, ◌+◌, ◌/◌, ◌%◌, ◌^◌, ◌≤◌, ◌<◌, bit_or, arith}
use openmso_api.Prelude.{List, [], ◌∷◌, ◌++◌, ◌≡◌, ◌∙◌, refl, ap, length, All, IsByte}
use openmso_api.Prelude.{IsU64}
use openmso_api.Prelude.Order.{lt_wf}
use openmso_api.Prelude.Bits.{bit_or_top}
use openmso_api.Encoding.Varint.{shift_shrinks, put_loop, put_varint}

-- The base-128 digits of a number, lowest first, with the top bit set on all but the last.
pub data Digits : ℕ → List ℕ → Type 0 where
  last : {v : ℕ} → v < 128 → Digits v (v ∷ [])
  more : {v : ℕ} {bs : List ℕ} → 128 ≤ v → Digits (v / 128) bs → Digits v ((v % 128 + 128) ∷ bs)

-- The byte that a round writes.
inner_byte : (v : ℕ) → bit_or (v % 256) 0x80 ≡ v % 128 + 128
inner_byte v = omega (arith, bit_or_top (v % 256) (omega arith))

last_byte : (v : ℕ) → v < 128 → v % 256 ≡ v
last_byte v h = omega arith

-- The loop keeps `out` and appends the digits.
put_loop-Digits :
    (out : List ℕ) (v : ℕ) (w : Acc ◌<◌ v)
    → (bs : List ℕ) × (put_loop out v w ≡ out ++ bs) × Digits v bs
unfolding put_loop
put_loop-Digits out v (Acc.intro _ smaller) = elim (dec_le 128 v) [
  | yes h ↦
      let b : ℕ = v % 128 + 128 in
      let (bs, e, d) =
        put_loop-Digits (out ++ (b ∷ [])) (v / 128) (smaller _ (shift_shrinks v h)) in
      (
        b ∷ bs,
        rw (dif_pos _ le_prop h, inner_byte v) (e ∙ append_assoc out (b ∷ []) bs),
        Digits.more h d,
      )
  | no h ↦ (v ∷ [], rw (dif_neg _ h, last_byte v (omega arith)), Digits.last (omega arith))
]

-- A number has one list of digits.
pub Digits-unique : {v : ℕ} {bs cs : List ℕ} → Digits v bs → Digits v cs → bs ≡ cs
Digits-unique (Digits.last h) (Digits.last k) = refl
Digits-unique (Digits.last h) (Digits.more k d) = absurd (omega arith)
Digits-unique (Digits.more h d) (Digits.last k) = absurd (omega arith)
Digits-unique (Digits.more {v = v} h d) (Digits.more k e) =
    ap (λ t. (v % 128 + 128) ∷ t) (Digits-unique d e)

pub put_varint-Digits : (v : ℕ) → Digits v (put_varint [] v)
unfolding put_varint
put_varint-Digits v = let (bs, e, d) = put_loop-Digits [] v (lt_wf.apply v) in rw e d

pub put_varint_appends : (out : List ℕ) (v : ℕ) → put_varint out v ≡ out ++ put_varint [] v
unfolding put_varint
put_varint_appends out v =
    let (bs, e, d) = put_loop-Digits out v (lt_wf.apply v) in
    e ∙ ap (λ t. out ++ t) (Digits-unique d (put_varint-Digits v))

pub Digits-IsByte : {v : ℕ} {bs : List ℕ} → Digits v bs → All IsByte bs
Digits-IsByte (Digits.last h) = omega arith
Digits-IsByte (Digits.more h d) = (omega arith, Digits-IsByte d)

pub length-Digits :
    (k : ℕ) {v : ℕ} {bs : List ℕ} → Digits v bs → v < 128 ^ suc k → length bs ≤ suc k
length-Digits k (Digits.last h) le = omega arith
length-Digits zero (Digits.more h d) le = absurd (omega arith)
length-Digits (suc k) (Digits.more {v = v} h d) le =
    omega (arith, length-Digits k d (omega (arith, pow-suc 128 (suc k))))

Digits-short : {v : ℕ} {bs : List ℕ} → Digits v bs → (1 ≤ length bs) × (length bs ≤ v + 1)
Digits-short (Digits.last h) = omega arith
Digits-short (Digits.more h d) = omega (arith, Digits-short d)

Digits-run : {v : ℕ} {bs : List ℕ} → Digits v bs → 1 ≤ v → length bs ≤ v
Digits-run (Digits.last h) p = omega arith
Digits-run (Digits.more h d) p = omega (arith, Digits-short d)

-- `put_varint` of a `u64` writes 1 to 10 bytes, and never more of them than the number counts.
pub put_varint_bounds :
    (v : ℕ)
    → IsU64 v
    → 1 ≤ v
    → All IsByte (put_varint [] v)
      × (1 ≤ length (put_varint [] v))
      × (length (put_varint [] v) ≤ 10)
      × (length (put_varint [] v) ≤ v)
put_varint_bounds v h p =
    let d : Digits v (put_varint [] v) = put_varint-Digits v in
    (Digits-IsByte d, (Digits-short d).0, length-Digits 9 d (omega arith), Digits-run d p)
