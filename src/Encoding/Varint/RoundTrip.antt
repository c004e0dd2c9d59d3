-- ===== src/Encoding/Varint/RoundTrip.antt =====
-- `get_varint` on what `put_varint` wrote, and the values that it returns.
use openmso_api.Prelude.{ℕ, ◌%◌, ◌^◌, ◌≤◌, ◌<◌, arith}
use openmso_api.Prelude.{List, [], ◌++◌, ◌≡◌, ◌↔◌, ◌∙◌, sym, ap, length, length-append}
use openmso_api.Prelude.{All, IsByte, IsU64, inl, inr}
use openmso_api.Prelude.{◌==◌, Bool-cases, ◌⊎◌}
use openmso_api.Failure.{zero_run_length, bad_varint, Fault, protocol, err}
use openmso_api.Failure.{ok}
use openmso_api.Encoding.Varint.{put_varint, get_varint}
use openmso_api.Encoding.Varint.Put.{Digits, put_varint-Digits, put_varint_bounds}
use openmso_api.Encoding.Varint.Get.{
  IsTerminated, groups_value, answer, Front, length-IsTerminated, get_varint-IsTerminated,
  get_varint_cases,
}

Digits-IsTerminated : {v : ℕ} {bs : List ℕ} → Digits v bs → IsTerminated bs
Digits-IsTerminated (Digits.last h) = IsTerminated.last h
Digits-IsTerminated (Digits.more h d) =
    IsTerminated.more (omega arith) (omega arith) (Digits-IsTerminated d)

groups_value-Digits : {v : ℕ} {bs : List ℕ} → Digits v bs → groups_value bs ≡ v
groups_value-Digits (Digits.last h) = omega arith
groups_value-Digits (Digits.more h d) = omega (arith, groups_value-Digits d)

-- `get_varint` reads back every `u64` from 1 on that `put_varint` wrote, and leaves what follows
-- it.
pub get_varint-put_varint :
    (v : ℕ) (rest : List ℕ) → IsU64 v → 1 ≤ v → get_varint (put_varint [] v ++ rest) ≡ ok (v, rest)
get_varint-put_varint v rest h p =
    let d : Digits v (put_varint [] v) = put_varint-Digits v in
    let same : groups_value (put_varint [] v) % 2 ^ 64 ≡ v = omega (arith, groups_value-Digits d) in
    get_varint-IsTerminated rest (Digits-IsTerminated d) (put_varint_bounds v h p).2
    ∙ rw same (ground arith)

answer-eq-ok :
    (w : ℕ) (more : List ℕ) {v : ℕ} {rest : List ℕ}
    → answer w more ≡ ok (v, rest)
    → (w ≡ v) × (more ≡ rest) × (1 ≤ v)
answer-eq-ok w more e = ground arith

-- `input` is one number of at most ten bytes, which stands for `v` modulo 2 ^ 64, and `rest`.
pub record Reads (input : List ℕ) (v : ℕ) (rest : List ℕ) : Type 0 where
  pub front : List ℕ
  pub splits : input ≡ front ++ rest
  pub terminated : IsTerminated front
  pub short : length front ≤ 10
  pub value : v ≡ groups_value front % 2 ^ 64
  pub positive : 1 ≤ v

Front-Reads :
    (input : List ℕ) {v : ℕ} {rest : List ℕ}
    → Front 0 input
    → get_varint input ≡ ok (v, rest)
    → Reads input v rest
Front-Reads input f e =
    let answered = sym (get_varint-IsTerminated f.rest f.terminated (omega (arith, f.fits))) in
    let (value, same, positive) =
      answer-eq-ok _ f.rest (answered ∙ ap get_varint (sym f.splits) ∙ e) in
    record {
      front = f.front;
      splits = f.splits ∙ ap (λ t. f.front ++ t) same;
      terminated = f.terminated;
      short = omega (arith, f.fits);
      value = sym value;
      positive = positive;
    }

pub get_varint-Reads :
    (input : List ℕ) {v : ℕ} {rest : List ℕ}
    → All IsByte input
    → get_varint input ≡ ok (v, rest)
    → Reads input v rest
get_varint-Reads input h e = elim (get_varint_cases input h) [
  | inl f ↦ Front-Reads input f e
  | inr (u, r) ↦ cc
]

pub Reads-get_varint :
    (input : List ℕ) {v : ℕ} {rest : List ℕ} → Reads input v rest → get_varint input ≡ ok (v, rest)
Reads-get_varint input {v} {rest} r =
    ap get_varint r.splits
    ∙ get_varint-IsTerminated rest r.terminated r.short
    ∙ rw (← r.value) (let p : 1 ≤ v = r.positive in ground arith)

-- On bytes, `get_varint` returns `v` and `rest` exactly when the input is one number of at most ten
-- bytes followed by `rest`, and `v` is what the number stands for modulo 2 ^ 64 and not 0.
pub get_varint_iff :
    (input rest : List ℕ) (v : ℕ)
    → All IsByte input
    → (get_varint input ≡ ok (v, rest)) ↔ Reads input v rest
get_varint_iff input rest v h = (get_varint-Reads input h, Reads-get_varint input)

pub Reads-bounds :
    {input : List ℕ} {v : ℕ} {rest : List ℕ}
    → Reads input v rest
    → IsU64 v × (length rest < length input)
Reads-bounds {rest = rest} r = (
  omega (arith, r.value),
  omega (arith, ap length r.splits, length-append r.front rest, length-IsTerminated r.terminated),
)

-- On any bytes `get_varint` either reads a number of at most ten bytes or returns a protocol error.
pub get_varint_result :
    (input : List ℕ)
    → All IsByte input
    → ((v : ℕ) × (rest : List ℕ) × Reads input v rest)
      ⊎ ((f : Fault) × (get_varint input ≡ err (protocol f)))
get_varint_result input h = elim (get_varint_cases input h) [
  | inl f ↦ result f
  | inr (_, r) ↦ inr (bad_varint, r)
]
  where
    result :
        Front 0 input
        → ((v : ℕ) × (rest : List ℕ) × Reads input v rest)
          ⊎ ((f : Fault) × (get_varint input ≡ err (protocol f)))
    result f =
        let w : ℕ = groups_value f.front % 2 ^ 64 in
        let answered : get_varint input ≡ answer w f.rest =
          ap get_varint f.splits
          ∙ get_varint-IsTerminated f.rest f.terminated (omega (arith, f.fits)) in
        elim (Bool-cases (w == 0)) [
          | inl zero ↦ inr (zero_run_length, answered ∙ rw zero)
          | inr more ↦ inl (w, f.rest, Front-Reads input f (answered ∙ rw more))
        ]

pub Reads-put_varint :
    (v : ℕ) (input rest : List ℕ)
    → IsU64 v
    → 1 ≤ v
    → input ≡ put_varint [] v ++ rest
    → Reads input v rest
Reads-put_varint v input rest h p e =
    let d : Digits v (put_varint [] v) = put_varint-Digits v in
    record {
      front = put_varint [] v;
      splits = e;
      terminated = Digits-IsTerminated d;
      short = (put_varint_bounds v h p).2;
      value = omega (arith, groups_value-Digits d);
      positive = p;
    }
