-- ===== src/Cpp/Encoding/Expansion.antt =====
-- `decodeTransition` of cpp/src/encoding.cpp against `decode_transition`, when strings hold less
-- than a `Vec` does.
use openmso_api.Prelude.{
  ℕ, zero, suc, ◌+◌, ◌*◌, ◌/◌, ◌%◌, ◌^◌, ◌<◌, ◌≤◌, arith, Bool, true, false, not, List, [], ◌∷◌,
  ◌++◌, ◌≡◌, refl, ap, length, length-append, length-take, length-copies, ◌∙◌, copies, take, drop,
  Bool-cases, ◌⊎◌, inl, inr, ltb, leb, ◌==◌, Str,
}
use openmso_api.Failure.{
  NngError, IoError, Fault, Outcome, ok, err, panic, guard, >>=-eq-ok, run_missing_value,
  wrong_sample_count, unitsize_zero,
}
use openmso_api.Failure
use openmso_api.Failure.Text.{fault_text}
use openmso_api.Encoding.Varint
use openmso_api.Encoding.Transition
use openmso_api.Encoding.Transition.{isize_max, usize_mul, with_capacity, extend_times}
use openmso_api.Encoding.Transition.Decode.{Round, extend_times-eq-ok, decode_loop_round}
use openmso_api.Cpp.Errors.{
  protocol_error, counterpart, as_result, Result, returned, escaped, throw_if, ◌>>=◌, ◌>>◌,
}
use openmso_api.Cpp.Encoding.{reserve, append, append_run, decode_loop, decode_transition}
use openmso_api.Cpp.Encoding.Varints.{get_varint_same}

-- The bytes that the runs of a payload stand for, up to the first one that is not well-formed.
unfoldable pub written : ℕ → ℕ → List ℕ → ℕ
written fuel u [] = 0
written zero u (b ∷ bs) = 0
written (suc fuel) u (b ∷ bs) = elim (Varint.get_varint (b ∷ bs)) [
  | ok got ↦ elim (ltb (length got.1) u) [
    | true ↦ 0
    | false ↦ got.0 * u + written fuel u (drop u got.1)
  ]
  | err x ↦ 0
  | panic ↦ 0
  | Failure.stuck ↦ 0
]

written_round :
    (fuel u b : ℕ) (bs : List ℕ) {run : ℕ} {tail : List ℕ}
    → Varint.get_varint (b ∷ bs) ≡ ok (run, tail)
    → ltb (length tail) u ≡ false
    → written (suc fuel) u (b ∷ bs) ≡ run * u + written fuel u (drop u tail)
unfolding written
written_round fuel u b bs got long = rw (got, long, written) refl

copied_lem :
    (run u : ℕ) (tail : List ℕ)
    → ltb (length tail) u ≡ false
    → length (copies run (take u tail)) ≡ run * u
copied_lem run u tail long =
    let whole : length (take u tail) ≡ u = ground (arith, length-take u tail) in
    length-copies run (take u tail) ∙ ap (λ n. run * n) whole

enough_lem : (test : Bool) (f : Fault) {x : Unit {0}} → guard (not test) f ≡ ok x → test ≡ false
enough_lem test f h = ground arith

-- A chunk that a string cannot hold: what is declared is longer, or what the runs stand for.
abbrev pub Outgrows : ℕ → List ℕ → ℕ → ℕ → Type 0
Outgrows max_size payload u samples =
    (max_size < samples * u % 2 ^ 64) ⊎ (max_size < written (length payload) u payload)

module _ (nng_text : NngError → Str) (io_text : IoError → Str) (debug : Str → Str) (max_size : ℕ)
    (small : max_size ≤ isize_max) where
  -- The same outcome, or an exception of the library, where `Long` holds and Rust returns nothing that a
  -- string can hold.
  abbrev pub Agrees : Type 0 → Outcome (List ℕ) → Result (List ℕ) → Type 0
  Agrees Long r c =
      (c ≡ as_result nng_text io_text debug r)
      ⊎ ((c ≡ escaped) × Long × ((out : List ℕ) → r ≡ ok out → max_size < length out))

  pub weaker :
      {Long Long' : Type 0} {r : Outcome (List ℕ)} {c : Result (List ℕ)}
      → (Long → Long')
      → Agrees Long r c
      → Agrees Long' r c
  weaker f (inl same) = inl same
  weaker f (inr (e, long, none_fits)) = inr (e, f long, none_fits)

  -- Behind calls with the same outcome.
  bind_same :
      {A Long : Type 0} (r : Outcome A) (c : Result A) (f : A → Outcome (List ℕ))
      (g : A → Result (List ℕ))
      → c ≡ as_result nng_text io_text debug r
      → ((a : A) → r ≡ ok a → Agrees Long (f a) (g a))
      → Agrees Long (Failure.◌>>=◌ r f) (c >>= g)
  bind_same (ok a) c f g e h = rw e (h a refl)
  bind_same (err x) c f g e h = rw e (inl refl)
  bind_same panic c f g e h = rw e (inl refl)
  bind_same Failure.stuck c f g e h = rw e (inl refl)

  -- Behind calls that agree, where what follows only appends.
  bind-Agrees :
      {Long : Type 0} (r : Outcome (List ℕ)) (c : Result (List ℕ)) (f : List ℕ → Outcome (List ℕ))
      (g : List ℕ → Result (List ℕ))
      → Agrees Long r c
      → ((out : List ℕ) → r ≡ ok out → Agrees Long (f out) (g out))
      → ((out res : List ℕ) → f out ≡ ok res → length out ≤ length res)
      → Agrees Long (Failure.◌>>=◌ r f) (c >>= g)
  bind-Agrees r c f g (inl e) h grows = bind_same r c f g e h
  bind-Agrees r c f g (inr (e, long, none_fits)) h grows = rw e (
      inr (
        refl,
        long,
        λ res done.
            let (out, first, then_) = >>=-eq-ok r f done in
            omega (arith, none_fits out first, grows out res then_),
      ))

  over_lem : {n : ℕ} → leb n max_size ≡ false → max_size < n
  over_lem h = ground arith

  append_run-Agrees :
      (run : ℕ) (value out : List ℕ)
      → Agrees
          (max_size < length out + length (copies run value))
          (extend_times run value out)
          (append_run max_size run value out)
  unfolding append_run extend_times append
  append_run-Agrees zero value out = inl refl
  append_run-Agrees (suc run) value out =
      elim (Bool-cases (leb (length out + length value) max_size)) [
        | inl fits ↦
            let whole : leb (length out + length value) isize_max ≡ true = ground (arith, small) in
            rw (fits, whole)
              (weaker
                (λ long.
                  omega
                    (arith, long, length-append out value, length-append value (copies run value)))
                (append_run-Agrees run value (out ++ value)))
        | inr over ↦ rw over (
            inr (
              refl,
              omega (arith, length-append value (copies run value), over_lem over),
              λ res done.
                  let appended : res ≡ out ++ (value ++ copies run value) =
                    extend_times-eq-ok (suc run) value out done in
                  omega (
                    arith,
                    ap length appended,
                    length-append out (value ++ copies run value),
                    length-append value (copies run value),
                    over_lem over,
                  ),
            ))
      ]

  decode_loop_grows :
      (fuel u : ℕ) (payload out : List ℕ) {res : List ℕ}
      → Transition.decode_loop fuel u payload out ≡ ok res
      → length out ≤ length res
  decode_loop_grows fuel u [] out e = unfold Transition.decode_loop in ground arith
  decode_loop_grows zero u (b ∷ bs) out e = unfold Transition.decode_loop in cc
  decode_loop_grows (suc fuel) u (b ∷ bs) out {res} e =
      let step : Round fuel u (b ∷ bs) out res = decode_loop_round fuel u b bs out e in
      omega (
        arith,
        decode_loop_grows fuel u (drop u step.tail) (out ++ copies step.run (take u step.tail))
            step.later,
        length-append out (copies step.run (take u step.tail)),
      )

  -- `if test { return Err(…) }`, which the model of Rust writes as a guard.
  refused_same :
      (test : Bool) (f : Fault)
      → throw_if test (protocol_error (fault_text debug f))
        ≡ as_result nng_text io_text debug (guard (not test) f)
  unfolding counterpart
  refused_same true f = refl
  refused_same false f = refl

  decode_loop-Agrees :
      (fuel u : ℕ) (payload out : List ℕ)
      → Agrees
          (max_size < length out + written fuel u payload)
          (Transition.decode_loop fuel u payload out)
          (decode_loop max_size fuel u payload out)
  unfolding decode_loop Transition.decode_loop fault_text
  decode_loop-Agrees fuel u [] out = inl refl
  decode_loop-Agrees zero u (b ∷ bs) out = inl refl
  decode_loop-Agrees (suc fuel) u (b ∷ bs) out =
      bind_same (Varint.get_varint (b ∷ bs)) _ _ _ (get_varint_same nng_text io_text debug (b ∷ bs))
        λ got read.
          bind_same (guard (not (ltb (length got.1) u)) run_missing_value) _ _ _
            (refused_same (ltb (length got.1) u) run_missing_value)
            λ _ enough.
              let long = enough_lem (ltb (length got.1) u) run_missing_value enough in
              let total = written_round fuel u b bs read long in
              let copied = copied_lem got.0 u got.1 long in
              bind-Agrees (extend_times got.0 (take u got.1) out) _ _ _
                (weaker (λ over. omega (arith, over, total, copied))
                  (append_run-Agrees got.0 (take u got.1) out))
                (λ out' extended.
                  weaker
                    (λ over. omega (
                      arith,
                      over,
                      total,
                      copied,
                      ap length (extend_times-eq-ok got.0 (take u got.1) out extended),
                      length-append out (copies got.0 (take u got.1)),
                    ))
                    (decode_loop-Agrees fuel u (drop u got.1) out'))
                (λ out' res e. decode_loop_grows fuel u (drop u got.1) out' e)

  usize_mul_wraps : (a b : ℕ) → usize_mul false a b ≡ ok (a * b % 2 ^ 64)
  unfolding usize_mul
  usize_mul_wraps a b = elim (Bool-cases (ltb (a * b) (2 ^ 64))) [
    | inl fits ↦ let same : a * b % 2 ^ 64 ≡ a * b = ground arith in rw (fits, same) refl
    | inr over ↦ rw over refl
  ]

  -- What follows the loop.
  counted-Agrees :
      {Long : Type 0} (u samples size : ℕ) (out : List ℕ)
      → Agrees Long
          (Failure.◌>>◌
            (guard (length out == size) (wrong_sample_count (length out / u) samples))
            (ok out))
          (throw_if
              (not (length out == size))
              (protocol_error (fault_text debug (wrong_sample_count (length out / u) samples)))
            >> returned out)
  counted-Agrees u samples size out = elim (Bool-cases (length out == size)) [
    | inl same ↦ rw same (inl refl)
    | inr other ↦ rw other (inl (unfold counterpart in refl))
  ]

  counted-eq-ok :
      (u samples size : ℕ) (out : List ℕ) {res : List ℕ}
      → Failure.◌>>◌
          (guard (length out == size) (wrong_sample_count (length out / u) samples))
          (ok out)
        ≡ ok res
      → (res ≡ out) × (length res ≡ size)
  counted-eq-ok u samples size out h = (ground arith, ground arith)

  -- From the reservation on, for `size` bytes.
  reserved-Agrees :
      (payload : List ℕ) (u samples size : ℕ)
      → Agrees
          ((max_size < size) ⊎ (max_size < written (length payload) u payload))
          (Failure.◌>>=◌ (with_capacity size) λ empty.
            Failure.◌>>=◌ (Transition.decode_loop (length payload) u payload empty) λ out.
              Failure.◌>>◌
                (guard (length out == size) (wrong_sample_count (length out / u) samples))
                (ok out))
          (reserve max_size size
            >> (decode_loop max_size (length payload) u payload [] >>= λ out.
                throw_if
                  (not (length out == size))
                  (protocol_error (fault_text debug (wrong_sample_count (length out / u) samples)))
                >> returned out))
  unfolding reserve with_capacity
  reserved-Agrees payload u samples size = elim (Bool-cases (leb size max_size)) [
    | inl fits ↦
        let whole : leb size isize_max ≡ true = ground (arith, small) in
        rw (fits, whole)
          (bind-Agrees (Transition.decode_loop (length payload) u payload []) _ _ _
            (weaker (λ over. inr (omega (arith, over)))
              (decode_loop-Agrees (length payload) u payload []))
            (λ out _. counted-Agrees u samples size out)
            (λ out res e.
              let (same, _) = counted-eq-ok u samples size out e in omega (arith, ap length same)))
    | inr over ↦ rw over (
        inr (
          refl,
          inl (over_lem over),
          λ res done.
              let (empty, _, more) = >>=-eq-ok (with_capacity size) _ done in
              let (out, _, last) =
                >>=-eq-ok (Transition.decode_loop (length payload) u payload empty) _ more in
              let (_, counted) = counted-eq-ok u samples size out last in
              omega (arith, counted, over_lem over),
        ))
  ]

  -- Where strings hold at most what a `Vec` holds, `decodeTransition` returns and throws as
  -- `decode_transition` in a build without overflow checks, unless what is declared, or what the runs stand
  -- for, is too long for a string: then the library may throw, and that returns nothing that fits.
  pub decode_transition-Agrees :
      (payload : List ℕ) (u samples : ℕ)
      → Agrees
          (Outgrows max_size payload u samples)
          (Transition.decode_transition false payload u samples)
          (decode_transition max_size payload u samples)
  unfolding decode_transition Transition.decode_transition fault_text
  decode_transition-Agrees payload u samples = rw (usize_mul_wraps samples u) (
      bind_same (guard (not (u == 0)) unitsize_zero) _ _ _ (refused_same (u == 0) unitsize_zero)
        λ _ _. reserved-Agrees payload u samples (samples * u % 2 ^ 64))
