-- ===== src/Encoding/Transition/Decode.antt =====
-- What `decode_transition` answers on any bytes, against a relation that does not mention the code.
use mathlib.Core.Path.{subst}
use mathlib.Core.List.{append-nil, append_assoc}
use openmso_api.Prelude.{ℕ, zero, suc, ◌+◌, ◌*◌, ◌≤◌, ◌<◌, arith, not, false}
use openmso_api.Prelude.{List, [], ◌∷◌, ◌++◌, ◌≡◌, ◌≢◌, ◌∙◌, sym, ap, length, length-append, All}
use openmso_api.Prelude.{
  take, drop, take_append, drop_append, length-take, length-drop, take-append-drop, copies,
  length-copies,
}
use openmso_api.Prelude.{IsByte, All-parts, All-drop, ltb, leb, Bool-cases, inl, inr}
use openmso_api.Failure.{ok, panic, stuck, ◌>>=◌, ◌>>◌, guard, run_missing_value}
use openmso_api.Failure.{>>=-eq-ok, >>=-ne-stuck, guard-ne-stuck}
use openmso_api.Encoding.Varint.{get_varint}
use openmso_api.Encoding.Varint.RoundTrip.{
  get_varint_result, Reads, get_varint-Reads, Reads-get_varint, Reads-bounds,
}
use openmso_api.Encoding.Transition.{isize_max, extend_times, decode_loop}

-- `payload` is a sequence of run lengths, each followed by a value of `u` bytes, and `out` is each
-- value as often as its run length says.
pub data Expands (u : ℕ) : List ℕ → List ℕ → Type 0 where
  done : Expands u [] []
  next :
      (payload tail value rest out : List ℕ) (run : ℕ)
      → Reads payload run tail
      → tail ≡ value ++ rest
      → length value ≡ u
      → Expands u rest out
      → Expands u payload (copies run value ++ out)

-- The inner loop: it appends the copies, as long as they fit in a `Vec`.
extend_times_fits :
    (run : ℕ) (value out : List ℕ)
    → length out + run * length value ≤ isize_max
    → extend_times run value out ≡ ok (out ++ copies run value)
unfolding extend_times
extend_times_fits zero value out h = ap ok (sym (append-nil out))
extend_times_fits (suc run) value out h = ground (
  arith,
  extend_times_fits run value (out ++ value),
  length-append out value,
  append_assoc out value (copies run value),
)

pub extend_times-eq-ok :
    (run : ℕ) (value out : List ℕ) {out' : List ℕ}
    → extend_times run value out ≡ ok out'
    → out' ≡ out ++ copies run value
unfolding extend_times
extend_times-eq-ok zero value out e = ground (arith, append-nil out)
extend_times-eq-ok (suc run) value out {out'} e = ground (
  arith,
  extend_times-eq-ok run value (out ++ value) {out' = out'},
  append_assoc out value (copies run value),
)

-- One round on a payload that begins with a run length.
pub decode_loop_next :
    (fuel u : ℕ) (payload out : List ℕ) {run : ℕ} {tail : List ℕ}
    → Reads payload run tail
    → decode_loop (suc fuel) u payload out ≡ (
        guard (not (ltb (length tail) u)) run_missing_value
        >> (extend_times run (take u tail) out >>= λ out'. decode_loop fuel u (drop u tail) out'))
unfolding decode_loop
decode_loop_next fuel u [] out r = absurd (omega (arith, Reads-bounds r))
decode_loop_next fuel u (b ∷ bs) out r = rw (Reads-get_varint (b ∷ bs) r, ◌>>=◌)

-- The value and what follows it, cut from the tail.
pub tail_cut :
    (u : ℕ) (tail value rest : List ℕ)
    → tail ≡ value ++ rest
    → length value ≡ u
    → (take u tail ≡ value) × (drop u tail ≡ rest) × (ltb (length tail) u ≡ false)
tail_cut u tail value rest e l =
    rw (e, ← l)
      (take_append value rest, drop_append value rest, ground (arith, length-append value rest))

pub decode_loop_complete :
    (u fuel : ℕ) (out : List ℕ) {payload more : List ℕ}
    → Expands u payload more
    → length payload ≤ fuel
    → length out + length more ≤ isize_max
    → decode_loop fuel u payload out ≡ ok (out ++ more)
decode_loop_complete u fuel out Expands.done h fits =
    unfold decode_loop in ap ok (sym (append-nil out))
decode_loop_complete u zero out (Expands.next payload tail value rest more run r e l x) h fits =
    absurd (omega (arith, Reads-bounds r))
decode_loop_complete u (suc fuel) out (Expands.next payload tail value rest more run r e l x) h
      fits =
    let (front, back, long) = tail_cut u tail value rest e l in
    let whole = length-append (copies run value) more in
    let size : length out + run * length value ≤ isize_max =
      omega (arith, whole, length-copies run value) in
    decode_loop_next fuel u payload out r
    ∙ rw (long, front, back, extend_times_fits run value out size, ◌>>=◌)
        (decode_loop_complete u fuel (out ++ copies run value) x
            (omega (arith, Reads-bounds r, ap length e, length-append value rest))
            (omega (arith, whole, length-append out (copies run value)))
          ∙ ap ok (append_assoc out (copies run value) more))

-- What a successful round did.
pub record Round (fuel u : ℕ) (payload out res : List ℕ) : Type 0 where
  pub run : ℕ
  pub tail : List ℕ
  pub got : get_varint payload ≡ ok (run, tail)
  pub long : u ≤ length tail
  pub later : decode_loop fuel u (drop u tail) (out ++ copies run (take u tail)) ≡ ok res

pub decode_loop_round :
    (fuel u x : ℕ) (xs out : List ℕ) {res : List ℕ}
    → decode_loop (suc fuel) u (x ∷ xs) out ≡ ok res
    → Round fuel u (x ∷ xs) out res
unfolding decode_loop
decode_loop_round fuel u x xs out e =
    let ((run, tail), got, e1) = >>=-eq-ok (get_varint (x ∷ xs)) _ e in
    let (_, long, e2) = >>=-eq-ok (guard (not (ltb (length tail) u)) run_missing_value) _ e1 in
    let (out', extended, e3) = >>=-eq-ok (extend_times run (take u tail) out) _ e2 in
    record {
      run = run;
      tail = tail;
      got = got;
      long = ground arith;
      later = rw (← extend_times-eq-ok run (take u tail) out extended) e3;
    }

bytes_behind :
    (u : ℕ) (payload tail : List ℕ) {run : ℕ}
    → All IsByte payload
    → Reads payload run tail
    → All IsByte (drop u tail)
bytes_behind u payload tail b r =
    All-drop IsByte u tail (All-parts IsByte r.front tail (subst (All IsByte) r.splits b)).1

pub decode_loop_sound :
    (fuel u : ℕ) (payload out : List ℕ) {res : List ℕ}
    → All IsByte payload
    → decode_loop fuel u payload out ≡ ok res
    → (more : List ℕ) × (res ≡ out ++ more) × Expands u payload more
decode_loop_sound fuel u [] out b e =
    ([], unfold decode_loop in ground (arith, append-nil out), Expands.done)
decode_loop_sound zero u (x ∷ xs) out b e = unfold decode_loop in cc
decode_loop_sound (suc fuel) u (x ∷ xs) out b e =
    let step : Round fuel u (x ∷ xs) out _ = decode_loop_round fuel u x xs out e in
    let r : Reads (x ∷ xs) step.run step.tail = get_varint-Reads (x ∷ xs) b step.got in
    let (more, eq, behind) =
      decode_loop_sound fuel u (drop u step.tail) (out ++ copies step.run (take u step.tail))
        (bytes_behind u (x ∷ xs) step.tail b r) step.later in
    (
      copies step.run (take u step.tail) ++ more,
      eq ∙ append_assoc out _ more,
      Expands.next (x ∷ xs) step.tail (take u step.tail) (drop u step.tail) more step.run r
          (sym (take-append-drop u step.tail)) (omega (arith, length-take u step.tail, step.long))
          behind,
    )

-- The fuel is enough.
extend_times-ne-stuck : (run : ℕ) (value out : List ℕ) → extend_times run value out ≢ stuck
unfolding extend_times
extend_times-ne-stuck zero value out e = cc
extend_times-ne-stuck (suc run) value out e =
    ground (arith, extend_times-ne-stuck run value (out ++ value))

pub decode_loop-ne-stuck :
    (fuel u : ℕ) (payload out : List ℕ)
    → All IsByte payload
    → length payload ≤ fuel
    → decode_loop fuel u payload out ≢ stuck
decode_loop-ne-stuck fuel u [] out b h = λ e. unfold decode_loop in cc
decode_loop-ne-stuck zero u (x ∷ xs) out b h = absurd (omega arith)
decode_loop-ne-stuck (suc fuel) u (x ∷ xs) out b h = elim (get_varint_result (x ∷ xs) b) [
  | inr (f, e) ↦ unfold decode_loop in rw e (λ p. cc)
  | inl (run, tail, r) ↦ rw (decode_loop_next fuel u (x ∷ xs) out r) (
      >>=-ne-stuck (guard _ _) _ (guard-ne-stuck _ _) (λ _ _.
        >>=-ne-stuck (extend_times run (take u tail) out) _ (extend_times-ne-stuck run _ out)
          (λ out' _.
            decode_loop-ne-stuck fuel u (drop u tail) out' (bytes_behind u (x ∷ xs) tail b r)
              (omega (arith, Reads-bounds r, length-drop u tail)))))
]

-- The inner loop panics where the copies do not fit.
pub extend_times_over :
    (run : ℕ) (value out : List ℕ)
    → length out ≤ isize_max
    → isize_max < length out + run * length value
    → extend_times run value out ≡ panic
unfolding extend_times
extend_times_over zero value out small h = absurd (omega arith)
extend_times_over (suc run) value out small h =
    elim (Bool-cases (leb (length out + length value) isize_max)) [
      | inl fits ↦ rw fits (
          extend_times_over run value (out ++ value) (ground (arith, length-append out value))
            (omega (arith, length-append out value)))
      | inr over ↦ rw over
    ]
