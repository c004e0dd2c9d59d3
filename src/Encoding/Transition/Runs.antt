-- ===== src/Encoding/Transition/Runs.antt =====
-- The reference for the run-length encoding: a list of samples as its runs.
use mathlib.Core.List.{append-nil, append_assoc}
use native.Mathlib.Nat.{add_assoc}
use openmso_api.Prelude.{ℕ, zero, suc, ◌+◌, ◌≤◌, arith}
use openmso_api.Prelude.{List, [], ◌∷◌, ◌++◌, ◌≡◌, ◌≢◌, ◌∙◌, refl, sym, ap, length}
use openmso_api.Prelude.{if◌then◌else◌, bytes_eq, bytes_eq_iff, Bool-cases, true, false, inl, inr}
use openmso_api.Prelude.{concat, copies}
use openmso_api.Encoding.Varint.{put_varint}

-- A run: how often a sample is repeated, and the sample.
abbrev pub Run : Type 0
Run = ℕ × List ℕ

abbrev pub push_run : ℕ → List ℕ → List Run → List Run
push_run n s [] = (n, s) ∷ []
push_run n s ((m, t) ∷ runs) = if bytes_eq t s then (n + m, s) ∷ runs else (n, s) ∷ (m, t) ∷ runs

-- The runs of a list of samples, each as long as can be.
unfoldable pub runs_of : List (List ℕ) → List Run
runs_of [] = []
runs_of (s ∷ rest) = push_run 1 s (runs_of rest)

-- The samples that the runs stand for, as packed bytes.
abbrev pub expand : List Run → List ℕ
expand [] = []
expand ((n, s) ∷ runs) = copies n s ++ expand runs

-- The runs as `(varint run, sample)` pairs.
abbrev pub emit : List Run → List ℕ
emit [] = []
emit ((n, s) ∷ runs) = (put_varint [] n ++ s) ++ emit runs

-- How many samples the runs stand for.
abbrev pub total : List Run → ℕ
total [] = 0
total ((n, s) ∷ runs) = n + total runs

-- No run is empty, and neighbours differ.
abbrev pub IsMaximal : List Run → Type 0
IsMaximal [] = Unit {0}
IsMaximal ((n, s) ∷ []) = 1 ≤ n
IsMaximal ((n, s) ∷ (m, t) ∷ runs) = (1 ≤ n) × (s ≢ t) × IsMaximal ((m, t) ∷ runs)

copies-add {ℓ} : {A : Type ℓ} (n m : ℕ) (v : List A) → copies (n + m) v ≡ copies n v ++ copies m v
copies-add zero m v = let e : 0 + m ≡ m = omega arith in rw e
copies-add (suc n) m v =
    let e : suc n + m ≡ suc (n + m) = omega arith in
    rw e (ap (λ t. v ++ t) (copies-add n m v) ∙ sym (append_assoc v (copies n v) (copies m v)))

push_run-expand :
    (n : ℕ) (s : List ℕ) (runs : List Run) → expand (push_run n s runs) ≡ copies n s ++ expand runs
push_run-expand n s [] = refl
push_run-expand n s ((m, t) ∷ runs) = elim (Bool-cases (bytes_eq t s)) [
  | inl same ↦ rw (same, copies-add n m s, append_assoc, (bytes_eq_iff t s).0 same)
  | inr other ↦ rw other refl
]

pub runs_of-expand : (ss : List (List ℕ)) → expand (runs_of ss) ≡ concat ss
unfolding runs_of
runs_of-expand [] = refl
runs_of-expand (s ∷ rest) =
    push_run-expand 1 s (runs_of rest)
    ∙ ap (λ t. t ++ expand (runs_of rest)) (append-nil s)
    ∙ ap (λ t. s ++ t) (runs_of-expand rest)

push_run-total : (n : ℕ) (s : List ℕ) (runs : List Run) → total (push_run n s runs) ≡ n + total runs
push_run-total n s [] = refl
push_run-total n s ((m, t) ∷ runs) = ground arith

pub runs_of-total : (ss : List (List ℕ)) → total (runs_of ss) ≡ length ss
unfolding runs_of
runs_of-total [] = refl
runs_of-total (s ∷ rest) = omega (arith, push_run-total 1 s (runs_of rest), runs_of-total rest)

-- A run in front of its own sample grows; in front of another sample it stands.
pub push_run_same :
    (n : ℕ) (s t : List ℕ) (runs : List Run)
    → bytes_eq t s ≡ true
    → push_run n s (push_run 1 t runs) ≡ push_run (n + 1) s runs
push_run_same n s t [] e = rw e
push_run_same n s t ((m, u) ∷ runs) e =
    let eq : t ≡ s = (bytes_eq_iff t s).0 e in
    rw eq (elim (Bool-cases (bytes_eq u s)) [
      | inl same ↦ rw (same, (bytes_eq_iff s s).1 refl, ← add_assoc)
      | inr other ↦ rw (other, (bytes_eq_iff s s).1 refl)
    ])

pub push_run_other :
    (n : ℕ) (s t : List ℕ) (runs : List Run)
    → bytes_eq t s ≡ false
    → push_run n s (push_run 1 t runs) ≡ (n, s) ∷ push_run 1 t runs
push_run_other n s t [] e = rw e
push_run_other n s t ((m, u) ∷ runs) e = elim (Bool-cases (bytes_eq u t)) [
  | inl same ↦ rw (same, e)
  | inr other ↦ rw (other, e)
]

push_run-IsMaximal :
    (n : ℕ) (s : List ℕ) (runs : List Run) → 1 ≤ n → IsMaximal runs → IsMaximal (push_run n s runs)
push_run-IsMaximal n s [] p h = p
push_run-IsMaximal n s ((m, t) ∷ []) p h = elim (Bool-cases (bytes_eq t s)) [
  | inl same ↦ rw same (omega arith)
  | inr other ↦ rw other (p, (λ e. ground (arith, bytes_eq_iff t s)), h)
]
push_run-IsMaximal n s ((m, t) ∷ (k, u) ∷ runs) p (hm, ne, h) = elim (Bool-cases (bytes_eq t s)) [
  | inl same ↦ rw same (omega arith, rw (← (bytes_eq_iff t s).0 same) ne, h)
  | inr other ↦ rw other (p, (λ e. ground (arith, bytes_eq_iff t s)), (hm, ne, h))
]

pub runs_of-IsMaximal : (ss : List (List ℕ)) → IsMaximal (runs_of ss)
unfolding runs_of
runs_of-IsMaximal [] = tt
runs_of-IsMaximal (s ∷ rest) =
    push_run-IsMaximal 1 s (runs_of rest) (omega arith) (runs_of-IsMaximal rest)
