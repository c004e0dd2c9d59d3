-- ===== src/Server/Serve/Answers.antt =====
-- Every request is answered once, in order; the loop ends where it should.
use mathlib.Core.List.{append_assoc, append-nil}
use openmso_api.Prelude.{ℕ, Bool, true, false, not, ◌⊎◌, inl, inr, Option, none, some}
use openmso_api.Prelude.{
  List, [], ◌∷◌, ◌++◌, ◌≡◌, ◌∙◌, refl, sym, ap, arith, length, drop, All, All-append,
}
use openmso_api.Proto.Control.{Response}
use openmso_api.Failure.{NngError, Outcome}
use openmso_api.Server.Plugin.{CaptureServer}
use openmso_api.Server.Dispatch.{Session}
use openmso_api.Server.Serve.{
  received, malformed, broken, Turn, Round, again, returned, round, serve_loop,
}

-- The number that an incoming message is answered under.
abbrev pub seqs_of : List Turn → List ℕ
seqs_of [] = []
seqs_of (turn ∷ turns) = elim turn.incoming [
  | received r ↦ r.seq ∷ seqs_of turns
  | malformed _ ↦ 0 ∷ seqs_of turns
  | broken _ ↦ []
]

abbrev pub seq_list : List Response → List ℕ
seq_list [] = []
seq_list (r ∷ rs) = r.seq ∷ seq_list rs

seq_list-append : (xs ys : List Response) → seq_list (xs ++ ys) ≡ seq_list xs ++ seq_list ys
seq_list-append [] ys = refl
seq_list-append (x ∷ xs) ys = ap (λ t. x.seq ∷ t) (seq_list-append xs ys)

abbrev pub is_some {ℓ} : {A : Type ℓ} → Option A → Bool
is_some none = false
is_some (some _) = true

-- A response carries a result or an error, and not both.
abbrev pub IsExclusive : Response → Type 0
IsExclusive r = is_some r.response ≡ not (is_some r.error)

module _ (net : ℕ → Option NngError) (P : CaptureServer) where
  pub round_again :
      (turn : Turn) (turns : List Turn) (s : Session P.State) {s' : Session P.State}
      {more : List Response}
      → round net P turn s ≡ again s' more
      → (seqs_of (turn ∷ turns) ≡ seq_list more ++ seqs_of turns) × All IsExclusive more
  unfolding round
  round_again turn turns s e = ground arith

  round_returned :
      (turn : Turn) (turns : List Turn) (s : Session P.State) {s' : Session P.State}
      {more : List Response} {result : Outcome (Unit {0})}
      → round net P turn s ≡ returned s' more result
      → (seqs_of (turn ∷ turns) ≡ seq_list more ++ drop (length more) (seqs_of (turn ∷ turns)))
        × All IsExclusive more
  unfolding round
  round_returned turn turns s e = ground arith

  pub Round-cases :
      (r : Round net P)
      → ((s : Session P.State) × (more : List Response) × (r ≡ again s more))
        ⊎ ((s : Session P.State) × (more : List Response) × (result : Outcome (Unit {0})) × (r
              ≡ returned s more result))
  Round-cases (again s more) = inl (s, more, refl)
  Round-cases (returned s more result) = inr (s, more, result, refl)

  pub serve_loop_again :
      (turn : Turn) (turns : List Turn) (s : Session P.State) (sent : List Response)
      {s' : Session P.State} {more : List Response}
      → round net P turn s ≡ again s' more
      → serve_loop net P (turn ∷ turns) s sent ≡ serve_loop net P turns s' (sent ++ more)
  unfolding serve_loop
  serve_loop_again turn turns s sent e = ground arith

  pub serve_loop_returned :
      (turn : Turn) (turns : List Turn) (s : Session P.State) (sent : List Response)
      {s' : Session P.State} {more : List Response} {result : Outcome (Unit {0})}
      → round net P turn s ≡ returned s' more result
      → serve_loop net P (turn ∷ turns) s sent
        ≡ record { session = s'; responses = sent ++ more; result = some result }
  unfolding serve_loop
  serve_loop_returned turn turns s sent e = ground arith

  answered_so_far :
      (turns : List Turn) (s : Session P.State) (sent : List Response)
      → (left : List ℕ) × (seq_list sent ++ seqs_of turns
          ≡ seq_list (serve_loop net P turns s sent).responses ++ left)
        × ((serve_loop net P turns s sent).result ≡ none → left ≡ [])
  answered_so_far [] s sent = ([], unfold serve_loop in refl, λ _. refl)
  answered_so_far (turn ∷ turns) s sent = elim (Round-cases (round net P turn s)) [
    | inl (s', more, e) ↦
        let (left, answered, waiting) = answered_so_far turns s' (sent ++ more) in
        (
          left,
          rw (serve_loop_again turn turns s sent e) (
              ap (λ t. seq_list sent ++ t) (round_again turn turns s e).0
              ∙ sym (append_assoc (seq_list sent) (seq_list more) (seqs_of turns))
              ∙ ap (λ t. t ++ seqs_of turns) (sym (seq_list-append sent more))
              ∙ answered),
          rw (serve_loop_again turn turns s sent e) waiting,
        )
    | inr (s', more, result, e) ↦ (
      drop (length more) (seqs_of (turn ∷ turns)),
      rw (serve_loop_returned turn turns s sent e) (
          ap (λ t. seq_list sent ++ t) (round_returned turn turns s e).0
          ∙ sym (append_assoc (seq_list sent) (seq_list more) _)
          ∙ ap (λ t. t ++ drop (length more) (seqs_of (turn ∷ turns)))
              (sym (seq_list-append sent more))),
      rw (serve_loop_returned turn turns s sent e) (λ p. cc),
    )
  ]

  -- However the loop of `serve` ends, the responses that nng took answer the first messages
  -- received, each once, in order and under its number (0 for one that does not decode).
  pub serve_loop_answers :
      (turns : List Turn) (s : Session P.State) (sent : List Response)
      → (left : List ℕ) × (seq_list sent ++ seqs_of turns
          ≡ seq_list (serve_loop net P turns s sent).responses ++ left)
  serve_loop_answers turns s sent =
      let (left, answered, _) = answered_so_far turns s sent in (left, answered)

  -- While the loop of `serve` has not returned, every message received, decodable or not, has been
  -- answered, in order and under its number (0 for one that does not decode).
  pub serve_loop_answers_all :
      (turns : List Turn) (s : Session P.State) (sent : List Response)
      → (serve_loop net P turns s sent).result ≡ none
      → seq_list (serve_loop net P turns s sent).responses ≡ seq_list sent ++ seqs_of turns
  serve_loop_answers_all turns s sent waiting =
      let (left, answered, all) = answered_so_far turns s sent in
      sym (
        answered
        ∙ ap (λ t. seq_list (serve_loop net P turns s sent).responses ++ t) (all waiting)
        ∙ append-nil _)

  -- If the responses so far each carry a result or an error and not both, so do all that the loop
  -- of `serve` sends.
  pub serve_loop-IsExclusive :
      (turns : List Turn) (s : Session P.State) (sent : List Response)
      → All IsExclusive sent
      → All IsExclusive (serve_loop net P turns s sent).responses
  serve_loop-IsExclusive [] s sent h = unfold serve_loop in h
  serve_loop-IsExclusive (turn ∷ turns) s sent h = elim (Round-cases (round net P turn s)) [
    | inl (s', more, e) ↦ rw (serve_loop_again turn turns s sent e) (
        serve_loop-IsExclusive turns s' (sent ++ more)
          (All-append IsExclusive sent more h (round_again turn turns s e).1))
    | inr (s', more, result, e) ↦
        rw (serve_loop_returned turn turns s sent e)
          (All-append IsExclusive sent more h (round_returned turn turns s e).1)
  ]
