-- ===== src/Harness/Blocking.antt =====
-- A running capture, with its events arriving anywhere between the requests of the test.
use openmso_api.Prelude.{
  ℕ, suc, ◌+◌, ◌||◌, Bool, true, false, Option, none, some, List, [], ◌∷◌, ◌++◌, map, ◌≡◌, refl,
  sym, ap, ◌∙◌, All, IsByte, length, arith, ◌<◌, ◌^◌, ltb, ◌==◌, ==_iff, Bool-cases, inl, inr,
  if◌then◌else◌,
}
use mathlib.Core.Path.{fun_ext}
use mathlib.Core.List.{append_assoc, append-nil}
use openmso_api.Proto.Stream.{Event, capture_data, capture_end}
use openmso_api.Failure.{NngError, ok, busy}
use openmso_api.Server.Events
use openmso_api.Server.Events.{Events, new_events, ends_capture, push_all}
use openmso_api.Server.Events.Flag.{any_end}
use openmso_api.Server.Dispatch.{dispatch}
use openmso_api.Harness.{acquire_thread, drain_capture, end_of}
use openmso_api.Harness.Draining.{capture_events, drain_events}
use openmso_api.Harness.Capture.{acquire_pushes, send_taken}
use openmso_api.Harness.Frontend.{
  Harness, started, Step, ◌>>=◌, arrive, send, granted, refused, greeted, drain,
}
use openmso_api.Harness.Scenarios.{a_running_capture_blocks_configuration}
use openmso_api.Harness.Passing.{same_asserted}

-- What pushes leave when nng takes all of them and `ended` says whether one of them ends a capture.
abbrev appended : Bool → List Event → Events → Events
appended ended events e = record {
  running = if ended then false else e.running;
  sent = e.sent ++ events;
  tries = e.tries + length events;
}

any_end-append : (xs ys : List Event) → any_end (xs ++ ys) ≡ (any_end xs || any_end ys)
any_end-append [] ys = refl
any_end-append (x ∷ xs) ys = ground (arith, any_end-append xs ys)

append_step :
    (a b : Bool) (x : Event) (xs : List Event) (e : Events)
    → appended b xs (appended a (x ∷ []) e) ≡ appended (a || b) (x ∷ xs) e
append_step a b x xs e =
    let flags : ◌≡◌ {A = Bool} (if b then false else if a then false else e.running)
        (if a || b then false else e.running) =
      ground arith in
    let places : e.tries + 1 + length xs ≡ e.tries + suc (length xs) = omega arith in
    rw (flags, append_assoc e.sent (x ∷ []) xs, places) refl

module _ (net : ℕ → Option NngError) (quiet : (n : ℕ) → net n ≡ none) where
  push_all_taken :
      (events : List Event) (e : Events)
      → push_all net events e ≡ appended (any_end events) events e
  unfolding push_all
  push_all_taken [] e = rw (append-nil e.sent) (ground arith)
  push_all_taken (x ∷ xs) e =
      let taken : (Events.send net x e).0 ≡ appended (ends_capture x) (x ∷ []) e =
        (let place : e.tries + 1 ≡ suc e.tries = omega arith in
          rw place (ap (λ r. r.0) (send_taken net x e (quiet e.tries)))) in
      ap (push_all net xs) taken
      ∙ push_all_taken xs (appended (ends_capture x) (x ∷ []) e)
      ∙ append_step (ends_capture x) (any_end xs) x xs e

-- The harness behind some pushes.
abbrev arrived : Bool → List Event → Step (Unit {0})
arrived ended events h = (
  record h { session = record h.session { events = appended ended events h.session.events } },
  ok tt,
)

-- Whether the pushes behind the n-th answer end the capture: the first five do not, and the next do.
abbrev ending : (ℕ → List Event) → ℕ → Bool
ending between n = if ltb n 5 then false else if n == 5 then true else any_end (between n)

drain_step :
    {A : Type 0} (checks : Bool) (h : Harness) (k : List ℕ → Step A) {samples : List ℕ}
    → drain_capture checks h.session.events.sent ≡ some (ok samples)
    → (drain checks >>= k) h ≡ k samples h
unfolding drain
drain_step checks h k e = rw e refl

module _ (net : ℕ → Option NngError) (checks : Bool) (packed : List ℕ)
    (quiet : (n : ℕ) → net n ≡ none) (bytes : All IsByte packed)
    (short : length packed < 2 ^ 64) where
  drained_whole :
      (sent : List Event)
      → (acquire_thread net checks 7 packed true new_events).0.sent ≡ sent
      → (drain_capture checks sent ≡ some (ok packed)) × (any_end sent ≡ true)
  drained_whole sent same =
      let (ds, ran, d, few) = acquire_pushes net checks 7 packed new_events quiet bytes short in
      let whole : capture_events 7 ds ≡ sent = sym (ap (λ r. r.0.sent) ran) ∙ same in
      (
        ap (drain_capture checks) (sym whole) ∙ drain_events checks 7 ds d (omega arith) short,
        ap any_end (sym whole)
            ∙ any_end-append (map capture_data ds) (capture_end (end_of 7) ∷ [])
            ∙ ground arith,
      )

  blocked :
      (between : ℕ → List Event)
      → drain_capture checks
          (((((between 0 ++ between 1) ++ between 2) ++ between 3) ++ between 4) ++ between 5)
        ≡ some (ok packed)
      → (a_running_capture_blocks_configuration net checks packed
          (λ n. arrived (ending between n) (between n))
          started).1
        ≡ ok tt
  unfolding a_running_capture_blocks_configuration send granted refused greeted dispatch push_all
      busy
  blocked between whole = ap (λ r. r.1) (drain_step checks _ _ whole ∙ same_asserted packed _ _)

  ending_lem :
      (between : ℕ → List Event) (n : ℕ)
      → ((n : ℕ) → n < 5 → any_end (between n) ≡ false)
      → any_end (between 5) ≡ true
      → any_end (between n) ≡ ending between n
  ending_lem between n early last = elim (Bool-cases (ltb n 5)) [
    | inl less ↦ let l : n < 5 = ground arith in rw less (early n l)
    | inr more ↦ elim (Bool-cases (n == 5)) [
      | inl same ↦ let e : n ≡ 5 = (==_iff n 5).0 same in rw (more, same) (rw e last)
      | inr other ↦ rw (more, other) refl
    ]
  ]

  -- The test a_running_capture_blocks_configuration passes whatever the plugin samples, in either
  -- build: while nng takes every push and the samples are fewer than 2 ^ 64 bytes, and wherever between
  -- the requests the events of the capture's thread arrive, its end behind the answer to AcquireStop,
  -- the four requests during the capture are refused as busy, AcquireStop is accepted, the frontend
  -- drains exactly the samples, and SetConfig is accepted again.
  pub running_capture_passes :
      (between : ℕ → List Event)
      → (acquire_thread net checks 7 packed true new_events).0.sent
        ≡ ((((between 0 ++ between 1) ++ between 2) ++ between 3) ++ between 4) ++ between 5
      → ((n : ℕ) → n < 5 → any_end (between n) ≡ false)
      → (a_running_capture_blocks_configuration net checks packed
          (λ n. arrive net (between n))
          started).1
        ≡ ok tt
  running_capture_passes between sent early =
      let (whole, ends) = drained_whole _ sent in
      let first : List Event =
        (((between 0 ++ between 1) ++ between 2) ++ between 3) ++ between 4 in
      let none_yet : any_end first ≡ false = ground (
        arith,
        any_end-append (((between 0 ++ between 1) ++ between 2) ++ between 3) (between 4),
        any_end-append ((between 0 ++ between 1) ++ between 2) (between 3),
        any_end-append (between 0 ++ between 1) (between 2),
        any_end-append (between 0) (between 1),
        early 0 (omega arith),
        early 1 (omega arith),
        early 2 (omega arith),
        early 3 (omega arith),
        early 4 (omega arith),
      ) in
      let last : any_end (between 5) ≡ true =
        ground (arith, any_end-append first (between 5), none_yet, ends) in
      let pushes : (λ n. arrive net (between n)) ≡ (λ n. arrived (ending between n) (between n)) =
        fun_ext λ n. fun_ext λ h.
          ap (λ e. (record h { session = record h.session { events = e } }, ok tt))
            (push_all_taken net quiet (between n) h.session.events
              ∙ ap (λ b. appended b (between n) h.session.events)
                  (ending_lem between n early last)) in
      ap (λ push. (a_running_capture_blocks_configuration net checks packed push started).1) pushes
      ∙ blocked between whole
