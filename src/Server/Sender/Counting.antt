-- ===== src/Server/Sender/Counting.antt =====
-- The numbers of a `StreamSender` whatever nng answers.
use openmso_api.Prelude.{
  ℕ, suc, ◌+◌, ◌-◌, ◌||◌, ◌≤◌, ◌/◌, ◌%◌, ◌^◌, ◌<◌, arith, Bool, true, false, ◌⊎◌, inl, inr, Option,
  none, some,
}
use openmso_api.Prelude.{
  List, [], ◌∷◌, ◌++◌, ◌≡◌, refl, ap, length, length-append, concat, ==_iff, ◌==◌, Bool-cases,
}
use openmso_api.Proto.Stream.{Event, CaptureData, capture_data}
use openmso_api.Failure.{NngError, Outcome, ok, err, panic, stuck, nng}
use openmso_api.Prelude.Chunks.{chunks, concat-chunks, length-chunks}
use openmso_api.Transport.{max_payload}
use native.Mathlib.Nat.{div-le_self}
use openmso_api.Server.Events
use openmso_api.Server.Events.{Events}
use openmso_api.Server.Sender.{
  Sent, StreamSender, payload_of, chunk_of, stop, send_parts, send_stream,
}
use openmso_api.Server.Sender.Parts.{
  at, samples_in, advance_seq_fits, advance_samples_fits, send_quiet,
}

-- The samples that the chunks among the events declare.
abbrev pub samples_sent : List Event → ℕ
samples_sent [] = 0
samples_sent (capture_data d ∷ es) = d.sample_count + samples_sent es
samples_sent (_ ∷ es) = samples_sent es

samples_sent-append :
    (es fs : List Event) → samples_sent (es ++ fs) ≡ samples_sent es + samples_sent fs
samples_sent-append [] fs = omega arith
samples_sent-append (capture_data d ∷ es) fs = omega (arith, samples_sent-append es fs)
samples_sent-append (Event.capture_begin x ∷ es) fs = samples_sent-append es fs
samples_sent-append (Event.acquisition_begin x ∷ es) fs = samples_sent-append es fs
samples_sent-append (Event.trigger x ∷ es) fs = samples_sent-append es fs
samples_sent-append (Event.acquisition_end x ∷ es) fs = samples_sent-append es fs
samples_sent-append (Event.capture_end x ∷ es) fs = samples_sent-append es fs
samples_sent-append (Event.status x ∷ es) fs = samples_sent-append es fs
samples_sent-append (Event.log x ∷ es) fs = samples_sent-append es fs
samples_sent-append (Event.device_lost x ∷ es) fs = samples_sent-append es fs

-- The sender's numbers and the stream's have moved by the same amounts.
pub record InStep (s : StreamSender) (e : Events) (r : Sent) : Type 0 where
  pub chunks : r.0.seq + length e.sent ≡ s.seq + length r.1.sent
  pub samples : r.0.first_sample + samples_sent e.sent ≡ s.first_sample + samples_sent r.1.sent

abbrev is_ok {ℓ} : {A : Type ℓ} → Outcome A → Bool
is_ok (ok _) = true
is_ok _ = false

Outcome-cases {ℓ} : {A : Type ℓ} (o : Outcome A) → ((a : A) × (o ≡ ok a)) ⊎ (is_ok o ≡ false)
Outcome-cases (ok a) = inl (a, refl)
Outcome-cases (err x) = inr refl
Outcome-cases panic = inr refl
Outcome-cases stuck = inr refl

stays :
    (s : StreamSender) (e : Events) {n : ℕ} (r : Outcome (Unit {0}))
    → InStep s e (s, record e { tries = n }, r)
stays s e r = record { chunks = refl; samples = refl }

Option-cases {ℓ} : {A : Type ℓ} (o : Option A) → (o ≡ none) ⊎ ((a : A) × (o ≡ some a))
Option-cases none = inl refl
Option-cases (some a) = inr (a, refl)

send_refused :
    (net : ℕ → Option NngError) (d : CaptureData) (e : Events) {x : NngError}
    → net e.tries ≡ some x
    → Events.send net (capture_data d) e ≡ (record e { tries = suc e.tries }, err (nng x))
unfolding Events.send
send_refused net d e h = rw h

module _ (net : ℕ → Option NngError) (checks : Bool) (part : List ℕ) (parts : List (List ℕ))
    (s : StreamSender) (e : Events) where
  abbrev samples : ℕ
  samples = length part / s.unitsize

  -- The event stream with the part's chunk pushed.
  abbrev pushed : List ℕ → Events
  pushed payload = record e {
    sent = e.sent ++ capture_data (chunk_of s samples payload) ∷ [];
    tries = suc e.tries;
  }

  part_pushed :
      {payload : List ℕ}
      → payload_of s.encoding s.unitsize part ≡ ok payload
      → net e.tries ≡ none
      → s.seq + 1 < 2 ^ 64
      → s.first_sample + samples < 2 ^ 64
      → send_parts net checks (part ∷ parts) s e
        ≡ send_parts net checks parts (at s (s.seq + 1) (s.first_sample + samples)) (pushed payload)
  unfolding send_parts
  part_pushed {payload} w q hs hf =
      rw
        (
          w,
          send_quiet net (chunk_of s samples payload) e q,
          advance_seq_fits checks s s.seq s.first_sample hs,
          stop,
          advance_samples_fits checks s (s.seq + 1) s.first_sample samples hf,
        )
        refl

  part_stopped :
      (o : Outcome (List ℕ))
      → payload_of s.encoding s.unitsize part ≡ o
      → is_ok o ≡ false
      → InStep s e (send_parts net checks (part ∷ parts) s e)
  unfolding send_parts
  part_stopped (ok payload) w h = cc
  part_stopped (err x) w h = rw (w, stop) (stays s e (err x))
  part_stopped panic w h = rw (w, stop) (stays s e panic)
  part_stopped stuck w h = rw (w, stop) (stays s e stuck)

  part_refused :
      {payload : List ℕ} {x : NngError}
      → payload_of s.encoding s.unitsize part ≡ ok payload
      → net e.tries ≡ some x
      → send_parts net checks (part ∷ parts) s e
        ≡ (s, record e { tries = suc e.tries }, err (nng x))
  unfolding send_parts
  part_refused {payload} w q = rw (w, send_refused net (chunk_of s samples payload) e q, stop) refl

  part_pushed-InStep :
      (payload : List ℕ) {r : Sent}
      → InStep (at s (s.seq + 1) (s.first_sample + samples)) (pushed payload) r
      → InStep s e r
  part_pushed-InStep payload i =
      let new : List Event = capture_data (chunk_of s samples payload) ∷ [] in
      record {
        chunks = omega (arith, i.chunks, length-append e.sent new);
        samples = omega (arith, i.samples, samples_sent-append e.sent new);
      }

samples_in_le : (u : ℕ) (parts : List (List ℕ)) → 0 < u → samples_in u parts ≤ length (concat parts)
samples_in_le u [] h = omega arith
samples_in_le u (part ∷ parts) h =
    omega (
      arith,
      div-le_self (length part) u,
      samples_in_le u parts h,
      length-append part (concat parts),
    )

module _ (net : ℕ → Option NngError) (checks : Bool) where
  parts_InStep :
      (parts : List (List ℕ)) (s : StreamSender) (e : Events)
      → s.seq + length parts < 2 ^ 64
      → s.first_sample + samples_in s.unitsize parts < 2 ^ 64
      → InStep s e (send_parts net checks parts s e)
  parts_InStep [] s e hs hf = unfold send_parts in stays s e (ok tt)
  parts_InStep (part ∷ parts) s e hs hf =
      elim (Outcome-cases (payload_of s.encoding s.unitsize part)) [
        | inr failed ↦
            part_stopped net checks part parts s e (payload_of s.encoding s.unitsize part) refl
              failed
        | inl (payload, w) ↦ elim (Option-cases (net e.tries)) [
          | inr (x, q) ↦ rw (part_refused net checks part parts s e w q) (stays s e (err (nng x)))
          | inl q ↦
              let s' : StreamSender =
                at s (s.seq + 1) (s.first_sample + length part / s.unitsize) in
              rw (part_pushed net checks part parts s e w q (omega arith) (omega arith)) (
                part_pushed-InStep net checks part parts s e payload
                  (parts_InStep parts s' _ (omega arith) (omega arith)))
        ]
      ]

  -- Whatever nng answers, and however the call ends, `StreamSender::send` moves the sender's chunk
  -- and sample numbers exactly by the chunks that nng took and the samples that they declare, as
  -- long as both numbers plus the length of the input stay below 2 ^ 64.
  pub send_stream-InStep :
      (packed : List ℕ) (s : StreamSender) (e : Events)
      → s.seq + length packed < 2 ^ 64
      → s.first_sample + length packed < 2 ^ 64
      → InStep s e (send_stream net checks packed s e)
  unfolding send_stream
  send_stream-InStep packed s e hs hf =
      let size : ℕ = max_payload - max_payload % s.unitsize in
      elim (Bool-cases (s.unitsize == 0 || size == 0)) [
        | inl none_fits ↦ rw none_fits (stays s e panic)
        | inr fits ↦
            let unit : 0 < s.unitsize = ground (arith, ==_iff s.unitsize 0) in
            let positive : 0 < size = ground (arith, ==_iff size 0) in
            let parts : List (List ℕ) = chunks size packed in
            rw fits (
              parts_InStep parts s e (omega (arith, length-chunks size packed positive)) (
                omega (
                  arith,
                  samples_in_le s.unitsize parts unit,
                  ap (λ t. length {A = ℕ} t) (concat-chunks size packed positive),
                )))
      ]
