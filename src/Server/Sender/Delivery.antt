-- ===== src/Server/Sender/Delivery.antt =====
-- What `StreamSender::send` pushes, and what a frontend makes of it.
use mathlib.Core.Path.{subst}
use native.Mathlib.Nat.{
  mul-div_cancel, div-add-mod, div-mul-le_self, mul-le-mul_right, le_trans, eq_of_mul-eq-mul_right,
}
use openmso_api.Prelude.{ℕ, ◌+◌, ◌-◌, ◌*◌, ◌/◌, ◌%◌, ◌^◌, ◌≤◌, ◌<◌, arith, Bool, false}
use openmso_api.Prelude.{List, [], ◌∷◌, ◌++◌, map, ◌≡◌, ◌∙◌, ap, length, length-append, All, IsByte}
use openmso_api.Prelude.{concat, Option, none, ◌==◌}
use openmso_api.Proto.Stream.{CaptureData, capture_data}
use openmso_api.Failure.{NngError, ok}
use openmso_api.Server.Sender.Chunk.{Delivers}
use openmso_api.Prelude.{All-imp}
use openmso_api.Prelude.Chunks.{chunks, concat-chunks, chunks_units, length-chunks}
use openmso_api.Transport.{max_payload}
use openmso_api.Server.Events.{Events}
use openmso_api.Server.Sender.{StreamSender, send_parts, send_stream}
use openmso_api.Server.Sender.Parts.{at, IsPart, samples_in, Delivered, send_parts_delivers}

samples_in_units :
    (u : ℕ) (parts : List (List ℕ))
    → 0 < u
    → All (IsPart u) parts
    → samples_in u parts * u ≡ length (concat parts)
samples_in_units u [] h p = omega arith
samples_in_units u (part ∷ parts) h ((m, fits, l), ps) =
    let samples : length part / u ≡ m = rw l (mul-div_cancel m h) in
    rw samples (omega (arith, l, samples_in_units u parts h ps, length-append part (concat parts)))

chunk_size : (u : ℕ) → max_payload - max_payload % u ≡ max_payload / u * u
chunk_size u = omega (arith, div-add-mod max_payload u)

chunk-pos : (u : ℕ) → 0 < u → u ≤ max_payload → 0 < max_payload / u * u
chunk-pos u h wide = rw (← chunk_size u) (omega arith)

send_stream_parts :
    (net : ℕ → Option NngError) (checks : Bool) (packed : List ℕ) (s : StreamSender) (e : Events)
    → 0 < s.unitsize
    → s.unitsize ≤ max_payload
    → send_stream net checks packed s e
      ≡ send_parts net checks (chunks (max_payload / s.unitsize * s.unitsize) packed) s e
unfolding send_stream
send_stream_parts net checks packed s e h wide =
    let unit : (s.unitsize == 0) ≡ false = ground arith in
    let some : (max_payload / s.unitsize * s.unitsize == 0) ≡ false =
      ground (arith, chunk-pos s.unitsize h wide) in
    rw (chunk_size s.unitsize, unit, some)

whole_parts :
    (u k : ℕ) (packed : List ℕ)
    → length packed ≡ k * u
    → All (IsPart u) (chunks (max_payload / u * u) packed)
whole_parts u k packed l =
    All-imp
      (λ part (m, le, l').
        (m, le_trans (mul-le-mul_right u le) (div-mul-le_self max_payload u), l'))
      _ (chunks_units (max_payload / u) u k packed l)

-- `StreamSender::send` of `k` whole samples (bytes, of a unit of 1 byte to `MAX_PAYLOAD`), while
-- nng takes every push and the sender's numbers stay below 2 ^ 64, succeeds and pushes chunks that
-- `decode_payload` turns, one by one, into these samples. Each payload is of at most 2 MiB, and the
-- chunks are numbered on from the last call with no gap and no overlap.
pub send_stream_delivers :
    (net : ℕ → Option NngError) (checks : Bool) (s : StreamSender) (packed : List ℕ) (k : ℕ)
    (e : Events)
    → ((n : ℕ) → net n ≡ none)
    → 0 < s.unitsize
    → s.unitsize ≤ max_payload
    → length packed ≡ k * s.unitsize
    → All IsByte packed
    → s.seq + length packed < 2 ^ 64
    → s.first_sample + k < 2 ^ 64
    → (ds : List CaptureData) × (send_stream net checks packed s e ≡ (
      at s (s.seq + length ds) (s.first_sample + k),
      record e { sent = e.sent ++ map capture_data ds; tries = e.tries + length ds },
      ok tt,
    ))
      × Delivers checks s s.seq s.first_sample ds packed
      × (length ds ≤ length packed)
send_stream_delivers net checks s packed k e quiet h wide l b hs hf =
    let u : ℕ = s.unitsize in
    let size : ℕ = max_payload / u * u in
    let positive : 0 < size = chunk-pos u h wide in
    let whole : concat (chunks size packed) ≡ packed = concat-chunks size packed positive in
    let units : All (IsPart u) (chunks size packed) = whole_parts u k packed l in
    let samples : samples_in u (chunks size packed) ≡ k =
      eq_of_mul-eq-mul_right u h _ _
        (samples_in_units u (chunks size packed) h units ∙ ap length whole ∙ l) in
    let r : Delivered net checks s h quiet (chunks size packed) s.seq s.first_sample e =
      send_parts_delivers net checks s h quiet (chunks size packed) s.seq s.first_sample e units
        (rw whole b) (omega (arith, length-chunks size packed positive)) (rw samples hf) in
    (
      r.ds,
      send_stream_parts net checks packed s e h wide
          ∙ r.ran
          ∙ ap
              (λ n. (
                at s (s.seq + length r.ds) (s.first_sample + n),
                record e { sent = e.sent ++ map capture_data r.ds; tries = e.tries + length r.ds },
                ok tt,
              ))
              samples,
      subst (Delivers checks s s.seq s.first_sample r.ds) whole r.delivers,
      omega (arith, r.count, length-chunks size packed positive),
    )
