-- ===== src/Server/Sender/Calls.antt =====
-- A whole stream: the calls of `StreamSender::send` that an acquisition makes, one after the other.
use mathlib.Core.Path.{subst}
use mathlib.Core.List.{append_assoc, append-nil, map-append}
use native.Mathlib.Nat.{add-zero, add-mul, eq_of_mul-eq-mul_right}
use openmso_api.Prelude.{
  ℕ, ◌+◌, ◌*◌, ◌^◌, ◌≤◌, ◌<◌, arith, Bool, Option, none, List, [], ◌∷◌, ◌++◌, map, ◌≡◌, ◌∙◌, refl,
  sym, ap, length, length-append, concat, All, All-parts, IsByte,
}
use openmso_api.Proto.Stream.{CaptureData, capture_data}
use openmso_api.Failure.{NngError, ok}
use openmso_api.Transport.{max_payload}
use openmso_api.Encoding.Transition.Encode.{le_times}
use openmso_api.Encoding.Payload.{bytes_of}
use openmso_api.Server.Events.{Events}
use openmso_api.Server.Sender.{Sent, StreamSender, send_stream, stop}
use openmso_api.Server.Sender.Chunk.{Delivers}
use openmso_api.Server.Sender.Parts.{at, same_sent}
use openmso_api.Server.Sender.Delivery.{send_stream_delivers}

-- `sender.send(&events, packed)?` for each of the inputs.
unfoldable pub send_calls :
    (ℕ → Option NngError) → Bool → List (List ℕ) → StreamSender → Events → Sent
send_calls net checks [] s e = (s, e, ok tt)
send_calls net checks (packed ∷ calls) s e =
    let (s', e', result) = send_stream net checks packed s e in
    stop result s' e' λ _. send_calls net checks calls s' e'

calls_step :
    (net : ℕ → Option NngError) (checks : Bool) (packed : List ℕ) (calls : List (List ℕ))
    (s : StreamSender) (e : Events) {s' : StreamSender} {e' : Events}
    → send_stream net checks packed s e ≡ (s', e', ok tt)
    → send_calls net checks (packed ∷ calls) s e ≡ send_calls net checks calls s' e'
unfolding send_calls
calls_step net checks packed calls s e sent = rw (sent, stop) refl

-- How many whole samples each call is given.
abbrev pub AreSamples : ℕ → List ℕ → List (List ℕ) → Type 0
AreSamples u [] [] = Unit {0}
AreSamples u (k ∷ ks) (packed ∷ calls) = (length packed ≡ k * u) × AreSamples u ks calls
AreSamples u _ _ = ⊥

abbrev pub sum : List ℕ → ℕ
sum [] = 0
sum (k ∷ ks) = k + sum ks

-- The place of the sender does not matter for what its chunks are.
Delivers-at :
    {checks : Bool} (s : StreamSender) (a b : ℕ) {seq first : ℕ} {ds : List CaptureData}
    {bytes : List ℕ}
    → Delivers checks (at s a b) seq first ds bytes
    → Delivers checks s seq first ds bytes
Delivers-at s a b Delivers.nothing = Delivers.nothing
Delivers-at s a b (Delivers.chunk cow k d l later) =
    Delivers.chunk cow
      (record {
        capture = k.capture;
        acquired = k.acquired;
        streamed = k.streamed;
        placed = k.placed;
        sampled = k.sampled;
        encoded = k.encoded;
        measured = k.measured;
        short = k.short;
      })
      d l (Delivers-at s a b later)

abbrev pub chunk_samples : List CaptureData → ℕ
chunk_samples [] = 0
chunk_samples (d ∷ ds) = d.sample_count + chunk_samples ds

pub length-Delivers :
    {checks : Bool} {s : StreamSender} {seq first : ℕ} {ds : List CaptureData} {bytes : List ℕ}
    → Delivers checks s seq first ds bytes
    → length bytes ≡ chunk_samples ds * s.unitsize
length-Delivers Delivers.nothing = omega arith
length-Delivers {s = s} (Delivers.chunk {d = d} {ds = ds} {rest = rest} cow k e l later) = omega (
  arith,
  l,
  length-Delivers later,
  length-append (bytes_of cow) rest,
  add-mul d.sample_count (chunk_samples ds) s.unitsize,
)

Delivers-append :
    {checks : Bool} {s : StreamSender} {seq first : ℕ} {ds ds' : List CaptureData}
    {bytes bytes' : List ℕ} (seq' first' : ℕ)
    → Delivers checks s seq first ds bytes
    → seq' ≡ seq + length ds
    → first' ≡ first + chunk_samples ds
    → Delivers checks s seq' first' ds' bytes'
    → Delivers checks s seq first (ds ++ ds') (bytes ++ bytes')
Delivers-append {checks} {s} {seq} {first} {ds' = ds'} {bytes' = bytes'} seq' first'
      Delivers.nothing a b next =
    let same : seq' ≡ seq = omega arith in
    let same' : first' ≡ first = omega arith in
    subst (λ n. Delivers checks s n first ds' bytes') same
      (subst (λ n. Delivers checks s seq' n ds' bytes') same' next)
Delivers-append {checks} {s} {seq} {first} {ds' = ds'} {bytes' = bytes'} seq' first'
      (Delivers.chunk {d = d} {ds = ds} {rest = rest} cow k e l later) a b next =
    subst (λ t. Delivers checks s seq first (d ∷ ds ++ ds') t)
      (sym (append_assoc (bytes_of cow) rest bytes'))
      (Delivers.chunk cow k e l
        (Delivers-append seq' first' later (omega arith) (omega arith) next))

module _ (net : ℕ → Option NngError) (checks : Bool) (s : StreamSender)
    (quiet : (n : ℕ) → net n ≡ none) (h : 0 < s.unitsize) (wide : s.unitsize ≤ max_payload) where
  -- The calls from a place of the stream on.
  record Streamed (calls : List (List ℕ)) (seq first total : ℕ) (e : Events) : Type 0 where
    ds : List CaptureData
    ran : send_calls net checks calls (at s seq first) e ≡ (
      at s (seq + length ds) (first + total),
      record e { sent = e.sent ++ map capture_data ds; tries = e.tries + length ds },
      ok tt,
    )
    delivers : Delivers checks s seq first ds (concat calls)

  calls_deliver :
      (ks : List ℕ) (calls : List (List ℕ)) (seq first : ℕ) (e : Events)
      → AreSamples s.unitsize ks calls
      → All IsByte (concat calls)
      → seq + length (concat calls) < 2 ^ 64
      → first + length (concat calls) < 2 ^ 64
      → Streamed calls seq first (sum ks) e
  calls_deliver [] [] seq first e w b hs hf = record {
    ds = [];
    ran = simp (add-zero, append-nil) (unfold send_calls in refl);
    delivers = Delivers.nothing;
  }
  calls_deliver [] (packed ∷ calls) seq first e w b hs hf = absurd w
  calls_deliver (k ∷ ks) [] seq first e w b hs hf = absurd w
  calls_deliver (k ∷ ks) (packed ∷ calls) seq first e (l, ls) b hs hf =
      let (front, back) = All-parts IsByte packed (concat calls) b in
      let both = length-append packed (concat calls) in
      let few : k ≤ length packed = omega (arith, l, le_times s.unitsize k h) in
      let (ds, sent, d, short) =
        send_stream_delivers net checks (at s seq first) packed k e quiet h wide l front
          (omega (arith, both)) (omega (arith, both, few)) in
      let delivered : Delivers checks s seq first ds packed = Delivers-at s seq first d in
      let counted : chunk_samples ds ≡ k =
        eq_of_mul-eq-mul_right s.unitsize h _ _ (sym (length-Delivers delivered) ∙ l) in
      let e' : Events = record e {
        sent = e.sent ++ map capture_data ds;
        tries = e.tries + length ds;
      } in
      let later : Streamed calls (seq + length ds) (first + k) (sum ks) e' =
        calls_deliver ks calls (seq + length ds) (first + k) e' ls back (omega (arith, both, short))
          (omega (arith, both, few)) in
      record {
        ds = ds ++ later.ds;
        ran =
            calls_step net checks packed calls (at s seq first) e sent
            ∙ later.ran
            ∙ same_sent s e (omega (arith, length-append ds later.ds)) (omega arith)
                (append_assoc e.sent (map capture_data ds) (map capture_data later.ds)
                  ∙ ap (λ t. e.sent ++ t) (sym (map-append capture_data ds later.ds)))
                (omega (arith, length-append ds later.ds));
        delivers =
            Delivers-append (seq + length ds) (first + k) delivered refl (omega (arith, counted))
              later.delivers;
      }

  -- Any number of calls of `StreamSender::send`, each with some whole samples (bytes, of a unit of 1 byte
  -- to `MAX_PAYLOAD`), while nng takes every push and the sender's numbers stay below 2 ^ 64, succeed,
  -- and the chunks of all of them decode, one by one, to the samples of all of them, numbered with no gap
  -- and no overlap across the calls.
  pub send_calls_deliver :
      (ks : List ℕ) (calls : List (List ℕ)) (e : Events)
      → AreSamples s.unitsize ks calls
      → All IsByte (concat calls)
      → s.seq + length (concat calls) < 2 ^ 64
      → s.first_sample + length (concat calls) < 2 ^ 64
      → (ds : List CaptureData) × (send_calls net checks calls s e ≡ (
        at s (s.seq + length ds) (s.first_sample + sum ks),
        record e { sent = e.sent ++ map capture_data ds; tries = e.tries + length ds },
        ok tt,
      ))
        × Delivers checks s s.seq s.first_sample ds (concat calls)
  send_calls_deliver ks calls e w b hs hf =
      let r : Streamed calls s.seq s.first_sample (sum ks) e =
        calls_deliver ks calls s.seq s.first_sample e w b hs hf in
      (r.ds, r.ran, r.delivers)
