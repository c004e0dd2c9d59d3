-- ===== src/Server/Sender/Parts.antt =====
-- The loop of `StreamSender::send`, while nng takes every push.
use mathlib.Core.Path.{subst}
use mathlib.Core.List.{append-nil, append_assoc}
use native.Mathlib.Nat.{add-zero, mul-div_cancel}
use openmso_api.Prelude.{ℕ, suc, ◌+◌, ◌*◌, ◌/◌, ◌^◌, ◌≤◌, ◌<◌, arith, Bool}
use openmso_api.Prelude.{List, [], ◌∷◌, ◌++◌, map, ◌≡◌, ◌∙◌, refl, ap, length, All, IsByte}
use openmso_api.Prelude.{concat, All-parts, Option, none}
use openmso_api.Proto.Stream.{Event, CaptureData, capture_data}
use openmso_api.Failure.{NngError, ok}
use openmso_api.Encoding.Transition.Encode.{le_times}
use openmso_api.Server.Sender.Chunk.{Delivers, Encoded, Encoded-by}
use openmso_api.Transport.{max_payload}
use openmso_api.Server.Events
use openmso_api.Server.Events.{Events}
use openmso_api.Server.Sender.{
  Sent, StreamSender, chunk_of, advance_seq, advance_samples, send_parts, stop,
}

-- The sender `s` at another place of its stream.
abbrev pub at : StreamSender → ℕ → ℕ → StreamSender
at s seq first = record s { seq = seq; first_sample = first }

pub advance_seq_fits :
    (checks : Bool) (s : StreamSender) (seq first : ℕ)
    → seq + 1 < 2 ^ 64
    → advance_seq checks (at s seq first) ≡ ok (at s (seq + 1) first)
unfolding advance_seq
advance_seq_fits checks s seq first h = ground arith

pub advance_samples_fits :
    (checks : Bool) (s : StreamSender) (seq first m : ℕ)
    → first + m < 2 ^ 64
    → advance_samples checks m (at s seq first) ≡ ok (at s seq (first + m))
unfolding advance_samples
advance_samples_fits checks s seq first m h = ground arith

pub send_quiet :
    (net : ℕ → Option NngError) (d : CaptureData) (e : Events)
    → net e.tries ≡ none
    → Events.send net (capture_data d) e
      ≡ (record e { sent = e.sent ++ capture_data d ∷ []; tries = suc e.tries }, ok tt)
unfolding Events.send
send_quiet net d e h = rw h

pub same_sent :
    (s : StreamSender) (e : Events) {a a' b b' t t' : ℕ} {l l' : List Event}
    → a ≡ a'
    → b ≡ b'
    → l ≡ l'
    → t ≡ t'
    → ◌≡◌ {A = Sent}
        (at s a b, record e { sent = l; tries = t }, ok tt)
        (at s a' b', record e { sent = l'; tries = t' }, ok tt)
same_sent s e p q r u = λ i. (at s (p i) (q i), record e { sent = r i; tries = u i }, ok tt)

le_samples : (u m : ℕ) → 0 < u → m ≤ m * u
le_samples u m h = grind arith

-- Whole samples, no more of them than fit the largest payload.
abbrev pub IsPart : ℕ → List ℕ → Type 0
IsPart u part = (m : ℕ) × (m * u ≤ max_payload) × (length part ≡ m * u)

abbrev pub samples_in : ℕ → List (List ℕ) → ℕ
samples_in u [] = 0
samples_in u (part ∷ parts) = length part / u + samples_in u parts

module _ (net : ℕ → Option NngError) (checks : Bool) (s : StreamSender) (h : 0 < s.unitsize)
    (quiet : (n : ℕ) → net n ≡ none) where
  send_parts_step :
      (part : List ℕ) (parts : List (List ℕ)) (seq first m : ℕ) (e : Events)
      → (x : Encoded checks (at s seq first) m part) → length part / s.unitsize ≡ m
      → seq + 1 < 2 ^ 64
      → first + m < 2 ^ 64
      → send_parts net checks (part ∷ parts) (at s seq first) e
        ≡ send_parts net checks parts (at s (seq + 1) (first + m)) (record e {
          sent = e.sent ++ capture_data (chunk_of (at s seq first) m x.payload) ∷ [];
          tries = suc e.tries;
        })
  unfolding send_parts
  send_parts_step part parts seq first m e x l hs hf =
      rw
        (
          l,
          x.written,
          send_quiet net (chunk_of (at s seq first) m x.payload) e (quiet e.tries),
          advance_seq_fits checks s seq first hs,
          stop,
          advance_samples_fits checks s (seq + 1) first m hf,
        )
        refl

  pub record Delivered (parts : List (List ℕ)) (seq first : ℕ) (e : Events) : Type 0 where
    pub ds : List CaptureData
    pub count : length ds ≡ length parts
    pub ran : send_parts net checks parts (at s seq first) e ≡ (
      at s (seq + length ds) (first + samples_in s.unitsize parts),
      record e { sent = e.sent ++ map capture_data ds; tries = e.tries + length ds },
      ok tt,
    )
    pub delivers : Delivers checks s seq first ds (concat parts)

  next-Delivered :
      (part : List ℕ) (parts : List (List ℕ)) (seq first m : ℕ) (e : Events)
      → (x : Encoded checks (at s seq first) m part) → length part / s.unitsize ≡ m
      → length part ≡ m * s.unitsize
      → m * s.unitsize ≤ max_payload
      → seq + 1 < 2 ^ 64
      → first + m < 2 ^ 64
      → Delivered parts (seq + 1) (first + m) (record e {
        sent = e.sent ++ capture_data (chunk_of (at s seq first) m x.payload) ∷ [];
        tries = suc e.tries;
      })
      → Delivered (part ∷ parts) seq first e
  next-Delivered part parts seq first m e x samples l fits hs hf later =
      let d : CaptureData = chunk_of (at s seq first) m x.payload in
      record {
        ds = d ∷ later.ds;
        count = ap suc later.count;
        ran =
            send_parts_step part parts seq first m e x samples hs hf
            ∙ later.ran
            ∙ same_sent s e (omega arith) (omega (arith, samples))
                (append_assoc e.sent (capture_data d ∷ []) _) (omega arith);
        delivers =
            subst (λ t. Delivers checks s seq first (d ∷ later.ds) (t ++ concat parts)) x.same
              (Delivers.chunk x.cow
                (record {
                  capture = refl;
                  acquired = refl;
                  streamed = refl;
                  placed = refl;
                  sampled = refl;
                  encoded = refl;
                  measured = refl;
                  short =
                      omega (arith, x.short, le_times s.unitsize m h, le_samples s.unitsize m h);
                })
                x.decoded (ap length x.same ∙ l) later.delivers);
      }

  pub send_parts_delivers :
      (parts : List (List ℕ)) (seq first : ℕ) (e : Events)
      → All (IsPart s.unitsize) parts
      → All IsByte (concat parts)
      → seq + length parts < 2 ^ 64
      → first + samples_in s.unitsize parts < 2 ^ 64
      → Delivered parts seq first e
  send_parts_delivers [] seq first e p b hs hf = record {
    ds = [];
    count = refl;
    ran = simp (add-zero, append-nil) (unfold send_parts in refl);
    delivers = Delivers.nothing;
  }
  send_parts_delivers (part ∷ parts) seq first e ((m, fits, l), ps) b hs hf =
      let (front, back) = All-parts IsByte part (concat parts) b in
      let samples : length part / s.unitsize ≡ m = rw l (mul-div_cancel m h) in
      let x : Encoded checks (at s seq first) m part =
        Encoded-by checks (at s seq first) m part s.encoding refl h l front (omega arith) in
      let e' : Events = record e {
        sent = e.sent ++ capture_data (chunk_of (at s seq first) m x.payload) ∷ [];
        tries = suc e.tries;
      } in
      let later : Delivered parts (seq + 1) (first + m) e' =
        send_parts_delivers parts (seq + 1) (first + m) e' ps back (omega arith)
          (omega (arith, samples)) in
      next-Delivered part parts seq first m e x samples l fits (omega arith)
        (omega (arith, samples)) later
