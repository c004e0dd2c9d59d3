-- ===== src/Harness/Capture.antt =====
-- A capture from the plugin's thread to the frontend that drains it.
use mathlib.Core.List.{append_assoc}
use openmso_api.Prelude.{
  ℕ, suc, ◌+◌, ◌^◌, ◌≤◌, ◌<◌, arith, Bool, true, false, Option, none, some, List, [], ◌∷◌, ◌++◌,
  map, ◌≡◌, ◌∙◌, refl, ap, length, All, IsByte, if◌then◌else◌,
}
use openmso_api.Proto.Stream.{Event, CaptureData, capture_begin, capture_data, capture_end}
use openmso_api.Failure.{NngError, ok}
use openmso_api.Server.Events.{Events, ends_capture}
use openmso_api.Server.Events
use openmso_api.Server.Sender.{StreamSender, new_sender, send_stream}
use openmso_api.Server.Sender.Chunk.{Delivers}
use openmso_api.Server.Sender.Delivery.{send_stream_delivers}
use openmso_api.Harness.{
  begin_of, end_of, drain_capture, acquire_thread, Pushed, unwrapped, push_samples,
}
use openmso_api.Harness.Draining.{sender_of, capture_events, drain_events}

-- What the thread leaves of the event stream when nng takes every push.
abbrev pub captured : ℕ → List CaptureData → Events → Events
captured id ds e = record {
  running = false;
  sent = e.sent ++ capture_events id ds;
  tries = e.tries + length ds + 2;
}

same_captured :
    (e : Events) {l l' : List Event} {t t' : ℕ}
    → l ≡ l'
    → t ≡ t'
    → ◌≡◌ {A = Pushed}
        (record e { running = false; sent = l; tries = t }, ok tt)
        (record e { running = false; sent = l'; tries = t' }, ok tt)
same_captured e h k = rw (h, k) refl

unwrapped_ok :
    {p : Pushed} {e : Events} (next : Events → Pushed) → p ≡ (e, ok tt) → unwrapped p next ≡ next e
unwrapped_ok next h = ap (λ q. unwrapped q next) h

pub send_taken :
    (net : ℕ → Option NngError) (event : Event) (e : Events)
    → net e.tries ≡ none
    → Events.send net event e ≡ (
      record e {
        running = if ends_capture event then false else e.running;
        sent = e.sent ++ event ∷ [];
        tries = suc e.tries;
      },
      ok tt,
    )
unfolding Events.send
send_taken net event e h = ground arith

samples_pushed :
    (net : ℕ → Option NngError) (checks : Bool) (id : ℕ) (packed : List ℕ) (e e' : Events)
    {s' : StreamSender}
    → send_stream net checks packed (sender_of id) e ≡ (s', e', ok tt)
    → push_samples net checks packed (new_sender id 0 0 1) e ≡ (e', ok tt)
unfolding push_samples new_sender
samples_pushed net checks id packed e e' h = ap (λ r. (r.1, r.2)) h

pub acquire_pushes :
    (net : ℕ → Option NngError) (checks : Bool) (id : ℕ) (packed : List ℕ) (e : Events)
    → ((n : ℕ) → net n ≡ none)
    → All IsByte packed
    → length packed < 2 ^ 64
    → (ds : List CaptureData) × (acquire_thread net checks id packed true e
        ≡ (captured id ds e, ok tt))
      × Delivers checks (sender_of id) 0 0 ds packed
      × (length ds ≤ length packed)
unfolding acquire_thread
acquire_pushes net checks id packed e quiet b small =
    let e' : Events = record e {
      sent = e.sent ++ capture_begin (begin_of id) ∷ [];
      tries = suc e.tries;
    } in
    let (ds, sent, d, short) =
      send_stream_delivers net checks (sender_of id) packed (length packed) e' quiet (omega arith)
        (omega arith) (omega arith) b (omega arith) (omega arith) in
    let e'' : Events = record e' {
      sent = e'.sent ++ map capture_data ds;
      tries = e'.tries + length ds;
    } in
    (
      ds,
      unwrapped_ok _ (send_taken net (capture_begin (begin_of id)) e (quiet e.tries))
          ∙ unwrapped_ok _ (samples_pushed net checks id packed e' e'' sent)
          ∙ unwrapped_ok _ (send_taken net (capture_end (end_of id)) e'' (quiet e''.tries))
          ∙ same_captured e
              (append_assoc (e.sent ++ capture_begin (begin_of id) ∷ []) (map capture_data ds)
                  (capture_end (end_of id) ∷ [])
                ∙ append_assoc e.sent (capture_begin (begin_of id) ∷ [])
                    (map capture_data ds ++ capture_end (end_of id) ∷ []))
              (omega arith),
      d,
      short,
    )

-- The capture of the plugin in the tests, of any bytes in place of the samples there: while nng takes
-- every push and the bytes are fewer than 2 ^ 64, the thread ends without a panic, the flag says that
-- no capture is running, and the frontend that drains the thread's events gets the bytes, with every
-- assertion on the chunks' numbers met.
pub drain_capture-acquire_thread :
    (net : ℕ → Option NngError) (checks : Bool) (id : ℕ) (packed : List ℕ) (e : Events)
    → ((n : ℕ) → net n ≡ none)
    → All IsByte packed
    → length packed < 2 ^ 64
    → (events : List Event) × (e' : Events) × (acquire_thread net checks id packed true e
        ≡ (e', ok tt))
      × (e'.sent ≡ e.sent ++ events)
      × (e'.running ≡ false)
      × (drain_capture checks events ≡ some (ok packed))
drain_capture-acquire_thread net checks id packed e quiet b small =
    let (ds, ran, d, short) = acquire_pushes net checks id packed e quiet b small in
    (
      capture_events id ds,
      captured id ds e,
      ran,
      refl,
      refl,
      drain_events checks id ds d (omega arith) small,
    )
