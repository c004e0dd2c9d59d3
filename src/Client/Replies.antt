-- ===== src/Client/Replies.antt =====
-- When a request of the client succeeds, and the numbers that it gives out.
use openmso_api.Prelude.{none, some, ◌≡◌, ◌↔◌, arith}
use openmso_api.Proto.Control.{RequestArm, Request, ResponseArm}
use openmso_api.Failure.{ok}
use openmso_api.Client.{CaptureClient, Exchange, replied, next_seq, request, receive}

module _ {W : Type 0} (exchange : Request → W → W × Exchange) where
  -- `request` returns a result exactly when a reply came under the request's own number, with no
  -- error and with that result; so a late reply to another request is never taken for the answer.
  pub request_ok_iff :
      (arm : RequestArm) (c : CaptureClient W) (r : ResponseArm)
      → let sent : Request = record { seq = next_seq c.seq; request = some arm } in
        ((request exchange arm c).1 ≡ ok r) ↔ (
          (exchange sent c.world).1
          ≡ replied (record { seq = next_seq c.seq; error = none; response = some r }))
  unfolding request receive
  request_ok_iff arm c r = (λ h. ground arith, λ h. ground arith)
