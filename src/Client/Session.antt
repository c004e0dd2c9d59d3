-- ===== src/Client/Session.antt =====
-- A client connected to a server: what the operations of the one make the other do.
use openmso_api.Prelude.{ℕ, Bool, true, false, Option, some, ◌≡◌, refl, arith}
use openmso_api.Prelude.{Str, ap, ◌⊎◌, inl, inr}
use openmso_api.Proto.Enums.{AcquireMode}
use openmso_api.Proto.Device.{ProtoError, Config}
use openmso_api.Proto.Control.{RequestArm, Request, ResponseArm}
use openmso_api.Failure.{NngError, Reply, accept, refuse, Outcome, ok, err, protocol, remote}
use openmso_api.Server.Plugin.{CaptureServer}
use openmso_api.Server.Dispatch.{Session, dispatch}
use openmso_api.Server.Dispatch.Replies.{answers, dispatch-answers}
use openmso_api.Server.Serve.{response_of}
use openmso_api.Client.{
  CaptureClient, Exchange, replied, next_seq, request, receive, own_hello, Called, expecting,
}
use openmso_api.Client

-- A failure that the client puts down to a bug of the plugin.
abbrev pub is_fault {ℓ} : {A : Type ℓ} → Outcome A → Bool
is_fault (err (protocol _)) = true
is_fault _ = false

-- What a client makes of a reply.
abbrev pub outcome_of {ℓ} : {A : Type ℓ} → Reply A → Outcome A
outcome_of (accept a) = ok a
outcome_of (refuse e) = err (remote e)

Reply-cases :
    {A : Type 0} (reply : Reply A)
    → ((a : A) × (reply ≡ accept a)) ⊎ ((e : ProtoError) × (reply ≡ refuse e))
Reply-cases (accept a) = inl (a, refl)
Reply-cases (refuse e) = inr (e, refl)

module _ (net : ℕ → Option NngError) (P : CaptureServer) where
  -- A control socket with `serve` at its other end.
  unfoldable pub connected : Request → Session P.State → Session P.State × Exchange
  connected req s =
      let (s', reply) = dispatch net P req s in (s', replied (response_of req.seq reply))

  receive_reply :
      (seq : ℕ) (reply : Reply ResponseArm)
      → receive seq (replied (response_of seq reply)) ≡ outcome_of reply
  unfolding receive
  receive_reply seq (accept a) = ground arith
  receive_reply seq (refuse e) = ground arith

  -- A request of a connected client is one `dispatch`, and returns what it replied.
  pub request-dispatch :
      (arm : RequestArm) (c : CaptureClient (Session P.State))
      → let sent : Request = record { seq = next_seq c.seq; request = some arm } in
        let (s', reply) = dispatch net P sent c.world in
        request connected arm c ≡ (record c { seq = next_seq c.seq; world = s' }, outcome_of reply)
  unfolding request connected
  request-dispatch arm c =
      ap
        (λ o. (
          record c {
            seq = next_seq c.seq;
            world =
                (dispatch net P (record { seq = next_seq c.seq; request = some arm }) c.world).0;
          },
          o,
        ))
        (receive_reply (next_seq c.seq) _)

  conforms :
      {A : Type 0} (f : ResponseArm → Outcome A) (arm : RequestArm)
      (c : CaptureClient (Session P.State))
      → ((r : ResponseArm) → answers arm r ≡ true → is_fault (f r) ≡ false)
      → is_fault (expecting f (request connected arm c)).1 ≡ false
  conforms f arm c h =
      rw (request-dispatch arm c)
        (elim (Reply-cases
          (dispatch net P (record { seq = next_seq c.seq; request = some arm }) c.world).1) [
            | inl (r, e) ↦ rw e (h r (dispatch-answers net P (next_seq c.seq) arm c.world e))
            | inr (x, e) ↦ rw e refl
          ])

  -- None of the eight operations of a client whose control socket leads to `dispatch` fails with a
  -- fault of the protocol (a reply out of step, an empty reply or an unexpected arm), whatever the
  -- session's phase and whatever the plugin replies.
  pub calls_conform :
      (c : CaptureClient (Session P.State)) (name version : Str) (config : Config) (id : ℕ)
      (mode : AcquireMode)
      → (is_fault (Client.hello connected name version c).1 ≡ false)
        × (is_fault (Client.describe connected c).1 ≡ false)
        × (is_fault (Client.get_config connected c).1 ≡ false)
        × (is_fault (Client.set_config connected config c).1 ≡ false)
        × (is_fault (Client.acquire_start connected id mode c).1 ≡ false)
        × (is_fault (Client.acquire_stop connected id c).1 ≡ false)
        × (is_fault (Client.reset connected c).1 ≡ false)
        × (is_fault (Client.shutdown connected c).1 ≡ false)
  unfolding Client.hello Client.describe Client.get_config Client.set_config Client.acquire_start
      Client.acquire_stop Client.reset Client.shutdown
  calls_conform c name version config id mode = (
    conforms Client.expect_hello _ c (λ r h. ground arith),
    conforms Client.expect_describe _ c (λ r h. ground arith),
    conforms Client.expect_get_config _ c (λ r h. ground arith),
    conforms Client.expect_set_config _ c (λ r h. ground arith),
    conforms Client.expect_acquire_start _ c (λ r h. ground arith),
    conforms Client.expect_acquire_stop _ c (λ r h. ground arith),
    conforms Client.expect_reset _ c (λ r h. ground arith),
    conforms Client.expect_shutdown _ c (λ r h. ground arith),
  )
