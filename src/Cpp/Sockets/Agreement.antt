-- ===== src/Cpp/Sockets/Agreement.antt =====
-- The class `Socket` makes the calls that the Rust functions on sockets make.
use openmso_api.Prelude.{
  ℕ, ◌+◌, Bool, true, false, Option, none, some, ◌∷◌, ◌++◌, ◌≡◌, ◌∙◌, ap, refl, Str, codes,
  if◌then◌else◌,
}
use mathlib.Core.Path.{subst}
use openmso_api.Failure.{NngError, IoError, Error, Outcome, ok, err, panic, nng}
use openmso_api.Failure
use openmso_api.Failure.Text.{error_text}
use openmso_api.World.{Protocol, Listener, Call, World, System, take_number}
use openmso_api.World
use openmso_api.Transport.Sockets as Rust
use openmso_api.Transport.Sockets.{is_ipc, is_req0}
use openmso_api.Cpp.Errors.{counterpart, Result, returned, thrown, escaped, stuck, nng_error}
use openmso_api.Cpp.Errors as CppErrors
use openmso_api.Cpp.Client.Operations.{blur}
use openmso_api.Cpp.Sockets.{
  Io, pure, ◌>>=◌, followed, destroyed, or_destroy, check, close, open_socket, set_options,
  new_socket_of, restrict, start_listener, listen, set_recv_timeout,
}

abbrev pub itself : {A : Type 0} → A → A
itself a = a

module _ (nng_text : NngError → Str) (io_text : IoError → Str) (debug : Str → Str) where
  -- The results of a C++ call and of a Rust call are the same, but for what `f` forgets of the Rust
  -- result and for the text of a failure that is not the protocol's.
  pub data Corresponds {A B : Type 0} (f : B → A) : Result A → Outcome B → Type 0 where
    both_return : (b : B) → Corresponds f (returned (f b)) (ok b)
    both_fail :
        (x : CppErrors.Error) (e : Error)
        → blur x ≡ blur (counterpart nng_text io_text debug e)
        → Corresponds f (thrown x) (err e)
    both_panic : Corresponds f escaped panic
    both_stuck : Corresponds f stuck Failure.stuck

  -- The same, in the same world.
  abbrev pub SameRun : {A B : Type 0} → (B → A) → World × Result A → World × Outcome B → Type 0
  SameRun f (w, r) (w', o) = (w ≡ w') × Corresponds f r o

  abbrev pub Alike : {A B : Type 0} → (B → A) → Io A → World.Io B → Type 0
  Alike f m m' = (w : World) → SameRun f (m w) (m' w)

  followed_same :
      {A B C D : Type 0} (f : B → A) (g : D → C) {w w' : World} {r : Result A} {o : Outcome B}
      (k : A → Io C) (k' : B → World.Io D)
      → w ≡ w'
      → Corresponds f r o
      → ((b : B) → Alike g (k (f b)) (k' b))
      → SameRun g (followed (w, r) k) (World.followed (w', o) k')
  followed_same f g {w = w} k k' e (both_return b) h =
      subst (λ v. SameRun g (k (f b) w) (k' b v)) e (h b w)
  followed_same f g k k' e (both_fail x y same) h = (e, both_fail x y same)
  followed_same f g k k' e both_panic h = (e, both_panic)
  followed_same f g k k' e both_stuck h = (e, both_stuck)

  pub bind_same :
      {A B C D : Type 0} (f : B → A) (g : D → C) (m : Io A) (m' : World.Io B) (k : A → Io C)
      (k' : B → World.Io D)
      → Alike f m m'
      → ((b : B) → Alike g (k (f b)) (k' b))
      → Alike g (m >>= k) (World.◌>>=◌ m' k')
  bind_same f g m m' k k' h hk w = followed_same f g k k' (h w).0 (h w).1 hk

  destroyed_same :
      {A : Type 0} {w w' : World} {r : Result A} {o : Outcome A} (destroy drop : World → World)
      → ((v : World) → destroy v ≡ drop v)
      → w ≡ w'
      → Corresponds itself r o
      → SameRun itself (destroyed destroy (w, r)) (World.dropped drop (w', o))
  destroyed_same {w' = w'} destroy drop both e (both_return a) = (e, both_return a)
  destroyed_same {w' = w'} destroy drop both e (both_fail x y same) =
      (ap destroy e ∙ both w', both_fail x y same)
  destroyed_same {w' = w'} destroy drop both e both_panic = (ap destroy e ∙ both w', both_panic)
  destroyed_same {w' = w'} destroy drop both e both_stuck = (ap destroy e ∙ both w', both_stuck)

  pub scope_same :
      {A : Type 0} (destroy drop : World → World) (m : Io A) (m' : World.Io A)
      → ((v : World) → destroy v ≡ drop v)
      → Alike itself m m'
      → Alike itself (or_destroy destroy m) (World.or_drop drop m')
  scope_same destroy drop m m' both h w = destroyed_same destroy drop both (h w).0 (h w).1

  pub pure_same : {A B : Type 0} (f : B → A) (b : B) → Alike f (pure (f b)) (World.pure b)
  pure_same f b w = (refl, both_return b)

  -- A C++ call that returns nothing, where the Rust call keeps a value.
  kept_same :
      {B : Type 0} {w w' : World} {r : Result (Unit {0})} {o : Outcome (Unit {0})} (b : B)
      → w ≡ w'
      → Corresponds itself r o
      → SameRun (λ (x : B). tt) (w, r) (World.followed (w', o) λ u. World.pure b)
  kept_same b e (both_return u) = (e, both_return b)
  kept_same b e (both_fail x y same) = (e, both_fail x y same)
  kept_same b e both_panic = (e, both_panic)
  kept_same b e both_stuck = (e, both_stuck)

  if_same :
      {A B : Type 0} (f : B → A) (test : Bool) (m n : Io A) (m' n' : World.Io B)
      → Alike f m m'
      → Alike f n n'
      → Alike f (if test then m else n) (if test then m' else n')
  if_same f true m n m' n' h k = h
  if_same f false m n m' n' h k = k

  module _ (sys : System) (nng_number : NngError → ℕ) (strerror : ℕ → Str) where
    answered_same :
        (answer : Option NngError) (c : Call) (context : Str) (w : World)
        → SameRun {A = Unit {0}} itself
            (elim answer [
              | none ↦ (record w { calls = c ∷ w.calls }, returned tt)
              | some e ↦ (w, thrown (nng_error strerror (nng_number e) context))
            ])
            (elim answer [
              | none ↦ (record w { calls = c ∷ w.calls }, ok tt)
              | some e ↦ (w, err (nng e))
            ])
    unfolding counterpart error_text
    answered_same none c context w = (refl, both_return tt)
    answered_same (some e) c context w = (refl, both_fail _ _ refl)

    pub check_same :
        (c : Call) (context : Str)
        → Alike itself (check sys nng_number strerror c context) (World.nng_call sys c)
    check_same c context w = answered_same (sys.nng_error c w.calls) c context w

    open_same :
        (protocol : Protocol)
        → Alike itself
            (open_socket sys nng_number strerror protocol)
            (Rust.fresh_socket sys protocol)
    unfolding open_socket Rust.fresh_socket
    open_same protocol w =
        bind_same itself itself _ _ _ _
          (check_same (World.new_socket protocol w.next) (codes "open"))
          (λ u v. (refl, both_return w.next)) w

    options_same :
        (protocol : Protocol) (s : ℕ)
        → Alike itself
            (set_options sys nng_number strerror protocol s)
            (Rust.set_options sys protocol s)
    unfolding set_options Rust.set_options
    options_same protocol s =
        bind_same itself itself _ _ _ _ (check_same _ (codes "set recv-size-max")) λ u.
          bind_same itself itself _ _ _ _ (check_same _ (codes "set send-timeout")) λ v.
            if_same itself (is_req0 protocol) _ _ _ _ (check_same _ (codes "set req:resend-time"))
              (pure_same itself tt)

    pub socket_same :
        (protocol : Protocol)
        → Alike itself (new_socket_of sys nng_number strerror protocol) (Rust.socket sys protocol)
    unfolding new_socket_of Rust.socket
    socket_same protocol = bind_same itself itself _ _ _ _ (open_same protocol) λ s.
        scope_same (close s) (World.close s) _ _ (λ v. refl)
          (bind_same itself itself _ _ _ _ (options_same protocol s) λ u. pure_same itself s)

    restrict_same :
        (l : Listener) → Alike itself (restrict sys nng_number strerror l) (Rust.restrict sys l)
    unfolding restrict Rust.restrict
    restrict_same l =
        if_same itself (is_ipc l.url) _ _ _ _ (check_same _ (codes "set ipc:permissions"))
          (pure_same itself tt)

    started_same :
        (l : Listener)
        → Alike
            (λ (m : Listener). tt)
            (check sys nng_number strerror (World.start l) (codes "listen on " ++ l.url))
            (World.◌>>=◌ (World.nng_call sys (World.start l)) λ u. World.pure l)
    started_same l w =
        let (e, same) = check_same (World.start l) (codes "listen on " ++ l.url) w in
        kept_same l e same

    pub listen_same :
        (s : ℕ) (url : Str)
        → Alike
            (λ (l : Listener). tt)
            (listen sys nng_number strerror s url)
            (Rust.listen sys s url)
    unfolding listen start_listener Rust.listen
    listen_same s url w =
        let l : Listener = record { id = w.next; socket = s; url = url } in
        bind_same itself _ _ _ _ _ (check_same (World.new_listener l) (codes "listener create"))
          (λ u. bind_same itself _ _ _ _ _ (restrict_same l) λ v. started_same l)
          (record w { next = w.next + 1 })

    pub set_recv_timeout_same :
        (s : ℕ) (timeout : Option ℕ)
        → Alike itself
            (set_recv_timeout sys nng_number strerror s timeout)
            (Rust.set_recv_timeout sys s timeout)
    unfolding set_recv_timeout Rust.set_recv_timeout
    set_recv_timeout_same s timeout = check_same _ (codes "set recv-timeout")
