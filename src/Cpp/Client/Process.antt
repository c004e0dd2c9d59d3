-- ===== src/Cpp/Client/Process.antt =====
-- The life of the plugin's process in the C++ client, from `launch` to the destructor.
use mathlib.Core.List.{append_assoc}
use mathlib.Core.Path.{subst}
use openmso_api.Prelude.{
  ℕ, false, Option, none, some, List, ◌⊎◌, inl, inr, [], ◌∷◌, ◌++◌, ◌≡◌, refl, sym, Str, arith,
}
use openmso_api.Proto.Enums.{AcquireMode}
use openmso_api.Proto.Device.{Config}
use openmso_api.Proto.Control.{RequestArm, Request}
use openmso_api.Failure.{NngError}
use openmso_api.Client.{Exchange}
use openmso_api.Cpp.Errors.{Result, returned, thrown, escaped, stuck}
use openmso_api.Cpp.Client.{
  SystemCall, close_fd, kill, waitpid, CaptureClient, launched, Called, is_running, close_stdin,
  terminate, expecting, expect_shutdown, after_shutdown, request,
}
use openmso_api.Cpp.Client as CppClient

-- The operations of the class that change a client.
pub data Operation : Type 0 where
  hello : Str → Str → Operation
  describe get_config reset shutdown next_capture_id : Operation
  set_config : Config → Operation
  acquire_start : ℕ → AcquireMode → Operation
  acquire_stop : ℕ → Operation

-- How the process `p` of a client whose pipe is `f` is: still there, or ended by the calls made.
data Life (p f : ℕ) : Option ℕ → Option ℕ → List SystemCall → Type 0 where
  running : Life p f (some p) (some f) []
  waited : Life p f none none (close_fd f ∷ waitpid p ∷ [])
  killed : Life p f none none (close_fd f ∷ kill p ∷ waitpid p ∷ [])

abbrev Lives : {W : Type 0} → ℕ → ℕ → CaptureClient W → Type 0
Lives p f c = Life p f c.pid c.stdin_fd c.calls

-- The calls that end process `p`, whose pipe is `f`: it is killed unless it answered `Shutdown`.
abbrev pub ending : {A : Type 0} → ℕ → ℕ → Result A → List SystemCall
ending p f (returned _) = close_fd f ∷ waitpid p ∷ []
ending p f (thrown _) = close_fd f ∷ kill p ∷ waitpid p ∷ []
ending p f escaped = close_fd f ∷ kill p ∷ waitpid p ∷ []
ending p f stuck = close_fd f ∷ kill p ∷ waitpid p ∷ []

after_shutdown-Life :
    {W : Type 0} (p f : ℕ) (c : CaptureClient W) (r : Result (Unit {0}))
    → Lives p f (after_shutdown p (record c { pid = some p; stdin_fd = some f; calls = [] }, r)).0
unfolding after_shutdown terminate close_stdin
after_shutdown-Life p f c (returned _) = waited
after_shutdown-Life p f c (thrown x) = killed
after_shutdown-Life p f c escaped = killed
after_shutdown-Life p f c stuck = killed

-- The process of a terminated client: not there, and ended once.
abbrev pub Ended : {W : Type 0} → ℕ → ℕ → CaptureClient W → Type 0
Ended p f c =
    (c.pid ≡ none)
    × (c.stdin_fd ≡ none)
    × ((c.calls ≡ close_fd f ∷ waitpid p ∷ []) ⊎ (c.calls ≡ close_fd f ∷ kill p ∷ waitpid p ∷ []))

terminated :
    {W : Type 0} (p f : ℕ) (c : CaptureClient W) {pid fd : Option ℕ} {calls : List SystemCall}
    → Life p f pid fd calls
    → Ended p f (terminate (record c { pid = pid; stdin_fd = fd; calls = calls }))
unfolding terminate close_stdin
terminated p f c running = (refl, refl, inr refl)
terminated p f c waited = (refl, refl, inl refl)
terminated p f c killed = (refl, refl, inr refl)

-- What `after_shutdown` leaves.
after_shutdown_lem :
    {W : Type 0} (p f : ℕ) (c : CaptureClient W) (r : Result (Unit {0}))
    → let (c', r') = after_shutdown p (record c { pid = some p; stdin_fd = some f }, r) in
      (c'.pid ≡ none) × (c'.calls ≡ c.calls ++ ending p f r')
unfolding after_shutdown terminate close_stdin
after_shutdown_lem p f c (returned _) =
    (refl, append_assoc c.calls (close_fd f ∷ []) (waitpid p ∷ []))
after_shutdown_lem p f c (thrown x) =
    (refl, append_assoc c.calls (close_fd f ∷ []) (kill p ∷ waitpid p ∷ []))
after_shutdown_lem p f c escaped =
    (refl, append_assoc c.calls (close_fd f ∷ []) (kill p ∷ waitpid p ∷ []))
after_shutdown_lem p f c stuck =
    (refl, append_assoc c.calls (close_fd f ∷ []) (kill p ∷ waitpid p ∷ []))

module _ (nng_number : NngError → ℕ) (strerror : ℕ → Str) {W : Type 0}
    (exchange : Request → W → W × Exchange) where
  -- A client after an operation, whether it returned or threw.
  unfoldable pub perform : Operation → CaptureClient W → CaptureClient W
  unfolding CppClient.hello CppClient.describe CppClient.get_config CppClient.set_config
      CppClient.acquire_start CppClient.acquire_stop CppClient.reset CppClient.shutdown
      CppClient.next_capture_id
  perform (Operation.hello name version) c =
      (CppClient.hello nng_number strerror exchange name version c).0
  perform Operation.describe c = (CppClient.describe nng_number strerror exchange c).0
  perform Operation.get_config c = (CppClient.get_config nng_number strerror exchange c).0
  perform (Operation.set_config config) c =
      (CppClient.set_config nng_number strerror exchange config c).0
  perform (Operation.acquire_start id mode) c =
      (CppClient.acquire_start nng_number strerror exchange id mode c).0
  perform (Operation.acquire_stop id) c =
      (CppClient.acquire_stop nng_number strerror exchange id c).0
  perform Operation.reset c = (CppClient.reset nng_number strerror exchange c).0
  perform Operation.shutdown c = (CppClient.shutdown nng_number strerror exchange c).0
  perform Operation.next_capture_id c = (CppClient.next_capture_id c).0

  unfoldable pub perform_all : List Operation → CaptureClient W → CaptureClient W
  perform_all [] c = c
  perform_all (o ∷ os) c = perform_all os (perform o c)

  shutdown-Life :
      (p f : ℕ) (c : CaptureClient W) {pid fd : Option ℕ} {calls : List SystemCall}
      → Life p f pid fd calls
      → Lives p f
          (CppClient.shutdown nng_number strerror exchange
            (record c { pid = pid; stdin_fd = fd; calls = calls })).0
  unfolding CppClient.shutdown request
  shutdown-Life p f c running =
      let start = record c { pid = some p; stdin_fd = some f; calls = [] } in
      let (c', r) =
        expecting expect_shutdown
          (request nng_number strerror exchange RequestArm.shutdown start) in
      after_shutdown-Life p f c' r
  shutdown-Life p f c waited = waited
  shutdown-Life p f c killed = killed

  perform-Life :
      (p f : ℕ) (o : Operation) (c : CaptureClient W) → Lives p f c → Lives p f (perform o c)
  unfolding perform request CppClient.hello CppClient.describe CppClient.get_config
      CppClient.set_config CppClient.acquire_start CppClient.acquire_stop CppClient.reset
      CppClient.next_capture_id
  perform-Life p f (Operation.hello name version) c l = l
  perform-Life p f Operation.describe c l = l
  perform-Life p f Operation.get_config c l = l
  perform-Life p f (Operation.set_config config) c l = l
  perform-Life p f (Operation.acquire_start id mode) c l = l
  perform-Life p f (Operation.acquire_stop id) c l = l
  perform-Life p f Operation.reset c l = l
  perform-Life p f Operation.shutdown c l = shutdown-Life p f c l
  perform-Life p f Operation.next_capture_id c l = l

  perform_all-Life :
      (p f : ℕ) (os : List Operation) (c : CaptureClient W)
      → Lives p f c
      → Lives p f (perform_all os c)
  unfolding perform_all
  perform_all-Life p f [] c l = l
  perform_all-Life p f (o ∷ os) c l = perform_all-Life p f os (perform o c) (perform-Life p f o c l)

  -- Whatever operations a launched client runs, in whatever order and however they end, its
  -- destructor leaves no process and no open pipe behind: the pipe was closed once, and the process
  -- was waited for once and was killed at most once, before that.
  pub reaped_once :
      (os : List Operation) (p f : ℕ) (world : W)
      → Ended p f (terminate (perform_all os (launched p f world)))
  reaped_once os p f world =
      let end = perform_all os (launched p f world) in
      terminated p f end (perform_all-Life p f os (launched p f world) running)

  -- A shutdown of `c` that left no process, by the calls of `ending`.
  abbrev Finished : ℕ → ℕ → CaptureClient W → CaptureClient W → Type 0
  Finished p f c start =
      let (c', r) = CppClient.shutdown nng_number strerror exchange start in
      (c'.pid ≡ none) × (c'.calls ≡ c.calls ++ ending p f r)

  shutdown_running :
      (c : CaptureClient W) (p f : ℕ)
      → Finished p f c (record c { pid = some p; stdin_fd = some f })
  unfolding CppClient.shutdown request
  shutdown_running c p f =
      let start = record c { pid = some p; stdin_fd = some f } in
      let (c', r) =
        expecting expect_shutdown
          (request nng_number strerror exchange RequestArm.shutdown start) in
      after_shutdown_lem p f c' r

  shutdown_ended :
      (c : CaptureClient W) (pid : Option ℕ)
      → pid ≡ none
      → CppClient.shutdown nng_number strerror exchange (record c { pid = pid })
        ≡ (record c { pid = pid }, returned tt)
  unfolding CppClient.shutdown
  shutdown_ended c none h = refl
  shutdown_ended c (some p) h = ground arith

  -- After a `shutdown` of a client whose process `p` runs and whose pipe `f` is open, whatever came
  -- of it, no process runs, the pipe was closed and the process waited for, and killed first if the
  -- `Shutdown` failed; and a second `shutdown` changes nothing and returns.
  pub shutdown_ends :
      (c : CaptureClient W) (p f : ℕ)
      → c.pid ≡ some p
      → c.stdin_fd ≡ some f
      → let (c', r) = CppClient.shutdown nng_number strerror exchange c in
        (is_running c' ≡ false)
        × (c'.calls ≡ c.calls ++ ending p f r)
        × (CppClient.shutdown nng_number strerror exchange c' ≡ (c', returned tt))
  shutdown_ends c p f hp hf =
      let (no_pid, calls) : Finished p f c c =
        subst (λ k. Finished p f c (record c { pid = k })) (sym hp)
          (subst (λ k. Finished p f c (record c { pid = some p; stdin_fd = k })) (sym hf)
            (shutdown_running c p f)) in
      let c' = (CppClient.shutdown nng_number strerror exchange c).0 in
      (rw (no_pid, is_running) refl, calls, shutdown_ended c' c'.pid no_pid)
