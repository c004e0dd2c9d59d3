-- ===== src/Server/Race/Gaps.antt =====
-- `dispatch` of rust/openmso/src/server/mod.rs with the sends of other threads between its own steps:
-- `gap` behind the reading of the flag and before what follows, `late` behind the plugin's handler and
-- before the store to the flag that may end the request.
use openmso_api.Prelude.{
  ℕ, Bool, true, false, not, ◌&&◌, ◌||◌, Option, none, some, List, ◌≡◌, refl, sym, ap, arith,
  if◌then◌else◌, Bool-cases, inl, inr,
}
use openmso_api.Proto.Stream.{Event}
use openmso_api.Proto.Control.{RequestArm, Request, ResponseArm}
use openmso_api.Failure.{NngError, accept, refuse}
use openmso_api.Server.Events.{set_running, push_all}
use openmso_api.Server.Events.Flag.{push_all_running}
use openmso_api.Server.Plugin.{CaptureServer}
use openmso_api.Server.Dispatch.{
  Session, Answered, config_or_default, is_hello, no_payload, hello_first, hello_again, in_progress,
  answer, greet, stop_running, started, was_reset, run, dispatch, dispatch_arm,
}
use openmso_api.Server.Race.Threads.{push_all-set_running}

-- The sends of other threads.
abbrev pub meanwhile : {S : Type 0} → (ℕ → Option NngError) → List Event → Session S → Session S
meanwhile net events s = record s { events = push_all net events s.events }

-- The last store of an arm, behind the late sends.
abbrev pub started_late :
    {S : Type 0} → (Session S → Session S) → Answered S (Unit {0}) → Answered S ResponseArm
started_late late (s, accept _) = (late s, accept ResponseArm.acquire_start)
started_late late (s, refuse e) = (stop_running (late s), refuse e)

abbrev pub reset_late :
    {S : Type 0} → (Session S → Session S) → Answered S (Unit {0}) → Answered S ResponseArm
reset_late late (s, accept _) = (stop_running (late s), accept ResponseArm.reset)
reset_late late (s, refuse e) = (late s, refuse e)

-- The other arms end with the late sends.
abbrev pub ended : {S A : Type 0} → (Session S → Session S) → Answered S A → Answered S A
ended late (s, r) = (late s, r)

module _ (net : ℕ → Option NngError) (P : CaptureServer) where
  open P use {State}

  -- The `match` on the arm, where `running` is what was read of the flag.
  unfoldable pub handle_loaded :
      Bool
      → (Session State → Session State)
      → RequestArm
      → Session State
      → Answered State ResponseArm
  unfolding run
  handle_loaded running late (RequestArm.hello req) s =
      ended late
        (if s.greeted then (s, refuse hello_again) else greet (run net P (P.hello req s.plugin) s))
  handle_loaded running late RequestArm.describe s = ended late (
      if running
      then (s, refuse in_progress)
      else answer ResponseArm.describe (run net P (P.describe s.plugin) s))
  handle_loaded running late RequestArm.get_config s = ended late (
      if running
      then (s, refuse in_progress)
      else answer ResponseArm.get_config (run net P (P.get_config s.plugin) s))
  handle_loaded running late (RequestArm.set_config req) s = ended late (
      if running
      then (s, refuse in_progress)
      else answer ResponseArm.set_config
          (run net P (P.set_config (config_or_default req.config) s.plugin) s))
  handle_loaded running late (RequestArm.acquire_start req) s =
      if running
      then (late s, refuse in_progress)
      else started_late late (
          run net P (P.acquire_start req s.plugin)
            (record s { events = set_running true s.events }))
  handle_loaded running late (RequestArm.acquire_stop req) s = ended late (
      if running
      then answer (λ _. ResponseArm.acquire_stop) (run net P (P.acquire_stop req s.plugin) s)
      else (s, accept ResponseArm.acquire_stop))
  handle_loaded running late RequestArm.reset s = reset_late late (run net P (P.reset s.plugin) s)
  handle_loaded running late RequestArm.shutdown s = (late s, accept ResponseArm.shutdown)

  dispatch_arm_gaps :
      List Event → List Event → Option RequestArm → Session State → Answered State ResponseArm
  unfolding handle_loaded
  dispatch_arm_gaps gap late none s = (meanwhile net late (meanwhile net gap s), refuse no_payload)
  dispatch_arm_gaps gap late (some arm) s =
      if not s.greeted && not (is_hello arm)
      then (meanwhile net late (meanwhile net gap s), refuse hello_first)
      else handle_loaded s.events.running (meanwhile net late) arm (meanwhile net gap s)

  unfoldable pub dispatch_gaps :
      List Event → List Event → Request → Session State → Answered State ResponseArm
  unfolding dispatch_arm_gaps
  dispatch_gaps gap late request s = dispatch_arm_gaps gap late request.request s

  -- The arms that a running capture refuses.
  abbrev pub is_locked : Option RequestArm → Bool
  is_locked (some RequestArm.describe) = true
  is_locked (some RequestArm.get_config) = true
  is_locked (some (RequestArm.set_config _)) = true
  is_locked (some (RequestArm.acquire_start _)) = true
  is_locked _ = false

  abbrev pub is_stop : Option RequestArm → Bool
  is_stop (some (RequestArm.acquire_stop _)) = true
  is_stop _ = false

  locked_gaps :
      (gap late : List Event) (request : Request) (s : Session State)
      → s.events.running ≡ true
      → is_locked request.request ≡ true
      → dispatch_gaps gap late request s
        ≡ ended (λ x. meanwhile net late (meanwhile net gap x)) (dispatch net P request s)
  unfolding dispatch_gaps dispatch
  locked_gaps gap late request s r l = ground arith

  abbrev after : List Event → Session State → Session State
  after late x = meanwhile net late x

  started_commutes :
      (late : List Event) (a : Answered State (Unit {0}))
      → started_late (after late) a ≡ ended (after late) (started a)
  started_commutes late (s, accept _) = refl
  started_commutes late (s, refuse e) =
      ap (λ x. (record s { events = x }, refuse e)) (sym (push_all-set_running net late s.events))

  reset_commutes :
      (late : List Event) (a : Answered State (Unit {0}))
      → reset_late (after late) a ≡ ended (after late) (was_reset a)
  reset_commutes late (s, refuse e) = refl
  reset_commutes late (s, accept _) =
      ap (λ x. (record s { events = x }, accept ResponseArm.reset))
        (sym (push_all-set_running net late s.events))

  free_arm :
      (gap late : List Event) (arm : RequestArm) (s : Session State)
      → (s.events.running && (is_locked (some arm) || is_stop (some arm))) ≡ false
      → dispatch_arm_gaps gap late (some arm) s
        ≡ ended (after late) (dispatch_arm net P (some arm) (meanwhile net gap s))
  unfolding dispatch_arm_gaps dispatch_arm
  free_arm gap late (RequestArm.hello req) s h = ground arith
  free_arm gap late RequestArm.describe s h = ground (arith, push_all_running net gap s.events)
  free_arm gap late RequestArm.get_config s h = ground (arith, push_all_running net gap s.events)
  free_arm gap late (RequestArm.set_config req) s h =
      ground (arith, push_all_running net gap s.events)
  free_arm gap late (RequestArm.acquire_start req) s h = ground (
    arith,
    push_all_running net gap s.events,
    started_commutes late (
        run net P (P.acquire_start req s.plugin)
          (record s { events = set_running true (push_all net gap s.events) })),
  )
  free_arm gap late (RequestArm.acquire_stop req) s h =
      ground (arith, push_all_running net gap s.events)
  free_arm gap late RequestArm.reset s h =
      ground (arith, reset_commutes late (run net P (P.reset s.plugin) (meanwhile net gap s)))
  free_arm gap late RequestArm.shutdown s h = ground arith

  free_option :
      (gap late : List Event) (arm : Option RequestArm) (s : Session State)
      → (s.events.running && (is_locked arm || is_stop arm)) ≡ false
      → dispatch_arm_gaps gap late arm s
        ≡ ended (after late) (dispatch_arm net P arm (meanwhile net gap s))
  unfolding dispatch_arm_gaps dispatch_arm
  free_option gap late none s h = refl
  free_option gap late (some arm) s h = free_arm gap late arm s h

  free_gaps :
      (gap late : List Event) (request : Request) (s : Session State)
      → (s.events.running && (is_locked request.request || is_stop request.request)) ≡ false
      → dispatch_gaps gap late request s
        ≡ ended (after late) (dispatch net P request (meanwhile net gap s))
  unfolding dispatch_gaps dispatch
  free_gaps gap late request s h = free_option gap late request.request s h

  -- `dispatch`, with sends of other threads behind its reading of the flag and before its last store
  -- to it, does what it does at one moment, with these sends before it or behind it: all of them
  -- behind it when it refuses the request as busy, and otherwise the first before it and the others
  -- behind it. An `AcquireStop` of a running capture is left out: there the sends may end the capture
  -- behind the reading, and the plugin is still asked to stop it.
  pub dispatch_gaps-dispatch :
      (gap late : List Event) (request : Request) (s : Session State)
      → (s.events.running && is_stop request.request) ≡ false
      → dispatch_gaps gap late request s ≡ (
          if s.events.running && is_locked request.request
          then ended (λ x. meanwhile net late (meanwhile net gap x)) (dispatch net P request s)
          else ended (meanwhile net late) (dispatch net P request (meanwhile net gap s)))
  dispatch_gaps-dispatch gap late request s h =
      elim (Bool-cases (s.events.running && is_locked request.request)) [
        | inl locked ↦ rw locked (locked_gaps gap late request s (ground arith) (ground arith))
        | inr free ↦ rw free (free_gaps gap late request s (ground arith))
      ]
