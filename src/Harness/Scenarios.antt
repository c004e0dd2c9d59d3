-- ===== src/Harness/Scenarios.antt =====
-- The tests of rust/openmso/tests/control_loop.rs, over the harness: a test that panics is `panic`.
-- A capture's thread runs at the moments that a test names, and is done when the test drains it.
use openmso_api.Prelude.{ℕ, Bool, true, Option, some, List, bytes_eq}
use openmso_api.Proto.Enums.{ErrorCode, AcquireMode, mode_number, error_code_number}
use openmso_api.Proto.Device.{default_config}
use openmso_api.Proto.Control.{RequestArm, ResponseArm}
use openmso_api.Failure.{NngError, Outcome, ok, panic, assert}
use openmso_api.Harness.{assert_eq, acquire_thread}
use openmso_api.Harness.Frontend.{
  default_hello, Step, lift, ◌>>=◌, ◌>>◌, send_raw_empty, granted, refused, greeted, thread, drain,
  code_of,
}

-- The requests of the tests.
abbrev start : ℕ → AcquireMode → RequestArm
start id mode = RequestArm.acquire_start (record { capture_id = id; mode = mode_number mode })

abbrev stop : ℕ → RequestArm
stop id = RequestArm.acquire_stop (record { capture_id = id })

abbrev configure : RequestArm
configure = RequestArm.set_config (record { config = some default_config })

-- `assert_eq!` of error codes, and of the arm with `Shutdown`.
abbrev assert_code : ErrorCode → ErrorCode → Outcome (Unit {0})
assert_code a b = assert_eq (error_code_number a) (error_code_number b)

abbrev assert_shutdown : ResponseArm → Outcome (Unit {0})
assert_shutdown ResponseArm.shutdown = ok tt
assert_shutdown _ = panic

-- `packed` is what the plugin's thread samples.
module _ (net : ℕ → Option NngError) (checks : Bool) (packed : List ℕ) where
  assert_refused : ErrorCode → RequestArm → Step (Unit {0})
  unfolding refused
  assert_refused expected arm = do code ← refused net checks arm; lift (assert_code code expected)

  unfoldable pub nothing_is_answered_before_hello : Step (Unit {0})
  unfolding assert_refused
  nothing_is_answered_before_hello = do
    assert_refused ErrorCode.invalid_request RequestArm.describe
    greeted net checks
    granted net checks RequestArm.describe
    assert_refused ErrorCode.invalid_request (RequestArm.hello default_hello)

  -- `push n` is what the thread of the capture does behind the n-th answer to a request.
  unfoldable pub a_running_capture_blocks_configuration : (ℕ → Step (Unit {0})) → Step (Unit {0})
  unfolding assert_refused
  a_running_capture_blocks_configuration push = do
    greeted net checks
    granted net checks (start 7 AcquireMode.continuous)
    push 0
    assert_refused ErrorCode.busy configure
    push 1
    assert_refused ErrorCode.busy RequestArm.get_config
    push 2
    assert_refused ErrorCode.busy RequestArm.describe
    push 3
    assert_refused ErrorCode.busy (start 8 AcquireMode.continuous)
    push 4
    granted net checks (stop 7)
    push 5
    samples ← drain checks
    lift (assert (bytes_eq samples packed))
    granted net checks configure
    lift (ok tt)

  unfoldable pub a_capture_that_ends_on_its_own_returns_to_ready : Step (Unit {0})
  a_capture_that_ends_on_its_own_returns_to_ready = do
    greeted net checks
    granted net checks (start 1 AcquireMode.single)
    thread (acquire_thread net checks 1 packed true)
    drain checks
    granted net checks (stop 1)
    granted net checks RequestArm.describe
    lift (ok tt)

  unfoldable pub reset_returns_to_ready_from_a_running_capture : Step (Unit {0})
  reset_returns_to_ready_from_a_running_capture = do
    greeted net checks
    granted net checks (start 1 AcquireMode.continuous)
    granted net checks RequestArm.reset
    granted net checks (start 2 AcquireMode.single)
    lift (ok tt)

  unfoldable pub a_request_with_no_arm_is_refused : Step (Unit {0})
  a_request_with_no_arm_is_refused = do
    greeted net checks
    response ← send_raw_empty net checks
    code ← lift (code_of response.error)
    lift (assert_code code ErrorCode.invalid_request)
    granted net checks RequestArm.describe
    lift (ok tt)

  unfoldable pub shutdown_is_answered : Step (Unit {0})
  shutdown_is_answered = do
    greeted net checks
    arm ← granted net checks RequestArm.shutdown
    lift (assert_shutdown arm)
