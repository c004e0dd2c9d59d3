-- ===== src/Server/Race.antt =====
-- Threads that call `Events::send` of rust/openmso/src/server/events.rs at the same time, one atomic
-- access at a time.
pub mod Threads
pub mod Order
pub mod Gaps
use openmso_api.Prelude.{
  ℕ, suc, Bool, true, false, Option, none, some, List, [], ◌∷◌, ◌++◌, if◌then◌else◌,
}
use openmso_api.Proto.Stream.{Event}
use openmso_api.Failure.{NngError}
use openmso_api.Server.Events.{Events, set_running, ends_capture, push_socket}

-- An access to what the threads share: the store to the flag, or the push on the socket.
pub data Action : Type 0 where
  clear : Action
  push : Event → Action

-- The accesses of one `send`, and of the sends of a thread.
abbrev pub send_actions : Event → List Action
send_actions event = if ends_capture event then clear ∷ push event ∷ [] else push event ∷ []

abbrev pub program : List Event → List Action
program [] = []
program (event ∷ events) = send_actions event ++ program events

-- The events that are pushed, in their order.
abbrev pub pushes : List Action → List Event
pushes [] = []
pushes (clear ∷ actions) = pushes actions
pushes (push event ∷ actions) = event ∷ pushes actions

module _ (net : ℕ → Option NngError) where
  unfoldable pub act : Action → Events → Events
  unfolding push_socket
  act clear e = set_running false e
  act (push event) e = push_socket (net e.tries) event e

  unfoldable pub run_actions : List Action → Events → Events
  unfolding act
  run_actions [] e = e
  run_actions (action ∷ actions) e = run_actions actions (act action e)

-- An order of the elements of two lists, and of any number of lists, that keeps the order of each.
pub data Merge {A : Type 0} : List A → List A → List A → Type 0 where
  done : Merge [] [] []
  left : {x : A} {xs ys zs : List A} → Merge xs ys zs → Merge (x ∷ xs) ys (x ∷ zs)
  right : {y : A} {xs ys zs : List A} → Merge xs ys zs → Merge xs (y ∷ ys) (y ∷ zs)

pub data Interleaved {A : Type 0} : List (List A) → List A → Type 0 where
  idle : Interleaved [] []
  thread :
      {xs ys zs : List A} {threads : List (List A)}
      → Merge xs ys zs
      → Interleaved threads ys
      → Interleaved (xs ∷ threads) zs
