-- ===== src/World.antt =====
-- The operating system and nng, as rust/openmso/src calls them: which calls succeeded, and what is held.
pub mod Calls
use openmso_api.Prelude.Paths.{Dir, private_dir}
use openmso_api.Prelude.{
  ℕ, ◌+◌, Bool, true, false, Option, none, some, List, [], ◌∷◌, ◌==◌, if◌then◌else◌, Str,
}
use openmso_api.Failure.{NngError, IoError, Outcome, ok, err, panic, stuck, nng, io}

-- `nng::Protocol`: the four that the code names.
pub data Protocol : Type 0 where
  req0 rep0 push0 pull0 : Protocol

-- `nng::ListenerBuilder`, by the order of its making.
pub record Listener : Type 0 where
  pub id : ℕ
  pub socket : ℕ
  pub url : Str

-- A call, of the parts that it names: sockets and children are numbers, and a `Duration` is one in
-- milliseconds.
pub data Call : Type 0 where
  new_socket : Protocol → ℕ → Call
  recv_max_size : ℕ → ℕ → Call
  send_timeout resend_time recv_timeout : ℕ → Option ℕ → Call
  new_listener : Listener → Call
  permissions : Listener → ℕ → Call
  start : Listener → Call
  dial : ℕ → Str → Call
  spawn : ℕ → Str → List Str → Call
  kill wait : ℕ → Call

-- The calls that succeeded, newest first, and the number of the next socket, listener or child; and
-- the handles of open sockets, the runtime directories and the children that run or were not waited for.
pub record World : Type 0 where
  pub calls : List Call
  pub next : ℕ
  pub sockets : List ℕ
  pub dirs : List Dir
  pub children : List ℕ

-- What the system answers: the error of a call, if any, after the calls so far, and what
-- `Endpoints::new` depends on.
pub record System : Type 0 where
  pub nng_error : Call → List Call → Option NngError
  pub io_error : Call → List Call → Option IoError
  pub refused : Str → Option IoError
  pub base : Str
  pub prepared : Outcome (Unit {0})
  pub entropy : ℕ

-- Code that calls the system.
abbrev pub Io : Type 0 → Type 0
Io A = World → World × Outcome A

abbrev pub pure : {A : Type 0} → A → Io A
pure a w = (w, ok a)

-- `?` on a call's result, and what follows it.
abbrev pub followed : {A B : Type 0} → World × Outcome A → (A → Io B) → World × Outcome B
followed (w, ok a) f = f a w
followed (w, err e) f = (w, err e)
followed (w, panic) f = (w, panic)
followed (w, stuck) f = (w, stuck)

infixl 5 ◌>>=◌ ◌>>◌
abbrev pub ◌>>=◌ : {A B : Type 0} → Io A → (A → Io B) → Io B
◌>>=◌ m f w = followed (m w) f

abbrev pub ◌>>◌ : {B : Type 0} → Io (Unit {0}) → Io B → Io B
m >> k = m >>= λ _. k

abbrev pub dropped : {A : Type 0} → (World → World) → World × Outcome A → World × Outcome A
dropped drop (w, ok a) = (w, ok a)
dropped drop (w, err e) = (drop w, err e)
dropped drop (w, panic) = (drop w, panic)
dropped drop (w, stuck) = (drop w, stuck)

-- A scope that owns what `drop` gives back: the scope's value moves it out, and any other way out
-- drops it.
abbrev pub or_drop : {A : Type 0} → (World → World) → Io A → Io A
or_drop drop m w = dropped drop (m w)

-- One handle of a number less.
abbrev pub remove_one : ℕ → List ℕ → List ℕ
remove_one n [] = []
remove_one n (m ∷ ms) = let rest = remove_one n ms in if n == m then ms else m ∷ rest

-- The drop of a `Socket`.
abbrev pub close : ℕ → World → World
close s w = record w { sockets = remove_one s w.sockets }

-- `Socket::clone`
abbrev pub clone : ℕ → World → World
clone s w = record w { sockets = s ∷ w.sockets }

abbrev pub take_number : Io ℕ
take_number w = (record w { next = w.next + 1 }, ok w.next)

module _ (sys : System) where
  -- A call of nng, and one of the operating system.
  abbrev pub nng_call : Call → Io (Unit {0})
  nng_call c w = elim (sys.nng_error c w.calls) [
    | none ↦ (record w { calls = c ∷ w.calls }, ok tt)
    | some e ↦ (w, err (nng e))
  ]

  abbrev pub io_call : Call → Io (Unit {0})
  io_call c w = elim (sys.io_error c w.calls) [
    | none ↦ (record w { calls = c ∷ w.calls }, ok tt)
    | some e ↦ (w, err (io e))
  ]
