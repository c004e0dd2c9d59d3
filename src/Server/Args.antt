-- ===== src/Server/Args.antt =====
-- rust/openmso/src/server/args.rs: the argv that a frontend launches a plugin with.
pub mod Launch
use openmso_api.Prelude.{
  ℕ, Bool, true, false, Option, none, some, List, [], ◌∷◌, ◌==◌, if◌then◌else◌,
}
use openmso_api.Prelude.{Str, codes, bytes_eq}
use openmso_api.Failure.{
  Outcome, ok, err, protocol, unknown_argument, needs_value, missing_arguments,
}

pub record Args : Type 0 where
  pub device : Str
  pub control : Str
  pub events : Str

-- `'='`
abbrev pub equals_sign : ℕ
equals_sign = 61

-- The part before the first `=` grows at the front of what the rest gives.
abbrev pub put_front : ℕ → Str × Option Str → Str × Option Str
put_front b (flag, inline) = (b ∷ flag, inline)

-- `arg.split_once('=')`, with `(arg, None)` where there is no `=`.
unfoldable pub split_arg : Str → Str × Option Str
split_arg [] = ([], none)
split_arg (b ∷ bs) =
    let rest = split_arg bs in if b == equals_sign then ([], some bs) else put_front b rest

-- The three variables that the loop fills.
pub data Slot : Type 0 where
  device control events : Slot

pub record Slots : Type 0 where
  pub device : Option Str
  pub control : Option Str
  pub events : Option Str

abbrev pub no_slots : Slots
no_slots = record { device = none; control = none; events = none }

abbrev pub flag_text : Slot → Str
flag_text Slot.device = codes "--device"
flag_text Slot.control = codes "--control"
flag_text Slot.events = codes "--events"

-- `match flag.as_str()`
unfoldable pub slot_of : Str → Option Slot
slot_of flag =
    if bytes_eq flag (flag_text Slot.device)
    then some Slot.device
    else if bytes_eq flag (flag_text Slot.control)
    then some Slot.control
    else if bytes_eq flag (flag_text Slot.events)
    then some Slot.events
    else none

-- `*slot = Some(v)`
abbrev pub set_slot : Slot → Str → Slots → Slots
set_slot Slot.device v s = record s { device = some v }
set_slot Slot.control v s = record s { control = some v }
set_slot Slot.events v s = record s { events = some v }

-- The `match` behind the loop.
abbrev pub all_slots : Option Str → Option Str → Option Str → Outcome Args
all_slots (some d) (some c) (some e) = ok (record { device = d; control = c; events = e })
all_slots _ _ _ = err (protocol missing_arguments)

-- The loop, over the arguments that are left.
unfoldable pub parse_loop : List Str → Slots → Outcome Args
unfolding split_arg slot_of
parse_loop [] s = all_slots s.device s.control s.events
parse_loop (arg ∷ []) s =
    let (flag, inline) = split_arg arg in
    elim (slot_of flag) [
      | none ↦ err (protocol (unknown_argument flag))
      | some slot ↦ elim inline [
        | none ↦ err (protocol (needs_value flag))
        | some v ↦ parse_loop [] (set_slot slot v s)
      ]
    ]
parse_loop (arg ∷ next ∷ rest) s =
    let (flag, inline) = split_arg arg in
    elim (slot_of flag) [
      | none ↦ err (protocol (unknown_argument flag))
      | some slot ↦ elim inline [
        | none ↦ parse_loop rest (set_slot slot next s)
        | some v ↦ parse_loop (next ∷ rest) (set_slot slot v s)
      ]
    ]

-- `Args::parse`
unfoldable pub parse : List Str → Outcome Args
unfolding parse_loop
parse args = parse_loop args no_slots

-- `Args::from_env`, of the process's argv.
unfoldable pub from_env : List Str → Outcome Args
unfolding parse
from_env [] = parse []
from_env (program ∷ args) = parse args
