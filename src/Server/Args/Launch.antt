-- ===== src/Server/Args/Launch.antt =====
-- What `Args::parse` reads from settings in either notation, and from the argv of a launch.
use openmso_api.Prelude.{none, List, [], ◌∷◌, ◌++◌}
use openmso_api.Prelude.{Str, ◌≡◌, ◌∙◌, refl, sym, ap}
use mathlib.Core.List.{append_assoc, append-nil}
use openmso_api.Failure.{ok, err, protocol, unknown_argument, needs_value}
use openmso_api.Server.Args.{
  Slot, Slots, no_slots, equals_sign, split_arg, slot_of, flag_text, set_slot, all_slots,
  parse_loop, parse,
}

-- A setting, as `--flag value` or as `--flag=value`.
pub data Setting : Type 0 where
  apart inline : Slot → Str → Setting

abbrev pub spell : Setting → List Str
spell (Setting.apart slot v) = flag_text slot ∷ v ∷ []
spell (Setting.inline slot v) = (flag_text slot ++ equals_sign ∷ v) ∷ []

abbrev pub spell_all : List Setting → List Str
spell_all [] = []
spell_all (x ∷ xs) = spell x ++ spell_all xs

-- A later setting of a slot replaces an earlier one.
abbrev pub settle : List Setting → Slots → Slots
settle [] s = s
settle (Setting.apart slot v ∷ xs) s = settle xs (set_slot slot v s)
settle (Setting.inline slot v ∷ xs) s = settle xs (set_slot slot v s)

parse_apart :
    (slot : Slot) (v : Str) (rest : List Str) (s : Slots)
    → parse_loop (flag_text slot ∷ v ∷ rest) s ≡ parse_loop rest (set_slot slot v s)
unfolding parse_loop
parse_apart Slot.device v rest s = refl
parse_apart Slot.control v rest s = refl
parse_apart Slot.events v rest s = refl

parse_inline :
    (slot : Slot) (v : Str) (rest : List Str) (s : Slots)
    → parse_loop ((flag_text slot ++ equals_sign ∷ v) ∷ rest) s
      ≡ parse_loop rest (set_slot slot v s)
unfolding parse_loop
parse_inline Slot.device v [] s = refl
parse_inline Slot.control v [] s = refl
parse_inline Slot.events v [] s = refl
parse_inline Slot.device v (next ∷ rest) s = refl
parse_inline Slot.control v (next ∷ rest) s = refl
parse_inline Slot.events v (next ∷ rest) s = refl

parse_loop-spell_all :
    (xs : List Setting) (more : List Str) (s : Slots)
    → parse_loop (spell_all xs ++ more) s ≡ parse_loop more (settle xs s)
parse_loop-spell_all [] more s = refl
parse_loop-spell_all (Setting.apart slot v ∷ xs) more s =
    parse_apart slot v (spell_all xs ++ more) s ∙ parse_loop-spell_all xs more (set_slot slot v s)
parse_loop-spell_all (Setting.inline slot v ∷ xs) more s =
    ap (λ t. parse_loop t s) (append_assoc (spell (Setting.inline slot v)) (spell_all xs) more)
    ∙ parse_inline slot v (spell_all xs ++ more) s
    ∙ parse_loop-spell_all xs more (set_slot slot v s)

-- `Args::parse` of any settings, each in either notation, in any order and with any values, gives
-- each slot its last value, and fails only for want of a slot.
pub parse-spell_all :
    (xs : List Setting)
    → let s : Slots = settle xs no_slots in
      parse (spell_all xs) ≡ all_slots s.device s.control s.events
unfolding parse parse_loop
parse-spell_all xs =
    ap parse (sym (append-nil (spell_all xs))) ∙ parse_loop-spell_all xs [] no_slots

parse_loop_unknown :
    (arg : Str) (rest : List Str) (s : Slots)
    → slot_of (split_arg arg).0 ≡ none
    → parse_loop (arg ∷ rest) s ≡ err (protocol (unknown_argument (split_arg arg).0))
unfolding parse_loop
parse_loop_unknown arg [] s h = rw (h, parse_loop)
parse_loop_unknown arg (next ∷ rest) s h = rw (h, parse_loop)

parse_loop_dangling :
    (slot : Slot) (s : Slots)
    → parse_loop (flag_text slot ∷ []) s ≡ err (protocol (needs_value (flag_text slot)))
unfolding parse_loop
parse_loop_dangling Slot.device s = refl
parse_loop_dangling Slot.control s = refl
parse_loop_dangling Slot.events s = refl

-- Behind any settings, an argument of an unknown flag makes `Args::parse` fail with the flag's
-- text, whatever follows it.
pub parse_unknown :
    (xs : List Setting) (arg : Str) (rest : List Str)
    → slot_of (split_arg arg).0 ≡ none
    → parse (spell_all xs ++ arg ∷ rest) ≡ err (protocol (unknown_argument (split_arg arg).0))
unfolding parse
parse_unknown xs arg rest h =
    parse_loop-spell_all xs (arg ∷ rest) no_slots
    ∙ parse_loop_unknown arg rest (settle xs no_slots) h

-- Behind any settings, a flag at the very end makes `Args::parse` fail for want of its value.
pub parse_dangling :
    (xs : List Setting) (slot : Slot)
    → parse (spell_all xs ++ flag_text slot ∷ []) ≡ err (protocol (needs_value (flag_text slot)))
unfolding parse
parse_dangling xs slot =
    parse_loop-spell_all xs (flag_text slot ∷ []) no_slots
    ∙ parse_loop_dangling slot (settle xs no_slots)

-- The settings that end an argv are the ones that count.
pub parse_last :
    (xs : List Setting) (device control events : Str)
    → parse (
        spell_all xs
        ++ spell_all (
            Setting.apart Slot.device device
            ∷ Setting.apart Slot.control control
            ∷ Setting.apart Slot.events events
            ∷ []))
      ≡ ok (record { device = device; control = control; events = events })
unfolding parse parse_loop
parse_last xs device control events = parse_loop-spell_all xs _ no_slots ∙ refl
