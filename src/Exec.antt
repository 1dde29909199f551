-- ===== src/Exec.antt =====
-- Code that changes a state and may stop the process. `span_err` of dragon/util.c prints its
-- message and calls `exit(1)`, `abort()` ends the process too, and undefined behaviour has no
-- meaning at all; nothing that was changed before matters then, so a stop carries no state.
pub mod Rules
pub mod Total
use cs.Prelude.{Bool, true, false, String, Option, none, some}

-- The messages that end the compilation, by the place that prints them.
pub data Message : Type 0 where
  already_defined no_such_library unresolved_variable unresolved_subprogram : String → Message
  field_of_non_record no_such_field : String → Message
  unprintable_argument not_an_lvalue not_callable wrong_argument_count : Message
  incompatible_operands unsupported_operator dereferenced_non_pointer indexed_non_array : Message
  non_integer_index unary_sign_of_non_number not_of_non_boolean : Message
  assigned_to_nonlocal incompatible_assignment : Message
  for_start_not_integer for_end_not_integer for_variable_not_integer : Message
  if_not_boolean while_not_boolean : Message
  return_not_assigned : String → Message
  size_of_type_ref : Message

pub data Stop : Type 0 where
  span_err : Message → Stop
  aborted : Stop
  undefined : Stop
  out_of_fuel : Stop

pub data Result {ℓ} (A : Type ℓ) : Type ℓ where
  ok : A → Result A
  stop : Stop → Result A

abbrev pub Exec {ℓ} : Type ℓ → Type ℓ → Type ℓ
Exec S A = S → Result (A × S)

module _ {ℓ} {S A : Type ℓ} where
  abbrev pub pure : A → Exec S A
  pure a s = ok (a, s)

  abbrev pub halt : Stop → Exec S A
  halt e s = stop e

  abbrev pub gets : (S → A) → Exec S A
  gets f s = ok (f s, s)

  -- A value that is absent is read through a bad pointer.
  abbrev pub require : Option A → Exec S A
  require none s = stop undefined
  require (some a) s = ok (a, s)

module _ {ℓ} {S A B : Type ℓ} where
  abbrev pub continue : Result (A × S) → (A → Exec S B) → Result (B × S)
  continue (ok (a, s)) f = f a s
  continue (stop e) f = stop e

  infixl 5 ◌>>=◌ ◌>>◌
  abbrev pub ◌>>=◌ : Exec S A → (A → Exec S B) → Exec S B
  ◌>>=◌ m f s = continue (m s) f

  abbrev pub ◌>>◌ : Exec S A → Exec S B → Exec S B
  m >> n = m >>= λ _. n

module _ {S : Type 0} where
  abbrev pub modify : (S → S) → Exec S (Unit {0})
  modify f s = ok (tt, f s)

  -- `if (bad) stop`
  abbrev pub stop_if : Bool → Stop → Exec S (Unit {0})
  stop_if true e s = stop e
  stop_if false e s = ok (tt, s)
