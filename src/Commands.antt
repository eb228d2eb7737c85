-- ===== src/Commands.antt =====
-- packages/@twokeys/common-hi/src/common/command-factory.ts and is-command.ts. `P` are the protobuf
-- classes, `T` the instances of TwoKeys, `C` the configs, `U` the results of commands, `Q` the
-- properties of a call.
pub mod Laws
mod Tests
use keys.Prelude.{
  Bool, true, false, Option, none, some, String, Result, ok, throws, and_then, if◌then◌else◌,
}

-- A value of the property `commandInfo`: `null`, one without properties, or an object, whose
-- commandName may be missing or no text.
pub data InfoValue (P : Type 0) : Type 0 where
  null : InfoValue P
  other : InfoValue P
  info : Option String → Option P → InfoValue P

pub data Thrown : Type 0 where
  not_a_command bad_command_name type_error : Thrown
  foreign : String → Thrown

-- A function or class: its own `commandInfo`, whether that can no longer be redefined, and the one
-- that it inherits.
pub record Command (P : Type 0) : Type 0 where
  pub own : Option (InfoValue P)
  pub is_fixed : Bool
  pub inherited : Option (InfoValue P)

module _ {P : Type 0} where
  abbrev pub command_info : Command P → Option (InfoValue P)
  command_info c = elim c.own [ none ↦ c.inherited | some i ↦ some i ]

  abbrev pub check_info : Option (InfoValue P) → Result Thrown (InfoValue P)
  check_info none = throws not_a_command
  check_info (some null) = throws type_error
  check_info (some other) = throws bad_command_name
  check_info (some (info none protobuf)) = throws bad_command_name
  check_info (some (info (some name) protobuf)) = ok (info (some name) protobuf)

  -- The check, with the info that the code reads after it.
  unfoldable pub check_command_info : Command P → Result Thrown (InfoValue P)
  check_command_info c = check_info (command_info c)

  -- `Object.defineProperty(command, "commandInfo", { value: info })`: a property that it makes can
  -- not be written or redefined; one that was assigned before stays as free as it was.
  abbrev pub fixed_after : Option (InfoValue P) → Bool → Bool
  fixed_after none fixed = true
  fixed_after (some i) fixed = fixed

  unfoldable pub wrap_command : Command P → String → P → Result Thrown (Command P)
  wrap_command c name protobuf =
      if c.is_fixed
      then throws type_error
      else ok record c {
        own = some (info (some name) (some protobuf));
        is_fixed = fixed_after c.own c.is_fixed;
      }

  module _ {T U Q : Type 0} (construct : InfoValue P → Q → Result Thrown T) where
    -- `new command(…)`
    unfoldable pub create_stateful_command : Command P → (T → Result Thrown U) → Q → Result Thrown U
    create_stateful_command c make properties =
        and_then (check_command_info c) λ i. and_then (construct i properties) make

    unfoldable pub call_command :
        {C : Type 0} → Command P → (T → C → Result Thrown U) → C → Q → Result Thrown U
    call_command c body config properties =
        and_then (check_command_info c)
          λ i. and_then (construct i properties) λ twokeys. body twokeys config
