-- ===== src/Commands/Laws.antt =====
-- What wrapping does to a command, in packages/@twokeys/common-hi/src/common/command-factory.ts.
use keys.Prelude.{
  true, none, some, String, ◌≡◌, Bool-cases, inl, inr, Result, ok, throws, and_then, arith,
}
use keys.Commands.{
  InfoValue, info, Thrown, type_error, Command, command_info, check_command_info, wrap_command,
  call_command, create_stateful_command,
}

wrap_lem :
    {P : Type 0} {d : Command P} (c : Command P) (name : String) (protobuf : P)
    → wrap_command c name protobuf ≡ ok d
    → (command_info d ≡ some (info (some name) (some protobuf)))
      × (c.own ≡ none → d.is_fixed ≡ true)
unfolding wrap_command
wrap_lem c name protobuf h = elim (Bool-cases c.is_fixed) [
  | inl f ↦ absurd (ground (arith, h, f))
  | inr f ↦ (ground (arith, h, f), λ n. ground (arith, h, f, n))
]

module _ {P : Type 0} (c d : Command P) (name : String) (protobuf : P)
    (wrapped : wrap_command c name protobuf ≡ ok d) where
  wrapped_info : command_info d ≡ some (info (some name) (some protobuf))
  wrapped_info = (wrap_lem c name protobuf wrapped).0

  module _ {T C U Q : Type 0} (construct : InfoValue P → Q → Result Thrown T) where
    -- A call of a command that was wrapped constructs the TwoKeys instance with the name and the
    -- protobuf class that were given, also where the class inherits another info, and runs the
    -- command with it; a stateful command is made with that instance.
    pub call-wrap :
        (body : T → C → Result Thrown U) (make : T → Result Thrown U) (config : C) (properties : Q)
        → (call_command construct d body config properties
            ≡ and_then
                (construct (info (some name) (some protobuf)) properties)
                (λ twokeys. body twokeys config))
          × (create_stateful_command construct d make properties
              ≡ and_then (construct (info (some name) (some protobuf)) properties) make)
    unfolding call_command create_stateful_command check_command_info
    call-wrap body make config properties = (rw wrapped_info, rw wrapped_info)

  -- A command that had no info of its own can be wrapped once: each further wrapping is a TypeError.
  pub wrap-wrap : (next : String) (p : P) → c.own ≡ none → wrap_command d next p ≡ throws type_error
  unfolding wrap_command
  wrap-wrap next p fresh = rw ((wrap_lem c name protobuf wrapped).1 fresh)
