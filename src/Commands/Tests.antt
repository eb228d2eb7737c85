-- ===== src/Commands/Tests.antt =====
-- Wrapping a sample command, in packages/@twokeys/common-hi/src/common/command-factory.ts.
use keys.Prelude.{true, false, none, some, String, ◌≡◌, refl, Result, ok, and_then}
use keys.Commands.{
  InfoValue, info, Thrown, Command, wrap_command, call_command, create_stateful_command,
}
use keys.Commands.Laws.{call-wrap}

abbrev plain : Command String
plain = record { own = none; is_fixed = false; inherited = none }

abbrev oobe : Command String
oobe = record { own = some (info (some "oobe") (some "proto")); is_fixed = true; inherited = none }

abbrev build : InfoValue String → String → Result Thrown (InfoValue String)
build i properties = ok i

abbrev greet : InfoValue String → String → Result Thrown String
greet i config = ok config

wraps : wrap_command plain "oobe" "proto" ≡ ok oobe
unfolding wrap_command
wraps = refl

call-wrap_example :
    (call_command build oobe greet "hello" ""
      ≡ and_then (build (info (some "oobe") (some "proto")) "") (λ t. greet t "hello"))
    × (create_stateful_command build oobe (λ t. greet t "made") ""
        ≡ and_then (build (info (some "oobe") (some "proto")) "") (λ t. greet t "made"))
call-wrap_example =
    call-wrap plain oobe "oobe" "proto" wraps build greet (λ t. greet t "made") "hello" ""
