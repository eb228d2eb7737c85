-- ===== src/Setup.antt =====
-- packages/@twokeys/common-hi/src/setup: the commands that set up 2Keys on a computer.
pub mod Network
pub mod Oobe
pub mod Project
use keys.Prelude.{Option, some, String}
use keys.Registry

-- `new CodedError(message, code)`; an error of the system or of the language, with its code; what a
-- method of the add-on registry throws.
pub data Thrown : Type 0 where
  coded : String → Thrown
  foreign : Option String → Thrown
  in_registry : Registry.Thrown → Thrown

-- `err.code`
abbrev pub code_of : Thrown → Option String
code_of (coded c) = some c
code_of (foreign c) = c
code_of (in_registry e) = Registry.error_code e
