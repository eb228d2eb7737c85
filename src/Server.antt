-- ===== src/Server.antt =====
-- packages/@twokeys/server: the values of requests and configs that the server's modules read.
-- A value is what JSON and YAML give; an object is a list of its own keys, the first one counting.
-- An array stands as an object with none of the keys that the code asks for.
pub mod Trigger
pub mod Detectors
mod Startup
mod Api
use keys.Prelude.{Bool, true, false, Option, none, some, String, ◌==◌, not, is_some, if◌then◌else◌}

mutual
  pub data Value : Type 0 where
    null : Value
    text : String → Value
    -- a number or a truth value: whether it is truthy, and its text
    scalar : Bool → String → Value
    object : Fields → Value

  pub data Fields : Type 0 where
    end : Fields
    field : String → Value → Fields → Fields

unfoldable pub get : String → Fields → Option Value
get k end = none
get k (field j v o) = if j == k then some v else get k o

-- util/hasOwnProperty.ts
unfoldable pub has_own_property : Fields → String → Bool
unfolding get
has_own_property o k = is_some (get k o)

abbrev pub truthy : Option Value → Bool
truthy none = false
truthy (some null) = false
truthy (some (text s)) = not (s == "")
truthy (some (scalar b s)) = b
truthy (some (object o)) = true

-- A value as the key of a property.
abbrev pub to_key : Option Value → String
to_key none = "undefined"
to_key (some null) = "null"
to_key (some (text s)) = s
to_key (some (scalar b s)) = s
to_key (some (object o)) = "[object Object]"
