-- ===== src/Setup/Network.antt =====
-- packages/@twokeys/common-hi/src/setup/util/setIPv4.ts. A method changes the list of the commands
-- that have been run. `is_white` is `\s` of a regular expression; `now` is what `networkInterfaces()`
-- has for the adapter before the command, `ticks` what it has each time that it is asked afterwards.
pub mod Formats
mod Laws
mod Tests
use Prim.Native.Char.{Char, code}
use Prim.Native.String.{◌++◌ as append}
use native.Mathlib.Decide.{dec_le}
use keys.Prelude.{
  ℕ, Bool, true, false, not, ◌==◌, ◌&&◌, ◌||◌, Option, none, some, List, [], ◌∷◌, String, keep,
  snoc, Exec, Result, ok, throws, pure, throw, lift, ◌>>=◌, ◌>>◌, if◌then◌else◌,
}
use keys.Setup.{Thrown, coded, foreign}

abbrev pub leb : ℕ → ℕ → Bool
leb m n = elim (dec_le m n) [ yes _ ↦ true | no _ ↦ false ]

abbrev pub between : ℕ → ℕ → Char → Bool
between lo hi c = leb lo (code c) && leb (code c) hi

-- `[0-9]`, and the other ranges of digits in the pattern of addresses.
abbrev pub digit_upto : ℕ → Char → Bool
digit_upto n = between 48 n

-- `25[0-5]|2[0-4][0-9]|[01]?[0-9][0-9]?`
unfoldable pub is_octet : String → Bool
is_octet String.[] = false
is_octet (String.◌∷◌ a String.[]) = digit_upto 57 a
is_octet (String.◌∷◌ a (String.◌∷◌ b String.[])) = digit_upto 57 a && digit_upto 57 b
is_octet (String.◌∷◌ a (String.◌∷◌ b (String.◌∷◌ c String.[]))) =
    (between 50 50 a && between 53 53 b && digit_upto 53 c)
    || (between 50 50 a && digit_upto 52 b && digit_upto 57 c)
    || (digit_upto 49 a && digit_upto 57 b && digit_upto 57 c)
is_octet (String.◌∷◌ a (String.◌∷◌ b (String.◌∷◌ c (String.◌∷◌ d s)))) = false

abbrev pub onto_word : Char → List String → List String
onto_word c [] = String.◌∷◌ c String.[] ∷ []
onto_word c (w ∷ ws) = String.◌∷◌ c w ∷ ws

-- The parts between the dots.
unfoldable pub parts : String → List String
parts String.[] = "" ∷ []
parts (String.◌∷◌ c s) =
    let rest = parts s in if between 46 46 c then "" ∷ rest else onto_word c rest

abbrev pub four_octets : List String → Bool
four_octets (a ∷ b ∷ c ∷ d ∷ []) = is_octet a && is_octet b && is_octet c && is_octet d
four_octets _ = false

-- `IPV4_REGEXP.test`
unfoldable pub is_ipv4 : String → Bool
is_ipv4 s = four_octets (parts s)

abbrev pub is_letter : Char → Bool
is_letter c = between 65 90 c || between 97 122 c

pub record Interface : Type 0 where
  pub family : String
  pub address : String

module _ (is_white : Char → Bool) where
  -- `[\sa-zA-Z0-9[\]()]`
  abbrev pub is_name_char : Char → Bool
  is_name_char c =
      is_white c
      || is_letter c
      || digit_upto 57 c
      || between 91 91 c
      || between 93 93 c
      || between 40 41 c

  unfoldable pub all_name_chars : String → Bool
  all_name_chars String.[] = true
  all_name_chars (String.◌∷◌ c s) = is_name_char c && all_name_chars s

  -- `IFACE_REGEXP.test`: a letter, and then one or more of the others.
  unfoldable pub is_interface_name : String → Bool
  is_interface_name String.[] = false
  is_interface_name (String.◌∷◌ a String.[]) = false
  is_interface_name (String.◌∷◌ a (String.◌∷◌ b s)) = is_letter a && all_name_chars (String.◌∷◌ b s)

  abbrev pub is_v4 : Interface → Bool
  is_v4 i = i.family == "IPv4"

  abbrev pub check_first :
      String → List Interface → Result Thrown (Unit {0}) → Result Thrown (Unit {0})
  check_first ipv4 [] later = throws (foreign none)
  check_first ipv4 (i ∷ is) later = if i.address == ipv4 then ok tt else later

  abbrev pub check_tick :
      String → Option (List Interface) → Result Thrown (Unit {0}) → Result Thrown (Unit {0})
  check_tick ipv4 none later = throws (coded "INET_NOENT")
  check_tick ipv4 (some is) later = check_first ipv4 (keep is_v4 is) later

  -- `checkIP`: one look every 1.5 seconds until 7 seconds are over. To read the address of an adapter
  -- without one throws in the timer's callback, which ends the process.
  unfoldable pub check_ip : String → List (Option (List Interface)) → Result Thrown (Unit {0})
  check_ip ipv4 [] = throws (coded "INET_IPV4_NOT_SET")
  check_ip ipv4 (t ∷ ticks) = check_tick ipv4 t (check_ip ipv4 ticks)

  abbrev pub command : String → String → String
  command adapter ipv4 =
      append
        "start powershell -Command \"Start-Process netsh -Verb runAs -ArgumentList \\\"interface ipv4 set address name=`\\\""
        (append adapter (append "`\\\" static " (append ipv4 "\\\"\"")))

  module _ (prompted : Result Thrown (Unit {0})) (exec : String → Result Thrown (Unit {0})) where
    abbrev pub run_command : String → Exec Thrown (List String) Unit
    run_command c commands = (exec c, snoc commands c)

    abbrev pub with_addresses :
        String
        → String
        → List (Option (List Interface))
        → List Interface
        → Exec Thrown (List String) Unit
    with_addresses adapter ipv4 ticks [] = throw (foreign none)
    with_addresses adapter ipv4 ticks (i ∷ j ∷ is) = throw (coded "INET_TOO_MANY")
    with_addresses adapter ipv4 ticks (i ∷ []) =
        lift prompted >> run_command (command adapter ipv4) >> lift (check_ip ipv4 ticks)

    abbrev pub with_interface :
        String
        → String
        → List (Option (List Interface))
        → Option (List Interface)
        → Exec Thrown (List String) Unit
    with_interface adapter ipv4 ticks none = throw (coded "INET_NOENT")
    with_interface adapter ipv4 ticks (some is) = with_addresses adapter ipv4 ticks (keep is_v4 is)

    unfoldable pub set_static_ipv4_address :
        String
        → String
        → Option (List Interface)
        → List (Option (List Interface))
        → Exec Thrown (List String) Unit
    set_static_ipv4_address adapter ipv4 now ticks =
        if not (is_ipv4 ipv4)
        then throw (coded "INET_INVALID_IPV4")
        else if not (is_interface_name adapter)
        then throw (coded "INET_INVALID_OR_UNSAFE_NAME")
        else with_interface adapter ipv4 ticks now
