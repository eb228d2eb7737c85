-- ===== src/Setup/Network/Tests.antt =====
-- packages/@twokeys/common-hi/src/setup/util/setIPv4.ts on sample addresses.
use Prim.Native.Char.{Char}
use native.Mathlib.Decide.{dec_le}
use keys.Prelude.{
  Bool, true, false, some, List, [], ◌∷◌, String, ◌≡◌, refl, ◌⊎◌, Result, ok, arith, Bool-cases,
  inl, inr,
}
use keys.Setup.{Thrown}
use keys.Setup.Network.{
  Interface, between, is_octet, parts, is_ipv4, is_interface_name, all_name_chars, command,
}
use keys.Setup.Network.Formats.{
  IsAddress, between_le, special_codes, is_special, any_special, is_ipv4-IsAddress,
}
use keys.Setup.Network.Laws.{HasOneAddress, commands, set_static_ipv4_address-safe}

-- White space: the space alone.
abbrev blank : Char → Bool
blank c = between 32 32 c

blank-plain : (c : Char) → blank c ≡ true → is_special c ≡ false
blank-plain c h = elim (Bool-cases (is_special c)) [
  | inl s ↦ absurd (ground (arith, h, special_codes c s, between_le 32 32 c))
  | inr e ↦ e
]

accepts_address : is_ipv4 "192.168.0.255" ≡ true
unfolding is_ipv4 is_octet parts dec_le
accepts_address = refl

refuses_address : is_ipv4 "192.168.0.256" ≡ false
unfolding is_ipv4 is_octet parts dec_le
refuses_address = refl

is_ipv4-IsAddress_example : IsAddress (parts "192.168.0.255")
is_ipv4-IsAddress_example = is_ipv4-IsAddress "192.168.0.255" accepts_address

accepts_name : is_interface_name blank "Ethernet 2 (USB)" ≡ true
unfolding is_interface_name all_name_chars dec_le
accepts_name = refl

abbrev with_address : String → List Interface
with_address a = record { family = "IPv4"; address = a } ∷ []

abbrev succeeds : String → Result Thrown (Unit {0})
succeeds c = ok tt

set_static_ipv4_address-safe_example :
    (commands blank (ok tt) succeeds "Ethernet 2" "10.0.0.2" (some (with_address "10.0.0.1")) []
      ≡ [])
    ⊎ ((commands blank (ok tt) succeeds "Ethernet 2" "10.0.0.2" (some (with_address "10.0.0.1")) []
          ≡ command blank "Ethernet 2" "10.0.0.2" ∷ [])
        × (is_ipv4 "10.0.0.2" ≡ true)
        × (any_special "Ethernet 2" ≡ false)
        × HasOneAddress blank (ok tt) succeeds (some (with_address "10.0.0.1")))
set_static_ipv4_address-safe_example =
    set_static_ipv4_address-safe blank (ok tt) succeeds blank-plain "Ethernet 2" "10.0.0.2"
      (some (with_address "10.0.0.1")) []
