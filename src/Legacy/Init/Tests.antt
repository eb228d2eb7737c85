-- ===== src/Legacy/Init/Tests.antt =====
-- packages/@twokeys/legacy-server/src/init/get-config.ts on sample interfaces and answers.
use Prim.Native.String.{◌++◌ as append}
use keys.Prelude.{
  ℕ, zero, suc, ◌<◌, ◌≤◌, true, false, ◌==◌, Option, none, some, List, [], ◌∷◌, String, ◌≡◌, ◌≢◌,
  ◌↔◌, refl, map, keep, arith, eq_iff, property, if◌then◌else◌,
}
use keys.Legacy.Init.{
  NetworkInterface, usable, choices_of, read_ip, Answers, Config, exits, pending, resolved,
  get_config, new_keyboard, split_list,
}
use keys.Legacy.Init.Addresses.{is_plain, all_plain, read_back, read-choices}
use keys.Legacy.Init.Keyboards.{name_of, dir_of, get_config-keyboards, get_config-settles}

abbrev digit : ℕ → String
digit zero = "0"
digit (suc zero) = "1"
digit (suc (suc n)) = "2"

digit_plain : (n : ℕ) → is_plain (append "alias " (digit n)) ≡ true
unfolding is_plain
digit_plain zero = refl
digit_plain (suc zero) = refl
digit_plain (suc (suc n)) = refl

abbrev two_addresses : List NetworkInterface
two_addresses =
    record { family = "IPv4"; internal = false; address = "192.168.0.2" }
    ∷ record { family = "IPv6"; internal = false; address = "fe80::1" }
    ∷ record { family = "IPv4"; internal = false; address = "10.0.0.2" }
    ∷ []

eth_plain : is_plain "eth0" ≡ true
unfolding is_plain
eth_plain = refl

addresses_plain : all_plain digit digit_plain two_addresses ≡ true
unfolding is_plain
addresses_plain = refl

read_alias :
    map read_ip (choices_of digit "eth0" 0 two_addresses) ≡ some "192.168.0.2" ∷ some "alias 1" ∷ []
unfolding read_ip choices_of split_list
read_alias = refl

read-choices_example :
    map read_ip (choices_of digit "eth0" 0 two_addresses)
    ≡ read_back digit digit_plain 0 (keep usable two_addresses)
read-choices_example =
    read-choices digit digit_plain "eth0" 0 two_addresses eth_plain addresses_plain

abbrev typed : String → String
typed q =
    if q == "keyboard_1"
    then "left"
    else if q == "keyboard_dir_1"
    then "./left"
    else if q == "keyboard_2"
    then "right"
    else "./right"

abbrev as_port : String → Option ℕ
as_port s = some 9090

abbrev two_keyboards : Answers
two_keyboards = record {
  name = "desk";
  number_keyboards = some 2;
  allow_ssh = true;
  detector_ip = "192.168.0.3";
  local_ip = "eth0, 192.168.0.2";
  local_port = "9090";
}

later_differs :
    (m : ℕ) → 1 < m → m ≤ 2 → name_of digit as_port typed m ≢ name_of digit as_port typed 1
later_differs zero l u h = absurd (omega arith)
later_differs (suc zero) l u h = absurd (omega arith)
later_differs (suc (suc zero)) l u h =
    let e : (("right" == "left") ≡ true) = (eq_iff "right" "left").1 h in cc
later_differs (suc (suc (suc m))) l u h = absurd (omega arith)

get_config-keyboards_example :
    (c : Config) × (get_config digit as_port typed two_keyboards ≡ resolved c)
    × (property (name_of digit as_port typed 1) c.keyboards
        ≡ some (new_keyboard (dir_of digit as_port typed 1)))
get_config-keyboards_example =
    get_config-keyboards digit as_port typed two_keyboards 1 1 refl (omega arith) (omega arith)
      later_differs

get_config-settles_example :
    ((get_config digit as_port typed two_keyboards ≡ pending)
      ↔ (two_keyboards.number_keyboards ≡ none))
    × ((get_config digit as_port typed two_keyboards ≡ exits)
        ↔ (two_keyboards.number_keyboards ≡ some 0))
get_config-settles_example = get_config-settles digit as_port typed two_keyboards
