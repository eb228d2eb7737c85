-- ===== src/Legacy/Init.antt =====
-- packages/@twokeys/legacy-server/src/init/get-config.ts: the questions that `init` asks, and the
-- config made of the answers. `show` writes a number as JavaScript does; the answers that `inquirer`
-- gives are a function of the question's name; a promise that is never settled is an outcome.
pub mod Addresses
pub mod Keyboards
mod Tests
use Prim.Native.Char.{Char, code}
use Prim.Native.Nat.{compare, Ordering}
use Prim.Native.String.{◌++◌ as append}
use keys.Prelude.{
  ℕ, zero, suc, Bool, true, false, not, ◌==◌, ◌&&◌, Option, none, some, List, [], ◌∷◌, ◌++◌, String,
  put, if◌then◌else◌,
}
use keys.Core.TitleCase.{is_space, onto_first}

abbrev pub is_comma : Char → Bool
is_comma c = elim (compare (code c) 44) [ Ordering.eq ↦ true | _ ↦ false ]

abbrev pub onto : Char → Bool → List String → List String
onto c true words = words
onto c false words = onto_first c words

-- A comma that no space followed stays in its word.
abbrev pub restore : Bool → List String → List String
restore true words = onto_first "," words
restore false words = words

-- `split(", ")`, after a comma where `pending`.
unfoldable pub split_list : Bool → String → List String
split_list true String.[] = "," ∷ []
split_list false String.[] = "" ∷ []
split_list pending (String.◌∷◌ c s) =
    let rest = split_list (is_comma c) s in
    if pending && is_space c then "" ∷ rest else restore pending (onto c (is_comma c) rest)

-- `local_ip.split(", ")[1]`
abbrev pub second : List String → Option String
second [] = none
second (w ∷ []) = none
second (w ∷ v ∷ ws) = some v

unfoldable pub read_ip : String → Option String
read_ip choice = second (split_list false choice)

pub record NetworkInterface : Type 0 where
  pub family : String
  pub internal : Bool
  pub address : String

-- What is not skipped: `"IPv4" === iface.family && iface.internal === false`.
abbrev pub usable : NetworkInterface → Bool
usable i = i.family == "IPv4" && not i.internal

abbrev pub comma_space : String → String → String
comma_space a b = append a (append ", " b)

module _ (show : ℕ → String) where
  abbrev pub choice : String → ℕ → String → String
  choice ifname zero address = comma_space ifname address
  choice ifname (suc n) address =
      comma_space ifname (comma_space (append "alias " (show (suc n))) address)

  -- The inner loop, from the value of `aliases`.
  unfoldable pub choices_of : String → ℕ → List NetworkInterface → List String
  choices_of ifname aliases [] = []
  choices_of ifname aliases (i ∷ is) =
      let counted = choices_of ifname (suc aliases) is in
      let skipped = choices_of ifname aliases is in
      if usable i then choice ifname aliases i.address ∷ counted else skipped

  -- The loop over `networkInterfaces()`.
  unfoldable pub ip_choices : List (String × List NetworkInterface) → List String
  ip_choices [] = []
  ip_choices ((ifname, iface_root) ∷ ifaces) = choices_of ifname 0 iface_root ++ ip_choices ifaces

  pub record KeyboardQ : Type 0 where
    pub name : String
    pub preset : String

  -- The two questions on keyboard `i`.
  abbrev pub name_question : ℕ → KeyboardQ
  name_question i = record {
    name = append "keyboard_" (show i);
    preset = append "keyboard_" (show i);
  }

  abbrev pub dir_question : ℕ → KeyboardQ
  dir_question i = record {
    name = append "keyboard_dir_" (show i);
    preset = append "./Keyboard_" (show i);
  }

  -- The `for` loop: `i`, and how many keyboards are left.
  unfoldable pub questions_from : ℕ → ℕ → List KeyboardQ
  questions_from i zero = []
  questions_from i (suc left) = name_question i ∷ dir_question i ∷ questions_from (suc i) left

pub record Keyboard : Type 0 where
  pub path : String
  pub dir : String
  pub root : String

abbrev pub new_keyboard : String → Keyboard
new_keyboard dir = record { path = "WAITING FROM DETECTOR"; dir = dir; root = "index.ahk" }

abbrev pub Keyboards : Type 0
Keyboards = List (String × Keyboard)

-- `answers`, with what `numberKeyboards` is as a number, rounded down: `none` is NaN.
pub record Answers : Type 0 where
  pub name : String
  pub number_keyboards : Option ℕ
  pub allow_ssh : Bool
  pub detector_ip : String
  pub local_ip : String
  pub local_port : String

pub record Config : Type 0 where
  pub name : String
  pub keyboards : Keyboards
  pub detector : String
  pub ipv4 : Option String
  pub port : Option ℕ
  pub ssh : Bool

-- The process is left, the promise stays pending, or it is resolved.
pub data Outcome (A : Type 0) : Type 0 where
  exits : Outcome A
  pending : Outcome A
  resolved : A → Outcome A

module _ (show : ℕ → String) (parse_int : String → Option ℕ) (answers : String → String) where
  -- At the end of a turn of the `while` loop: is this the last question?
  abbrev pub resolve_at_end :
      List (KeyboardQ show) → Keyboards → Outcome Keyboards → Outcome Keyboards
  resolve_at_end [] keyboards rest = resolved keyboards
  resolve_at_end (q ∷ qs) keyboards rest = rest

  -- The `while` loop, from the question at `i`, where `even` tells if that is on a name, with
  -- `current_keyboard_name` and the keyboards of the config.
  unfoldable pub add_keyboards :
      Bool → String → List (KeyboardQ show) → Keyboards → Outcome Keyboards
  add_keyboards even current [] keyboards = pending
  add_keyboards true current (q ∷ qs) keyboards =
      resolve_at_end qs keyboards (add_keyboards false (answers q.name) qs keyboards)
  add_keyboards false current (q ∷ qs) keyboards =
      resolve_at_end qs (put current (new_keyboard (answers q.name)) keyboards)
        (add_keyboards true current qs (put current (new_keyboard (answers q.name)) keyboards))

  abbrev pub config_of : Answers → Outcome Keyboards → Outcome Config
  config_of a exits = exits
  config_of a pending = pending
  config_of a (resolved keyboards) = resolved record {
    name = a.name;
    keyboards = keyboards;
    detector = a.detector_ip;
    ipv4 = read_ip a.local_ip;
    port = parse_int a.local_port;
    ssh = a.allow_ssh;
  }

  -- The questions on keyboards: with NaN, neither the check nor the `for` loop holds.
  abbrev pub ask_keyboards : Option ℕ → Outcome Keyboards
  ask_keyboards none = add_keyboards true "" [] []
  ask_keyboards (some zero) = exits
  ask_keyboards (some (suc n)) = add_keyboards true "" (questions_from show 1 (suc n)) []

  unfoldable pub get_config : Answers → Outcome Config
  get_config a = config_of a (ask_keyboards a.number_keyboards)
