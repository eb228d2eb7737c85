-- ===== src/Legacy/Trigger.antt =====
-- packages/@twokeys/legacy-server/src/routes/api.ts and util/ahk.ts: the old route that runs a hotkey,
-- and the one that changes a keyboard's path. `join` is node's. Errors of a run are only logged. A
-- request changes the list of what was handed to the native library, with the library's path.
mod Laws
mod Tests
use Prim.Native.String.{◌++◌ as append}
use keys.Prelude.{
  ℕ, Bool, true, false, Option, none, some, List, [], ◌∷◌, String, property, put, snoc, Exec,
  Result, ok, throws, and_then, if◌then◌else◌,
}
use keys.Executor.{is_function_name, Runs}

-- What `hotkey.func` is: a text, or an object with a function for each event; the config is not
-- checked, so that it may also be missing, or `null`.
pub data Func : Type 0 where
  text : String → Func
  events : Option String → Option String → Func
  undefined_func null_func : Func

-- A hotkey of the config: a text, or an object with `func` and maybe `type`. What is neither of
-- the two is not modelled, nor a function in `func` that is no text.
pub data Hotkey : Type 0 where
  short : String → Hotkey
  long : Func → Option String → Hotkey

pub record Keyboard : Type 0 where
  pub path : String
  pub dir : String
  pub root : String
  pub hotkeys : List (String × Hotkey)

abbrev pub Config : Type 0
Config = List (String × Keyboard)

pub record FetchHotkey : Type 0 where
  pub kind : String
  pub file : String
  pub func : Func

pub data Thrown : Type 0 where
  keyboard_not_found hotkey_not_found invalid_value : Thrown
  foreign : String → Thrown

pub data EvDevValues : Type 0 where
  up down : EvDevValues
  other : ℕ → EvDevValues

pub record UserspaceConfig : Type 0 where
  pub software : String
  pub ahk_root : String
  pub dll : Option String

pub data Reply : Type 0 where
  next : Thrown → Reply
  sent : ℕ → String → Reply

abbrev pub func_of : Hotkey → Func
func_of (short f) = text f
func_of (long f t) = f

abbrev pub type_of : Hotkey → String
type_of (short f) = "down"
type_of (long f none) = "down"
type_of (long f (some t)) = t

module _ (join : String → String → String) (cwd : String) where
  abbrev pub file_of : Keyboard → String
  file_of k = join (join cwd k.dir) k.root

  abbrev pub fetch_in : Keyboard → Option Hotkey → Result Thrown FetchHotkey
  fetch_in k none = throws hotkey_not_found
  fetch_in k (some h) = ok (record { kind = type_of h; file = file_of k; func = func_of h })

  abbrev pub fetch_of : String → Option Keyboard → Result Thrown FetchHotkey
  fetch_of code none = throws keyboard_not_found
  fetch_of code (some k) = fetch_in k (property code k.hotkeys)

  unfoldable pub fetch_hotkey : Result Thrown Config → String → String → Result Thrown FetchHotkey
  fetch_hotkey loaded keyboard code =
      and_then loaded λ config. fetch_of code (property keyboard config)

  abbrev pub exec_test : String → String → String
  exec_test file func = append "\n  ; AHK EXEC 2KEYS\n  ; PRELUDE\n  Global TWOKEYS_CWD := \"" (
      append cwd (
        append "\"\n\n  ; GRAB CLIENT CODE\n  #Include "
          (append file (append "\n\n  ; EXECUTE\n  " (append func "()\n  ")))))

  abbrev pub run_with : String → String → Result Thrown UserspaceConfig → Runs → Runs
  run_with file func (throws e) runs = runs
  run_with file func (ok u) runs = elim u.dll [
    | none ↦ runs
    | some dll ↦ snoc runs (join (join u.software u.ahk_root) dll, exec_test file func)
  ]

  -- `run_hotkey`, where `access` is whether the file can be read: the `finally` goes on either way.
  unfoldable pub run_hotkey :
      Result Thrown (Unit {0}) → Result Thrown UserspaceConfig → String → String → Runs → Runs
  run_hotkey access userspace file func runs =
      if is_function_name func then run_with file func userspace runs else runs

  -- A property of `null` is read after the value of the event has been compared.
  abbrev pub null_event : EvDevValues → Result Thrown (Option String)
  null_event (other n) = throws invalid_value
  null_event down = throws (foreign "TypeError")
  null_event up = throws (foreign "TypeError")

  -- The function to run: `undefined` of an object is `none`. A missing `func` is no object, and is
  -- tested, and printed, as the text "undefined".
  abbrev pub func_to_run : Func → EvDevValues → Result Thrown (Option String)
  func_to_run (text f) value = ok (some f)
  func_to_run (events d u) down = ok d
  func_to_run (events d u) up = ok u
  func_to_run (events d u) (other n) = throws invalid_value
  func_to_run undefined_func value = ok (some "undefined")
  func_to_run null_func value = null_event value

  -- `value` is that of the request's body, if it has one.
  abbrev pub value_or_down : Option EvDevValues → EvDevValues
  value_or_down none = down
  value_or_down (some v) = v

  module _ (access : String → Result Thrown (Unit {0}))
      (userspace : Result Thrown UserspaceConfig) where
    abbrev pub execute : String → Result Thrown (Option String) → Runs → Reply × Runs
    execute file (throws e) runs = (next e, runs)
    execute file (ok none) runs = (sent 404 "Hotkey function not found", runs)
    execute file (ok (some f)) runs =
        (sent 200 "OK", run_hotkey (access file) userspace file f runs)

    abbrev pub trigger_fetched : Result Thrown FetchHotkey → EvDevValues → Runs → Reply × Runs
    trigger_fetched (throws e) value runs = (next e, runs)
    trigger_fetched (ok h) value runs = execute h.file (func_to_run h.func value) runs

    unfoldable pub trigger :
        Result Thrown Config → String → String → Option EvDevValues → Runs → Reply × Runs
    trigger loaded keyboard code value runs =
        trigger_fetched (fetch_hotkey loaded keyboard code) (value_or_down value) runs

-- What follows the load of the config, for which there is no `catch`: where the keyboard is missing
-- there is no reply. Otherwise the reply, and the config that is on the disk then.
abbrev pub path_changed :
    Result Thrown (Unit {0}) → String → String → Config → Option Keyboard → Option Reply × Config
path_changed written keyboard path config none = (none, config)
path_changed (ok _) keyboard path config (some k) =
    (some (sent 200 "OK"), put keyboard (record k { path = path }) config)
path_changed (throws e) keyboard path config (some k) = (some (next e), config)

unfoldable pub update_keyboard_path :
    Result Thrown (Unit {0}) → String → String → Config → Option Reply × Config
update_keyboard_path written keyboard path config =
    path_changed written keyboard path config (property keyboard config)
