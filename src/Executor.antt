-- ===== src/Executor.antt =====
-- executors/@twokeys/executor-ahk/src: the executor add-on that runs AutoHotkey macros. `join` is
-- node's, `exists` is the check of a file on the disk. A run changes the list of what was handed to
-- the native module, each time with the path of the library's file; `library` is what the native
-- module gives for a path and a text.
mod Installs
pub mod Laws
mod Tests
use Prim.Native.Char.{Char}
use Prim.Native.String.{◌++◌ as append}
use keys.Prelude.{
  Bool, true, false, ◌&&◌, ◌||◌, Option, none, some, List, [], ◌∷◌, String, snoc, Exec, Result, ok,
  throws, throw, lift, modify, ◌>>=◌, ◌>>◌, if◌then◌else◌,
}
use keys.Setup.Network.{is_letter, digit_upto}
use keys.Software
use keys.Software.{Store, Executable, zip, ExecutableDirectlyFromDb}
use keys.Software.Methods.{get_executable, install_software}

pub data Thrown : Type 0 where
  assertion_error syntax_error : Thrown
  no_file : Thrown
  in_software : Software.Thrown → Thrown
  in_library : String → Thrown

abbrev pub auto_hotkey_h : String
auto_hotkey_h = "AutoHotkey_H"

abbrev pub ahk_dll_x64 : String
ahk_dll_x64 = "AHK_DLL_x64"

abbrev pub ahk_dll_x32 : String
ahk_dll_x32 = "AHK_DLL_x32"

unfoldable pub ahk_software_def : Software.Software
ahk_software_def = record {
  base = record {
    name = auto_hotkey_h;
    url = "https://codeload.github.com/HotKeyIt/ahkdll-v2-release/zip/master";
    homepage = "https://autohotkey.org";
    download_type = zip;
    filename = none;
  };
  no_auto_install = none;
  executables =
      record {
        name = ahk_dll_x64;
        path = "ahkdll-v2-release-master/x64w/AutoHotkey.dll";
        arch = "x64";
        os = none;
        user_installed = none;
      }
      ∷ record {
        name = ahk_dll_x32;
        path = "ahkdll-v2-release-master/Win32w/AutoHotkey.dll";
        arch = "x32";
        os = none;
        user_installed = none;
      }
      ∷ [];
}

-- The keys that the executor reads of its config: the folder of the keyboard, and the file and the
-- function of the hotkey.
pub record ExecutorConfig : Type 0 where
  pub keyboard_root : String
  pub root : String
  pub func : String

abbrev pub is_alphanumeric : Char → Bool
is_alphanumeric c = is_letter c || digit_upto 57 c

unfoldable pub all_alphanumeric : String → Bool
all_alphanumeric String.[] = true
all_alphanumeric (String.◌∷◌ c s) = is_alphanumeric c && all_alphanumeric s

-- `/^[a-z0-9]+$/i.test`
unfoldable pub is_function_name : String → Bool
is_function_name String.[] = false
is_function_name (String.◌∷◌ c s) = all_alphanumeric (String.◌∷◌ c s)

-- What was run: the path of the library, and the text.
abbrev pub Runs : Type 0
Runs = List (String × String)

module _ (out : Software.Outside) (directory owner : String)
    (exists : String → Result Thrown (Unit {0})) where
  abbrev pub keyboard_dir : String → ExecutorConfig → String
  keyboard_dir project c = out.join project c.keyboard_root

  abbrev pub hotkey_file : String → ExecutorConfig → String
  hotkey_file project c = out.join (keyboard_dir project c) c.root

  abbrev pub get_prelude : String → ExecutorConfig → String
  get_prelude project c =
      append "\n\t; 2KEYS EXECUTOR AHK PRELUDE\n\t; CWD\n\tGlobal TWOKEYS_CWD := \"" (
        append (keyboard_dir project c) (
          append "\"\n\t; Ensure consistent start directory\n\t; DOES WORK\n\tSetWorkingDir \""
            (append (keyboard_dir project c) "\"\n\t")))

  abbrev pub exec_string : String → ExecutorConfig → String
  exec_string project c = append "\n\t; GRAB FILE\n\t#Include " (
      append (hotkey_file project c) (
        append "\n\t\n\t; 2KEYS EXECUTOR AHK EXECUTION\n\t"
          (append (get_prelude project c) (append "\n\n\t; EXECUTE\n\t" (append c.func "()\n\t")))))

  unfoldable pub validate_config : String → ExecutorConfig → Exec Thrown Runs Unit
  validate_config project c = do
    lift (exists (hotkey_file project c))
    lift (if is_function_name c.func then ok tt else throws syntax_error)

  abbrev pub from_software : {A : Type 0} → Result Software.Thrown A → Result Thrown A
  from_software (ok a) = ok a
  from_software (throws e) = throws (in_software e)

  -- `twokeys.software.getExecutable`, which changes nothing.
  abbrev pub find_dll : Store → Result Thrown ExecutableDirectlyFromDb
  find_dll s = from_software (get_executable out directory owner auto_hotkey_h ahk_dll_x64 s).0

  abbrev pub for_project : Option String → (String → Exec Thrown Runs Unit) → Exec Thrown Runs Unit
  for_project none f = throw assertion_error
  for_project (some project) f = f project

  module _ (library : String → String → Result Thrown (Unit {0})) where
    -- `ahk.run_ahk_text`, which throws where the library cannot be loaded or freed.
    unfoldable pub run_ahk_text : String → String → Exec Thrown Runs Unit
    run_ahk_text path text runs = (library path text, snoc runs (path, text))

    abbrev pub execute_in : Store → ExecutorConfig → String → Exec Thrown Runs Unit
    execute_in s c project = do
      validate_config project c
      executable ← lift (find_dll s)
      run_ahk_text executable.path (exec_string project c)

    -- The export of exec.ts, with the folder of the project that the call is for.
    unfoldable pub execute : Store → Option String → ExecutorConfig → Exec Thrown Runs Unit
    execute s project c = for_project project (execute_in s c)

  unfoldable pub install : Exec Software.Thrown Store Unit
  install = install_software out directory owner ahk_software_def
