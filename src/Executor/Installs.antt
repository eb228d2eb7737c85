-- ===== src/Executor/Installs.antt =====
-- What a run of executors/@twokeys/executor-ahk/src/exec.ts finds of what install.ts installed.
use keys.Prelude.{suc, true, false, some, String, ◌≡◌, refl, ap, snoc, any, Result, ok, ◌>>=◌}
use keys.Software
use keys.Software.{Store, sql_false, ExecutableDirectlyFromDb}
use keys.Software.Tables.{part_of}
use keys.Software.Methods.{folder_of}
use keys.Software.Executables.{get_executable-install}
use keys.Executor.{
  Thrown, ExecutorConfig, Runs, auto_hotkey_h, ahk_dll_x64, ahk_software_def, is_function_name,
  hotkey_file, exec_string, validate_config, run_ahk_text, from_software, find_dll, execute,
  install,
}

module _ (out : Software.Outside) (directory owner : String)
    (exists : String → Result Thrown (Unit {0})) (s : Store) where
  abbrev pub dll_path : String
  dll_path =
      out.join (folder_of out directory owner auto_hotkey_h)
        "ahkdll-v2-release-master/x64w/AutoHotkey.dll"

  -- The row of the first executable of the definition.
  abbrev dll_row : ExecutableDirectlyFromDb
  dll_row = record {
    id = out.uuid (suc s.generated);
    name = ahk_dll_x64;
    path = dll_path;
    arch = some "x64";
    os = out.platform;
    user_installed = sql_false;
    software_id = out.uuid s.generated;
  }

  find_dll-install :
      any (part_of (out.uuid s.generated)) s.executables ≡ false
      → (install out directory owner exists s).0 ≡ ok tt
      → find_dll out directory owner exists (install out directory owner exists s).1 ≡ ok dll_row
  unfolding install ahk_software_def
  find_dll-install f h =
      ap (from_software out directory owner exists)
        (get_executable-install out directory owner ahk_software_def s _ _ refl f refl h)

  -- Where the add-on's install succeeds on a store that has no executables of the id that the
  -- software gets, a hotkey of a project is run afterwards, if its file exists and its function's
  -- name is accepted: exactly one text is handed to the native module, at the path of the 64-bit DLL
  -- below the folder of the software, and the run returns or throws as the native module does.
  pub execute-install :
      (library : String → String → Result Thrown (Unit {0})) (p : String) (c : ExecutorConfig)
      (runs : Runs)
      → any (part_of (out.uuid s.generated)) s.executables ≡ false
      → (install out directory owner exists s).0 ≡ ok tt
      → exists (hotkey_file out directory owner exists p c) ≡ ok tt
      → is_function_name c.func ≡ true
      → execute out directory owner exists library
          (install out directory owner exists s).1
          (some p)
          c
          runs
        ≡ (
          library dll_path (exec_string out directory owner exists p c),
          snoc runs (dll_path, exec_string out directory owner exists p c),
        )
  unfolding execute validate_config run_ahk_text ◌>>=◌
  execute-install library p c runs f h there named = rw (there, named, find_dll-install f h) refl
