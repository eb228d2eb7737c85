-- ===== src/Executor/Tests.antt =====
-- executors/@twokeys/executor-ahk/src on a sample store and sample hotkeys.
use Prim.Native.String.{◌++◌ as append}
use native.Mathlib.Decide.{dec_le}
use keys.Prelude.{
  ℕ, zero, suc, ◌>>=◌, true, false, none, some, [], ◌∷◌, String, ◌≡◌, refl, snoc, ◌⊎◌, Result, ok,
  throws,
}
use keys.Software
use keys.Software.{
  Store, ExecutableDirectlyFromDb, SoftwareDirectlyFromDb, sql_true, sql_false, zip,
}
use keys.Executor.{
  in_library, Thrown, ExecutorConfig, all_alphanumeric, is_function_name, exec_string, execute,
  install, ahk_software_def,
}
use keys.Software.Methods.{
  install_software, register, uuidv4, insert_software, insert_executable, add_executable, run_all,
  run_install, fetch, mark_installed,
}
use keys.Software.Tables.{update_where, insert, distinct}
use keys.Software.{perform}
use keys.Executor.Installs.{dll_path, execute-install}
use keys.Executor.Laws.{IsInOrder, execute-safe}

abbrev system : Software.Outside
system = record {
  uuid = λ n. "id";
  join = λ a b. append a (append "/" b);
  basename = λ p. p;
  platform = "win32";
  attempt = λ before e. ok tt;
}

abbrev ahk_store : Store
ahk_store = record {
  softwares =
      record {
        id = "1";
        name = "AutoHotkey_H";
        url = "";
        homepage = "";
        owner_name = "executor-ahk";
        installed = sql_true;
        download_type = zip;
        no_auto_install = sql_false;
      }
      ∷ [];
  executables =
      record {
        id = "2";
        name = "AHK_DLL_x64";
        path = "ahk.dll";
        arch = none;
        os = "win32";
        user_installed = sql_false;
        software_id = "1";
      }
      ∷ [];
  effects = [];
  generated = 3;
}

abbrev present : String → Result Thrown (Unit {0})
present file = ok tt

abbrev loads : String → String → Result Thrown (Unit {0})
loads path text = ok tt

-- A native module that cannot load the library.
abbrev fails_to_load : String → String → Result Thrown (Unit {0})
fails_to_load path text = throws (in_library path)

abbrev open_app : ExecutorConfig
open_app = record { keyboard_root = "keyboard"; root = "index.ahk"; func = "OpenApp1" }

accepts_name : is_function_name "OpenApp1" ≡ true
unfolding is_function_name all_alphanumeric dec_le
accepts_name = refl

refuses_injection : is_function_name "OpenApp1() Run(" ≡ false
unfolding is_function_name all_alphanumeric dec_le
refuses_injection = refl

execute-safe_example :
    (((e : Thrown) × ((execute system "reg" "executor-ahk" present loads ahk_store
            (some "p")
            open_app
            []).0
          ≡ throws e))
      × ((execute system "reg" "executor-ahk" present loads ahk_store (some "p") open_app []).1
          ≡ []))
    ⊎ ((p : String) × (e : ExecutableDirectlyFromDb) × IsInOrder system "reg" "executor-ahk" present
          loads ahk_store open_app
          (some "p")
          p
          e
        × (execute system "reg" "executor-ahk" present loads ahk_store (some "p") open_app [] ≡ (
          ok tt,
          snoc [] (e.path, exec_string system "reg" "executor-ahk" present p open_app),
        )))
execute-safe_example =
    execute-safe system "reg" "executor-ahk" present loads ahk_store open_app (some "p") []

abbrev distinct_ids : ℕ → String
distinct_ids zero = "a"
distinct_ids (suc zero) = "b"
distinct_ids (suc (suc n)) = "c"

abbrev fresh_system : Software.Outside
fresh_system = record system { uuid = distinct_ids }

abbrev fresh : Store
fresh = record { softwares = []; executables = []; effects = []; generated = 0 }

fresh_installs : (install fresh_system "reg" "executor-ahk" present fresh).0 ≡ ok tt
unfolding install ahk_software_def install_software register run_all uuidv4 insert_software
    insert_executable add_executable insert run_install fetch mark_installed update_where distinct
    ◌>>=◌
fresh_installs = refl

execute-install_example :
    execute fresh_system "reg" "executor-ahk" present loads
      (install fresh_system "reg" "executor-ahk" present fresh).1
      (some "p")
      open_app
      []
    ≡ (
      ok tt,
      snoc [] (
        dll_path fresh_system "reg" "executor-ahk" present fresh,
        exec_string fresh_system "reg" "executor-ahk" present "p" open_app,
      ),
    )
execute-install_example =
    execute-install fresh_system "reg" "executor-ahk" present fresh loads "p" open_app [] refl
      fresh_installs refl accepts_name
