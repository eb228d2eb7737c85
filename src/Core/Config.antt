-- ===== src/Core/Config.antt =====
-- packages/@twokeys/core/src/config.ts. The files of the disk are an object from paths to texts;
-- `join` is node's, `parse` and `stringify` are YAML's, and `allows` tells whether the disk takes a
-- write to a path: one that it refuses changes nothing.
pub mod Laws
mod Tests
use keys.Prelude.{
  Bool, false, Option, none, some, List, [], ◌∷◌, String, ◌==◌, property, put, without, Exec,
  Result, ok, throws, throw, lift, reads, try_catch, ◌>>=◌, if◌then◌else◌,
}

-- `new CodedError(message, code)`, and other errors, with the code that they may have.
pub data Thrown : Type 0 where
  coded : String → Thrown
  foreign : Option String → Thrown

-- `err.code`
abbrev pub code_of : Thrown → Option String
code_of (coded c) = some c
code_of (foreign c) = c

abbrev pub is_code : String → Option String → Bool
is_code c none = false
is_code c (some d) = d == c

abbrev pub Files : Type 0
Files = List (String × String)

abbrev pub text_or_enoent : Option String → Result Thrown String
text_or_enoent none = throws (foreign (some "ENOENT"))
text_or_enoent (some t) = ok t

-- `fs.readFile`
unfoldable pub read_file : String → Exec Thrown Files String
read_file file = reads λ files. text_or_enoent (property file files)

abbrev pub put_if : Result Thrown (Unit {0}) → String → String → Files → Files
put_if (ok _) file text files = put file text files
put_if (throws e) file text files = files

-- `fs.writeFile`
unfoldable pub write_file :
    (String → Result Thrown (Unit {0})) → String → String → Exec Thrown Files Unit
write_file allows file text files = (allows file, put_if (allows file) file text files)

module _ {C : Type 0} (parse : String → Result Thrown C) where
  unfoldable pub load_config : String → Exec Thrown Files C
  load_config file = do config ← read_file file; lift (parse config)

  abbrev pub not_a_project : Thrown → Exec Thrown Files C
  not_a_project e =
      if is_code "ENOENT" (code_of e) then throw (coded "INVALID_PROJECT") else throw e

  unfoldable pub load_project_config : (String → String → String) → String → Exec Thrown Files C
  load_project_config join project_path =
      try_catch (load_config (join project_path "config.yml")) not_a_project

  unfoldable pub load_detector_config : String → Exec Thrown Files C
  load_detector_config file = load_config file

-- A key of a client config in memory: a value of the file, or the method that is added to it.
pub data Field (V : Type 0) : Type 0 where
  value : V → Field V
  write_method : Field V

abbrev pub ClientConfig : Type 0 → Type 0
ClientConfig V = List (String × Field V)

module _ {V : Type 0} where
  module _ (parse : String → Result Thrown (List (String × Field V)))
      (stringify : ClientConfig V → String) where
    -- `config.write = …`
    unfoldable pub add_methods : ClientConfig V → ClientConfig V
    add_methods config = put "write" write_method config

    unfoldable pub load_client_config : String → Exec Thrown Files (ClientConfig V)
    load_client_config file = do config ← load_config parse file; lift (ok (add_methods config))

    -- The keys that are deleted of the copy.
    unfoldable pub delete_keys : List String → ClientConfig V → ClientConfig V
    delete_keys [] config = config
    delete_keys (k ∷ ks) config = delete_keys ks (without k config)

    -- `config.write()`
    unfoldable pub write :
        (String → Result Thrown (Unit {0})) → String → ClientConfig V → Exec Thrown Files Unit
    write allows file config =
        write_file allows file (stringify (delete_keys ("write" ∷ []) config))
