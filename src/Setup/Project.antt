-- ===== src/Setup/Project.antt =====
-- packages/@twokeys/common-hi/src/setup/commands/project.ts and daemon.ts: a new project, and the
-- files that start its server. `join` is node's, `parse` and `stringify` are YAML's, `render` is
-- Mustache's; a template is read or not, and the disk takes or refuses each folder, file and link.
mod Laws
mod Tests
use Prim.Native.String.{◌++◌ as append}
use keys.Prelude.{
  ℕ, Bool, true, false, Option, none, some, is_some, List, [], ◌∷◌, String, ◌==◌, property, put,
  Exec, Result, ok, throws, and_then, pure, throw, lift, try_catch, ◌>>=◌, ◌>>◌, if◌then◌else◌,
}
use keys.Setup.Network.{between}
use keys.Core.Config.{
  Thrown, coded, foreign, code_of, is_code, Files, load_project_config, write_file,
}

-- What is read of `ICreateProject` and of its `serverInfo`.
pub record ServerInfo : Type 0 where
  pub server_port : ℕ
  pub permissions : Option Bool

pub record CreateProject : Type 0 where
  pub project_name : String
  pub project_uuid : String
  pub project_location : String
  pub has_permissions : Bool
  pub server_info : Option ServerInfo

pub record ProjectConfig : Type 0 where
  pub name : String
  pub id : String
  pub version : String
  pub port : ℕ
  pub start_on_startup : Bool
  pub detectors : List String
  pub sync : Bool

pub record GenerateProjectDaemon : Type 0 where
  pub project_location : Option String
  pub relative_files_location_dir : Option String
  pub add_to_startup : Bool

-- The files, and the links with the paths that they point to.
pub record Disk : Type 0 where
  pub files : Files
  pub links : List (String × String)

pub record Outside : Type 0 where
  pub version : String
  pub prelude : String
  pub join : String → String → String
  pub parse : String → Result Thrown ProjectConfig
  pub stringify : ProjectConfig → String
  pub makes_dir : String → Result Thrown (Unit {0})
  pub allows : String → Result Thrown (Unit {0})
  pub template : String → Result Thrown String
  pub render : String → List (String × String) → String
  pub startup_folder : Result Thrown String
  pub allows_link : String → Result Thrown (Unit {0})

-- `split("\\").join("\\\\")`
unfoldable pub double_backslashes : String → String
double_backslashes String.[] = ""
double_backslashes (String.◌∷◌ c s) =
    let rest = double_backslashes s in
    if between 92 92 c then String.◌∷◌ c (String.◌∷◌ c rest) else String.◌∷◌ c rest

module _ {A : Type 0} where
  -- A method on the files alone.
  unfoldable pub on_files : Exec Thrown Files A → Exec Thrown Disk A
  on_files m d = let r = m d.files in (r.0, record d { files = r.1 })

abbrev linked_to :
    Option String → String → String → Result Thrown (Unit {0}) → Exec Thrown Disk Unit
linked_to (some t) target path r d = (throws (foreign (some "EEXIST")), d)
linked_to none target path (throws e) d = (throws e, d)
linked_to none target path (ok _) d = (ok tt, record d { links = put path target d.links })

module _ (out : Outside) where
  -- `fs.symlink`: what is there already is not replaced.
  unfoldable pub symlink : String → String → Exec Thrown Disk Unit
  symlink target path d = linked_to (property path d.links) target path (out.allows_link path) d

  abbrev pub link_name : String → String
  link_name name = append "2Keys-" (append name ".vbs")

  abbrev pub js_values : String → String → String → List (String × String)
  js_values name relative_dir project_root =
      ("root", double_backslashes project_root)
      ∷ ("name", name)
      ∷ ("default_local_twokeys", relative_dir)
      ∷ ("daemon_pid_file", "daemon.pid")
      ∷ ("server_pid_file", "server.pid")
      ∷ []

  unfoldable pub gen_startup_js : String → String → String → Result Thrown String
  gen_startup_js name relative_dir project_root =
      and_then (out.template "daemon.js")
        λ t. ok (out.render t (js_values name relative_dir project_root))

  abbrev pub vbs_values : String → String → List (String × String)
  vbs_values name files_dir = ("daemon", out.join files_dir "daemon.js") ∷ ("name", name) ∷ []

  unfoldable pub gen_startup_vbs : String → String → Result Thrown String
  gen_startup_vbs name files_dir =
      and_then (out.template "daemon.vbs") λ t. ok (out.render t (vbs_values name files_dir))

  -- The inner `catch`: an error without a code is a warning.
  abbrev pub after_link_error : Thrown → Exec Thrown Disk Unit
  after_link_error e = if is_some (code_of e) then throw e else pure tt

  unfoldable pub add_link : String → String → Exec Thrown Disk Unit
  add_link name dir =
      try_catch
        (do
          folder ← lift out.startup_folder
          symlink (out.join dir "daemon.vbs") (out.join folder (link_name name)))
        after_link_error

  -- The outer `catch`.
  abbrev pub after_files_error : Thrown → Exec Thrown Disk Unit
  after_files_error e = if is_code "EEXIST" (code_of e) then pure tt else throw e

  unfoldable pub daemon_files : String → String → String → Bool → Exec Thrown Disk Unit
  daemon_files name location relative startup = do
    js ← lift (gen_startup_js name relative location)
    on_files (write_file out.allows (out.join (out.join location relative) "daemon.js") js)
    vbs ← lift (gen_startup_vbs name (out.join location relative))
    on_files (write_file out.allows (out.join (out.join location relative) "daemon.vbs") vbs)
    if startup then add_link name (out.join location relative) else pure tt

  abbrev pub or_default : Option String → String
  or_default none = ".2Keys"
  or_default (some d) = if d == "" then ".2Keys" else d

  unfoldable pub daemon_at : String → String → Bool → Exec Thrown Disk Unit
  daemon_at location relative startup = do
    config ← on_files (load_project_config out.parse out.join location)
    lift (out.makes_dir (out.join location relative))
    try_catch (daemon_files config.name location relative startup) after_files_error

  abbrev pub daemon_in : Option String → String → Bool → Exec Thrown Disk Unit
  daemon_in none relative startup = throw (coded "NO_PROJECT_DIR")
  daemon_in (some location) relative startup = daemon_at location relative startup

  unfoldable pub generate_daemon : GenerateProjectDaemon → Exec Thrown Disk Unit
  generate_daemon c =
      daemon_in c.project_location (or_default c.relative_files_location_dir) c.add_to_startup

  abbrev pub config_to_write : CreateProject → ServerInfo → Bool → ProjectConfig
  config_to_write c server startup = record {
    name = c.project_name;
    id = c.project_uuid;
    version = out.version;
    port = server.server_port;
    start_on_startup = startup;
    detectors = [];
    sync = false;
  }

  abbrev pub project_text : ProjectConfig → String
  project_text config = append out.prelude (append "\n" (out.stringify config))

  unfoldable pub make_project : CreateProject → ServerInfo → Bool → Exec Thrown Disk Unit
  make_project c server startup = do
    lift (out.makes_dir c.project_location)
    on_files (
        write_file out.allows (out.join c.project_location "config.yml")
          (project_text (config_to_write c server startup)))
    generate_daemon (record {
      project_location = some c.project_location;
      relative_files_location_dir = some ".2Keys";
      add_to_startup = startup;
    })

  abbrev pub with_permissions : CreateProject → ServerInfo → Option Bool → Exec Thrown Disk Unit
  with_permissions c server none = throw (coded "MISSING_PROPS")
  with_permissions c server (some startup) = make_project c server startup

  abbrev pub with_server : CreateProject → Option ServerInfo → Exec Thrown Disk Unit
  with_server c none = throw (coded "MISSING_PROPS")
  with_server c (some server) =
      if c.has_permissions
      then with_permissions c server server.permissions
      else throw (coded "MISSING_PROPS")

  unfoldable pub create_project : CreateProject → Exec Thrown Disk Unit
  create_project c = with_server c c.server_info
