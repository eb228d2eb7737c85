-- ===== src/Setup/Project/Tests.antt =====
-- packages/@twokeys/common-hi/src/setup/commands/project.ts and daemon.ts on a sample disk.
use Prim.Native.String.{◌++◌ as append}
use keys.Prelude.{true, false, some, [], ◌∷◌, String, ◌≡◌, refl, property, ok, ◌==◌, if◌then◌else◌}
use keys.Core.Config.{load_project_config}
use keys.Setup.Project.{ServerInfo, CreateProject, ProjectConfig, Disk, Outside, create_project}
use keys.Setup.Project.Laws.{Works, create_project-load, create_project-link}

abbrev desk_config : ProjectConfig
desk_config = record {
  name = "desk";
  id = "7";
  version = "1.0";
  port = 9090;
  start_on_startup = true;
  detectors = [];
  sync = false;
}

abbrev slash : String → String → String
slash a b = append a (append "/" b)

abbrev windows : Outside
windows = record {
  version = "1.0";
  prelude = "# 2Keys";
  join = slash;
  parse = λ t. ok desk_config;
  stringify = λ c. "name: desk";
  makes_dir = λ p. ok tt;
  allows = λ p. ok tt;
  template = λ f. ok (if f == "daemon.js" then "start" else "run");
  render = λ t values. t;
  startup_folder = ok "startup";
  allows_link = λ p. ok tt;
}

abbrev desk_server : ServerInfo
desk_server = record { server_port = 9090; permissions = some true }

abbrev desk : CreateProject
desk = record {
  project_name = "desk";
  project_uuid = "7";
  project_location = "projects";
  has_permissions = true;
  server_info = some desk_server;
}

windows-Works : Works windows "startup" "start" "run"
windows-Works = record {
  makes = λ p. refl;
  takes = λ p. refl;
  links = λ p. refl;
  startup = refl;
  js_template = refl;
  vbs_template = refl;
}

-- Another project of the same name is linked already.
abbrev linked_before : Disk
linked_before = record {
  files = [];
  links = ("startup/2Keys-desk.vbs", "other/.2Keys/daemon.vbs") ∷ [];
}

create_project-load_example :
    ((create_project windows desk linked_before).0 ≡ ok tt)
    × ((load_project_config windows.parse windows.join "projects"
          (create_project windows desk linked_before).1.files).0
        ≡ ok desk_config)
create_project-load_example =
    create_project-load windows "startup" "start" "run" windows-Works desk desk_server true refl
      refl refl refl (refl, refl) linked_before

create_project-link_example :
    ((create_project windows desk linked_before).0 ≡ ok tt)
    × (property "startup/2Keys-desk.vbs" (create_project windows desk linked_before).1.links
        ≡ some "other/.2Keys/daemon.vbs")
unfolding property
create_project-link_example =
    create_project-link windows "startup" "start" "run" windows-Works desk desk_server true refl
      refl refl refl linked_before refl
