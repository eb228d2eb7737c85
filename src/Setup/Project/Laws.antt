-- ===== src/Setup/Project/Laws.antt =====
-- What packages/@twokeys/common-hi/src/setup/commands/project.ts and daemon.ts leave on the disk.
use keys.Prelude.{
  Bool, true, false, Option, none, some, List, [], String, ◌≡◌, refl, ap, ◌∙◌, sym, subst, ◌==◌,
  property, put, property-put, ok, ◌>>=◌,
}
use keys.Core.Config.{Files, load_project_config, load_config, read_file, write_file}
use keys.Core.Config.Laws.{written-read, load_project}
use keys.Setup.Project.{
  ServerInfo, CreateProject, ProjectConfig, Disk, Outside, on_files, symlink, link_name, js_values,
  vbs_values, gen_startup_js, gen_startup_vbs, add_link, daemon_files, daemon_at, generate_daemon,
  config_to_write, project_text, make_project, create_project,
}

-- No part of the disk refuses a folder, a file or a link, the templates can be read, and the startup
-- folder is known.
pub record Works (out : Outside) (folder : String) (js vbs : String) : Type 0 where
  pub makes : (p : String) → out.makes_dir p ≡ ok tt
  pub takes : (p : String) → out.allows p ≡ ok tt
  pub links : (p : String) → out.allows_link p ≡ ok tt
  pub startup : out.startup_folder ≡ ok folder
  pub js_template : out.template "daemon.js" ≡ ok js
  pub vbs_template : out.template "daemon.vbs" ≡ ok vbs

module _ (out : Outside) (folder js vbs : String) (works : Works out folder js vbs)
    (c : CreateProject) (server : ServerInfo) (startup : Bool)
    (permitted : c.has_permissions ≡ true) (has_server : c.server_info ≡ some server)
    (has_startup : server.permissions ≡ some startup)
    (round : out.parse (project_text out (config_to_write out c server startup))
      ≡ ok (config_to_write out c server startup)) where
  abbrev pub location : String
  location = c.project_location

  abbrev pub config : ProjectConfig
  config = config_to_write out c server startup

  abbrev pub config_path : String
  config_path = out.join location "config.yml"

  abbrev pub daemon_dir : String
  daemon_dir = out.join location ".2Keys"

  abbrev pub link_path : String
  link_path = out.join folder (link_name out c.project_name)

  abbrev pub js_text : String
  js_text = out.render js (js_values out c.project_name ".2Keys" location)

  abbrev pub vbs_text : String
  vbs_text = out.render vbs (vbs_values out c.project_name daemon_dir)

  abbrev pub new_files : Files → Files
  new_files files = put (out.join daemon_dir "daemon.vbs") vbs_text (
      put (out.join daemon_dir "daemon.js") js_text
        (put config_path (project_text out config) files))

  abbrev link_after : Bool → Option String → List (String × String) → List (String × String)
  link_after false there links = links
  link_after true (some t) links = links
  link_after true none links = put link_path (out.join daemon_dir "daemon.vbs") links

  daemon_done :
      (b : Bool) (d : Disk) (there : Option String)
      → property link_path d.links ≡ there
      → property config_path d.files ≡ some (project_text out config)
      → daemon_at out location ".2Keys" b d ≡ (
        ok tt,
        record {
          files =
              put
                (out.join daemon_dir "daemon.vbs")
                vbs_text
                (put (out.join daemon_dir "daemon.js") js_text d.files);
          links = link_after b there d.links;
        },
      )
  unfolding daemon_at daemon_files gen_startup_js gen_startup_vbs on_files write_file add_link
      symlink load_project_config load_config read_file ◌>>=◌
  daemon_done false d there h f =
      simp (f, round, works.makes, works.takes, works.js_template, works.vbs_template) refl
  daemon_done true d none h f =
      simp
        (
          f, round, works.makes, works.takes, works.js_template, works.vbs_template, works.startup,
          h, works.links,
        )
        refl
  daemon_done true d (some t) h f =
      simp
        (
          f, round, works.makes, works.takes, works.js_template, works.vbs_template, works.startup,
          h, works.links,
        )
        refl

  made :
      (d : Disk) (there : Option String)
      → property link_path d.links ≡ there
      → create_project out c d
        ≡ (ok tt, record { files = new_files d.files; links = link_after startup there d.links })
  unfolding create_project make_project generate_daemon on_files write_file ◌>>=◌
  made d there h =
      simp (has_server, permitted, has_startup, works.makes, works.takes)
        (daemon_done startup
          (record d { files = put config_path (project_text out config) d.files }) there h
          (written-read config_path (project_text out config) d.files))

  -- The daemon's files are not the config file.
  abbrev pub AreApart : Type 0
  AreApart =
      ((out.join daemon_dir "daemon.js" == config_path) ≡ false)
      × ((out.join daemon_dir "daemon.vbs" == config_path) ≡ false)

  config_there :
      AreApart
      → (files : Files) → property config_path (new_files files) ≡ some (project_text out config)
  config_there (j, v) files =
      property-put (out.join daemon_dir "daemon.vbs") config_path vbs_text _
      ∙ rw v (
          property-put (out.join daemon_dir "daemon.js") config_path js_text _
          ∙ rw j (written-read config_path (project_text out config) files))

  -- Where the disk refuses nothing, the templates can be read, all properties are given, and YAML
  -- reads the config back from the text that is written: a new project is created, and loading its
  -- config then gives the project's name and id, the version of the package, the port and the
  -- permission to start with the computer as they were given, no detectors, and no permission to sync;
  -- where the daemon's files have other paths.
  pub create_project-load :
      AreApart
      → (d : Disk)
      → ((create_project out c d).0 ≡ ok tt)
        × ((load_project_config out.parse out.join location (create_project out c d).1.files).0
            ≡ ok (record {
              name = c.project_name;
              id = c.project_uuid;
              version = out.version;
              port = server.server_port;
              start_on_startup = startup;
              detectors = [];
              sync = false;
            }))
  create_project-load apart d =
      let e = made d (property link_path d.links) refl in
      (
        ap (λ r. r.0) e,
        ap (λ r. (load_project_config out.parse out.join location r.1.files).0) e
            ∙ ap (λ r. r.0)
                (load_project out.parse out.join location (project_text out config)
                  (new_files d.files) config (config_there apart d.files) round),
      )

  -- Under the same conditions, for a project that may start with the computer: where there is no link
  -- of its name in the startup folder, there is one to its script afterwards; where there is one
  -- already, such as that of another project of the same name, it is left as it is, and the command
  -- returns all the same.
  pub create_project-link :
      (d : Disk)
      → startup ≡ true
      → ((create_project out c d).0 ≡ ok tt)
        × (property link_path (create_project out c d).1.links
            ≡ some (elim (property link_path d.links) [
              | none ↦ out.join daemon_dir "daemon.vbs"
              | some other ↦ other
            ]))
  create_project-link d starts =
      let e = made d (property link_path d.links) refl in
      (
        ap (λ r. r.0) e,
        ap (λ r. property link_path r.1.links) e
            ∙ subst
                (λ b.
                  property link_path (link_after b (property link_path d.links) d.links)
                  ≡ some (which (property link_path d.links)))
                (sym starts) (linked (property link_path d.links) refl),
      )
    where
      which : Option String → String
      which o = elim o [ none ↦ out.join daemon_dir "daemon.vbs" | some other ↦ other ]

      linked :
          (o : Option String)
          → property link_path d.links ≡ o
          → property link_path (link_after true o d.links) ≡ some (which o)
      linked none h = written-read link_path (out.join daemon_dir "daemon.vbs") d.links
      linked (some other) h = h
