-- ===== src/Setup/Oobe/Tests.antt =====
-- packages/@twokeys/common-hi/src/setup/commands/oobe.ts on a sample computer.
use keys.Prelude.{true, false, none, some, [], ◌∷◌, ◌≡◌, refl, ok, throws, whole, if◌then◌else◌}
use keys.Registry
use keys.Registry.Installing
use keys.Registry.Installing.{no_failure}
use keys.Setup.Oobe.{MainConfig, OobeConfig, Computer, Outside, oobe}
use keys.Setup.Oobe.Laws.{written, Leaves, oobe-Leaves, oobe-forgets}

abbrev old_config : MainConfig
old_config = record {
  name = "desk";
  version = "0.9";
  registry_root = "root";
  oobe = true;
  adapter = "Ethernet";
  ipv4 = "10.0.0.2";
}

abbrev registry_outside : Installing.Outside
registry_outside = record {
  uuid = λ n. "id";
  npm = λ command name force dir. (ok tt, dir);
  import_entry = λ n f. throws (Registry.Thrown.foreign none);
  local_name = λ name. ok name;
}

abbrev sample_outside : Outside
sample_outside = record {
  version = "1.0";
  parse = λ t. ok old_config;
  stringify = λ c. if c.oobe then "done" else "not done";
  response = ok 0;
  makes_dir = ok tt;
  writes = λ c. whole;
  registry_steps = no_failure;
  software_steps = ok tt;
  is_white = λ c. false;
  prompted = ok tt;
  exec = λ c. ok tt;
  present = none;
  ticks = [];
  registry = registry_outside;
}

abbrev full_registry : Registry.Registry
full_registry = record {
  rows = [];
  directory = record {
    node_modules = λ n. Registry.Folder.missing;
    dependencies = ok ("ahk" ∷ []);
  };
  generated = 0;
}

abbrev used_computer : Computer
used_computer = record {
  main_config = some "done";
  registry = full_registry;
  has_database = true;
  commands = [];
}

abbrev again : OobeConfig
again = record {
  did_accept_license = true;
  force = true;
  no_ipv4_set = true;
  pc_name = "desk";
  registry_root = "root";
  network_adapter = "Ethernet";
  ipv4_address = "10.0.0.2";
  addon_install_list = [];
}

oobe-Leaves_example :
    Leaves sample_outside again (some "done") (oobe sample_outside again used_computer)
oobe-Leaves_example = oobe-Leaves sample_outside again used_computer

oobe-forgets_example :
    ((oobe sample_outside again used_computer).0 ≡ ok tt)
    × ((oobe sample_outside again used_computer).1.main_config ≡ written sample_outside again true)
    × ((oobe sample_outside again used_computer).1.registry.rows ≡ used_computer.registry.rows)
    × ((oobe sample_outside again used_computer).1.registry.directory.dependencies ≡ ok [])
oobe-forgets_example =
    oobe-forgets sample_outside again used_computer "done" old_config refl refl refl refl refl refl
      refl refl refl (λ m. refl) refl refl
