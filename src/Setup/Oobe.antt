-- ===== src/Setup/Oobe.antt =====
-- packages/@twokeys/common-hi/src/setup/commands/oobe.ts, with createSoftwareRegistry of
-- addons/src/software-query-provider.ts. A computer has the text of the main config, the place of the
-- add-on registry, and the commands that were run. A write of the config that
-- fails leaves the old text or any other.
mod Laws
mod Tests
use Prim.Native.Char.{Char}
use keys.Prelude.{
  ℕ, zero, suc, Bool, true, false, not, ◌&&◌, Option, none, some, is_some, List, [], ◌∷◌, String,
  Exec, Write, whole, refused, torn, Result, ok, throws, pure, throw, lift, reads, try_catch, ◌>>=◌,
  ◌>>◌, if◌then◌else◌,
}
use keys.Registry
use keys.Registry.Methods.{has_code}
use keys.Registry.Installing.{ManagerOptions, install, Site, CreateSteps, create_new_registry}
use keys.Registry.Installing
use keys.Setup.{Thrown, coded, foreign, in_registry, code_of}
use keys.Setup.Network.{Interface, set_static_ipv4_address}

pub record MainConfig : Type 0 where
  pub name : String
  pub version : String
  pub registry_root : String
  pub oobe : Bool
  pub adapter : String
  pub ipv4 : String

-- `IOOBEConfig`, with the options `force` and `no_IPv4Set`.
pub record OobeConfig : Type 0 where
  pub did_accept_license : Bool
  pub force : Bool
  pub no_ipv4_set : Bool
  pub pc_name : String
  pub registry_root : String
  pub network_adapter : String
  pub ipv4_address : String
  pub addon_install_list : List String

pub record Computer : Type 0 where
  pub main_config : Option String
  pub registry : Registry.Registry
  pub has_database : Bool
  pub commands : List String

-- YAML, the prompt's response, the disk, the network, and what the registry calls.
pub record Outside : Type 0 where
  pub version : String
  pub parse : String → Result Thrown MainConfig
  pub stringify : MainConfig → String
  pub response : Result Thrown ℕ
  pub makes_dir : Result Thrown (Unit {0})
  pub writes : MainConfig → Write Thrown String
  pub registry_steps : CreateSteps
  -- the access to the database that is there, its opening, the two tables and the folder
  pub software_steps : Result Thrown (Unit {0})
  pub is_white : Char → Bool
  pub prompted : Result Thrown (Unit {0})
  pub exec : String → Result Thrown (Unit {0})
  pub present : Option (List Interface)
  pub ticks : List (Option (List Interface))
  pub registry : Installing.Outside

abbrev pub is_zero : ℕ → Bool
is_zero zero = true
is_zero (suc n) = false

-- The `catch` of the check for an existing config.
abbrev pub is_coded : Thrown → Bool
is_coded (coded c) = true
is_coded (foreign c) = false
is_coded (in_registry e) = false

abbrev pub plain_install : ManagerOptions
plain_install = record { is_local = false; force = false; version = none; use_link = false }

abbrev pub site_of : Computer → Site
site_of s = record {
  database = if s.has_database then some s.registry.rows else none;
  dependencies = s.registry.directory.dependencies;
}

abbrev pub rows_or :
    List Registry.PackageInDb → Option (List Registry.PackageInDb) → List Registry.PackageInDb
rows_or rows none = rows
rows_or rows (some new) = new

abbrev pub at_site : Site → Computer → Computer
at_site site s = record s {
  has_database = is_some site.database;
  registry = record s.registry {
    rows = rows_or s.registry.rows site.database;
    directory = record s.registry.directory { dependencies = site.dependencies };
  };
}

abbrev pub thrown_by_registry {ℓ} : {A : Type ℓ} → Result Registry.Thrown A → Result Thrown A
thrown_by_registry (ok a) = ok a
thrown_by_registry (throws e) = throws (in_registry e)

module _ (out : Outside) where
  unfoldable pub create_addons_registry : Exec Thrown Computer (Registry.Validated Unit)
  create_addons_registry s =
      let created = create_new_registry out.registry_steps (site_of s) in
      (thrown_by_registry created.0, at_site created.1 s)

  -- The tables are made if they do not exist; the file must exist.
  unfoldable pub create_software_registry : Exec Thrown Computer Unit
  create_software_registry =
      reads λ s. if s.has_database then out.software_steps else throws (foreign (some "ENOENT"))

  unfoldable pub load_main_config : Exec Thrown Computer MainConfig
  load_main_config = reads λ s. elim s.main_config [
    | none ↦ throws (foreign (some "ENOENT"))
    | some text ↦ out.parse text
  ]

  unfoldable pub after_write : MainConfig → Write Thrown String → Exec Thrown Computer Unit
  after_write c whole s = (ok tt, record s { main_config = some (out.stringify c) })
  after_write c (refused e) s = (throws e, s)
  after_write c (torn e left) s = (throws e, record s { main_config = some left })

  unfoldable pub write_main_config : MainConfig → Exec Thrown Computer Unit
  write_main_config c = after_write c (out.writes c)

  -- With an existing config: whether to go on.
  unfoldable pub ask_overwrite : OobeConfig → MainConfig → Exec Thrown Computer Bool
  ask_overwrite c existing = if existing.oobe && not c.force then pure false else (do
    response ← lift out.response
    if is_zero response then pure true else throw (coded "EEXIST"))

  abbrev pub after_error : Thrown → Exec Thrown Computer Bool
  after_error e =
      if has_code "ENOENT" (code_of e)
      then pure true
      else if is_coded e
      then throw e
      else throw (foreign none)

  unfoldable pub check_existing : OobeConfig → Exec Thrown Computer Bool
  check_existing c = try_catch (load_main_config >>= ask_overwrite c) after_error

  abbrev pub config_to_write : OobeConfig → Bool → MainConfig
  config_to_write c oobe = record {
    name = c.pc_name;
    version = out.version;
    registry_root = c.registry_root;
    oobe = oobe;
    adapter = c.network_adapter;
    ipv4 = c.ipv4_address;
  }

  unfoldable pub set_address : OobeConfig → Exec Thrown Computer Unit
  set_address c s =
      let r =
        set_static_ipv4_address out.is_white out.prompted out.exec c.network_adapter c.ipv4_address
          out.present out.ticks s.commands in
      (r.0, record s { commands = r.1 })

  -- `registry.install(addOn)`, of which only a throw counts.
  unfoldable pub install_addon : String → Exec Thrown Computer (Registry.Validated Unit)
  install_addon name s =
      let r = install out.registry name plain_install s.registry in
      (thrown_by_registry r.0, record s { registry = r.1 })

  unfoldable pub install_addons : List String → Exec Thrown Computer Unit
  install_addons [] = pure tt
  install_addons (name ∷ names) = do install_addon name; install_addons names

  -- From the address to the add-ons.
  unfoldable pub set_up : OobeConfig → Exec Thrown Computer Unit
  set_up c = do
    if c.no_ipv4_set then pure tt else set_address c
    create_addons_registry
    create_software_registry
    install_addons c.addon_install_list

  unfoldable pub proceed : OobeConfig → Exec Thrown Computer Unit
  proceed c = do
    lift out.makes_dir
    write_main_config (config_to_write c false)
    set_up c
    write_main_config (config_to_write c true)

  unfoldable pub oobe : OobeConfig → Exec Thrown Computer Unit
  oobe c =
      if not c.did_accept_license
      then throw (coded "ENOLICENSE")
      else (do go_on ← check_existing c; if go_on then proceed c else pure tt)
