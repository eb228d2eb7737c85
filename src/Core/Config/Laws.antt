-- ===== src/Core/Config/Laws.antt =====
-- What is read back of the files that packages/@twokeys/core/src/config.ts writes.
use keys.Prelude.{
  some, List, String, ◌≡◌, refl, ap, ◌∙◌, ◌==◌, eq_refl, arith, property, put, without,
  property-put, property-without, Result, ok, ◌>>=◌, ◌>>◌, if◌then◌else◌,
}
use keys.Core.Config.{
  Thrown, Files, read_file, write_file, load_config, load_project_config, Field, write_method,
  add_methods, load_client_config, delete_keys, write,
}

pub written-read :
    (file text : String) (files : Files) → property file (put file text files) ≡ some text
written-read file text files = property-put file file text files ∙ rw (eq_refl file) refl

module _ {C : Type 0} (parse : String → Result Thrown C) where
  -- A file that is there is loaded as what its text parses to.
  pub load-there :
      (file text : String) (files : Files)
      → property file files ≡ some text
      → load_config parse file files ≡ (parse text, files)
  unfolding load_config read_file ◌>>=◌
  load-there file text files h = rw h refl

  -- A folder with a config file that can be parsed is a project.
  pub load_project :
      (join : String → String → String) (path text : String) (files : Files) (c : C)
      → property (join path "config.yml") files ≡ some text
      → parse text ≡ ok c
      → load_project_config parse join path files ≡ (ok c, files)
  unfolding load_project_config load_config read_file ◌>>=◌
  load_project join path text files c h p = rw (h, p) refl

module _ {V : Type 0} (parse : String → Result Thrown (List (String × Field V)))
    (stringify : List (String × Field V) → String)
    (allows : String → Result Thrown (Unit {0})) where
  reload :
      (file : String) (config : List (String × Field V)) (files : Files)
      → allows file ≡ ok tt
      → parse (stringify (without "write" config)) ≡ ok (without "write" config)
      → (write parse stringify allows file config >> load_client_config parse stringify file) files
        ≡ (
          ok (put "write" write_method (without "write" config)),
          put file (stringify (without "write" config)) files,
        )
  unfolding write write_file delete_keys load_client_config load_config read_file add_methods ◌>>=◌
  reload file config files a round =
      rw (a, written-read file (stringify (without "write" config)) files, round) refl

  -- Where YAML reads back the text that it makes of the config, and the disk takes the file: a client config that is written
  -- and loaded again has each of its keys with the same value, also those that were changed in memory
  -- since it was loaded, no other keys, and the method `write` again.
  pub load-write :
      (file : String) (config : List (String × Field V)) (files : Files)
      → allows file ≡ ok tt
      → parse (stringify (without "write" config)) ≡ ok (without "write" config)
      → (loaded : List (String × Field V)) × (((write parse stringify allows file config
              >> load_client_config parse stringify file)
            files).0
          ≡ ok loaded)
        × ((k : String)
            → property k loaded ≡ (if "write" == k then some write_method else property k config))
  load-write file config files a round = (
    put "write" write_method (without "write" config),
    ap (λ r. r.0) (reload file config files a round),
    λ k. same_key k,
  )
    where
      same_key :
          (k : String)
          → property k (put "write" write_method (without "write" config))
            ≡ (if "write" == k then some write_method else property k config)
      same_key k = ground (
        arith,
        property-put "write" k write_method (without "write" config),
        property-without "write" k config,
      )
