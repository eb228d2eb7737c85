-- ===== src/Setup/Oobe/Laws.antt =====
-- What packages/@twokeys/common-hi/src/setup/commands/oobe.ts leaves of the main config and of the
-- registry.
use keys.Prelude.{
  Bool, true, false, not, ◌&&◌, Option, some, List, [], ◌∷◌, String, ◌≡◌, refl, sym, ap, subst,
  whole, refused, torn, Write-cases, Bool-cases, Result-cases, inl, inr, ◌⊎◌, Result, ok, throws,
  Exec, pure, throw, lift, ◌>>=◌, Preserves, preserves_rules, Preserves-bind, bind-after,
  bind-throws, if◌then◌else◌,
}
use keys.Registry.Installing.{create_new_registry, no_failure}
use keys.Setup.{Thrown, coded}
use keys.Setup.Oobe.{
  MainConfig, OobeConfig, Computer, Outside, config_to_write, load_main_config, after_write,
  write_main_config, ask_overwrite, check_existing, set_address, create_addons_registry,
  create_software_registry, install_addon, install_addons, set_up, proceed, oobe,
}

-- The main config is this text, or there is none.
abbrev pub HasConfig : Option String → Computer → Type 0
HasConfig t s = s.main_config ≡ t

module _ (out : Outside) where
  create-HasConfig : (t : Option String) → Preserves (HasConfig t) (create_addons_registry out)
  unfolding create_addons_registry
  create-HasConfig t = record { after = λ s h. h }

  software-HasConfig : (t : Option String) → Preserves (HasConfig t) (create_software_registry out)
  unfolding create_software_registry
  software-HasConfig t = search preserves_rules

  address-HasConfig :
      (t : Option String) (c : OobeConfig) → Preserves (HasConfig t) (set_address out c)
  unfolding set_address
  address-HasConfig t c = record { after = λ s h. h }

  addon-HasConfig :
      (t : Option String) (name : String) → Preserves (HasConfig t) (install_addon out name)
  unfolding install_addon
  addon-HasConfig t name = record { after = λ s h. h }

  addons-HasConfig :
      (t : Option String) (names : List String) → Preserves (HasConfig t) (install_addons out names)
  unfolding install_addons
  addons-HasConfig t [] = search preserves_rules
  addons-HasConfig t (name ∷ names) =
      Preserves-bind (install_addon out name) (λ _. install_addons out names)
        (addon-HasConfig t name) (λ _. addons-HasConfig t names)

  set_up-HasConfig : (t : Option String) (c : OobeConfig) → Preserves (HasConfig t) (set_up out c)
  unfolding set_up
  set_up-HasConfig t c =
      search
        (preserves_rules, address-HasConfig, create-HasConfig, software-HasConfig, addons-HasConfig)

  load-HasConfig : (t : Option String) → Preserves (HasConfig t) (load_main_config out)
  unfolding load_main_config
  load-HasConfig t = search preserves_rules

  ask-HasConfig :
      (t : Option String) (c : OobeConfig) (e : MainConfig)
      → Preserves (HasConfig t) (ask_overwrite out c e)
  unfolding ask_overwrite
  ask-HasConfig t c e = search preserves_rules

  check-HasConfig :
      (t : Option String) (c : OobeConfig) → Preserves (HasConfig t) (check_existing out c)
  unfolding check_existing
  check-HasConfig t c = search (preserves_rules, load-HasConfig, ask-HasConfig)

  -- The text of the config that is written first, and last.
  abbrev pub written : OobeConfig → Bool → Option String
  written c b = some (out.stringify (config_to_write out c b))

  -- A write of the main config that broke off: the run throws its error.
  abbrev pub BrokeOff : OobeConfig → Result Thrown (Unit {0}) × Computer → Type 0
  BrokeOff c r =
      (b : Bool) × (e : Thrown) × (left : String) × (out.writes (config_to_write out c b)
        ≡ torn e left)
      × (r.0 ≡ throws e)
      × (r.1.main_config ≡ some left)

  -- What a run may leave: a config that says that it is done only where it returned.
  abbrev pub Leaves : OobeConfig → Option String → Result Thrown (Unit {0}) × Computer → Type 0
  Leaves c before r =
      ((r.0 ≡ ok tt) × (r.1.main_config ≡ written c true))
      ⊎ (r.1.main_config ≡ before)
      ⊎ (((e : Thrown) × (r.0 ≡ throws e)) × (r.1.main_config ≡ written c false))
      ⊎ BrokeOff c r

  write-ok :
      (m : MainConfig) (s : Computer)
      → out.writes m ≡ whole
      → write_main_config out m s ≡ (ok tt, record s { main_config = some (out.stringify m) })
  unfolding write_main_config after_write
  write-ok m s h = rw h refl

  write-refused :
      (m : MainConfig) (s : Computer) (e : Thrown)
      → out.writes m ≡ refused e
      → write_main_config out m s ≡ (throws e, s)
  unfolding write_main_config after_write
  write-refused m s e h = rw h refl

  write-torn :
      (m : MainConfig) (s : Computer) (e : Thrown) (left : String)
      → out.writes m ≡ torn e left
      → write_main_config out m s ≡ (throws e, record s { main_config = some left })
  unfolding write_main_config after_write
  write-torn m s e left h = rw h refl

  last-Leaves :
      (c : OobeConfig) (before : Option String) (s : Computer)
      → s.main_config ≡ written c false
      → Leaves c before (write_main_config out (config_to_write out c true) s)
  last-Leaves c before s h = elim (Write-cases (out.writes (config_to_write out c true))) [
    | inl w ↦
        subst (Leaves c before) (sym (write-ok (config_to_write out c true) s w)) (inl (refl, refl))
    | inr (inl (e, w)) ↦
        subst (Leaves c before) (sym (write-refused (config_to_write out c true) s e w))
          (inr (inr (inl ((e, refl), h))))
    | inr (inr (e, left, w)) ↦
        subst (Leaves c before) (sym (write-torn (config_to_write out c true) s e left w))
          (inr (inr (inr (true, e, left, w, refl, refl))))
  ]

  set_up-Leaves :
      (c : OobeConfig) (before : Option String) (s : Computer)
      → s.main_config ≡ written c false
      → Leaves c before
          ((set_up out c >>= λ _. write_main_config out (config_to_write out c true)) s)
  set_up-Leaves c before s h =
      let kept = (set_up-HasConfig (written c false) c).after s h in
      elim (Result-cases (set_up out c s).0) [
        | inl (x, r) ↦
            subst (Leaves c before) (sym (bind-after (set_up out c) _ s r))
              (last-Leaves c before (set_up out c s).1 kept)
        | inr (e, r) ↦
            subst (Leaves c before) (sym (bind-throws (set_up out c) _ s r))
              (inr (inr (inl ((e, refl), kept))))
      ]

  write-Leaves :
      (c : OobeConfig) (s : Computer)
      → Leaves c s.main_config (
          (write_main_config out (config_to_write out c false) >>= λ _.
          set_up out c >>= λ _. write_main_config out (config_to_write out c true))
            s)
  write-Leaves c s = elim (Write-cases (out.writes (config_to_write out c false))) [
    | inl w ↦
        let e = write-ok (config_to_write out c false) s w in
        subst (Leaves c s.main_config)
          (sym (
            bind-after (write_main_config out (config_to_write out c false)) _ s (ap (λ r. r.0) e)))
          (set_up-Leaves c s.main_config _ (ap (λ r. r.1.main_config) e))
    | inr (inl (e, w)) ↦
        let q = write-refused (config_to_write out c false) s e w in
        subst (Leaves c s.main_config)
          (sym (
            bind-throws (write_main_config out (config_to_write out c false)) _ s
              (ap (λ r. r.0) q)))
          (inr (inl (ap (λ r. r.1.main_config) q)))
    | inr (inr (e, left, w)) ↦
        let q = write-torn (config_to_write out c false) s e left w in
        subst (Leaves c s.main_config)
          (sym (
            bind-throws (write_main_config out (config_to_write out c false)) _ s
              (ap (λ r. r.0) q)))
          (inr (inr (inr (false, e, left, w, refl, ap (λ r. r.1.main_config) q))))
  ]

  proceed-Leaves : (c : OobeConfig) (s : Computer) → Leaves c s.main_config (proceed out c s)
  unfolding proceed ◌>>=◌
  proceed-Leaves c s = elim (Result-cases out.makes_dir) [
    | inl (x, w) ↦
        subst (Leaves c s.main_config) (sym (bind-after (lift out.makes_dir) _ s w))
          (write-Leaves c s)
    | inr (e, w) ↦
        subst (Leaves c s.main_config) (sym (bind-throws (lift out.makes_dir) _ s w))
          (inr (inl refl))
  ]

  after-Leaves :
      (c : OobeConfig) (before : Option String) (s : Computer) (go_on : Bool)
      → s.main_config ≡ before
      → Leaves c before ((if go_on then proceed out c else pure tt) s)
  unfolding ◌>>=◌
  after-Leaves c before s true h = subst (λ t. Leaves c t (proceed out c s)) h (proceed-Leaves c s)
  after-Leaves c before s false h = inr (inl h)

  checked-Leaves :
      (c : OobeConfig) (s : Computer)
      → Leaves c s.main_config
          ((check_existing out c >>= λ b. if b then proceed out c else pure tt) s)
  checked-Leaves c s =
      let kept = (check-HasConfig s.main_config c).after s refl in
      elim (Result-cases (check_existing out c s).0) [
        | inl (b, r) ↦
            subst (Leaves c s.main_config) (sym (bind-after (check_existing out c) _ s r))
              (after-Leaves c s.main_config (check_existing out c s).1 b kept)
        | inr (e, r) ↦
            subst (Leaves c s.main_config) (sym (bind-throws (check_existing out c) _ s r))
              (inr (inl kept))
      ]

  abbrev gated : Bool → OobeConfig → Exec Thrown Computer Unit
  gated b c =
      if not b
      then throw (coded "ENOLICENSE")
      else check_existing out c >>= λ go_on. if go_on then proceed out c else pure tt

  and_false : (b : Bool) → (b && false) ≡ false
  and_false true = refl
  and_false false = refl

  -- Whatever fails on the way, the steps that make the registries included: a run returns with a main
  -- config that says that the set-up is done; or it leaves the main config as it was; or it throws, and
  -- leaves the new main config, which says that the set-up is not done; or one of its two writes of the
  -- main config breaks off, and it throws that error and leaves the text that the write left.
  pub oobe-Leaves : (c : OobeConfig) (s : Computer) → Leaves c s.main_config (oobe out c s)
  unfolding oobe ◌>>=◌
  oobe-Leaves c s = elim (Bool-cases c.did_accept_license) [
    | inl h ↦ subst (λ b. Leaves c s.main_config (gated b c s)) (sym h) (checked-Leaves c s)
    | inr h ↦ subst (λ b. Leaves c s.main_config (gated b c s)) (sym h) (inr (inl refl))
  ]

  -- A run with `force`, where a main config is there and its overwriting is confirmed, no write and no
  -- step of making the registries fails, no address is set and no add-on is listed: it returns, the main config says
  -- that the set-up is done, the add-ons are still in the registry's table, but the dependencies of
  -- the registry's package.json are gone, from which a reindex takes the add-ons.
  pub oobe-forgets :
      (c : OobeConfig) (s : Computer) (text : String) (existing : MainConfig)
      → c.did_accept_license ≡ true
      → c.force ≡ true
      → c.no_ipv4_set ≡ true
      → c.addon_install_list ≡ []
      → s.main_config ≡ some text
      → s.has_database ≡ true
      → out.parse text ≡ ok existing
      → out.response ≡ ok 0
      → out.makes_dir ≡ ok tt
      → ((m : MainConfig) → out.writes m ≡ whole)
      → out.registry_steps ≡ no_failure
      → out.software_steps ≡ ok tt
      → ((oobe out c s).0 ≡ ok tt)
        × ((oobe out c s).1.main_config ≡ written c true)
        × ((oobe out c s).1.registry.rows ≡ s.registry.rows)
        × ((oobe out c s).1.registry.directory.dependencies ≡ ok [])
  unfolding oobe proceed set_up check_existing load_main_config ask_overwrite write_main_config
      after_write create_addons_registry create_software_registry install_addons create_new_registry
      ◌>>=◌
  oobe-forgets c s text existing accepted forced no_ip none_listed there db parsed confirmed dir w
        steps tables =
      simp
        (
          accepted,
          forced,
          no_ip,
          none_listed,
          there,
          db,
          parsed,
          confirmed,
          dir,
          w,
          steps,
          tables,
          and_false existing.oobe,
        )
        (refl, refl, refl, refl)
