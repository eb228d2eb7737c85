-- ===== src/Server/Detectors/Laws.antt =====
-- What the map of detectors holds after loads and reloads, in
-- packages/@twokeys/server/src/loaders/loadDetectors.ts.
use keys.Prelude.{
  Option, none, some, List, [], ◌∷◌, String, ◌≡◌, ◌≢◌, refl, ◌==◌, eq_iff, property, property-put,
  property-without, put, arith, if◌then◌else◌,
}
use keys.Server.Trigger.{DetectorConfig}
use keys.Server.Detectors.{Detectors, add_detector, reload_detector, add_all, reload_all}

-- After a reload the routes find the new config under its name, nothing under the name that the
-- file had at first, if it has another one now, and what they found before under all other names.
pub property-reload :
    (original name : String) (config : DetectorConfig) (detectors : Detectors)
    → property name (reload_detector original config detectors) ≡ (
        if config.name == name
        then some config
        else if original == name
        then none
        else property name detectors)
unfolding reload_detector
property-reload original name config detectors = ground (
  arith,
  property-put config.name name config detectors,
  property-without original name (put config.name config detectors),
  eq_iff config.name original,
  eq_iff config.name name,
  eq_iff original name,
)

-- A file whose detector is renamed twice leaves the detector under its second name: the routes
-- still find the config of that name after the third one has been loaded.
pub stale_after_two_renames :
    (original : String) (second third : DetectorConfig) (detectors : Detectors)
    → second.name ≢ original
    → third.name ≢ second.name
    → property second.name (reload_all ((original, second) ∷ (original, third) ∷ []) detectors)
      ≡ some second
unfolding reload_all
stale_after_two_renames original second third detectors renamed again = ground (
  arith,
  property-reload original second.name third (reload_detector original second detectors),
  property-reload original second.name second detectors,
  eq_iff third.name second.name,
  eq_iff original second.name,
  eq_iff second.name second.name,
)

-- The config that the last load of a name gave.
abbrev pub latest : String → List DetectorConfig → Option DetectorConfig → Option DetectorConfig
latest name [] before = before
latest name (c ∷ rest) before = latest name rest (if c.name == name then some c else before)

-- After the loads the map gives for each name the config of the last load that finished with it.
pub property-add_all :
    (name : String) (configs : List DetectorConfig) (detectors : Detectors)
    → property name (add_all configs detectors) ≡ latest name configs (property name detectors)
unfolding add_all add_detector
property-add_all name [] detectors = refl
property-add_all name (c ∷ rest) detectors =
    rw (property-add_all name rest (put c.name c detectors), property-put c.name name c detectors)
