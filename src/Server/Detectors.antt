-- ===== src/Server/Detectors.antt =====
-- packages/@twokeys/server/src/loaders/loadDetectors.ts: the map of detectors that the routes read,
-- filled from the project's config files and kept up to date when one of them changes.
pub mod Laws
mod Tests
use keys.Prelude.{
  Bool, Option, none, some, List, [], ◌∷◌, String, ◌==◌, not, Result, ok, throws, and_then,
  traverse, put, without, if◌then◌else◌,
}
use keys.Server.Trigger.{DetectorConfig}

abbrev pub Detectors : Type 0
Detectors = List (String × DetectorConfig)

-- `detectors.set(detector.name, detector)`
unfoldable pub add_detector : DetectorConfig → Detectors → Detectors
add_detector config detectors = put config.name config detectors

-- The watcher of a config file, after it has been read anew. `original` is the name that the file
-- gave when it was loaded first: the watcher keeps that one for good.
unfoldable pub reload_detector : String → DetectorConfig → Detectors → Detectors
unfolding add_detector
reload_detector original config detectors =
    if config.name == original
    then add_detector config detectors
    else without original (add_detector config detectors)

-- The loads finish in some order, which is the order of the list.
unfoldable pub add_all : List DetectorConfig → Detectors → Detectors
add_all [] detectors = detectors
add_all (config ∷ rest) detectors = add_all rest (add_detector config detectors)

-- A change to a config file: its original name and what it says now.
abbrev pub Change : Type 0
Change = String × DetectorConfig

unfoldable pub reload_all : List Change → Detectors → Detectors
reload_all [] detectors = detectors
reload_all ((original, config) ∷ rest) detectors =
    reload_all rest (reload_detector original config detectors)

module _ (E Client Controller : Type 0) where
  -- What the startup actions call: the client's config, its controller, and the controller's
  -- `startup`, where that is a function.
  pub record StartupCalls : Type 0 where
    pub load_config : String → Result E DetectorConfig
    pub load_client : DetectorConfig → Result E Client
    pub load_controller : Client → Result E Controller
    pub startup : Controller → Option (Client → DetectorConfig → Result E (Unit {0}))

  abbrev pub run_startup :
      Option (Client → DetectorConfig → Result E (Unit {0}))
      → Client
      → DetectorConfig
      → Result E (Unit {0})
  run_startup none client config = ok tt
  run_startup (some action) client config = action client config

  module _ (calls : StartupCalls) where
    unfoldable pub start_detector : String × DetectorConfig → Result E (Unit {0})
    start_detector (name, config) = and_then (calls.load_client config) λ client.
        and_then (calls.load_controller client)
          λ controller. run_startup (calls.startup controller) client config

    -- `loadDetectors`, at the paths of the config files in the order in which their loads finish.
    unfoldable pub load_detectors : List String → Result E Detectors
    load_detectors paths = and_then (traverse calls.load_config paths) λ configs.
        let detectors = add_all configs [] in
        and_then (traverse start_detector detectors) λ started. ok detectors
