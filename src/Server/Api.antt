-- ===== src/Server/Api.antt =====
-- packages/@twokeys/server/src/routes/api.ts: the routes that give a config, on the map of detectors
-- that the loader keeps.
mod Laws
mod Tests
use keys.Prelude.{
  ℕ, Bool, Option, none, some, List, [], ◌∷◌, String, Result, ok, throws, is_some, property,
  if◌then◌else◌,
}
use keys.Server.Trigger.{DetectorConfig}
use keys.Server.Detectors.{Detectors, Change, reload_detector}

module _ (Project : Type 0) where
  pub data Body : Type 0 where
    project_config : Project → Body
    detector_config : DetectorConfig → Body
    message : String → Body

  pub record Response : Type 0 where
    pub status_code : ℕ
    pub body : Body

  -- `/get/config/project`
  unfoldable pub get_project_config : Project → Response
  get_project_config project = record { status_code = 200; body = project_config project }

  -- `detectors.get` after `detectors.has`.
  abbrev pub send_detector : Option DetectorConfig → Response
  send_detector none = record { status_code = 404; body = message "Not Found" }
  send_detector (some config) = record { status_code = 200; body = detector_config config }

  -- `/get/config/detectors/:detector`
  unfoldable pub get_detector_config : String → Detectors → Response
  get_detector_config detector detectors = send_detector (property detector detectors)

  -- What the running server does: a config file changes and is read anew, or a request comes.
  pub data Event : Type 0 where
    changed : String → DetectorConfig → Event
    asked_project : Event
    asked_detector : String → Event

  -- The responses to the requests, in order.
  unfoldable pub serve : Project → List Event → Detectors → List Response
  serve project [] detectors = []
  serve project (changed original config ∷ rest) detectors =
      serve project rest (reload_detector original config detectors)
  serve project (asked_project ∷ rest) detectors =
      get_project_config project ∷ serve project rest detectors
  serve project (asked_detector detector ∷ rest) detectors =
      get_detector_config detector detectors ∷ serve project rest detectors

-- What the callback of `readFile` does in `/get/deprecated/config`.
pub data DeprecatedReply (E : Type 0) : Type 0 where
  next : E → DeprecatedReply E
  -- the parser's error, which nothing catches
  uncaught : E → DeprecatedReply E
  sends : ℕ → String → DeprecatedReply E

module _ (E Json : Type 0) (parse : String → Result E Json) (stringify : Json → String) where
  abbrev pub send_parsed : Result E Json → DeprecatedReply E
  send_parsed (ok value) = sends 200 (stringify value)
  send_parsed (throws e) = uncaught e

  unfoldable pub get_deprecated_config : Result E String → DeprecatedReply E
  get_deprecated_config (ok data_read) = send_parsed (parse data_read)
  get_deprecated_config (throws e) = next e
