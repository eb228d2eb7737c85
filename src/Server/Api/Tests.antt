-- ===== src/Server/Api/Tests.antt =====
-- packages/@twokeys/server/src/routes/api.ts on requests around a change of a config file.
use keys.Prelude.{none, List, [], ◌∷◌, String, ◌≡◌, refl, ok, throws, property, without, put}
use keys.Server.Trigger.{DetectorConfig}
use keys.Server.Detectors.{add_all, reload_detector, add_detector}
use keys.Server.Detectors.Laws.{latest}
use keys.Server.Api.{
  Event, changed, asked_project, asked_detector, message, detector_config, get_detector_config,
  serve, next, get_deprecated_config,
}
use keys.Server.Api.Laws.{answers, serve-loaded}

abbrev detector : String → DetectorConfig
detector name = record { name = name; keyboards = [] }

-- The detector "pi" is asked for, renamed to "desk", and asked for again under both names.
abbrev day : List (Event String)
day =
    asked_detector "pi"
    ∷ changed "pi" (detector "desk")
    ∷ asked_project
    ∷ asked_detector "pi"
    ∷ asked_detector "desk"
    ∷ []

renamed :
    serve String "project"
      (changed "pi" (detector "desk") ∷ asked_detector "pi" ∷ asked_detector "desk" ∷ [])
      (add_all (detector "pi" ∷ []) [])
    ≡ record { status_code = 404; body = message "Not Found" }
      ∷ record { status_code = 200; body = detector_config (detector "desk") }
      ∷ []
unfolding serve get_detector_config add_all add_detector reload_detector property without put
renamed = refl

unreadable :
    get_deprecated_config String String (λ t. ok t) (λ t. t) (throws "ENOENT") ≡ next "ENOENT"
unfolding get_deprecated_config
unreadable = refl

serve-loaded_example :
    serve String "project" day (add_all (detector "pi" ∷ []) [])
    ≡ answers String "project" day (λ name. latest name (detector "pi" ∷ []) none)
serve-loaded_example = serve-loaded String "project" (detector "pi" ∷ []) day
