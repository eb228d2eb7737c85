-- ===== src/Server/Api/Laws.antt =====
-- What the routes of packages/@twokeys/server/src/routes/api.ts answer while configs change.
use keys.Prelude.{
  Option, none, some, List, [], ◌∷◌, String, ◌≡◌, refl, ap, ◌∙◌, ◌==◌, property, if◌then◌else◌,
}
use keys.Server.Trigger.{DetectorConfig}
use keys.Server.Detectors.{Detectors, reload_detector, add_all}
use keys.Server.Detectors.Laws.{latest, property-add_all, property-reload}
use keys.Server.Api.{
  Response, Event, project_config, detector_config, message, changed, asked_project, asked_detector,
  get_project_config, get_detector_config, send_detector, serve,
}

-- The config of a name after a change: the new one if it has the name now, none if it only had it at
-- first.
abbrev after_change :
    String → String → DetectorConfig → Option DetectorConfig → Option DetectorConfig
after_change name original config before =
    if config.name == name then some config else if original == name then none else before

module _ (Project : Type 0) (project : Project) where
  -- The response to a request for a detector, from what its name stands for.
  abbrev answer : Option DetectorConfig → Response Project
  answer none = record { status_code = 404; body = message "Not Found" }
  answer (some config) = record { status_code = 200; body = detector_config config }

  send_detector-answer : (c : Option DetectorConfig) → send_detector Project c ≡ answer c
  send_detector-answer none = refl
  send_detector-answer (some config) = refl

  -- The responses, from the config that each name has, with no map.
  unfoldable pub answers :
      List (Event Project) → (String → Option DetectorConfig) → List (Response Project)
  answers [] held = []
  answers (changed original config ∷ rest) held =
      answers rest (λ name. after_change name original config (held name))
  answers (asked_project ∷ rest) held =
      record { status_code = 200; body = project_config project } ∷ answers rest held
  answers (asked_detector name ∷ rest) held = answer (held name) ∷ answers rest held

  serve-answers :
      (events : List (Event Project)) (detectors : Detectors)
      (held : String → Option DetectorConfig)
      → ((name : String) → property name detectors ≡ held name)
      → serve Project project events detectors ≡ answers events held
  unfolding serve answers get_detector_config get_project_config
  serve-answers [] detectors held h = refl
  serve-answers (changed original config ∷ rest) detectors held h =
      serve-answers rest (reload_detector original config detectors) _ λ name.
        property-reload original name config detectors
        ∙ ap (after_change name original config) (h name)
  serve-answers (asked_project ∷ rest) detectors held h =
      ap (λ l. get_project_config Project project ∷ l) (serve-answers rest detectors held h)
  serve-answers (asked_detector name ∷ rest) detectors held h =
      ap (λ c. send_detector Project c ∷ serve Project project rest detectors) (h name)
      ∙ ap (λ r. r ∷ serve Project project rest detectors) (send_detector-answer (held name))
      ∙ ap (λ l. answer (held name) ∷ l) (serve-answers rest detectors held h)

  -- In every order of requests and of changes to config files, after the loads at the start: a request
  -- for a detector gets the config of the last load or change with its name, and 404 where there is
  -- none, or where a later change has renamed a file that had the name at first.
  pub serve-loaded :
      (configs : List DetectorConfig) (events : List (Event Project))
      → serve Project project events (add_all configs [])
        ≡ answers events (λ name. latest name configs none)
  unfolding property
  serve-loaded configs events =
      serve-answers events (add_all configs []) _ λ name. property-add_all name configs []
