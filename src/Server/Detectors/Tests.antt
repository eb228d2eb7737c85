-- ===== src/Server/Detectors/Tests.antt =====
-- The map of detectors on concrete configs.
use keys.Prelude.{some, [], ◌∷◌, String, ◌≡◌, refl, property, put, without}
use keys.Server.Trigger.{DetectorConfig}
use keys.Server.Detectors.{Detectors, add_detector, reload_detector, reload_all}

abbrev named : String → DetectorConfig
named name = record { name = name; keyboards = [] }

abbrev loaded : Detectors
loaded = ("a", named "a") ∷ []

-- The file of the detector "a" names it "b", then "c": "b" is still there.
stale_name :
    property "b" (reload_all (("a", named "b") ∷ ("a", named "c") ∷ []) loaded) ≡ some (named "b")
unfolding reload_all reload_detector add_detector property put without
stale_name = refl
