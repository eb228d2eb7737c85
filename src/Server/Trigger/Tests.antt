-- ===== src/Server/Trigger/Tests.antt =====
-- The trigger route and the map of detectors on concrete requests and configs.
use keys.Prelude.{none, some, List, [], ◌∷◌, String, ◌≡◌, ◌↔◌, refl, ok, throws, property}
use keys.Server.{text, object, Fields, end, field, get, has_own_property}
use keys.Server.Trigger.{
  Keyboard, DetectorConfig, executor_failed, sends, passes_on, Executors, is_multi_hotkey,
  config_to_give, execute_hot_key, executor_to_call, run_config, trigger_event, trigger_hotkey,
}
use keys.Server.Trigger.Laws.{
  Runs, triggers_iff, failing_run_sends_success, Asks, Replied, trigger_hotkey-Replied,
}

abbrev macro : Fields
macro = field "func" (text "Copy") end

abbrev board : Keyboard
board = record {
  root = "kb";
  executors = field "default" (text "ahk") end;
  hotkeys = ("^c", macro) ∷ ("^v", field "up" (object macro) end) ∷ [];
}

abbrev desk : DetectorConfig
desk = record { name = "desk"; keyboards = ("main", board) ∷ [] }

abbrev detectors : List (String × DetectorConfig)
detectors = ("desk", desk) ∷ []

abbrev works : Executors
works = ("ahk", λ config. ok tt) ∷ []

abbrev breaks : Executors
breaks = ("ahk", λ config. throws (executor_failed "no DLL")) ∷ []

abbrev body : Fields
body = field "hotkey" (text "^c") end

up_only :
    trigger_hotkey detectors works "desk" "main" (some (object (field "hotkey" (text "^v") end)))
    ≡ ok (sends 422 "Hotkey event type down not found" ∷ [])
unfolding trigger_hotkey trigger_event config_to_give is_multi_hotkey run_config get
    has_own_property property
up_only = refl

Runs-ok : Runs detectors works "desk" "main" "^c" "down" (ok tt)
unfolding config_to_give is_multi_hotkey get has_own_property property execute_hot_key
    executor_to_call
Runs-ok = record {
  config = desk;
  board = board;
  hotkey = macro;
  given = some macro;
  detector_found = refl;
  keyboard_found = refl;
  hotkey_found = refl;
  selected = refl;
  executed = refl;
}

Runs-broken : Runs detectors breaks "desk" "main" "^c" "down" (throws (executor_failed "no DLL"))
unfolding config_to_give is_multi_hotkey get has_own_property property execute_hot_key
    executor_to_call
Runs-broken = record {
  config = desk;
  board = board;
  hotkey = macro;
  given = some macro;
  detector_found = refl;
  keyboard_found = refl;
  hotkey_found = refl;
  selected = refl;
  executed = refl;
}

triggers_iff_example :
    (trigger_hotkey detectors works "desk" "main" (some (object body))
      ≡ ok (sends 200 "Run triggered" ∷ []))
    ↔ Asks detectors works "desk" "main" (some (object body)) (ok tt)
triggers_iff_example = triggers_iff detectors works "desk" "main" (some (object body))

failing_run_sends_success_example :
    trigger_hotkey detectors breaks "desk" "main" (some (object body))
    ≡ ok (passes_on (executor_failed "no DLL") ∷ sends 200 "Run triggered" ∷ [])
unfolding get
failing_run_sends_success_example =
    failing_run_sends_success detectors breaks "desk" "main" "^c" body (executor_failed "no DLL")
      refl refl Runs-broken

no_body :
    trigger_hotkey detectors works "desk" "main" none
    ≡ ok (sends 422 "Invalid POST body! Properties were missing!" ∷ [])
unfolding trigger_hotkey
no_body = refl

trigger_hotkey-Replied_example :
    Replied detectors breaks "desk" "main"
      (some (object body))
      (trigger_hotkey detectors breaks "desk" "main" (some (object body)))
trigger_hotkey-Replied_example =
    trigger_hotkey-Replied detectors breaks "desk" "main" (some (object body))
