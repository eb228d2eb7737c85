-- ===== src/Server/Trigger.antt =====
-- packages/@twokeys/server/src/routes/triggerHotkey.ts: the handler of
-- POST /post/trigger/:detector/:keyboard. What the handler does to the response is the list of its
-- calls, in order; the executors are add-ons, so what they do is a parameter.
mod Laws
mod Tests
use Prim.Native.String.{◌++◌ as append}
use keys.Prelude.{
  ℕ, Bool, true, false, Option, none, some, List, [], ◌∷◌, String, ◌==◌, property, ◌||◌, Result, ok,
  throws, if◌then◌else◌,
}
use keys.Server.{
  Value, null, text, scalar, object, Fields, end, field, get, has_own_property, truthy, to_key,
}

pub record Keyboard : Type 0 where
  pub root : String
  pub executors : Fields
  pub hotkeys : List (String × Fields)

pub record DetectorConfig : Type 0 where
  pub name : String
  pub keyboards : List (String × Keyboard)

-- `ExecutorExecConfig`
pub record ExecutorConfig : Type 0 where
  pub hotkey : Fields
  pub hotkey_code : String
  pub executor_default_config : Fields
  pub keyboard : Keyboard

pub data Failure : Type 0 where
  type_error : Failure
  executor_not_found : Failure
  executor_failed : String → Failure

-- `res.statusCode = n; res.json({ message })`, or `next(err)`.
pub data Reply : Type 0 where
  sends : ℕ → String → Reply
  passes_on : Failure → Reply

abbrev pub Executors : Type 0
Executors = List (String × (ExecutorConfig → Result Failure (Unit {0})))

unfoldable pub is_multi_hotkey : Fields → Bool
is_multi_hotkey hotkey =
    has_own_property hotkey "up" || has_own_property hotkey "down" || has_own_property hotkey "hold"

-- `{ ...defaults, ...own }`
unfoldable pub spread : Fields → Fields → Fields
spread defaults end = defaults
spread defaults (field k v own) = field k v (spread defaults own)

-- `keyboard.executors[name] || {}`, spread: what is not an object has no keys here.
abbrev pub config_fields : Option Value → Fields
config_fields (some (object o)) = o
config_fields _ = end

-- `hotkey.executor || keyboard.executors.default`, as the key that it is used as.
unfoldable pub executor_to_call : Fields → Keyboard → String
executor_to_call hotkey keyboard =
    let chosen = get "executor" hotkey in
    to_key (if truthy chosen then chosen else get "default" keyboard.executors)

unfoldable pub config_for_executor : Fields → String → Keyboard → ExecutorConfig
config_for_executor hotkey code keyboard =
    let defaults = config_fields (get (executor_to_call hotkey keyboard) keyboard.executors) in
    record {
      hotkey = spread defaults hotkey;
      hotkey_code = code;
      executor_default_config = defaults;
      keyboard = keyboard;
    }

abbrev pub call_executor :
    Option (ExecutorConfig → Result Failure (Unit {0})) → ExecutorConfig → Result Failure (Unit {0})
call_executor none config = throws executor_not_found
call_executor (some execute) config = execute config

-- `executeHotKey`: a property of `null` throws.
unfoldable pub execute_hot_key :
    Option Fields → String → Keyboard → Executors → Result Failure (Unit {0})
execute_hot_key none code keyboard executors = throws type_error
execute_hot_key (some hotkey) code keyboard executors =
    call_executor (property (executor_to_call hotkey keyboard) executors)
      (config_for_executor hotkey code keyboard)

-- `.catch(next).then(…)`
abbrev pub settle : Result Failure (Unit {0}) → List Reply
settle (ok _) = sends 200 "Run triggered" ∷ []
settle (throws e) = passes_on e ∷ sends 200 "Run triggered" ∷ []

-- `typeof theHotkey[eventType] !== "object"`; the type of `null` is "object".
abbrev pub select_event : Option Value → Option (Option Fields)
select_event (some null) = some none
select_event (some (object o)) = some (some o)
select_event _ = none

-- The single macro to run of a hotkey; `none` stands for `null`.
unfoldable pub config_to_give : Fields → String → Option (Option Fields)
config_to_give hotkey event =
    if is_multi_hotkey hotkey then select_event (get event hotkey) else some (some hotkey)

unfoldable pub run_config :
    Option (Option Fields) → String → String → Keyboard → Executors → List Reply
run_config none event code keyboard executors =
    sends 422 (append "Hotkey event type " (append event " not found")) ∷ []
run_config (some given) event code keyboard executors =
    settle (execute_hot_key given code keyboard executors)

abbrev pub run_hotkey : Option Fields → String → String → Keyboard → Executors → List Reply
run_hotkey none event code keyboard executors = sends 404 "Hotkey Not Found" ∷ []
run_hotkey (some hotkey) event code keyboard executors =
    run_config (config_to_give hotkey event) event code keyboard executors

abbrev pub run_keyboard : Option Keyboard → String → String → Executors → List Reply
run_keyboard none event code executors = sends 404 "Keyboard Not Found" ∷ []
run_keyboard (some keyboard) event code executors =
    run_hotkey (property code keyboard.hotkeys) event code keyboard executors

abbrev pub run_detector : Option DetectorConfig → String → String → String → Executors → List Reply
run_detector none keyboard event code executors = sends 404 "Detector Not Found" ∷ []
run_detector (some detector) keyboard event code executors =
    run_keyboard (property keyboard detector.keyboards) event code executors

-- `req.body.event || "down"`; a truthy value that is no text is no event.
abbrev pub event_type : Option Value → Option String
event_type (some (text s)) = if s == "" then some "down" else some s
event_type v = if truthy v then none else some "down"

abbrev pub is_event : Option String → Bool
is_event none = false
is_event (some e) = e == "up" || e == "down" || e == "hold"

abbrev pub or_empty : Option String → String
or_empty none = ""
or_empty (some e) = e

module _ (detectors : List (String × DetectorConfig)) (executors : Executors) where
  -- After the body has been found to name a hotkey.
  unfoldable pub trigger_event : String → String → String → Option Value → List Reply
  trigger_event detector keyboard hotkey event =
      if is_event (event_type event)
      then run_detector (property detector detectors) keyboard (or_empty (event_type event)) hotkey
          executors
      else sends 422 "Bad event field given!" ∷ []

  abbrev pub bad_body : List Reply
  bad_body = sends 422 "Invalid POST body! Properties were missing!" ∷ []

  abbrev pub trigger_fields : String → String → Option Value → Option Value → List Reply
  trigger_fields detector keyboard (some (text hotkey)) event =
      trigger_event detector keyboard hotkey event
  trigger_fields detector keyboard _ event = bad_body

  -- The handler, at the parameters of the route and the body; a property of `null` throws.
  unfoldable pub trigger_hotkey : String → String → Option Value → Result Failure (List Reply)
  trigger_hotkey detector keyboard (some (object body)) =
      ok (trigger_fields detector keyboard (get "hotkey" body) (get "event" body))
  trigger_hotkey detector keyboard (some null) = throws type_error
  trigger_hotkey detector keyboard _ = ok bad_body
