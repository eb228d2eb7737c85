-- ===== src/Server/Trigger/Laws.antt =====
-- When the trigger route of packages/@twokeys/server/src/routes/triggerHotkey.ts runs a macro, and
-- with what.
use keys.Prelude.{
  ℕ, ap, ◌∙◌, true, false, Option, none, some, List, [], ◌∷◌, String, ◌≡◌, ◌↔◌, inl, inr, refl,
  property, Result, ok, throws, arith, Option-cases, Bool-cases, if◌then◌else◌,
}
use keys.Server.{Value, null, text, scalar, object, Fields, end, field, get, has_own_property}
use keys.Server.Trigger.{
  Keyboard, DetectorConfig, Failure, type_error, Reply, sends, passes_on, Executors,
  is_multi_hotkey, spread, config_to_give, execute_hot_key, run_config, run_hotkey, run_detector,
  settle, event_type, is_event, or_empty, trigger_event, trigger_fields, trigger_hotkey,
}

-- A key of the config that an executor gets is the hotkey's own where it has one, and else that of
-- the executor's config for the keyboard.
pub get-spread :
    (k : String) (defaults own : Fields)
    → get k (spread defaults own) ≡ (if has_own_property own k then get k own else get k defaults)
unfolding spread has_own_property
get-spread k defaults end = refl
get-spread k defaults (field j v own) = ground (arith, get-spread k defaults own)

module _ (detectors : List (String × DetectorConfig)) (executors : Executors) where
  -- What has to be found for the request to reach an executor.
  pub record Runs (detector keyboard code event : String) (outcome : Result Failure (Unit {0}))
      : Type 0 where
    pub config : DetectorConfig
    pub board : Keyboard
    pub hotkey : Fields
    pub given : Option Fields
    pub detector_found : property detector detectors ≡ some config
    pub keyboard_found : property keyboard config.keyboards ≡ some board
    pub hotkey_found : property code board.hotkeys ≡ some hotkey
    pub selected : config_to_give hotkey event ≡ some given
    pub executed : execute_hot_key given code board executors ≡ outcome

  run_complete :
      (detector keyboard code event : String) (outcome : Result Failure (Unit {0}))
      → Runs detector keyboard code event outcome
      → run_detector (property detector detectors) keyboard event code executors ≡ settle outcome
  unfolding run_config
  run_complete detector keyboard code event outcome r =
      rw (r.detector_found, r.keyboard_found, r.hotkey_found, r.selected, r.executed)

  run_sound :
      (detector keyboard code event : String)
      → run_detector (property detector detectors) keyboard event code executors
        ≡ sends 200 "Run triggered" ∷ []
      → Runs detector keyboard code event (ok tt)
  unfolding run_config
  run_sound detector keyboard code event h = elim (Option-cases (property detector detectors)) [
    | inl e ↦ absurd (ground arith)
    | inr (c, e₁) ↦ elim (Option-cases (property keyboard c.keyboards)) [
      | inl e ↦ absurd (ground arith)
      | inr (b, e₂) ↦ elim (Option-cases (property code b.hotkeys)) [
        | inl e ↦ absurd (ground arith)
        | inr (k, e₃) ↦ elim (Option-cases (config_to_give k event)) [
          | inl e ↦ absurd (ground arith)
          | inr (g, e₄) ↦ record {
            config = c;
            board = b;
            hotkey = k;
            given = g;
            detector_found = e₁;
            keyboard_found = e₂;
            hotkey_found = e₃;
            selected = e₄;
            executed = ground arith;
          }
        ]
      ]
    ]
  ]

  fields_sound :
      (detector keyboard : String) (hotkey event : Option Value)
      → trigger_fields detectors executors detector keyboard hotkey event
        ≡ sends 200 "Run triggered" ∷ []
      → (code : String) × (hotkey ≡ some (text code))
        × (is_event (event_type event) ≡ true)
        × Runs detector keyboard code (or_empty (event_type event)) (ok tt)
  unfolding trigger_event
  fields_sound detector keyboard (some (text code)) event h =
      elim (Bool-cases (is_event (event_type event))) [
        | inl valid ↦ (code, refl, valid, run_sound detector keyboard code _ (rw valid at h))
        | inr bad ↦ let h' = rw bad at h in absurd (ground arith)
      ]
  fields_sound detector keyboard none event h = absurd (ground arith)
  fields_sound detector keyboard (some null) event h = absurd (ground arith)
  fields_sound detector keyboard (some (scalar b s)) event h = absurd (ground arith)
  fields_sound detector keyboard (some (object o)) event h = absurd (ground arith)

  object_runs :
      (detector keyboard : String) (body : Fields)
      → (trigger_hotkey detectors executors detector keyboard (some (object body))
          ≡ ok (sends 200 "Run triggered" ∷ []))
        ↔ ((code : String) × (get "hotkey" body ≡ some (text code))
            × (is_event (event_type (get "event" body)) ≡ true)
            × Runs detector keyboard code (or_empty (event_type (get "event" body))) (ok tt))
  unfolding trigger_hotkey trigger_event
  object_runs detector keyboard body = (
    λ h. fields_sound detector keyboard (get "hotkey" body) (get "event" body) (ground arith),
    λ (code, named, event, runs).
        rw (named, event, run_complete detector keyboard code _ (ok tt) runs),
  )

  -- A body that names a hotkey with an event, and what has to be found for it.
  pub record Asks (detector keyboard : String) (body : Option Value)
      (outcome : Result Failure (Unit {0})) : Type 0 where
    pub fields : Fields
    pub code : String
    pub is_object : body ≡ some (object fields)
    pub named : get "hotkey" fields ≡ some (text code)
    pub has_event : is_event (event_type (get "event" fields)) ≡ true
    pub found : Runs detector keyboard code (or_empty (event_type (get "event" fields))) outcome

  triggers_sound :
      (detector keyboard : String) (body : Option Value)
      → trigger_hotkey detectors executors detector keyboard body
        ≡ ok (sends 200 "Run triggered" ∷ [])
      → Asks detector keyboard body (ok tt)
  unfolding trigger_hotkey
  triggers_sound detector keyboard none h = absurd (ground (arith, h))
  triggers_sound detector keyboard (some null) h = absurd (ground (arith, h))
  triggers_sound detector keyboard (some (text s)) h = absurd (ground (arith, h))
  triggers_sound detector keyboard (some (scalar b s)) h = absurd (ground (arith, h))
  triggers_sound detector keyboard (some (object body)) h =
      let (code, named, event, runs) = (object_runs detector keyboard body).0 h in
      record {
        fields = body;
        code = code;
        is_object = refl;
        named = named;
        has_event = event;
        found = runs;
      }

  triggers_complete :
      (detector keyboard : String) (body : Option Value)
      → Asks detector keyboard body (ok tt)
      → trigger_hotkey detectors executors detector keyboard body
        ≡ ok (sends 200 "Run triggered" ∷ [])
  triggers_complete detector keyboard body a =
      ap (trigger_hotkey detectors executors detector keyboard) a.is_object
      ∙ (object_runs detector keyboard a.fields).1 (a.code, a.named, a.has_event, a.found)

  -- Whatever the body is, or if there is none: the handler answers with 200 "Run triggered" and
  -- nothing else exactly if the body is an object with a text under `hotkey` and a valid event (by
  -- default "down"), and the detector, its keyboard, the keyboard's hotkey and the macro for the event
  -- are found, and the executor runs it without an error.
  pub triggers_iff :
      (detector keyboard : String) (body : Option Value)
      → (trigger_hotkey detectors executors detector keyboard body
          ≡ ok (sends 200 "Run triggered" ∷ []))
        ↔ Asks detector keyboard body (ok tt)
  triggers_iff detector keyboard body =
      (triggers_sound detector keyboard body, triggers_complete detector keyboard body)

  -- For a request that is in order, a macro whose executor fails, or is not installed, is answered
  -- twice: the error is passed on to the error handler, and 200 "Run triggered" is sent after it.
  pub failing_run_sends_success :
      (detector keyboard code : String) (body : Fields) (e : Failure)
      → get "hotkey" body ≡ some (text code)
      → is_event (event_type (get "event" body)) ≡ true
      → Runs detector keyboard code (or_empty (event_type (get "event" body))) (throws e)
      → trigger_hotkey detectors executors detector keyboard (some (object body))
        ≡ ok (passes_on e ∷ sends 200 "Run triggered" ∷ [])
  unfolding trigger_hotkey trigger_event
  failing_run_sends_success detector keyboard code body e named event runs =
      rw (named, event, run_complete detector keyboard code _ (throws e) runs)

module _ (detectors : List (String × DetectorConfig)) (executors : Executors) where
  -- One status and message, or an error of the executor that is passed on and then a success.
  pub data Replied (detector keyboard : String) (body : Option Value)
      : Result Failure (List Reply) → Type 0 where
    once : (n : ℕ) (m : String) → Replied detector keyboard body (ok (sends n m ∷ []))
    after_failure :
        (e : Failure)
        → Asks detectors executors detector keyboard body (throws e)
        → Replied detector keyboard body (ok (passes_on e ∷ sends 200 "Run triggered" ∷ []))
    crashed : body ≡ some null → Replied detector keyboard body (throws type_error)

  abbrev AtFields : String → String → Fields → List Reply → Type 0
  AtFields detector keyboard body replies =
      Replied detector keyboard (some (object body)) (ok replies)

  module _ (detector keyboard : String) (body : Fields) (code : String)
      (named : get "hotkey" body ≡ some (text code))
      (valid : is_event (event_type (get "event" body)) ≡ true) where
    abbrev event : String
    event = or_empty (event_type (get "event" body))

    run_replies :
        (c : DetectorConfig) (b : Keyboard) (k : Fields) (g : Option Fields)
        → property detector detectors ≡ some c
        → property keyboard c.keyboards ≡ some b
        → property code b.hotkeys ≡ some k
        → config_to_give k event ≡ some g
        → (r : Result Failure (Unit {0})) → execute_hot_key g code b executors ≡ r
        → AtFields detector keyboard body (settle r)
    run_replies c b k g dq kq hq sq (ok u) x = once 200 "Run triggered"
    run_replies c b k g dq kq hq sq (throws e) x = after_failure e (record {
      fields = body;
      code = code;
      is_object = refl;
      named = named;
      has_event = valid;
      found = record {
        config = c;
        board = b;
        hotkey = k;
        given = g;
        detector_found = dq;
        keyboard_found = kq;
        hotkey_found = hq;
        selected = sq;
        executed = x;
      };
    })

    found_replies :
        AtFields detector keyboard body
          (run_detector (property detector detectors) keyboard event code executors)
    unfolding run_config
    found_replies = elim (Option-cases (property detector detectors)) [
      | inl e ↦ rw e (once 404 "Detector Not Found")
      | inr (c, e₁) ↦ elim (Option-cases (property keyboard c.keyboards)) [
        | inl e ↦ rw (e₁, e) (once 404 "Keyboard Not Found")
        | inr (b, e₂) ↦ elim (Option-cases (property code b.hotkeys)) [
          | inl e ↦ rw (e₁, e₂, e) (once 404 "Hotkey Not Found")
          | inr (k, e₃) ↦ elim (Option-cases (config_to_give k event)) [
            | inl e ↦ rw (e₁, e₂, e₃, e) (once 422 _)
            | inr (g, e₄) ↦ rw (e₁, e₂, e₃, e₄) (run_replies c b k g e₁ e₂ e₃ e₄ _ refl)
          ]
        ]
      ]
    ]

  fields_replies :
      (detector keyboard : String) (body : Fields) (hotkey : Option Value)
      → get "hotkey" body ≡ hotkey
      → AtFields detector keyboard body
          (trigger_fields detectors executors detector keyboard hotkey (get "event" body))
  unfolding trigger_event
  fields_replies detector keyboard body (some (text code)) h =
      elim (Bool-cases (is_event (event_type (get "event" body)))) [
        | inl valid ↦ rw valid (found_replies detector keyboard body code h valid)
        | inr bad ↦ rw bad (once 422 "Bad event field given!")
      ]
  fields_replies detector keyboard body none h = once 422 _
  fields_replies detector keyboard body (some null) h = once 422 _
  fields_replies detector keyboard body (some (scalar b s)) h = once 422 _
  fields_replies detector keyboard body (some (object o)) h = once 422 _

  -- Every request gets exactly one status and message and no error is passed on; or everything that it
  -- asks for was found and the executor failed, in which case the error is passed on and then 200 "Run
  -- triggered" is sent; or its body is `null`, and the handler throws a TypeError.
  pub trigger_hotkey-Replied :
      (detector keyboard : String) (body : Option Value)
      → Replied detector keyboard body (trigger_hotkey detectors executors detector keyboard body)
  unfolding trigger_hotkey
  trigger_hotkey-Replied detector keyboard none = once 422 _
  trigger_hotkey-Replied detector keyboard (some null) = crashed refl
  trigger_hotkey-Replied detector keyboard (some (text s)) = once 422 _
  trigger_hotkey-Replied detector keyboard (some (scalar b s)) = once 422 _
  trigger_hotkey-Replied detector keyboard (some (object body)) =
      fields_replies detector keyboard body (get "hotkey" body) refl

-- For a hotkey that is not split by event the event chosen makes no difference.
pub event_ignored :
    (executors : Executors) (hotkey : Fields) (code e₁ e₂ : String) (keyboard : Keyboard)
    → is_multi_hotkey hotkey ≡ false
    → run_hotkey (some hotkey) e₁ code keyboard executors
      ≡ run_hotkey (some hotkey) e₂ code keyboard executors
unfolding run_config config_to_give
event_ignored executors hotkey code e₁ e₂ keyboard single = rw single
