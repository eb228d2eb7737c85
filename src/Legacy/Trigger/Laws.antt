-- ===== src/Legacy/Trigger/Laws.antt =====
-- What the routes of packages/@twokeys/legacy-server/src/routes/api.ts run, answer and write.
use keys.Prelude.{
  true, Option, none, some, String, ◌≡◌, ◌↔◌, refl, sym, subst, arith, snoc, property, property-put,
  ◌==◌, Bool-cases, Option-cases, Result-cases, inl, inr, ◌⊎◌, Result, ok, if◌then◌else◌,
}
use keys.Executor.{is_function_name, Runs}
use keys.Executor.Laws.{IsName, name-IsName}
use keys.Legacy.Trigger.{
  text, events, undefined_func, null_func, Hotkey, short, long, up, down, other, func_of, Keyboard,
  Config, Thrown, EvDevValues, UserspaceConfig, sent, fetch_hotkey, exec_test, run_hotkey,
  func_to_run, value_or_down, trigger, update_keyboard_path, path_changed,
}

module _ (join : String → String → String) (cwd : String)
    (access : String → Result Thrown (Unit {0})) (userspace : Result Thrown UserspaceConfig) where
  -- One text was handed to the library.
  pub data RanOne (file f : String) (before : Runs) : Runs → Type 0 where
    ran :
        (u : UserspaceConfig) (dll : String)
        → userspace ≡ ok u
        → u.dll ≡ some dll
        → IsName f
        → RanOne file f before
            (snoc before (join (join u.software u.ahk_root) dll, exec_test join cwd file f))

  handed :
      (file f : String) (a : Result Thrown (Unit {0})) (runs : Runs) (u : UserspaceConfig)
      (dll : String)
      → userspace ≡ ok u
      → u.dll ≡ some dll
      → is_function_name f ≡ true
      → run_hotkey join cwd a userspace file f runs
        ≡ snoc runs (join (join u.software u.ahk_root) dll, exec_test join cwd file f)
  unfolding run_hotkey
  handed file f a runs u dll q d n = simp (n, q, d) refl

  run_hotkey_lem :
      (file f : String) (a : Result Thrown (Unit {0})) (runs : Runs)
      → (run_hotkey join cwd a userspace file f runs ≡ runs)
        ⊎ RanOne file f runs (run_hotkey join cwd a userspace file f runs)
  unfolding run_hotkey
  run_hotkey_lem file f a runs = elim (Bool-cases (is_function_name f)) [
    | inr n ↦ inl (rw n refl)
    | inl n ↦ elim (Result-cases userspace) [
      | inr (e, q) ↦ inl (rw (n, q) refl)
      | inl (u, q) ↦ elim (Option-cases u.dll) [
        | inl d ↦ inl (rw (n, q, d) refl)
        | inr (dll, d) ↦ inr (
            subst (RanOne file f runs) (sym (handed file f a runs u dll q d n))
              (ran u dll q d (name-IsName f n)))
      ]
    ]
  ]

  -- The function that a hotkey of the config has for an event.
  pub data HasFunction : Hotkey → EvDevValues → String → Type 0 where
    of_text : (f : String) (v : EvDevValues) → HasFunction (short f) v f
    of_func : (f : String) (t : Option String) (v : EvDevValues) → HasFunction (long (text f) t) v f
    on_down : (f : String) (u t : Option String) → HasFunction (long (events (some f) u) t) down f
    on_up : (f : String) (d t : Option String) → HasFunction (long (events d (some f)) t) up f
    of_none :
        (t : Option String) (v : EvDevValues) → HasFunction (long undefined_func t) v "undefined"

  -- The event of a request: that of its value, or a key that goes down.
  pub data IsEvent : Option EvDevValues → EvDevValues → Type 0 where
    by_default : IsEvent none down
    given : (v : EvDevValues) → IsEvent (some v) v

  -- What is asked for: the hotkey that the config has, its file, and its function for the event.
  pub record IsFound (loaded : Result Thrown Config) (keyboard code : String)
      (value : Option EvDevValues) (file f : String) : Type 0 where
    pub config : Config
    pub board : Keyboard
    pub hotkey : Hotkey
    pub event : EvDevValues
    pub is_loaded : loaded ≡ ok config
    pub has_keyboard : property keyboard config ≡ some board
    pub has_hotkey : property code board.hotkeys ≡ some hotkey
    pub is_event : IsEvent value event
    pub function : HasFunction hotkey event f
    pub in_file : file ≡ join (join cwd board.dir) board.root

  value-IsEvent : (value : Option EvDevValues) → IsEvent value (value_or_down join cwd value)
  value-IsEvent none = by_default
  value-IsEvent (some v) = given v

  event_value :
      (value : Option EvDevValues) (v : EvDevValues)
      → IsEvent value v
      → value_or_down join cwd value ≡ v
  event_value value v by_default = refl
  event_value value v (given w) = refl

  function_found :
      (h : Hotkey) (v : EvDevValues) (f : String)
      → HasFunction h v f
      → func_to_run join cwd (func_of h) v ≡ ok (some f)
  function_found h v f (of_text g w) = refl
  function_found h v f (of_func g t w) = refl
  function_found h v f (on_down g u t) = refl
  function_found h v f (on_up g d t) = refl
  function_found h v f (of_none t w) = refl

  same :
      (g f : String) → ◌≡◌ {A = Result Thrown (Option String)} (ok (some g)) (ok (some f)) → g ≡ f
  same g f e = ground (arith, e)

  function_of :
      (h : Hotkey) (v : EvDevValues) (f : String)
      → func_to_run join cwd (func_of h) v ≡ ok (some f)
      → HasFunction h v f
  function_of (short g) v f e = subst (HasFunction (short g) v) (same g f e) (of_text g v)
  function_of (long (text g) t) v f e =
      subst (HasFunction (long (text g) t) v) (same g f e) (of_func g t v)
  function_of (long (events none u) t) down f e = absurd (ground (arith, e))
  function_of (long (events (some g) u) t) down f e =
      subst (HasFunction (long (events (some g) u) t) down) (same g f e) (on_down g u t)
  function_of (long (events d none) t) up f e = absurd (ground (arith, e))
  function_of (long (events d (some g)) t) up f e =
      subst (HasFunction (long (events d (some g)) t) up) (same g f e) (on_up g d t)
  function_of (long (events d u) t) (other n) f e = absurd (ground (arith, e))
  function_of (long undefined_func t) v f e =
      subst (HasFunction (long undefined_func t) v) (same "undefined" f e) (of_none t v)
  function_of (long null_func t) down f e = absurd (ground (arith, e))
  function_of (long null_func t) up f e = absurd (ground (arith, e))
  function_of (long null_func t) (other n) f e = absurd (ground (arith, e))

  IsFound-sent :
      (loaded : Result Thrown Config) (keyboard code : String) (value : Option EvDevValues)
      (runs : Runs) (file f : String)
      → IsFound loaded keyboard code value file f
      → (trigger join cwd access userspace loaded keyboard code value runs).0 ≡ sent 200 "OK"
  unfolding trigger fetch_hotkey
  IsFound-sent loaded keyboard code value runs file f x =
      rw
        (
          x.is_loaded,
          x.has_keyboard,
          x.has_hotkey,
          event_value value x.event x.is_event,
          function_found x.hotkey x.event f x.function,
        )
        refl

  -- For a request that is not answered with 200.
  trigger-IsFound :
      (loaded : Result Thrown Config) (keyboard code : String) (value : Option EvDevValues)
      (runs : Runs)
      → (¬ ((trigger join cwd access userspace loaded keyboard code value runs).0 ≡ sent 200 "OK"))
      → (¬ ((file : String) × (f : String) × IsFound loaded keyboard code value file f))
  trigger-IsFound loaded keyboard code value runs n (file, f, x) =
      n (IsFound-sent loaded keyboard code value runs file f x)

  -- A request is answered with 200 "OK" exactly where its hotkey is found and has a function for the
  -- event, which is "undefined" for a hotkey with no `func` at all, whether or not anything is run. At most one text is handed to the library, and only for a
  -- function whose name is made of letters and digits; for any other answer nothing is run.
  pub trigger-safe :
      (loaded : Result Thrown Config) (keyboard code : String) (value : Option EvDevValues)
      (runs : Runs)
      → (((trigger join cwd access userspace loaded keyboard code value runs).1 ≡ runs)
          × (¬ (
              (trigger join cwd access userspace loaded keyboard code value runs).0
              ≡ sent 200 "OK"))
          × (¬ ((file : String) × (f : String) × IsFound loaded keyboard code value file f)))
        ⊎ ((file : String) × (f : String) × IsFound loaded keyboard code value file f
            × ((trigger join cwd access userspace loaded keyboard code value runs).0
                ≡ sent 200 "OK")
            × (((trigger join cwd access userspace loaded keyboard code value runs).1 ≡ runs)
                ⊎ RanOne file f runs
                    (trigger join cwd access userspace loaded keyboard code value runs).1))
  unfolding trigger fetch_hotkey
  trigger-safe loaded keyboard code value runs = elim (Result-cases loaded) [
    | inr (e, q) ↦ refused (rw q refl) (rw q (λ h. cc))
    | inl (config, q) ↦ elim (Option-cases (property keyboard config)) [
      | inl k ↦ refused (rw (q, k) refl) (rw (q, k) (λ h. cc))
      | inr (board, k) ↦ elim (Option-cases (property code board.hotkeys)) [
        | inl h ↦ refused (rw (q, k, h) refl) (rw (q, k, h) (λ h'. cc))
        | inr (hotkey, h) ↦
            elim (Result-cases
              (func_to_run join cwd (func_of hotkey) (value_or_down join cwd value))) [
                | inr (e, r) ↦ refused (rw (q, k, h, r) refl) (rw (q, k, h, r) (λ h'. cc))
                | inl (none, r) ↦
                    refused (rw (q, k, h, r) refl) (rw (q, k, h, r) (λ h'. ground (arith, h')))
                | inl (some f, r) ↦ inr (
                  join (join cwd board.dir) board.root,
                  f,
                  record {
                    config = config;
                    board = board;
                    hotkey = hotkey;
                    event = value_or_down join cwd value;
                    is_loaded = q;
                    has_keyboard = k;
                    has_hotkey = h;
                    is_event = value-IsEvent value;
                    function = function_of hotkey (value_or_down join cwd value) f r;
                    in_file = refl;
                  },
                  rw (q, k, h, r) refl,
                  rw (q, k, h, r)
                      (run_hotkey_lem (join (join cwd board.dir) board.root) f
                        (access (join (join cwd board.dir) board.root)) runs),
                )
              ]
      ]
    ]
  ]
    where
      refused :
          (trigger join cwd access userspace loaded keyboard code value runs).1 ≡ runs
          → (¬ (
              (trigger join cwd access userspace loaded keyboard code value runs).0
              ≡ sent 200 "OK"))
          → (((trigger join cwd access userspace loaded keyboard code value runs).1 ≡ runs)
              × (¬ (
                  (trigger join cwd access userspace loaded keyboard code value runs).0
                  ≡ sent 200 "OK"))
              × (¬ ((file : String) × (f : String) × IsFound loaded keyboard code value file f)))
            ⊎ ((file : String) × (f : String) × IsFound loaded keyboard code value file f
                × ((trigger join cwd access userspace loaded keyboard code value runs).0
                    ≡ sent 200 "OK")
                × (((trigger join cwd access userspace loaded keyboard code value runs).1 ≡ runs)
                    ⊎ RanOne file f runs
                        (trigger join cwd access userspace loaded keyboard code value runs).1))
      refused u n = inl (u, n, trigger-IsFound loaded keyboard code value runs n)

-- A change of a keyboard's path is never answered exactly if the config has no such keyboard.
-- Otherwise, where the config can be written, the keyboard has the new path afterwards and is else
-- as before, as is every other keyboard.
pub update_keyboard_path_lem :
    (keyboard path : String) (config : Config)
    → (((update_keyboard_path (ok tt) keyboard path config).0 ≡ none)
        ↔ (property keyboard config ≡ none))
      × ((k : Keyboard)
          → property keyboard config ≡ some k
          → (j : String)
          → property j (update_keyboard_path (ok tt) keyboard path config).1
            ≡ (if keyboard == j then some (record k { path = path }) else property j config))
unfolding update_keyboard_path
update_keyboard_path_lem keyboard path config = (
  answered (property keyboard config),
  λ k e j. rw e (property-put keyboard j (record k { path = path }) config),
)
  where
    answered :
        (o : Option Keyboard)
        → ((path_changed (ok tt) keyboard path config o).0 ≡ none) ↔ (o ≡ none)
    answered none = (λ h. refl, λ h. refl)
    answered (some k) = (λ h. cc, λ h. cc)
