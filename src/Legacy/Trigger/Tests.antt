-- ===== src/Legacy/Trigger/Tests.antt =====
-- The routes of packages/@twokeys/legacy-server/src/routes/api.ts on a sample config.
use Prim.Native.String.{◌++◌ as append}
use keys.Prelude.{none, some, [], ◌∷◌, String, ◌≡◌, ◌⊎◌, Result, ok}
use keys.Legacy.Trigger.{
  events, short, long, Keyboard, Config, Thrown, down, UserspaceConfig, sent, trigger,
}
use keys.Legacy.Trigger.Laws.{RanOne, IsFound, trigger-safe}

abbrev slashed : String → String → String
slashed a b = append a (append "/" b)

abbrev readable : String → Result Thrown (Unit {0})
readable file = ok tt

abbrev userspace : Result Thrown UserspaceConfig
userspace = ok (record { software = "software"; ahk_root = "ahk"; dll = some "ahk.dll" })

abbrev left : Keyboard
left = record {
  path = "none";
  dir = "left";
  root = "index.ahk";
  hotkeys = ("A", short "OpenA") ∷ ("B", long (events (some "DownB") none) none) ∷ [];
}

abbrev keyboards : Config
keyboards = ("left", left) ∷ []

trigger-safe_example :
    (((trigger slashed "cwd" readable userspace (ok keyboards) "left" "B" (some down) []).1 ≡ [])
      × (¬ (
          (trigger slashed "cwd" readable userspace (ok keyboards) "left" "B" (some down) []).0
          ≡ sent 200 "OK"))
      × (¬ (
          (file : String) × (f : String) × IsFound slashed "cwd" readable userspace
            (ok keyboards)
            "left"
            "B"
            (some down)
            file
            f)))
    ⊎ ((file : String) × (f : String) × IsFound slashed "cwd" readable userspace
          (ok keyboards)
          "left"
          "B"
          (some down)
          file
          f
        × ((trigger slashed "cwd" readable userspace (ok keyboards) "left" "B" (some down) []).0
            ≡ sent 200 "OK")
        × (((trigger slashed "cwd" readable userspace (ok keyboards) "left" "B" (some down) []).1
              ≡ [])
            ⊎ RanOne slashed "cwd" readable userspace file f []
                (trigger slashed "cwd" readable userspace
                  (ok keyboards)
                  "left"
                  "B"
                  (some down)
                  []).1))
trigger-safe_example =
    trigger-safe slashed "cwd" readable userspace (ok keyboards) "left" "B" (some down) []
