-- ===== src/Executor/Laws.antt =====
-- What executors/@twokeys/executor-ahk/src/exec.ts runs.
use Prim.Native.Char.{Char, code}
use keys.Prelude.{
  ◌≤◌, arith, true, Option, none, some, String, ◌≡◌, refl, snoc, Bool-cases, Result-cases, inl, inr,
  ◌⊎◌, Result, ok, throws, ◌>>=◌,
}
use keys.Software
use keys.Software.{Store, ExecutableDirectlyFromDb}
use keys.Copier.Trees.{halves}
use keys.Setup.Network.{between}
use keys.Setup.Network.Formats.{AllChars, HasCharacter, between_le}
use keys.Executor.{
  is_alphanumeric, all_alphanumeric, run_ahk_text, Thrown, ExecutorConfig, is_function_name, Runs,
  hotkey_file, exec_string, validate_config, find_dll, execute,
}

-- A letter from a to z or A to Z, or a digit.
abbrev pub IsAlphanumeric : Char → Type 0
IsAlphanumeric c =
    ((48 ≤ code c) × (code c ≤ 57))
    ⊎ ((65 ≤ code c) × (code c ≤ 90))
    ⊎ ((97 ≤ code c) × (code c ≤ 122))

-- A function's name: one letter or digit, or more of them, and nothing else.
pub record IsName (s : String) : Type 0 where
  pub not_empty : HasCharacter s
  pub plain : AllChars IsAlphanumeric s

char-IsAlphanumeric : (c : Char) → is_alphanumeric c ≡ true → IsAlphanumeric c
char-IsAlphanumeric c h = elim (Bool-cases (between 65 90 c)) [
  | inl u ↦ inr (inl (between_le 65 90 c u))
  | inr u ↦ elim (Bool-cases (between 97 122 c)) [
    | inl l ↦ inr (inr (between_le 97 122 c l))
    | inr l ↦ inl (between_le 48 57 c (ground (arith, h, u, l)))
  ]
]

all_alphanumeric_lem : (s : String) → all_alphanumeric s ≡ true → AllChars IsAlphanumeric s
unfolding all_alphanumeric
all_alphanumeric_lem String.[] h = tt
all_alphanumeric_lem (String.◌∷◌ c s) h =
    let (here, rest) = halves (is_alphanumeric c) (all_alphanumeric s) h in
    (char-IsAlphanumeric c here, all_alphanumeric_lem s rest)

pub name-IsName : (s : String) → is_function_name s ≡ true → IsName s
unfolding is_function_name
name-IsName String.[] h = absurd (ground (arith, h))
name-IsName (String.◌∷◌ c s) h = record {
  not_empty = tt;
  plain = all_alphanumeric_lem (String.◌∷◌ c s) h;
}

module _ (out : Software.Outside) (directory owner : String)
    (exists : String → Result Thrown (Unit {0}))
    (library : String → String → Result Thrown (Unit {0})) (s : Store) (c : ExecutorConfig) where
  -- The run that is in order: its project, and the library that the software registry has.
  pub record IsInOrder (project : Option String) (p : String) (e : ExecutableDirectlyFromDb)
      : Type 0 where
    pub in_project : project ≡ some p
    pub there : exists (hotkey_file out directory owner exists p c) ≡ ok tt
    pub named : IsName c.func
    pub has_dll : find_dll out directory owner exists s ≡ ok e

  -- Either the run fails, and nothing is handed to the native module; or exactly one text is handed to
  -- it, at the path that the software registry has for the library, the file of the hotkey exists, and
  -- the function's name, which the text calls, is made of ASCII letters and digits alone, at least
  -- one. The run then returns or throws as the native module does.
  pub execute-safe :
      (project : Option String) (runs : Runs)
      → (((e : Thrown) × ((execute out directory owner exists library s project c runs).0
              ≡ throws e))
          × ((execute out directory owner exists library s project c runs).1 ≡ runs))
        ⊎ ((p : String) × (e : ExecutableDirectlyFromDb) × IsInOrder project p e
            × (execute out directory owner exists library s project c runs ≡ (
              library e.path (exec_string out directory owner exists p c),
              snoc runs (e.path, exec_string out directory owner exists p c),
            )))
  unfolding execute validate_config run_ahk_text ◌>>=◌
  execute-safe none runs = inl ((Thrown.assertion_error, refl), refl)
  execute-safe (some p) runs =
      elim (Result-cases (exists (hotkey_file out directory owner exists p c))) [
        | inr (e, x) ↦ inl ((e, rw x refl), rw x refl)
        | inl (u, x) ↦ elim (Bool-cases (is_function_name c.func)) [
          | inr n ↦ inl ((Thrown.syntax_error, rw (x, n) refl), rw (x, n) refl)
          | inl n ↦ elim (Result-cases (find_dll out directory owner exists s)) [
            | inr (e, f) ↦ inl ((e, rw (x, n, f) refl), rw (x, n, f) refl)
            | inl (e, f) ↦ inr (
              p,
              e,
              record { in_project = refl; there = x; named = name-IsName c.func n; has_dll = f },
              rw (x, n, f) refl,
            )
          ]
        ]
      ]
