-- ===== src/Server/Startup/Laws.antt =====
-- When packages/@twokeys/server/src/util/startup.ts refuses to start.
use keys.Prelude.{
  Bool, true, false, ◌==◌, Option, none, some, List, [], String, ◌≡◌, refl, ◌⊎◌, inl, inr,
  Bool-cases, Result-cases, Result, ok, throws, arith, eq_iff, ap, ◌∙◌,
}
use keys.Core.Logger.{exit, Outside, Logger, is_text}
use keys.Server.Startup.{
  test_fltmc, query_drive, admin_allowed, is_admin, after_check, startup_scripts,
}

module _ {S : Type 0} (out : Outside S) (l : Logger S)
    (execa : String → List String → Result (Option String) (Unit {0})) (platform : String)
    (stack_of : String → Option String) where
  -- On Windows, without the leave of the environment: the drive can be queried, or there is no
  -- program to query it with and `fltmc` runs.
  pub record IsAdmin : Type 0 where
    pub on_windows : platform ≡ "win32"
    pub not_allowed : admin_allowed out l execa platform stack_of ≡ false
    pub proved :
        (query_drive out l execa platform stack_of ≡ ok tt)
        ⊎ ((query_drive out l execa platform stack_of ≡ throws (some "ENOENT"))
            × (execa "fltmc" [] ≡ ok tt))

  is_text-some : (e : Option String) (t : String) → is_text e t ≡ true → e ≡ some t
  is_text-some none t h = absurd (ground (arith, h))
  is_text-some (some s) t h = ap some ((eq_iff s t).0 h)

  startup_scripts-refuses :
      IsAdmin → (s : S) → (startup_scripts out l execa platform stack_of s).0 ≡ throws (exit 1)
  unfolding startup_scripts is_admin test_fltmc
  startup_scripts-refuses a s = elim a.proved [
    | inl q ↦ rw ((eq_iff platform "win32").1 a.on_windows, a.not_allowed, q) refl
    | inr (q, f) ↦ rw ((eq_iff platform "win32").1 a.on_windows, a.not_allowed, q, f) refl
  ]

  startup_scripts-admin :
      (s : S) → (startup_scripts out l execa platform stack_of s).0 ≡ throws (exit 1) → IsAdmin
  unfolding startup_scripts is_admin test_fltmc
  startup_scripts-admin s h = elim (Bool-cases (platform == "win32")) [
    | inr w ↦ absurd (ground (arith, w, h))
    | inl w ↦ elim (Bool-cases (admin_allowed out l execa platform stack_of)) [
      | inl a ↦ absurd (ground (arith, w, a, h))
      | inr a ↦ record {
        on_windows = (eq_iff platform "win32").0 w;
        not_allowed = a;
        proved = elim (Result-cases (query_drive out l execa platform stack_of)) [
          | inl (u, q) ↦ inl q
          | inr (e, q) ↦ elim (Bool-cases (is_text e "ENOENT")) [
            | inr c ↦ absurd (ground (arith, w, a, q, c, h))
            | inl c ↦ elim (Result-cases (execa "fltmc" [])) [
              | inl (u, f) ↦ inr (q ∙ ap throws (is_text-some e "ENOENT" c), f)
              | inr (d, f) ↦ absurd (ground (arith, w, a, q, c, f, h))
            ]
          ]
        ];
      }
    ]
  ]

  after_check-cases :
      (r : Bool × S)
      → ((after_check out l execa platform stack_of r).0 ≡ throws (exit 1))
        ⊎ ((after_check out l execa platform stack_of r).0 ≡ ok tt)
  after_check-cases (true, s) = inl refl
  after_check-cases (false, s) = inr refl

  -- The start of the server either ends the process with code 1, as an administrator: on Windows,
  -- where the environment does not allow it (nor says that this is a test), and where the drive can be
  -- queried, or there is no program for the query and `fltmc` runs; or it returns, and that is not so.
  pub startup_scripts-refuses_iff :
      (s : S)
      → (((startup_scripts out l execa platform stack_of s).0 ≡ throws (exit 1)) × IsAdmin)
        ⊎ (((startup_scripts out l execa platform stack_of s).0 ≡ ok tt) × (¬ IsAdmin))
  unfolding startup_scripts
  startup_scripts-refuses_iff s =
      elim (after_check-cases (is_admin out l execa platform stack_of s)) [
        | inl h ↦ inl (h, startup_scripts-admin s h)
        | inr h ↦ inr (h, λ a. absurd (ground (arith, h, startup_scripts-refuses a s)))
      ]
