-- ===== src/Core/Prompts/Laws.antt =====
-- What basePrompt of packages/@twokeys/core/src/prompts.ts answers, and what it leaves of the
-- logger's silence.
use Prim.Native.Char.{Char}
use keys.Prelude.{
  ℕ, zero, suc, false, Option, none, some, List, [], ◌∷◌, String, ◌≡◌, refl, subst, sym, ◌≢◌, ◌⊎◌,
  ◌==◌, eq_iff, Bool-cases, ◌∙◌, ap, inl, inr, Option-cases, Result-cases, map, ◌&&◌, ◌<◌, length,
  is_some, ok, throws, arith,
}
use keys.Core.TitleCase.{TypeError}
use keys.Core.Prompts.{
  Logger, PromptConfig, Answer, response, waiting, log, index_of, given_buttons, title_at,
  options_line, matched, by_default, announce, base_prompt, read_line,
}

module _ (lower : String → String) (upper : Char → String) (message : String)
    (config : PromptConfig) where
  -- The option that one line chooses.
  abbrev pub choice : String → Option ℕ
  choice line = elim (matched lower upper config line) [
    | some i ↦ some i
    | none ↦ by_default lower upper config line
  ]

  -- The first line that chooses an option.
  abbrev pub first_choice : List String → Answer
  first_choice [] = waiting
  first_choice (line ∷ lines) =
      let rest = first_choice lines in elim (choice line) [ some i ↦ response i | none ↦ rest ]

  -- The place of the first button that a line names, whatever the case of either.
  pub data Names (line : String) : List String → ℕ → Type 0 where
    here : (b : String) (bs : List String) → lower line ≡ lower b → Names line (b ∷ bs) 0
    later :
        (b : String) (bs : List String) (i : ℕ)
        → lower line ≢ lower b
        → Names line bs i
        → Names line (b ∷ bs) (suc i)

  -- A line that names none of the buttons.
  pub data NamesNone (line : String) : List String → Type 0 where
    none_left : NamesNone line []
    not_this :
        (b : String) (bs : List String)
        → lower line ≢ lower b
        → NamesNone line bs
        → NamesNone line (b ∷ bs)

  -- The answer to a sequence of lines.
  pub data Answers : List String → Answer → Type 0 where
    no_line : Answers [] waiting
    by_name :
        (line : String) (lines : List String) (i : ℕ)
        → Names line (given_buttons config) i
        → Answers (line ∷ lines) (response i)
    by_empty_line :
        (lines : List String) (i : ℕ)
        → NamesNone "" (given_buttons config)
        → config.default_button ≡ some i
        → Answers ("" ∷ lines) (response i)
    again :
        (line : String) (lines : List String) (a : Answer)
        → NamesNone line (given_buttons config)
        → (line ≢ "") ⊎ (config.default_button ≡ none)
        → Answers lines a
        → Answers (line ∷ lines) a

  differs : (b line : String) → (lower b == lower line) ≡ false → lower line ≢ lower b
  differs b line e q = cc (e, (eq_iff (lower b) (lower line)).1 (sym q))

  place-Names :
      (line : String) (bs : List String) (i : ℕ)
      → index_of (lower line) (map lower bs) ≡ some i
      → Names line bs i
  unfolding index_of
  place-Names line [] i h = absurd (ground (arith, h))
  place-Names line (b ∷ bs) i h = elim (Bool-cases (lower b == lower line)) [
    | inl e ↦
        subst {A = ℕ} (Names line (b ∷ bs)) (ground (arith, e, h))
          (here b bs (sym ((eq_iff (lower b) (lower line)).0 e)))
    | inr e ↦ elim (Option-cases (index_of (lower line) (map lower bs))) [
      | inl q ↦ absurd (ground (arith, e, q, h))
      | inr (j, q) ↦
          subst {A = ℕ} (Names line (b ∷ bs)) (ground (arith, e, q, h))
            (later b bs j (differs b line e) (place-Names line bs j q))
    ]
  ]

  place-NamesNone :
      (line : String) (bs : List String)
      → index_of (lower line) (map lower bs) ≡ none
      → NamesNone line bs
  unfolding index_of
  place-NamesNone line [] h = none_left
  place-NamesNone line (b ∷ bs) h = elim (Bool-cases (lower b == lower line)) [
    | inl e ↦ absurd (ground (arith, e, h))
    | inr e ↦ elim (Option-cases (index_of (lower line) (map lower bs))) [
      | inl q ↦ not_this b bs (differs b line e) (place-NamesNone line bs q)
      | inr (j, q) ↦ absurd (ground (arith, e, q, h))
    ]
  ]

  choice-Answers : (lines : List String) → Answers lines (first_choice lines)
  choice-Answers [] = no_line
  choice-Answers (line ∷ lines) = elim (Option-cases (matched lower upper config line)) [
    | inr (i, h) ↦
        answer (response i) (ground (arith, h))
          (by_name line lines i (place-Names line (given_buttons config) i h))
    | inl h ↦
        let unnamed = place-NamesNone line (given_buttons config) h in
        elim (Bool-cases (line == "")) [
          | inr e ↦ answer (first_choice lines) (ground (arith, h, e)) (
              again line lines (first_choice lines) unnamed
                (inl (λ q. cc (e, (eq_iff line "").1 q))) (choice-Answers lines))
          | inl e ↦ elim (Option-cases config.default_button) [
            | inl d ↦
                answer (first_choice lines) (ground (arith, h, e, d))
                  (again line lines (first_choice lines) unnamed (inr d) (choice-Answers lines))
            | inr (i, d) ↦
                let empty = (eq_iff line "").0 e in
                answer (response i) (ground (arith, h, e, d)) (
                  subst (λ x. Answers (x ∷ lines) (response i)) (sym empty)
                    (by_empty_line lines i
                      (subst (λ x. NamesNone x (given_buttons config)) empty unnamed) d))
          ]
        ]
  ]
    where
      answer :
          (a : Answer)
          → first_choice (line ∷ lines) ≡ a
          → Answers (line ∷ lines) a
          → Answers (line ∷ lines) (first_choice (line ∷ lines))
      answer a q x = subst (Answers (line ∷ lines)) (sym q) x

  module _ (text : String) (printable : options_line lower upper message config ≡ ok text) where
    step :
        (line : String) (lines : List String) (l : Logger)
        → base_prompt lower upper false message config (line ∷ lines) l
          ≡ read_line lower upper false message config l.is_silent
              (announce lower upper text l)
              line
              (base_prompt lower upper false message config lines)
    unfolding base_prompt
    step line lines l = rw printable

    pub base_prompt-first_choice :
        (lines : List String) (l : Logger)
        → (base_prompt lower upper false message config lines l).0 ≡ first_choice lines
    unfolding base_prompt
    base_prompt-first_choice [] l = rw printable
    base_prompt-first_choice (line ∷ lines) l =
        elim (Option-cases (matched lower upper config line)) [
          | inr (i, h) ↦ ground (arith, step line lines l, h)
          | inl h ↦ elim (Option-cases (by_default lower upper config line)) [
            | inr (i, d) ↦ ground (arith, step line lines l, h, d)
            | inl d ↦ ground (
              arith,
              step line lines l,
              h,
              d,
              base_prompt-first_choice lines
                  (log "Invalid response." (announce lower upper text l)),
            )
          ]
        ]

    -- Where the options can be printed, an interactive prompt answers with the place of the first
    -- button that is named by the first line that names one, whatever the case of its letters, or with
    -- the default at an empty line before that, if no button is empty, and waits as long as there is no
    -- such line.
    pub base_prompt-Answers :
        (lines : List String) (l : Logger)
        → Answers lines (base_prompt lower upper false message config lines l).0
    base_prompt-Answers lines l =
        subst (Answers lines) (sym (base_prompt-first_choice lines l)) (choice-Answers lines)

    unsilenced :
        (lines : List String) (l : Logger)
        → l.is_silent ≡ false
        → (base_prompt lower upper false message config lines l).1.is_silent ≡ false
    unfolding base_prompt log
    unsilenced [] l q = rw printable
    unsilenced (line ∷ lines) l q = elim (Option-cases (matched lower upper config line)) [
      | inr (i, h) ↦ ground (arith, step line lines l, h, q)
      | inl h ↦ elim (Option-cases (by_default lower upper config line)) [
        | inr (i, d) ↦ ground (arith, step line lines l, h, d)
        | inl d ↦ ground (
          arith,
          step line lines l,
          h,
          d,
          unsilenced lines (log "Invalid response." (announce lower upper text l)),
        )
      ]
    ]

    -- Where the options can be printed, after an interactive prompt that was given a line, the
    -- logger is silent exactly if it was before and the first line names a button: an answer by
    -- the default, or a second try, leaves a silent logger unsilenced.
    pub silence_after :
        (line : String) (lines : List String) (l : Logger)
        → (base_prompt lower upper false message config (line ∷ lines) l).1.is_silent
          ≡ l.is_silent && is_some (matched lower upper config line)
    unfolding base_prompt log
    silence_after line lines l = elim (Option-cases (matched lower upper config line)) [
      | inr (i, h) ↦ ground (arith, step line lines l, h)
      | inl h ↦ elim (Option-cases (by_default lower upper config line)) [
        | inr (i, d) ↦ ground (arith, step line lines l, h, d)
        | inl d ↦ ground (
          arith,
          step line lines l,
          h,
          d,
          unsilenced lines (log "Invalid response." (announce lower upper text l)),
        )
      ]
    ]

index_of-lt_length :
    (x : String) (ys : List String) (i : ℕ) → index_of x ys ≡ some i → i < length ys
unfolding index_of
index_of-lt_length x [] i h = ground (arith)
index_of-lt_length x (y ∷ ys) i h = elim (Option-cases (index_of x ys)) [
  | inl e ↦ ground (arith, e)
  | inr (j, e) ↦ ground (arith, e, index_of-lt_length x ys j e)
]

title_at-lt_length :
    (lower : String → String) (upper : Char → String) (i : ℕ) (bs ts : List String)
    → title_at lower upper i bs ≡ ok ts
    → i < length bs
unfolding title_at
title_at-lt_length lower upper i [] ts h = ground (arith)
title_at-lt_length lower upper zero (b ∷ bs) ts h = ground (arith)
title_at-lt_length lower upper (suc i) (b ∷ bs) ts h =
    elim (Result-cases (title_at lower upper i bs)) [
      | inl (us, e) ↦ ground (arith, title_at-lt_length lower upper i bs us e)
      | inr (x, e) ↦ ground (arith, e)
    ]

length-map : (f : String → String) (bs : List String) → length (map f bs) ≡ length bs
length-map f [] = refl
length-map f (b ∷ bs) = ap suc (length-map f bs)

module _ (lower : String → String) (upper : Char → String) (message : String)
    (config : PromptConfig) where
  default-lt_length :
      (text : String) (i : ℕ)
      → options_line lower upper message config ≡ ok text
      → config.default_button ≡ some i
      → i < length (given_buttons config)
  unfolding options_line
  default-lt_length text i e d =
      elim (Result-cases (title_at lower upper i (map lower (given_buttons config)))) [
        | inl (ts, q) ↦ ground (
          arith,
          title_at-lt_length lower upper i (map lower (given_buttons config)) ts q,
          length-map lower (given_buttons config),
        )
        | inr (x, q) ↦ ground (arith, e, d, q)
      ]

  refused :
      (lines : List String) (l : Logger) (i : ℕ) (x : TypeError)
      → options_line lower upper message config ≡ throws x
      → (base_prompt lower upper false message config lines l).0 ≡ response i
      → i < length (given_buttons config)
  unfolding base_prompt
  refused [] l i x e h = ground (arith, e, h)
  refused (line ∷ lines) l i x e h = ground (arith, e, h)

  first_choice-lt_length :
      (text : String)
      → options_line lower upper message config ≡ ok text
      → (lines : List String) (i : ℕ) → first_choice lower upper message config lines ≡ response i
      → i < length (given_buttons config)
  first_choice-lt_length text e [] i h = ground (arith)
  first_choice-lt_length text e (line ∷ lines) i h =
      elim (Option-cases (matched lower upper config line)) [
        | inr (j, q) ↦ ground (
          arith,
          q,
          index_of-lt_length (lower line) (map lower (given_buttons config)) j q,
          length-map lower (given_buttons config),
        )
        | inl q ↦ elim (Option-cases config.default_button) [
          | inl d ↦ ground (arith, q, d, first_choice-lt_length text e lines i)
          | inr (j, d) ↦
              ground
                (arith, q, d, default-lt_length text j e d, first_choice-lt_length text e lines i)
        ]
      ]

  -- An interactive prompt answers with a place in the list of buttons, whatever the lines and the
  -- default are.
  pub response-lt_length :
      (lines : List String) (l : Logger) (i : ℕ)
      → (base_prompt lower upper false message config lines l).0 ≡ response i
      → i < length (given_buttons config)
  response-lt_length lines l i h = elim (Result-cases (options_line lower upper message config)) [
    | inl (text, e) ↦
        first_choice-lt_length text e lines i
          (sym (base_prompt-first_choice lower upper message config text e lines l) ∙ h)
    | inr (x, e) ↦ refused lines l i x e h
  ]
