-- ===== src/Legacy/Init/Keyboards.antt =====
-- The keyboards of the config that packages/@twokeys/legacy-server/src/init/get-config.ts makes.
use native.Mathlib.Decide.{dec_le}
use keys.Prelude.{
  ℕ, zero, suc, ◌+◌, ◌<◌, ◌≤◌, true, Option, none, some, [], String, ◌≡◌, ◌≢◌, refl, ap, subst, ◌↔◌,
  ◌∙◌, arith, eq_iff, eq_refl, property, property-put, put,
}
use keys.Legacy.Init.{
  name_question, dir_question, questions_from, Keyboards, new_keyboard, Answers, Config, exits,
  pending, resolved, add_keyboards, get_config, config_of, ask_keyboards, read_ip,
}

module _ (show : ℕ → String) (parse_int : String → Option ℕ) (answers : String → String) where
  -- The name and the folder that were given for keyboard `i`.
  abbrev pub name_of : ℕ → String
  name_of i = answers (name_question show i).name

  abbrev pub dir_of : ℕ → String
  dir_of i = answers (dir_question show i).name

  -- One keyboard after the other, `left` of them from `i` on.
  unfoldable pub all_keyboards : ℕ → ℕ → Keyboards → Keyboards
  all_keyboards i zero k = k
  all_keyboards i (suc left) k =
      all_keyboards (suc i) left (put (name_of i) (new_keyboard (dir_of i)) k)

  add_keyboards_lem :
      (i left : ℕ) (current : String) (k : Keyboards)
      → add_keyboards show parse_int answers true current (questions_from show i (suc left)) k
        ≡ resolved (all_keyboards i (suc left) k)
  unfolding add_keyboards questions_from all_keyboards
  add_keyboards_lem i zero current k = refl
  add_keyboards_lem i (suc left) current k = add_keyboards_lem (suc i) left (name_of i) _

  others_keep :
      (i left : ℕ) (name : String) (k : Keyboards)
      → ((m : ℕ) → i ≤ m → m < i + left → name_of m ≢ name)
      → property name (all_keyboards i left k) ≡ property name k
  unfolding all_keyboards
  others_keep i zero name k h = refl
  others_keep i (suc left) name k h =
      others_keep (suc i) left name _ (λ m le lt. h m (omega arith) (omega arith))
      ∙ ground (
        arith,
        property-put (name_of i) name (new_keyboard (dir_of i)) k,
        eq_iff (name_of i) name,
        h i,
      )

  last_wins :
      (i left j : ℕ) (k : Keyboards)
      → i ≤ j
      → j < i + left
      → ((m : ℕ) → j < m → m < i + left → name_of m ≢ name_of j)
      → property (name_of j) (all_keyboards i left k) ≡ some (new_keyboard (dir_of j))
  unfolding all_keyboards
  last_wins i zero j k le lt h = absurd (omega arith)
  last_wins i (suc left) j k le lt h = elim (dec_le (suc i) j) [
    | yes after ↦ last_wins (suc i) left j _ after (omega arith) (λ m l u. h m l (omega arith))
    | no here ↦
        subst
          (λ q.
            property (name_of q)
              (all_keyboards (suc i) left (put (name_of i) (new_keyboard (dir_of i)) k))
            ≡ some (new_keyboard (dir_of q)))
          (same_place here)
          (others_keep (suc i) left (name_of i) _
              (λ m l u e. h m (omega arith) (omega arith) (e ∙ ap name_of (same_place here)))
            ∙ property-put (name_of i) (name_of i) (new_keyboard (dir_of i)) k
            ∙ rw (eq_refl (name_of i)) refl)
  ]
    where
      same_place : ¬ (suc i ≤ j) → i ≡ j
      same_place n = omega arith

  -- Where `numberKeyboards` is a number of at least 1, the promise is resolved, and the config has,
  -- under the name that was given for a keyboard, the folder that was given for that keyboard, unless
  -- a later keyboard was given the same name.
  pub get_config-keyboards :
      (a : Answers) (n j : ℕ)
      → a.number_keyboards ≡ some (suc n)
      → 1 ≤ j
      → j ≤ suc n
      → ((m : ℕ) → j < m → m ≤ suc n → name_of m ≢ name_of j)
      → (c : Config) × (get_config show parse_int answers a ≡ resolved c)
        × (property (name_of j) c.keyboards ≡ some (new_keyboard (dir_of j)))
  unfolding get_config
  get_config-keyboards a n j e le lt h = (
    made_of (all_keyboards 1 (suc n) []),
    rw (e, add_keyboards_lem 1 n "" []) refl,
    last_wins 1 (suc n) j [] le (omega arith) (λ m l u. h m l (omega arith)),
  )
    where
      made_of : Keyboards → Config
      made_of k = record {
        name = a.name;
        keyboards = k;
        detector = a.detector_ip;
        ipv4 = read_ip a.local_ip;
        port = parse_int a.local_port;
        ssh = a.allow_ssh;
      }

  -- The promise is never settled exactly if `numberKeyboards` is no number, and the process is left
  -- exactly if it is below 1.
  pub get_config-settles :
      (a : Answers)
      → ((get_config show parse_int answers a ≡ pending) ↔ (a.number_keyboards ≡ none))
        × ((get_config show parse_int answers a ≡ exits) ↔ (a.number_keyboards ≡ some 0))
  unfolding get_config add_keyboards
  get_config-settles a = go a.number_keyboards
    where
      go :
          (n : Option ℕ)
          → ((config_of show parse_int answers a (ask_keyboards show parse_int answers n) ≡ pending)
              ↔ (n ≡ none))
            × ((config_of show parse_int answers a (ask_keyboards show parse_int answers n) ≡ exits)
                ↔ (n ≡ some 0))
      go none = ((λ h. refl, λ h. refl), (λ h. cc, λ h. cc))
      go (some zero) = ((λ h. cc, λ h. cc), (λ h. refl, λ h. refl))
      go (some (suc n)) =
          rw (add_keyboards_lem 1 n "" [])
            ((λ h. cc, λ h. cc), (λ h. cc, λ h. absurd (ground (arith, h))))
