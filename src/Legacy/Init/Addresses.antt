-- ===== src/Legacy/Init/Addresses.antt =====
-- The addresses that packages/@twokeys/legacy-server/src/init/get-config.ts offers, and the one that
-- it reads back from the choice.
use Prim.Native.String.{◌++◌ as append}
use text.Mathlib.TextLemmas.{cons-append, nil-append}
use keys.Prelude.{
  ℕ, zero, suc, Bool, true, false, not, ◌&&◌, Option, some, List, [], ◌∷◌, String, ◌≡◌, refl, ap,
  ◌∙◌, map, keep, arith, Bool-cases, inl, inr,
}
use keys.Copier.Trees.{halves}
use keys.Legacy.Init.{
  is_comma, split_list, read_ip, NetworkInterface, usable, comma_space, choice, choices_of,
}

-- No comma is in the text.
unfoldable pub is_plain : String → Bool
is_plain String.[] = true
is_plain (String.◌∷◌ c s) = not (is_comma c) && is_plain s

not_comma : (b c : Bool) → (not b && c) ≡ true → (b ≡ false) × (c ≡ true)
not_comma b c h = ground (arith, h)

separated : (b : String) → comma_space "" b ≡ String.◌∷◌ "," (String.◌∷◌ " " b)
separated b =
    nil-append (append ", " b)
    ∙ cons-append "," " " b
    ∙ ap (String.◌∷◌ ",") (cons-append " " "" b ∙ ap (String.◌∷◌ " ") (nil-append b))

split_plain :
    (a b : String) → is_plain a ≡ true → split_list false (comma_space a b) ≡ a ∷ split_list false b
unfolding split_list is_plain
split_plain String.[] b h = ap (split_list false) (separated b)
split_plain (String.◌∷◌ c s) b h =
    let (ordinary, rest) = not_comma (is_comma c) (is_plain s) h in
    ap (split_list false) (cons-append c s (append ", " b))
    ∙ rw (ordinary, split_plain s b rest) refl

split_only : (a : String) → is_plain a ≡ true → split_list false a ≡ a ∷ []
unfolding split_list is_plain
split_only String.[] h = refl
split_only (String.◌∷◌ c s) h =
    let (ordinary, rest) = not_comma (is_comma c) (is_plain s) h in
    rw (ordinary, split_only s rest) refl

module _ (show : ℕ → String) (digits : (n : ℕ) → is_plain (append "alias " (show n)) ≡ true) where
  -- What is read of the choices for addresses of one interface, in order: the first address, and
  -- then the words "alias 1", "alias 2", …
  abbrev pub read_back : ℕ → List NetworkInterface → List (Option String)
  read_back n [] = []
  read_back zero (i ∷ is) = some i.address ∷ read_back 1 is
  read_back (suc n) (i ∷ is) = some (append "alias " (show (suc n))) ∷ read_back (suc (suc n)) is

  read_choice_first :
      (ifname address : String)
      → is_plain ifname ≡ true
      → is_plain address ≡ true
      → read_ip (choice show ifname 0 address) ≡ some address
  unfolding read_ip
  read_choice_first ifname address h k =
      rw (split_plain ifname address h, split_only address k) refl

  read_choice_alias :
      (ifname address : String) (n : ℕ)
      → is_plain ifname ≡ true
      → read_ip (choice show ifname (suc n) address) ≡ some (append "alias " (show (suc n)))
  unfolding read_ip
  read_choice_alias ifname address n h =
      rw
        (
          split_plain ifname (comma_space (append "alias " (show (suc n))) address) h,
          split_plain (append "alias " (show (suc n))) address (digits (suc n)),
        )
        refl

  abbrev pub all_plain : List NetworkInterface → Bool
  all_plain [] = true
  all_plain (i ∷ is) = is_plain i.address && all_plain is

  read_one :
      (ifname : String) (n : ℕ) (i : NetworkInterface) (is : List NetworkInterface)
      → is_plain ifname ≡ true
      → is_plain i.address ≡ true
      → read_ip (choice show ifname n i.address) ∷ read_back (suc n) is ≡ read_back n (i ∷ is)
  read_one ifname zero i is h k =
      ap (λ r. r ∷ read_back 1 is) (read_choice_first ifname i.address h k)
  read_one ifname (suc n) i is h k =
      ap (λ r. r ∷ read_back (suc (suc n)) is) (read_choice_alias ifname i.address n h)

  -- For an interface whose name has no comma, and whose addresses have none: of the choices that are
  -- made of its addresses which are IPv4 and not internal, the first one gives its own address back;
  -- every further one gives the words "alias" and its number instead of its address.
  pub read-choices :
      (ifname : String) (n : ℕ) (is : List NetworkInterface)
      → is_plain ifname ≡ true
      → all_plain is ≡ true
      → map read_ip (choices_of show ifname n is) ≡ read_back n (keep usable is)
  unfolding choices_of
  read-choices ifname n [] h k = refl
  read-choices ifname n (i ∷ is) h k =
      let (here, rest) = halves (is_plain i.address) (all_plain is) k in
      elim (Bool-cases (usable i)) [
        | inl e ↦ rw e (
            ap (λ l. read_ip (choice show ifname n i.address) ∷ l)
              (read-choices ifname (suc n) is h rest)
            ∙ read_one ifname n i (keep usable is) h here)
        | inr e ↦ rw e (read-choices ifname n is h rest)
      ]
