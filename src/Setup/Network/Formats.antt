-- ===== src/Setup/Network/Formats.antt =====
-- What the patterns of packages/@twokeys/common-hi/src/setup/util/setIPv4.ts let through.
use Prim.Native.Char.{Char, code}
use Prim.Native.Nat.{◌*◌}
use keys.Prelude.{
  ℕ, ◌+◌, ◌-◌, ◌≤◌, Bool, true, false, ◌&&◌, ◌||◌, List, [], ◌∷◌, String, ◌≡◌, refl, arith,
  Bool-cases, inl, inr, ◌⊎◌,
}
use keys.Copier.Trees.{halves}
use keys.Setup.Network.{
  leb, between, digit_upto, is_octet, parts, four_octets, is_ipv4, is_letter, is_name_char,
  all_name_chars, is_interface_name,
}

leb_le : (m n : ℕ) → leb m n ≡ true → m ≤ n
leb_le m n h = ground (arith, h)

pub between_le : (lo hi : ℕ) (c : Char) → between lo hi c ≡ true → (lo ≤ code c) × (code c ≤ hi)
between_le lo hi c h = ground (arith, leb_le lo (code c), leb_le (code c) hi)

-- Every character of a text.
abbrev pub AllChars : (Char → Type 0) → String → Type 0
AllChars P String.[] = Unit
AllChars P (String.◌∷◌ c s) = P c × AllChars P s

abbrev pub HasCharacter : String → Type 0
HasCharacter String.[] = ⊥
HasCharacter (String.◌∷◌ c s) = Unit

abbrev pub IsDigit : Char → Type 0
IsDigit c = (48 ≤ code c) × (code c ≤ 57)

-- The number that is written with these digits.
unfoldable pub number : ℕ → String → ℕ
number n String.[] = n
number n (String.◌∷◌ c s) = number (n * 10 + (code c - 48)) s

octet_le : (s : String) → is_octet s ≡ true → number 0 s ≤ 255
unfolding is_octet number
octet_le String.[] h = omega arith
octet_le (String.◌∷◌ a String.[]) h = ground (arith, between_le 48 57 a)
octet_le (String.◌∷◌ a (String.◌∷◌ b String.[])) h =
    ground (arith, between_le 48 57 a, between_le 48 57 b)
octet_le (String.◌∷◌ a (String.◌∷◌ b (String.◌∷◌ c String.[]))) h = ground (
  arith,
  h,
  between_le 50 50 a,
  between_le 53 53 b,
  between_le 48 53 c,
  between_le 48 52 b,
  between_le 48 57 c,
  between_le 48 49 a,
  between_le 48 57 b,
)
octet_le (String.◌∷◌ a (String.◌∷◌ b (String.◌∷◌ c (String.◌∷◌ d s)))) h =
    absurd (ground (arith, h))

digit_upto-IsDigit : (c : Char) → digit_upto 57 c ≡ true → IsDigit c
digit_upto-IsDigit c h = between_le 48 57 c h

-- A text of one digit or more, whose number fits into a byte.
pub record IsByte (s : String) : Type 0 where
  pub not_empty : HasCharacter s
  pub digits : AllChars IsDigit s
  pub fits : number 0 s ≤ 255

octet_digits : (s : String) → is_octet s ≡ true → AllChars IsDigit s
unfolding is_octet
octet_digits String.[] h = absurd (ground (arith, h))
octet_digits (String.◌∷◌ a String.[]) h = (digit_upto-IsDigit a h, tt)
octet_digits (String.◌∷◌ a (String.◌∷◌ b String.[])) h =
    let (ha, hb) = halves (digit_upto 57 a) (digit_upto 57 b) h in
    (digit_upto-IsDigit a ha, (digit_upto-IsDigit b hb, tt))
octet_digits (String.◌∷◌ a (String.◌∷◌ b (String.◌∷◌ c String.[]))) h = (
  ground (arith, h, between_le 50 50 a, between_le 48 49 a),
  (
    ground (arith, h, between_le 53 53 b, between_le 48 52 b, between_le 48 57 b),
    (ground (arith, h, between_le 48 53 c, between_le 48 57 c), tt),
  ),
)
octet_digits (String.◌∷◌ a (String.◌∷◌ b (String.◌∷◌ c (String.◌∷◌ d s)))) h =
    absurd (ground (arith, h))

octet-HasCharacter : (s : String) → is_octet s ≡ true → HasCharacter s
unfolding is_octet
octet-HasCharacter String.[] h = absurd (ground (arith, h))
octet-HasCharacter (String.◌∷◌ a s) h = tt

octet-IsByte : (s : String) → is_octet s ≡ true → IsByte s
octet-IsByte s h = record {
  not_empty = octet-HasCharacter s h;
  digits = octet_digits s h;
  fits = octet_le s h;
}

-- Four numbers, each of one byte.
pub data IsAddress : List String → Type 0 where
  address :
      (a b c d : String)
      → IsByte a
      → IsByte b
      → IsByte c
      → IsByte d
      → IsAddress (a ∷ b ∷ c ∷ d ∷ [])

four_octets-IsAddress : (ws : List String) → four_octets ws ≡ true → IsAddress ws
four_octets-IsAddress [] h = absurd (ground (arith, h))
four_octets-IsAddress (a ∷ []) h = absurd (ground (arith, h))
four_octets-IsAddress (a ∷ b ∷ []) h = absurd (ground (arith, h))
four_octets-IsAddress (a ∷ b ∷ c ∷ []) h = absurd (ground (arith, h))
four_octets-IsAddress (a ∷ b ∷ c ∷ d ∷ []) h =
    let (h2, hd) = halves (is_octet a && is_octet b && is_octet c) (is_octet d) h in
    let (h1, hc) = halves (is_octet a && is_octet b) (is_octet c) h2 in
    let (ha, hb) = halves (is_octet a) (is_octet b) h1 in
    address a b c d (octet-IsByte a ha) (octet-IsByte b hb) (octet-IsByte c hc) (octet-IsByte d hd)
four_octets-IsAddress (a ∷ b ∷ c ∷ d ∷ e ∷ ws) h = absurd (ground (arith, h))

-- An address that matches the pattern has four parts between its dots, each of which is one digit or more
-- and a number of at most 255.
pub is_ipv4-IsAddress : (s : String) → is_ipv4 s ≡ true → IsAddress (parts s)
unfolding is_ipv4
is_ipv4-IsAddress s h = four_octets-IsAddress (parts s) h

-- A quotation mark, a backquote, a dollar sign, an ampersand, a semicolon or a bar.
abbrev pub is_special : Char → Bool
is_special c =
    between 34 34 c
    || between 96 96 c
    || between 36 36 c
    || between 38 38 c
    || between 59 59 c
    || between 124 124 c

unfoldable pub any_special : String → Bool
any_special String.[] = false
any_special (String.◌∷◌ c s) = is_special c || any_special s

pub special_codes :
    (c : Char)
    → is_special c ≡ true
    → (code c ≡ 34) ⊎ (code c ≡ 96) ⊎ (code c ≡ 36) ⊎ (code c ≡ 38) ⊎ (code c ≡ 59) ⊎ (code c ≡ 124)
special_codes c h = ground (
  arith,
  h,
  between_le 34 34 c,
  between_le 96 96 c,
  between_le 36 36 c,
  between_le 38 38 c,
  between_le 59 59 c,
  between_le 124 124 c,
)

module _ (is_white : Char → Bool)
    (white : (c : Char) → is_white c ≡ true → is_special c ≡ false) where
  plain_char : (c : Char) → is_name_char is_white c ≡ true → is_special c ≡ false
  plain_char c h = elim (Bool-cases (is_special c)) [
    | inl s ↦ absurd (
        ground (
          arith,
          h,
          s,
          special_codes c s,
          white c,
          between_le 65 90 c,
          between_le 97 122 c,
          between_le 48 57 c,
          between_le 91 91 c,
          between_le 93 93 c,
          between_le 40 41 c,
        ))
    | inr e ↦ e
  ]

  all_plain_chars : (s : String) → all_name_chars is_white s ≡ true → any_special s ≡ false
  unfolding all_name_chars any_special
  all_plain_chars String.[] h = refl
  all_plain_chars (String.◌∷◌ c s) h =
      let (here, rest) = halves (is_name_char is_white c) (all_name_chars is_white s) h in
      rw (plain_char c here, all_plain_chars s rest) refl

  -- A name that matches the pattern for adapters has no quotation mark, backquote, dollar sign,
  -- ampersand, semicolon or bar, where none of these is white space.
  pub is_interface_name-plain :
      (s : String) → is_interface_name is_white s ≡ true → any_special s ≡ false
  unfolding is_interface_name any_special
  is_interface_name-plain String.[] h = refl
  is_interface_name-plain (String.◌∷◌ a String.[]) h = absurd (ground (arith, h))
  is_interface_name-plain (String.◌∷◌ a (String.◌∷◌ b s)) h =
      let (first, rest) = halves (is_letter a) (all_name_chars is_white (String.◌∷◌ b s)) h in
      rw (plain_char a (ground (arith, first)), all_plain_chars (String.◌∷◌ b s) rest) refl
