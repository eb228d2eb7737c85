-- ===== src/Setup/Network/Laws.antt =====
-- When packages/@twokeys/common-hi/src/setup/util/setIPv4.ts runs a command, and when it succeeds.
use Prim.Native.Char.{Char}
use keys.Prelude.{
  Bool, true, false, Option, none, some, List, [], ◌∷◌, String, ◌≡◌, ◌↔◌, refl, arith, keep, ◌==◌,
  Bool-cases, inl, inr, ◌⊎◌, Result, ok, throws, ◌>>=◌, ◌>>◌, lift, ap, bind-lift, length,
}
use keys.Setup.{Thrown}
use keys.Setup.Network.{
  Interface, is_v4, is_ipv4, is_interface_name, check_ip, command, set_static_ipv4_address,
  with_interface, with_addresses, check_first, run_command,
}
use keys.Setup.Network.Formats.{is_special, any_special, is_interface_name-plain}

module _ (is_white : Char → Bool) where
  -- One look finds the address first among the adapter's, after looks that found another one first.
  pub data Shows (ipv4 : String) : List (Option (List Interface)) → Type 0 where
    at_last :
        (all : List Interface) (ticks : List (Option (List Interface))) (i : Interface)
        (is : List Interface)
        → keep (is_v4 is_white) all ≡ i ∷ is
        → (i.address == ipv4) ≡ true
        → Shows ipv4 (some all ∷ ticks)
    later :
        (all : List Interface) (ticks : List (Option (List Interface))) (i : Interface)
        (is : List Interface)
        → keep (is_v4 is_white) all ≡ i ∷ is
        → (i.address == ipv4) ≡ false
        → Shows ipv4 ticks
        → Shows ipv4 (some all ∷ ticks)

  ok_of-Shows :
      (ipv4 : String) (ticks : List (Option (List Interface)))
      → Shows ipv4 ticks
      → check_ip is_white ipv4 ticks ≡ ok tt
  unfolding check_ip
  ok_of-Shows ipv4 [] x = elim x [ ]
  ok_of-Shows ipv4 (none ∷ ticks) x = elim x [ ]
  ok_of-Shows ipv4 (some all ∷ ticks) (at_last _ _ i is e h) = rw (e, h) refl
  ok_of-Shows ipv4 (some all ∷ ticks) (later _ _ i is e h s) = rw (e, h) (ok_of-Shows ipv4 ticks s)

  first-Shows :
      (ipv4 : String) (all : List Interface) (ticks : List (Option (List Interface)))
      → (check_ip is_white ipv4 ticks ≡ ok tt → Shows ipv4 ticks)
      → (v4 : List Interface) → keep (is_v4 is_white) all ≡ v4
      → check_first is_white ipv4 v4 (check_ip is_white ipv4 ticks) ≡ ok tt
      → Shows ipv4 (some all ∷ ticks)
  first-Shows ipv4 all ticks k [] e h = cc
  first-Shows ipv4 all ticks k (i ∷ is) e h = elim (Bool-cases (i.address == ipv4)) [
    | inl q ↦ at_last all ticks i is e q
    | inr q ↦ later all ticks i is e q (k (ground (arith, h, q)))
  ]

  ok-Shows :
      (ipv4 : String) (ticks : List (Option (List Interface)))
      → check_ip is_white ipv4 ticks ≡ ok tt
      → Shows ipv4 ticks
  unfolding check_ip
  ok-Shows ipv4 [] h = cc
  ok-Shows ipv4 (none ∷ ticks) h = cc
  ok-Shows ipv4 (some all ∷ ticks) h =
      first-Shows ipv4 all ticks (ok-Shows ipv4 ticks) (keep (is_v4 is_white) all) refl h

  -- The check after the command succeeds exactly if one of its looks finds the address first among
  -- the IPv4 addresses of the adapter, and each look before it found another address there: neither
  -- the adapter nor its address was missing.
  pub check_ip_iff :
      (ipv4 : String) (ticks : List (Option (List Interface)))
      → (check_ip is_white ipv4 ticks ≡ ok tt) ↔ Shows ipv4 ticks
  check_ip_iff ipv4 ticks = (ok-Shows ipv4 ticks, ok_of-Shows ipv4 ticks)

  module _ (prompted : Result Thrown (Unit {0})) (exec : String → Result Thrown (Unit {0})) where
    ran_once :
        (c ipv4 : String) (ticks : List (Option (List Interface))) (p : Result Thrown (Unit {0}))
        → p ≡ prompted
        → ((lift p >> run_command is_white prompted exec c >> lift (check_ip is_white ipv4 ticks))
              []).1
            ≡ []
          ⊎ ((lift p >> run_command is_white prompted exec c >> lift (check_ip is_white ipv4 ticks))
              []).1
            ≡ c ∷ []
    unfolding ◌>>=◌
    ran_once c ipv4 ticks (throws e) q = inl refl
    ran_once c ipv4 ticks (ok x) q = inr (
        ap (λ r. r.1)
          (bind-lift (λ _. check_ip is_white ipv4 ticks) (run_command is_white prompted exec c) []))

    at_most_one :
        (adapter ipv4 : String) (ticks : List (Option (List Interface))) (v4 : List Interface)
        → ((with_addresses is_white prompted exec adapter ipv4 ticks v4 []).1 ≡ [])
          ⊎ (((with_addresses is_white prompted exec adapter ipv4 ticks v4 []).1
                ≡ command is_white adapter ipv4 ∷ [])
              × (length v4 ≡ 1))
    unfolding ◌>>=◌
    at_most_one adapter ipv4 ticks [] = inl refl
    at_most_one adapter ipv4 ticks (i ∷ j ∷ is) = inl refl
    at_most_one adapter ipv4 ticks (i ∷ []) =
        elim (ran_once (command is_white adapter ipv4) ipv4 ticks prompted refl) [
          | inl e ↦ inl e
          | inr e ↦ inr (e, refl)
        ]

    -- The adapter is there, with one IPv4 address.
    abbrev pub HasOneAddress : Option (List Interface) → Type 0
    HasOneAddress present =
        (all : List Interface) × (present ≡ some all) × (length (keep (is_v4 is_white) all) ≡ 1)

    abbrev pub commands :
        String → String → Option (List Interface) → List (Option (List Interface)) → List String
    commands adapter ipv4 present ticks =
        (set_static_ipv4_address is_white prompted exec adapter ipv4 present ticks []).1

    when_there :
        (adapter ipv4 : String) (ticks : List (Option (List Interface)))
        (present : Option (List Interface))
        → ((with_interface is_white prompted exec adapter ipv4 ticks present []).1 ≡ [])
          ⊎ (((with_interface is_white prompted exec adapter ipv4 ticks present []).1
                ≡ command is_white adapter ipv4 ∷ [])
              × HasOneAddress present)
    unfolding ◌>>=◌
    when_there adapter ipv4 ticks none = inl refl
    when_there adapter ipv4 ticks (some all) =
        elim (at_most_one adapter ipv4 ticks (keep (is_v4 is_white) all)) [
          | inl e ↦ inl e
          | inr (e, one) ↦ inr (e, (all, refl, one))
        ]

    module _ (white : (c : Char) → is_white c ≡ true → is_special c ≡ false) where
      checked :
          (a b : Bool) (adapter ipv4 : String) (present : Option (List Interface))
          (ticks : List (Option (List Interface)))
          → is_ipv4 ipv4 ≡ a
          → is_interface_name is_white adapter ≡ b
          → (commands adapter ipv4 present ticks ≡ [])
            ⊎ ((commands adapter ipv4 present ticks ≡ command is_white adapter ipv4 ∷ [])
                × (is_ipv4 ipv4 ≡ true)
                × (any_special adapter ≡ false)
                × HasOneAddress present)
      unfolding set_static_ipv4_address ◌>>=◌
      checked false b adapter ipv4 present ticks v n = inl (rw (commands, v) refl)
      checked true false adapter ipv4 present ticks v n = inl (rw (commands, v, n) refl)
      checked true true adapter ipv4 present ticks v n =
          elim (when_there adapter ipv4 ticks present) [
            | inl e ↦ inl (rw (commands, v, n) e)
            | inr (e, one) ↦
                inr
                  (rw (commands, v, n) e, v, is_interface_name-plain is_white white adapter n, one)
          ]

      -- Either no command is run, or the one command that sets the address, and then the address
      -- matches the pattern, the adapter's name has no quotation mark, backquote, dollar sign,
      -- ampersand, semicolon or bar, and the adapter is there with exactly one IPv4 address; where
      -- none of these characters is white space, and whatever the prompt and the command do.
      pub set_static_ipv4_address-safe :
          (adapter ipv4 : String) (present : Option (List Interface))
          (ticks : List (Option (List Interface)))
          → (commands adapter ipv4 present ticks ≡ [])
            ⊎ ((commands adapter ipv4 present ticks ≡ command is_white adapter ipv4 ∷ [])
                × (is_ipv4 ipv4 ≡ true)
                × (any_special adapter ≡ false)
                × HasOneAddress present)
      set_static_ipv4_address-safe adapter ipv4 present ticks =
          checked (is_ipv4 ipv4) (is_interface_name is_white adapter) adapter ipv4 present ticks
            refl refl
