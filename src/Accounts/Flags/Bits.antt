-- ===== src/Accounts/Flags/Bits.antt =====
-- The flags agree with one another, and a write of one leaves the others as they read before.
use sman_server.Base.{◌≡◌, refl, ap, ◌∙◌, true, false, not, ◌&&◌, [], ◌∷◌, arith}
use sman_server.Accounts.Types.{Flags}
use sman_server.Accounts.Flags.{
  ParsedFlags, parse_flags, can_debit, can_credit, is_frozen, set_flag,
}

-- The three tests are the parsed flags, on flag strings of any length: a debit is possible exactly
-- when neither the debit flag nor the freeze is set, and so for a credit.
pub tests-parse_flags :
    (f : Flags)
    → (is_frozen f ≡ (parse_flags f).is_frozen)
      × (can_debit f ≡ (not (parse_flags f).no_debit && not (parse_flags f).is_frozen))
      × (can_credit f ≡ (not (parse_flags f).no_credit && not (parse_flags f).is_frozen))
unfolding is_frozen can_debit can_credit parse_flags
tests-parse_flags [] = ground arith
tests-parse_flags (a ∷ []) = ground arith
tests-parse_flags (a ∷ b ∷ []) = ground arith
tests-parse_flags (a ∷ b ∷ c ∷ []) = ground arith
tests-parse_flags (a ∷ b ∷ c ∷ d ∷ []) = ground arith
tests-parse_flags (a ∷ b ∷ c ∷ d ∷ e ∷ r) = ground arith

-- Setting the freeze flag to 1 freezes an account with any flag string, and setting it to 0 lifts
-- the freeze; either way the other four flags read as before, also where the string had to be
-- padded to reach the fifth position.
pub set_flag-parse_flags :
    (f : Flags)
    → (parse_flags (set_flag f 4 b'1') ≡ record (parse_flags f) { is_frozen = true })
      × (parse_flags (set_flag f 4 b'0') ≡ record (parse_flags f) { is_frozen = false })
unfolding set_flag parse_flags
set_flag-parse_flags [] = (refl, refl)
set_flag-parse_flags (a ∷ []) = (refl, refl)
set_flag-parse_flags (a ∷ b ∷ []) = (refl, refl)
set_flag-parse_flags (a ∷ b ∷ c ∷ []) = (refl, refl)
set_flag-parse_flags (a ∷ b ∷ c ∷ d ∷ []) = (refl, refl)
set_flag-parse_flags (a ∷ b ∷ c ∷ d ∷ e ∷ r) = (ground arith, ground arith)

pub is_frozen-set_flag : (f : Flags) → is_frozen (set_flag f 4 b'1') ≡ true
is_frozen-set_flag f =
    (tests-parse_flags (set_flag f 4 b'1')).0
    ∙ ap (λ (p : ParsedFlags). p.is_frozen) (set_flag-parse_flags f).0
