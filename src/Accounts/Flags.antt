-- ===== src/Accounts/Flags.antt =====
-- control-flags.ts: a flag string is read by position; a string that is too short has defaults.
pub mod Bits
use sman_server.Base.{
  ℕ, zero, suc, ◌+◌, Bool, true, false, not, ◌&&◌, ◌||◌, Option, none, some, List, [], ◌∷◌, leb,
  ltb, length, option_beq, nat_eq, if◌then◌else◌,
}
use sman_server.Accounts.Types.{Flags}

pub record ParsedFlags : Type 0 where
  pub no_debit : Bool
  pub no_credit : Bool
  pub limit_controlled : Bool
  pub config_controlled : Bool
  pub is_frozen : Bool

-- `flags[i]`, which is undefined past the end, and the tests `flags[i] === '0'` and `=== '1'`.
abbrev pub char_at : Flags → ℕ → Option ℕ
char_at [] i = none
char_at (c ∷ cs) zero = some c
char_at (c ∷ cs) (suc i) = char_at cs i

abbrev pub is_one : Option ℕ → Bool
is_one c = option_beq c (some b'1')

abbrev pub is_zero : Option ℕ → Bool
is_zero c = option_beq c (some b'0')

unfoldable pub parse_flags : Flags → ParsedFlags
parse_flags flags = record {
  no_debit = is_one (char_at flags 0);
  no_credit = is_one (char_at flags 1);
  limit_controlled = if ltb 2 (length flags) then is_zero (char_at flags 2) else true;
  config_controlled = if ltb 3 (length flags) then is_zero (char_at flags 3) else true;
  is_frozen = if ltb 4 (length flags) then is_one (char_at flags 4) else false;
}

unfoldable pub can_debit : Flags → Bool
can_debit flags =
    not (is_one (char_at flags 0)) && (leb (length flags) 4 || not (is_one (char_at flags 4)))

unfoldable pub can_credit : Flags → Bool
can_credit flags =
    not (is_one (char_at flags 1)) && (leb (length flags) 4 || not (is_one (char_at flags 4)))

unfoldable pub is_frozen : Flags → Bool
is_frozen flags = ltb 4 (length flags) && is_one (char_at flags 4)

-- `flags.padEnd(n, '0')`: a string of n characters or more is left alone.
pub pad_end : ℕ → Flags → Flags
pad_end zero cs = cs
pad_end (suc n) [] = b'0' ∷ pad_end n []
pad_end (suc n) (c ∷ cs) = c ∷ pad_end n cs

-- `arr[i] = value`, at a position inside the array.
pub put_at : Flags → ℕ → ℕ → Flags
put_at [] i v = []
put_at (c ∷ cs) zero v = v ∷ cs
put_at (c ∷ cs) (suc i) v = c ∷ put_at cs i v

unfoldable pub set_flag : Flags → ℕ → ℕ → Flags
unfolding pad_end put_at
set_flag flags position value = put_at (pad_end (suc position) flags) position value

-- DEFAULT_FLAGS = '00', the default of the column too.
abbrev pub default_flags : Flags
default_flags = b'0' ∷ b'0' ∷ []
