-- ===== src/Accounts/Routes.antt =====
-- routes/accounts.ts: the authentication of a request and the routes on the ledger. A body is what
-- `decrypt` and `JSON.parse` give. An amount in credits becomes milli-credits by
-- `Math.round(amount * 1000)`; an amount that is missing, or zero, is `none`.
pub mod Escrow
mod Tests
use sman_server.Base.{
  ℕ, ◌+◌, ◌-◌, ◌*◌, String, Bool, true, false, not, ◌&&◌, ◌||◌, Option, none, some, List, map,
  or_default, if◌then◌else◌, ltb, is_some, nat_beq,
}
use sman_server.Base.Int.{ℤ, pos, ◌-ℤ◌, ltb_ℤ}
use sman_server.Base.Texts.{is_empty}
use sman_server.Accounts.Types.{
  Account, AccountType, main, escrow, TransactionType, TransactionDetail,
}
use sman_server.Accounts.Faults.{Result}
use sman_server.Accounts.Store.Tables.{AccountDb, Env}
use sman_server.Accounts.Ledger.Params.{EntryParams, TransferResult, Ledger, system_user}
use sman_server.Accounts.Ledger.Entry.{record_entry, get_balance, get_history}

-- ---- The middleware ----

pub data Rejection : Type 0 where
  unsupported_psk_version timestamp_out_of_range invalid_payload : Rejection

pub record Envelope (B : Type 0) : Type 0 where
  pub psk_version : ℕ
  pub timestamp : ℕ
  pub payload : Option B

pub data Admission (B : Type 0) : Type 0 where
  admitted : B → Admission B
  rejected : Rejection → Admission B

abbrev opened {ℓ} : {B : Type 0} {A : Type ℓ} → (B → A) → A → Option B → A
opened f a none = a
opened f a (some b) = f b

-- REPLAY_WINDOW_MS is five minutes; the timestamp is in seconds, and a payload that does not
-- authenticate is `none`.
unfoldable pub authenticate : {B : Type 0} → ℕ → Envelope B → Admission B
authenticate now e =
    if not (nat_beq e.psk_version 1)
    then rejected unsupported_psk_version
    else if ltb (5 * 60 * 1000) ((now - e.timestamp * 1000) + (e.timestamp * 1000 - now))
    then rejected timestamp_out_of_range
    else opened admitted (rejected invalid_payload) e.payload

-- ---- The routes: a missing field is refused with the status 400 ----

pub data Reply (A : Type 0) : Type 0 where
  missing_fields : Reply A
  replied : A → Reply A

-- The balance is divided by 1000 as it is written.
unfoldable pub balance_route : Env → String → Ledger → Reply (Result (Account × AccountDb))
balance_route env user_id l =
    if is_empty user_id then missing_fields else replied (get_balance env user_id l)

abbrev at_most : ℕ → ℕ → ℕ
at_most a b = if ltb a b then a else b

unfoldable pub history_route :
    Env → String → Option ℕ → Ledger → Reply (Result (List TransactionDetail × AccountDb))
history_route env user_id limit l =
    if is_empty user_id
    then missing_fields
    else replied (get_history env user_id (at_most (or_default limit 50) 100) l)

pub record TransferBody : Type 0 where
  pub from_user_id : String
  pub to_user_id : String
  pub amount : Option ℤ
  pub type : Option TransactionType
  pub event_id : Option String
  pub reference_type : Option String
  pub reference_id : Option String
  pub metadata : Option String
  pub scene : Option String

abbrev transfer_params : TransferBody → ℤ → EntryParams
transfer_params b amount = record {
  event_id = b.event_id;
  type = or_default b.type TransactionType.transfer;
  from_user_id = b.from_user_id;
  from_account_type = none;
  to_user_id = b.to_user_id;
  to_account_type = none;
  amount = amount;
  reference_type = b.reference_type;
  reference_id = b.reference_id;
  metadata = b.metadata;
  scene = b.scene;
}

-- A call of recordEntry whose result is the reply.
abbrev pub replied_with : TransferResult × Ledger → Reply TransferResult × Ledger
replied_with (r, l) = (replied r, l)

abbrev pub with_amount :
    Bool
    → Option ℤ
    → (ℤ → Ledger → TransferResult × Ledger)
    → Ledger
    → Reply TransferResult × Ledger
with_amount true amount f l = (missing_fields, l)
with_amount false none f l = (missing_fields, l)
with_amount false (some a) f l = replied_with (f a l)

unfoldable pub transfer_route : Env → TransferBody → Ledger → Reply TransferResult × Ledger
transfer_route env b =
    with_amount (is_empty b.from_user_id || is_empty b.to_user_id) b.amount
      (λ a. record_entry env (transfer_params b a))

-- ---- Escrow ----

abbrev pub escrow_params :
    TransactionType → String → AccountType → String → AccountType → ℤ → Option String → EntryParams
escrow_params type from from_type to to_type amount scene = record {
  event_id = none;
  type = type;
  from_user_id = from;
  from_account_type = some from_type;
  to_user_id = to;
  to_account_type = some to_type;
  amount = amount;
  reference_type = some "escrow";
  reference_id = none;
  metadata = none;
  scene = scene;
}

abbrev pub lock_params : String → ℤ → EntryParams
lock_params payer a =
    escrow_params TransactionType.escrow_lock payer main payer escrow a (some "escrow_lock")

unfoldable pub lock_route :
    Env → String → String → Option ℤ → Ledger → Reply TransferResult × Ledger
lock_route env payer payee amount =
    with_amount (is_empty payer || is_empty payee) amount
      (λ a. record_entry env (lock_params payer a))

abbrev pub refund_params : String → ℤ → EntryParams
refund_params payer a =
    escrow_params TransactionType.escrow_refund payer escrow payer main a (some "escrow_refund")

unfoldable pub dispute_route : Env → String → Option ℤ → Ledger → Reply TransferResult × Ledger
dispute_route env payer amount =
    with_amount (is_empty payer) amount (λ a. record_entry env (refund_params payer a))

abbrev pub release_params : String → String → ℤ → EntryParams
release_params payer payee a =
    escrow_params TransactionType.escrow_release payer escrow payee AccountType.revenue a
      (some "escrow_release")

abbrev pub fee_params : String → ℤ → EntryParams
fee_params payee fee =
    escrow_params TransactionType.platform_fee payee AccountType.revenue system_user main fee none

-- `fee_of` is `Math.round(amount * 0.15)`.
module _ (env : Env) (fee_of : ℤ → ℤ) (payer payee : String) where
  -- The payee's part is released, and the fee then taken from the payee.
  abbrev pub take_fee : ℤ → TransferResult × Ledger → TransferResult × Ledger
  take_fee fee (release, l) =
      if ltb_ℤ (pos 0) fee && release.success
      then (release, (record_entry env (fee_params payee fee) l).1)
      else (release, l)

  unfoldable pub confirm : ℤ → Ledger → TransferResult × Ledger
  confirm a l =
      take_fee (fee_of a) (record_entry env (release_params payer payee (a -ℤ fee_of a)) l)

  unfoldable pub confirm_route : Option ℤ → Ledger → Reply TransferResult × Ledger
  unfolding confirm
  confirm_route escrow_amount = with_amount (is_empty payer || is_empty payee) escrow_amount confirm
