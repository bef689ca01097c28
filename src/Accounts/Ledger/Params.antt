-- ===== src/Accounts/Ledger/Params.antt =====
-- ledger-engine.ts: the parameters and the results of an entry, and the engine's state. The engine
-- is its database and its breaker; its two other fields are the functions of Control and LimitCheck.
use sman_server.Base.{String, Bool, true, false, Option, none, some, string_eq, option_eq}
use sman_server.Base.Int.{ℤ, pos}
use sman_server.Accounts.Types.{
  AccountType, account_type_eq, ActionType, TransactionType, TransactionDetail,
}
use sman_server.Accounts.Rejects.{RejectResult}
use sman_server.Accounts.Breaker.{CircuitBreaker}
use sman_server.Accounts.Store.Tables.{AccountDb}

-- 1e12 milli-credits.
abbrev pub max_amount : ℤ
max_amount = pos 1_000_000_000_000

abbrev pub system_user : String
system_user = "__system__"

pub record Ledger : Type 0 where
  pub db : AccountDb
  pub circuit_breaker : CircuitBreaker

-- The parameter object of recordEntry.
pub record EntryParams : Type 0 where
  pub event_id : Option String
  pub type : TransactionType
  pub from_user_id : String
  pub from_account_type : Option AccountType
  pub to_user_id : String
  pub to_account_type : Option AccountType
  pub amount : ℤ
  pub reference_type : Option String
  pub reference_id : Option String
  pub metadata : Option String
  pub scene : Option String

pub record TransferResult : Type 0 where
  pub success : Bool
  pub transaction : Option TransactionDetail
  pub reject : Option RejectResult

-- Where the body of the transaction returned: on a known event, on a check, or at its end.
pub data Outcome : Type 0 where
  duplicate executed : TransactionDetail → Outcome
  refused : RejectResult → Outcome

unfoldable pub to_result : Outcome → TransferResult
to_result (duplicate t) = record { success = true; transaction = some t; reject = none }
to_result (executed t) = record { success = true; transaction = some t; reject = none }
to_result (refused r) = record { success = false; transaction = none; reject = some r }

unfoldable pub map_action_type : TransactionType → ActionType
map_action_type TransactionType.topup = ActionType.credit
map_action_type TransactionType.grant = ActionType.credit
map_action_type TransactionType.transfer = ActionType.transfer
map_action_type TransactionType.work_usage = ActionType.transfer
map_action_type TransactionType.work_purchase = ActionType.transfer
map_action_type TransactionType.escrow_lock = ActionType.escrow_lock
map_action_type type = ActionType.debit
