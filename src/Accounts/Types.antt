-- ===== src/Accounts/Types.antt =====
-- account-types.ts: the rows of the ledger's tables. A tag of a string union is a constructor, a
-- column that may be NULL is an `Option`, a time is a number of seconds, and a control flag string
-- is the list of its UTF-16 code units. Amounts and balances are whole milli-credits.
use sman_server.Base.{ℕ, String, ◌≡◌, ◌↔◌, Bool, true, false, Option, List, Eq, arith}
use sman_server.Base.Int.{ℤ}

pub data AccountType : Type 0 where
  main escrow revenue : AccountType

pub data AccountStatus : Type 0 where
  active frozen closed : AccountStatus

pub data AccountAction : Type 0 where
  opened modified closed frozen unfrozen control_changed : AccountAction

pub data TransactionType : Type 0 where
  topup grant transfer escrow_lock escrow_release escrow_refund platform_fee : TransactionType
  work_purchase work_usage referral_bonus reversal : TransactionType

pub data TransactionStatus : Type 0 where
  pending completed failed reversed : TransactionStatus

pub data TxnPhase : Type 0 where
  pre_check limit_check control_check balance_check execute post_check : TxnPhase

pub data TxnAction : Type 0 where
  check_passed check_failed limit_hit control_blocked success fail : TxnAction

pub data ControlScope : Type 0 where
  global account_type account : ControlScope

pub data ActionType : Type 0 where
  debit credit transfer escrow_lock all : ActionType

pub data ControlType : Type 0 where
  limit_hit control_blocked manual_freeze compliance risk : ControlType

pub data ControlAction : Type 0 where
  blocked frozen restricted warned : ControlAction

pub data LimitDimension : Type 0 where
  time counterparty : LimitDimension

pub data LimitMetric : Type 0 where
  minute hour day month quarter year : LimitMetric

pub data ThresholdType : Type 0 where
  count amount : ThresholdType

-- `status TEXT` of the configurations and of the limits.
pub data Switch : Type 0 where
  active disabled : Switch

abbrev pub Flags : Type 0
Flags = List ℕ

pub record Account : Type 0 where
  pub id : String
  pub user_id : String
  pub type : AccountType
  pub currency : String
  pub balance : ℤ
  pub control_flags : Flags
  pub status : AccountStatus
  pub version : ℕ
  pub created_at : ℕ
  pub updated_at : ℕ

pub record TransactionDetail : Type 0 where
  pub id : String
  pub event_id : String
  pub type : TransactionType
  pub debit_account_id : String
  pub credit_account_id : String
  pub amount : ℤ
  pub currency : String
  pub status : TransactionStatus
  pub reject_code : Option String
  pub reject_reason : Option String
  pub reference_type : Option String
  pub reference_id : Option String
  pub metadata : Option String
  pub completed_at : Option ℕ
  pub created_at : ℕ

pub record ControlConfig : Type 0 where
  pub id : String
  pub name : String
  pub description : Option String
  pub scope : ControlScope
  pub scope_value : Option String
  pub action_type : ActionType
  pub scene : Option String
  pub is_whitelist : ℕ
  pub priority : ℕ
  pub status : Switch
  pub created_at : ℕ
  pub updated_at : ℕ

pub record Limit : Type 0 where
  pub id : String
  pub name : String
  pub dimension : LimitDimension
  pub metric : LimitMetric
  pub interval_value : ℕ
  pub threshold : ℤ
  pub threshold_type : ThresholdType
  pub scope : ControlScope
  pub scope_value : Option String
  pub action_type : ActionType
  pub scene : Option String
  pub reject_code : String
  pub priority : ℕ
  pub status : Switch
  pub created_at : ℕ
  pub updated_at : ℕ

-- `a === b` on the tags that the statements and the checks compare.
abbrev account_type_beq : AccountType → AccountType → Bool
account_type_beq main main = true
account_type_beq escrow escrow = true
account_type_beq revenue revenue = true
account_type_beq a b = false

pub account_type_beq_iff : (a b : AccountType) → (account_type_beq a b ≡ true) ↔ (a ≡ b)
account_type_beq_iff a b = ground arith

instance abbrev pub account_type_eq : Eq AccountType
account_type_eq = record { test = account_type_beq; test_iff = account_type_beq_iff }

abbrev status_beq : AccountStatus → AccountStatus → Bool
status_beq active active = true
status_beq frozen frozen = true
status_beq closed closed = true
status_beq a b = false

pub status_beq_iff : (a b : AccountStatus) → (status_beq a b ≡ true) ↔ (a ≡ b)
status_beq_iff a b = ground arith

instance abbrev pub status_eq : Eq AccountStatus
status_eq = record { test = status_beq; test_iff = status_beq_iff }

abbrev txn_status_beq : TransactionStatus → TransactionStatus → Bool
txn_status_beq pending pending = true
txn_status_beq completed completed = true
txn_status_beq failed failed = true
txn_status_beq reversed reversed = true
txn_status_beq a b = false

pub txn_status_beq_iff : (a b : TransactionStatus) → (txn_status_beq a b ≡ true) ↔ (a ≡ b)
txn_status_beq_iff a b = ground arith

instance abbrev pub txn_status_eq : Eq TransactionStatus
txn_status_eq = record { test = txn_status_beq; test_iff = txn_status_beq_iff }

abbrev action_beq : ActionType → ActionType → Bool
action_beq debit debit = true
action_beq credit credit = true
action_beq transfer transfer = true
action_beq escrow_lock escrow_lock = true
action_beq all all = true
action_beq a b = false

pub action_beq_iff : (a b : ActionType) → (action_beq a b ≡ true) ↔ (a ≡ b)
action_beq_iff a b = ground arith

instance abbrev pub action_eq : Eq ActionType
action_eq = record { test = action_beq; test_iff = action_beq_iff }

abbrev switch_beq : Switch → Switch → Bool
switch_beq active active = true
switch_beq disabled disabled = true
switch_beq a b = false

pub switch_beq_iff : (a b : Switch) → (switch_beq a b ≡ true) ↔ (a ≡ b)
switch_beq_iff a b = ground arith

instance abbrev pub switch_eq : Eq Switch
switch_eq = record { test = switch_beq; test_iff = switch_beq_iff }
