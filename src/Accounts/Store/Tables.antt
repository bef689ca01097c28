-- ===== src/Accounts/Store/Tables.antt =====
-- The database of the accounts as a record of tables, and what its methods take from outside.
-- AUTOINCREMENT ids are the positions of the rows, since no row of those tables is ever deleted.
use sman_server.Base.{ℕ, String, Option, List, []}
use sman_server.Accounts.Types.{
  Account, AccountAction, AccountStatus, TransactionDetail, TxnPhase, TxnAction, ControlConfig,
  ControlType, ControlAction, Limit, Flags,
}
use sman_server.Accounts.Faults.{Fault}
use sman_server.Accounts.Rejects.{RejectResult}

pub data IdentityStatus : Type 0 where
  active unbound : IdentityStatus

pub record AccountIdentity : Type 0 where
  pub id : String
  pub account_id : String
  pub provider : String
  pub external_id : String
  pub metadata : Option String
  pub status : IdentityStatus
  pub created_at : ℕ
  pub updated_at : ℕ

-- The object that `JSON.stringify` writes into `old_values` and `new_values`.
pub record Values : Type 0 where
  pub control_flags : Option Flags
  pub status : Option AccountStatus

pub record AccountLog : Type 0 where
  pub id : ℕ
  pub account_id : String
  pub action : AccountAction
  pub old_values : Option Values
  pub new_values : Option Values
  pub operator_id : Option String
  pub operator_ip : Option String
  pub reason : Option String
  pub created_at : ℕ

-- The object that `JSON.stringify` writes into `detail`.
pub data LogDetail : Type 0 where
  duplicate_event : LogDetail
  rejected : RejectResult → LogDetail
  failed : Fault → LogDetail
  matched_config : String → String → LogDetail

pub record TransactionLog : Type 0 where
  pub id : ℕ
  pub event_id : String
  pub phase : TxnPhase
  pub action : TxnAction
  pub detail : Option LogDetail
  pub created_at : ℕ

pub record ControlRecord : Type 0 where
  pub id : ℕ
  pub account_id : String
  pub config_id : Option String
  pub control_type : ControlType
  pub action : ControlAction
  pub trigger_event : Option String
  pub detail : Option LogDetail
  pub operator_id : Option String
  pub released_at : Option ℕ
  pub release_reason : Option String
  pub created_at : ℕ

pub record AccountDb : Type 0 where
  pub accounts : List Account
  pub account_identities : List AccountIdentity
  pub account_logs : List AccountLog
  pub transaction_details : List TransactionDetail
  pub transaction_logs : List TransactionLog
  pub control_configs : List ControlConfig
  pub control_records : List ControlRecord
  pub limits : List Limit
  -- How many random ids have been drawn.
  pub draws : ℕ

abbrev pub empty_db : AccountDb
empty_db = record {
  accounts = [];
  account_identities = [];
  account_logs = [];
  transaction_details = [];
  transaction_logs = [];
  control_configs = [];
  control_records = [];
  limits = [];
  draws = 0;
}

-- A modifier of SQLite's `datetime`, such as '-3 months'.
pub data Modifier : Type 0 where
  minutes_ago hours_ago days_ago months_ago years_ago : ℕ → Modifier

-- What a call takes from outside: the clock in milliseconds and as SQLite's `datetime('now')`, that
-- time under a modifier, the n-th draw of `crypto.randomBytes` in hex, and the text of a
-- transaction's metadata with the audit record added.
pub record Env : Type 0 where
  pub now_ms : ℕ
  pub now : ℕ
  pub datetime : Modifier → ℕ
  pub random_hex : ℕ → String
  pub audited : String → String
