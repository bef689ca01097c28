-- ===== src/Accounts/Ledger/Entry.antt =====
-- ledger-engine.ts: recordEntry and the methods that call it. A body that throws is rolled back,
-- and a random draw that the rollback undid is made again.
use Prim.Native.String.{◌++◌ as str_append}
use sman_server.Base.{
  ℕ, ◌+◌, String, Bool, Option, none, some, List, ◌==◌, string_eq, option_eq, or_default,
  if◌then◌else◌,
}
use sman_server.Base.Int.{ℤ, pos, leb_ℤ, ltb_ℤ}
use sman_server.Accounts.Types.{
  Account, account_type_eq, main, TransactionType, TransactionDetail, TxnPhase, TxnAction,
}
use sman_server.Accounts.Faults.{Result, ok, err}
use sman_server.Accounts.Rejects.{RejectResult, reject, text, above_maximum, thrown}
use sman_server.Accounts.Breaker.{
  CircuitBreaker, CircuitState, new_breaker, can_execute, record_success, record_failure,
}
use sman_server.Accounts.Store.Tables.{AccountDb, LogDetail, Env}
use sman_server.Accounts.Store.Monad.{◌>>=◌}
use sman_server.Accounts.Store.Rows.{get_or_create_account}
use sman_server.Accounts.Store.Txns.{get_txn_history, add_log}
use sman_server.Accounts.Ledger.Params.{
  EntryParams, TransferResult, Outcome, executed, refused, to_result, Ledger, max_amount,
  system_user,
}
use sman_server.Accounts.Ledger.Pipeline.{transaction_body}

-- recordSuccess is the last statement of the body, so it runs only where the body ends with it.
abbrev pub breaker_after : Outcome → CircuitBreaker → CircuitBreaker
breaker_after (executed t) b = record_success b
breaker_after outcome b = b

-- The transaction commits what the body wrote, or undoes it all and hands the error to `catch`.
unfoldable pub finish :
    Env → String → Ledger → Result (Outcome × AccountDb) → TransferResult × Ledger
finish env event_id l (ok (outcome, db)) = (
  to_result outcome,
  record { db = db; circuit_breaker = breaker_after outcome l.circuit_breaker },
)
finish env event_id l (err e) = (
  to_result (refused (reject "E001" (some (thrown e)))),
  record {
    db = add_log env event_id TxnPhase.execute TxnAction.fail (some (LogDetail.failed e)) l.db;
    circuit_breaker = record_failure env.now_ms l.circuit_breaker;
  },
)

unfoldable pub execute_in_transaction :
    Env → String → EntryParams → Bool → Ledger → TransferResult × Ledger
unfolding finish
execute_in_transaction env event_id p is_system l =
    finish env event_id l (transaction_body env event_id p is_system l.db)

-- `params.eventId ?? evt_<random>`, with the ledger after the draw.
unfoldable pub event_id_of : Env → Option String → Ledger → String × Ledger
event_id_of env (some id) l = (id, l)
event_id_of env none l = (
  str_append "evt_" (env.random_hex l.db.draws),
  record l { db = record l.db { draws = l.db.draws + 1 } },
)

-- [1] and what follows it, once the breaker lets the call through.
unfoldable pub validate_and_execute : Env → EntryParams → Ledger → TransferResult × Ledger
validate_and_execute env p l =
    if leb_ℤ p.amount (pos 0)
    then (to_result (refused (reject "D003" (some (text "Amount must be positive")))), l)
    else if ltb_ℤ max_amount p.amount
    then (to_result (refused (reject "D003" (some (above_maximum max_amount)))), l)
    else (let (event_id, l') = event_id_of env p.event_id l in
        execute_in_transaction env event_id p (p.from_user_id == system_user) l')

-- `if (blocked)`: log it and return it, or go on.
unfoldable pub unless_blocked :
    Env → EntryParams → Option RejectResult → Ledger → TransferResult × Ledger
unless_blocked env p (some r) l = (
  to_result (refused r),
  record l {
    db =
        add_log env (or_default p.event_id "unknown") TxnPhase.pre_check TxnAction.check_failed
          (some (LogDetail.rejected r)) l.db;
  },
)
unless_blocked env p none l = validate_and_execute env p l

-- recordEntry, from [0].
unfoldable pub record_entry : Env → EntryParams → Ledger → TransferResult × Ledger
unfolding unless_blocked
record_entry env p l =
    let (blocked, breaker) = can_execute env.now_ms l.circuit_breaker in
    unless_blocked env p blocked (record l { circuit_breaker = breaker })

abbrev pub plain_params : TransactionType → String → String → ℤ → EntryParams
plain_params type from to amount = record {
  event_id = none;
  type = type;
  from_user_id = from;
  from_account_type = none;
  to_user_id = to;
  to_account_type = none;
  amount = amount;
  reference_type = none;
  reference_id = none;
  metadata = none;
  scene = none;
}

-- The metadata objects `{ source }` and `{ reason }`, by their text.
unfoldable pub topup :
    Env → String → ℤ → String → Option String → String → Ledger → TransferResult × Ledger
topup env user_id amount source reference_id metadata =
    record_entry env (record (plain_params TransactionType.topup system_user user_id amount) {
      reference_type = some source;
      reference_id = reference_id;
      metadata = some metadata;
    })

unfoldable pub grant : Env → String → ℤ → String → Ledger → TransferResult × Ledger
grant env user_id amount metadata =
    record_entry env (record (plain_params TransactionType.grant system_user user_id amount) {
      reference_type = some "grant";
      metadata = some metadata;
    })

unfoldable pub transfer :
    Env → String → String → ℤ → TransactionType → Ledger → TransferResult × Ledger
transfer env from to amount type = record_entry env (plain_params type from to amount)

-- getBalance: the account is opened by the first look at it.
unfoldable pub get_balance : Env → String → Ledger → Result (Account × AccountDb)
get_balance env user_id l = get_or_create_account env user_id main l.db

unfoldable pub get_history : Env → String → ℕ → Ledger → Result (List TransactionDetail × AccountDb)
get_history env user_id limit l =
    (do acc ← get_or_create_account env user_id main; λ s. ok (get_txn_history acc.id limit s, s))
      l.db

pub get_circuit_state : Ledger → CircuitState
get_circuit_state l = l.circuit_breaker.state

unfoldable pub new_ledger : AccountDb → Ledger
new_ledger db = record { db = db; circuit_breaker = new_breaker }
