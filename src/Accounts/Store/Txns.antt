-- ===== src/Accounts/Store/Txns.antt =====
-- The methods on `transaction_details` and `transaction_logs`, and the sums and counts over them.
use sman_server.Base.{
  ℕ, suc, ◌+◌, ◌*◌, String, Bool, true, ◌&&◌, ◌||◌, Option, none, List, [], ◌∷◌, ◌++◌, ◌==◌,
  string_eq, or_default, find_where, exists_where, select_where, count_where, sum_by, sort_desc,
  length, take, leb, if◌then◌else◌,
}
use sman_server.Base.Int.{ℤ, pos, leb_ℤ}
use sman_server.Accounts.Types.{
  TransactionDetail, TransactionType, TransactionStatus, TxnPhase, TxnAction, LimitMetric,
  txn_status_eq, minute, hour, day, month, quarter, year,
}
use sman_server.Accounts.Faults.{Result, ok, err, check_failed, unique_failed}
use sman_server.Accounts.Store.Tables.{
  AccountDb, LogDetail, Env, Modifier, minutes_ago, hours_ago, days_ago, months_ago, years_ago,
}
use sman_server.Accounts.Store.Monad.{M, modify}
use sman_server.Accounts.Store.Rows.{gen_id}

abbrev pub of_event : String → TransactionDetail → Bool
of_event event_id t = t.event_id == event_id

unfoldable pub get_txn_by_event_id : String → AccountDb → Option TransactionDetail
get_txn_by_event_id event_id s = find_where (of_event event_id) s.transaction_details

-- The parameters of createTxnDetail.
pub record TxnParams : Type 0 where
  pub event_id : String
  pub type : TransactionType
  pub debit_account_id : String
  pub credit_account_id : String
  pub amount : ℤ
  pub status : Option TransactionStatus
  pub reject_code : Option String
  pub reject_reason : Option String
  pub reference_type : Option String
  pub reference_id : Option String
  pub metadata : Option String

abbrev pub new_txn : Env → String → TxnParams → TransactionDetail
new_txn env id p = record {
  id = id;
  event_id = p.event_id;
  type = p.type;
  debit_account_id = p.debit_account_id;
  credit_account_id = p.credit_account_id;
  amount = p.amount;
  currency = "SMC";
  status = or_default p.status TransactionStatus.completed;
  reject_code = p.reject_code;
  reject_reason = p.reject_reason;
  reference_type = p.reference_type;
  reference_id = p.reference_id;
  metadata = p.metadata;
  completed_at = none;
  created_at = env.now;
}

unfoldable pub insert_txn : TransactionDetail → AccountDb → Result (TransactionDetail × AccountDb)
insert_txn t s =
    if leb_ℤ t.amount (pos 0)
    then err (check_failed "amount")
    else if exists_where (λ (u : TransactionDetail). u.id == t.id) s.transaction_details
        || exists_where (of_event t.event_id) s.transaction_details
    then err (unique_failed "transaction_details")
    else ok
        (t, record s { transaction_details = s.transaction_details ++ t ∷ []; draws = s.draws + 1 })

unfoldable pub create_txn_detail : Env → TxnParams → M TransactionDetail
create_txn_detail env p s = insert_txn (new_txn env (gen_id env "txn" s) p) s

unfoldable pub get_txn_history : String → ℕ → AccountDb → List TransactionDetail
get_txn_history account_id limit s = take limit (
    sort_desc (λ (t : TransactionDetail). t.created_at)
      (select_where
        (λ (t : TransactionDetail).
          t.debit_account_id == account_id || t.credit_account_id == account_id)
        s.transaction_details))

-- A write of one row that no constraint can refuse.
abbrev pub add_log : Env → String → TxnPhase → TxnAction → Option LogDetail → AccountDb → AccountDb
add_log env event_id phase action detail s = record s {
  transaction_logs =
      s.transaction_logs
      ++ record {
        id = suc (length s.transaction_logs);
        event_id = event_id;
        phase = phase;
        action = action;
        detail = detail;
        created_at = env.now;
      }
        ∷ [];
}

unfoldable pub log_txn_phase : Env → String → TxnPhase → TxnAction → Option LogDetail → M (Unit {0})
log_txn_phase env event_id phase action detail = modify (add_log env event_id phase action detail)

-- getMetricModifier.
unfoldable pub get_metric_modifier : LimitMetric → ℕ → Modifier
get_metric_modifier minute n = minutes_ago n
get_metric_modifier hour n = hours_ago n
get_metric_modifier day n = days_ago n
get_metric_modifier month n = months_ago n
get_metric_modifier quarter n = months_ago (n * 3)
get_metric_modifier year n = years_ago n

-- The WHERE clauses of the four queries.
unfoldable pub in_window : Env → String → LimitMetric → ℕ → TransactionDetail → Bool
unfolding get_metric_modifier
in_window env account_id metric interval_value t =
    t.debit_account_id == account_id
    && t.status == TransactionStatus.completed
    && leb (env.datetime (get_metric_modifier metric interval_value)) t.created_at

unfoldable pub in_window_with : Env → String → String → LimitMetric → ℕ → TransactionDetail → Bool
unfolding in_window
in_window_with env account_id counterparty_account_id metric interval_value t =
    t.credit_account_id == counterparty_account_id
    && in_window env account_id metric interval_value t

abbrev amounts : List TransactionDetail → ℤ
amounts = sum_by (λ (t : TransactionDetail). t.amount)

unfoldable pub query_time_window_count : Env → String → LimitMetric → ℕ → AccountDb → ℤ
query_time_window_count env a metric n s =
    pos (count_where (in_window env a metric n) s.transaction_details)

unfoldable pub query_time_window_amount : Env → String → LimitMetric → ℕ → AccountDb → ℤ
query_time_window_amount env a metric n s =
    amounts (select_where (in_window env a metric n) s.transaction_details)

unfoldable pub query_counterparty_count : Env → String → String → LimitMetric → ℕ → AccountDb → ℤ
query_counterparty_count env a other metric n s =
    pos (count_where (in_window_with env a other metric n) s.transaction_details)

unfoldable pub query_counterparty_amount : Env → String → String → LimitMetric → ℕ → AccountDb → ℤ
query_counterparty_amount env a other metric n s =
    amounts (select_where (in_window_with env a other metric n) s.transaction_details)

-- verifyIntegrity: both totals are the one sum, and `balanced` is the constant true.
pub record Integrity : Type 0 where
  pub total_debits : ℤ
  pub total_credits : ℤ
  pub balanced : Bool

unfoldable pub verify_integrity : AccountDb → Integrity
verify_integrity s =
    let total = amounts (
      select_where (λ (t : TransactionDetail). t.status == TransactionStatus.completed)
        s.transaction_details) in
    record { total_debits = total; total_credits = total; balanced = true }
