-- ===== src/Accounts/LimitCheck.antt =====
-- limit-engine.ts: the limits that apply, in the order of their priority; the first one reached
-- rejects.
pub mod Thresholds
use sman_server.Base.{String, Option, none, some, List, [], ◌∷◌, ◌==◌, string_eq, if◌then◌else◌}
use sman_server.Base.Int.{ℤ, leb_ℤ}
use sman_server.Accounts.Types.{
  Account, ActionType, Limit, LimitDimension, ThresholdType, count, amount, time, counterparty,
}
use sman_server.Accounts.Rejects.{RejectResult, format_limit_reason}
use sman_server.Accounts.Store.Tables.{AccountDb, Env}
use sman_server.Accounts.Store.Txns.{
  query_time_window_count, query_time_window_amount, query_counterparty_count,
  query_counterparty_amount,
}
use sman_server.Accounts.Store.Limits.{get_applicable_limits}
use sman_server.Accounts.Control.{type_name}

abbrev of_count : ThresholdType → ℤ → Option ℤ
of_count count n = some n
of_count amount n = none

abbrev of_amount : ThresholdType → ℤ → Option ℤ
of_amount count n = none
of_amount amount n = some n

-- `current` of checkTimeLimit and of checkCounterpartyLimit.
unfoldable pub time_usage : Env → Account → Limit → AccountDb → ℤ
time_usage env account limit s = elim limit.threshold_type [
  | count ↦ query_time_window_count env account.id limit.metric limit.interval_value s
  | amount ↦ query_time_window_amount env account.id limit.metric limit.interval_value s
]

unfoldable pub counterparty_usage : Env → Account → String → Limit → AccountDb → ℤ
counterparty_usage env account other limit s = elim limit.threshold_type [
  | count ↦ query_counterparty_count env account.id other limit.metric limit.interval_value s
  | amount ↦ query_counterparty_amount env account.id other limit.metric limit.interval_value s
]

-- The test and the result that checkTimeLimit and checkCounterpartyLimit share.
unfoldable pub limit_result : Limit → ℤ → Option RejectResult
limit_result limit current =
    if leb_ℤ limit.threshold current
    then some (record {
      code = limit.reject_code;
      reason =
          format_limit_reason limit.dimension limit.metric limit.interval_value limit.threshold
            limit.threshold_type;
      detail = some (record {
        limit_id = limit.id;
        current_count = of_count limit.threshold_type current;
        current_amount = of_amount limit.threshold_type current;
        threshold = limit.threshold;
      });
    })
    else none

unfoldable pub check_time_limit : Env → Account → Limit → AccountDb → Option RejectResult
check_time_limit env account limit s = limit_result limit (time_usage env account limit s)

unfoldable pub check_counterparty_limit :
    Env → Account → String → Limit → AccountDb → Option RejectResult
check_counterparty_limit env account other limit s =
    limit_result limit (counterparty_usage env account other limit s)

-- One round of the loop. An empty counterparty id is falsy, and its limits are passed over.
unfoldable pub check_limit : Env → Account → String → Limit → AccountDb → Option RejectResult
check_limit env account other limit s = elim limit.dimension [
  | time ↦ check_time_limit env account limit s
  | counterparty ↦ if other == "" then none else check_counterparty_limit env account other limit s
]

abbrev pub first_result : Option RejectResult → Option RejectResult → Option RejectResult
first_result none rest = rest
first_result (some r) rest = some r

unfoldable pub check_limits : Env → Account → String → List Limit → AccountDb → Option RejectResult
check_limits env account other [] s = none
check_limits env account other (limit ∷ limits) s =
    let rest = check_limits env account other limits s in
    first_result (check_limit env account other limit s) rest

-- LimitEngine.check.
unfoldable pub check :
    Env → Account → ActionType → String → Option String → AccountDb → Option RejectResult
check env account action other scene s =
    check_limits env account other
      (get_applicable_limits (some (type_name account.type)) action scene s) s
