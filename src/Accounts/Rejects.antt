-- ===== src/Accounts/Rejects.antt =====
-- reject-codes.ts: the registry of the codes, and the results that carry a code.
use sman_server.Base.{
  ◌≡◌, ◌≢◌, ℕ, String, Option, none, some, ◌==◌, string_eq, if◌then◌else◌, or_default,
}
use sman_server.Base.Int.{ℤ}
use sman_server.Accounts.Faults.{Fault}
use sman_server.Accounts.Types.{LimitDimension, LimitMetric, ThresholdType}

pub record RejectInfo : Type 0 where
  pub category : String
  pub message : String

-- A reason as the template that the code fills and the values that it fills it with: how a number
-- is printed plays no part.
pub data Reason : Type 0 where
  text : String → Reason
  unknown_code : String → Reason
  above_maximum : ℤ → Reason
  insufficient : ℤ → ℤ → Reason
  blacklist_hit : String → Reason
  limit_reached : LimitDimension → LimitMetric → ℕ → ℤ → ThresholdType → Reason
  thrown : Fault → Reason

-- `detail` of a limit's result.
pub record RejectDetail : Type 0 where
  pub limit_id : String
  pub current_count : Option ℤ
  pub current_amount : Option ℤ
  pub threshold : ℤ

pub record RejectResult : Type 0 where
  pub code : String
  pub reason : Reason
  pub detail : Option RejectDetail

abbrev info : String → String → Option RejectInfo
info c m = some (record { category = c; message = m })

-- CODE_REGISTRY.
code_registry : String → Option RejectInfo
code_registry code =
    if code == "A001"
    then info "限额" "时间窗口交易笔数超限"
    else if code == "A002"
    then info "限额" "时间窗口交易金额超限"
    else if code == "A003"
    then info "限额" "对手方交易笔数超限"
    else if code == "A004"
    then info "限额" "对手方交易金额超限"
    else if code == "A005"
    then info "限额" "单笔金额超限"
    else if code == "B001"
    then info "管控" "账户禁止扣减"
    else if code == "B002"
    then info "管控" "账户禁止增加"
    else if code == "B003"
    then info "管控" "管控配置黑名单命中"
    else if code == "B004"
    then info "管控" "管控配置白名单未命中"
    else if code == "B005"
    then info "管控" "账户已冻结"
    else if code == "B006"
    then info "管控" "账户已销户"
    else if code == "C001"
    then info "余额" "可用余额不足"
    else if code == "C002"
    then info "余额" "余额将变为负数"
    else if code == "D001"
    then info "授权" "event_id 重复"
    else if code == "D002"
    then info "授权" "nonce 重放"
    else if code == "D003"
    then info "授权" "金额不合法"
    else if code == "D004"
    then info "授权" "自转账不允许"
    else if code == "D005"
    then info "授权" "交易已冲正"
    else if code == "D006"
    then info "授权" "交易不存在"
    else if code == "D007"
    then info "授权" "非完成状态交易不可冲正"
    else if code == "E001"
    then info "系统" "数据库写入失败"
    else if code == "E002"
    then info "系统" "熔断器开启，系统暂时不可用"
    else if code == "E003"
    then info "系统" "写入队列满"
    else if code == "E004"
    then info "系统" "一致性校验失败"
    else none

-- `info.message` of `getRejectInfo(code)`, the default of `reject`.
pub registry_message : String → Reason
unfolding code_registry
registry_message code = elim (code_registry code) [
  | none ↦ unknown_code code
  | some i ↦ text i.message
]

unfoldable pub reject : String → Option Reason → RejectResult
reject code extra_reason = record {
  code = code;
  reason = or_default extra_reason (registry_message code);
  detail = none;
}

-- A refusal by a check: its reason is not an error that was thrown.
abbrev pub IsCheck : RejectResult → Type 0
IsCheck r = (f : Fault) → r.reason ≢ thrown f

abbrev pub AllChecks : Option RejectResult → Type 0
AllChecks none = Unit {0}
AllChecks (some r) = IsCheck r

pub reject_plain-IsCheck : (code : String) → IsCheck (reject code none)
unfolding reject registry_message
reject_plain-IsCheck code f e = go (code_registry code) e
  where
    go :
        (o : Option RejectInfo)
        → or_default none (elim o [ none ↦ unknown_code code | some i ↦ text i.message ]) ≡ thrown f
        → ⊥
    go none h = cc (h)
    go (some i) h = cc (h)

pub reject_for-IsCheck :
    (code : String) (r : Reason) → ((f : Fault) → r ≢ thrown f) → IsCheck (reject code (some r))
unfolding reject
reject_for-IsCheck code r h = h

-- formatLimitReason.
unfoldable pub format_limit_reason : LimitDimension → LimitMetric → ℕ → ℤ → ThresholdType → Reason
format_limit_reason dimension metric interval_value threshold threshold_type =
    limit_reached dimension metric interval_value threshold threshold_type
