-- ===== src/Accounts/Control.antt =====
-- control-engine.ts: the configurations of the highest priority decide.
pub mod Priority
use sman_server.Base.{
  ℕ, Bool, String, Option, none, some, List, [], ◌∷◌, ◌==◌, nat_eq, if◌then◌else◌,
}
use sman_server.Accounts.Types.{
  Account, AccountType, main, escrow, revenue, ActionType, ControlConfig, ControlType,
  ControlAction,
}
use sman_server.Accounts.Rejects.{RejectResult, reject, blacklist_hit}
use sman_server.Accounts.Store.Tables.{AccountDb, LogDetail, Env}
use sman_server.Accounts.Store.Controls.{get_matching_configs, create_control_record}

-- The text of an account's type, as a scope value.
abbrev pub type_name : AccountType → String
type_name main = "main"
type_name escrow = "escrow"
type_name revenue = "revenue"

-- `configs[0]`.
unfoldable pub check_top :
    Env → Account → List ControlConfig → AccountDb → Option RejectResult × AccountDb
check_top env account [] s = (none, s)
check_top env account (top ∷ rest) s =
    if top.is_whitelist == 0
    then (
      some (reject "B003" (some (blacklist_hit top.name))),
      create_control_record env
          (record {
            account_id = account.id;
            config_id = some top.id;
            control_type = ControlType.control_blocked;
            action = ControlAction.blocked;
            trigger_event = none;
            detail = some (LogDetail.matched_config top.id top.name);
            operator_id = none;
          })
          s,
    )
    else (none, s)

-- ControlEngine.check.
unfoldable pub check :
    Env → Account → ActionType → Option String → AccountDb → Option RejectResult × AccountDb
check env account action scene s =
    check_top env account (get_matching_configs (some (type_name account.type)) action scene s) s
