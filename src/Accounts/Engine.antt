-- ===== src/Accounts/Engine.antt =====
-- account-engine.ts: the life of an account. `getAccount(id)!` returns what the SELECT finds; the
-- mark is erased. A method that throws leaves the database as it was.
pub mod Rewrites
pub mod Lifecycle
pub mod Sound
use Prim.Native.String.{◌++◌ as str_append}
use sman_server.Base.{String, Bool, Option, none, some, ◌==◌, if◌then◌else◌}
use sman_server.Base.Int.{ℤ, pos, ltb_ℤ}
use sman_server.Accounts.Types.{
  Account, AccountType, AccountStatus, AccountAction, status_eq, Flags,
}
use sman_server.Accounts.Faults.{Result, ok, err, not_found, freeze_closed, close_positive}
use sman_server.Accounts.Flags.{set_flag}
use sman_server.Accounts.Store.Tables.{AccountDb, Env, Values}
use sman_server.Accounts.Store.Monad.{M, pure, gets, throw, ◌>>=◌, ◌>>◌}
use sman_server.Accounts.Store.Rows.{
  get_account, get_or_create_account, update_control_flags as write_control_flags,
  update_account_status, log_account_action,
}
use sman_server.Accounts.Control.{type_name}

abbrev pub values : Option Flags → Option AccountStatus → Option Values
values flags status = some (record { control_flags = flags; status = status })

unfoldable pub open_account : Env → String → AccountType → Option String → M Account
open_account env user_id type operator_id = do
  acc ← get_or_create_account env user_id type
  log_account_action env acc.id AccountAction.opened none none operator_id none
      (some (str_append "开户: " (str_append user_id (str_append " " (type_name type)))))
  pure acc

-- `const acc = getAccount(id); if (!acc) throw …`, and the rest of the method.
abbrev pub with_account :
    String → Option Account → (Account → M (Option Account)) → M (Option Account)
with_account id none k = throw (not_found id)
with_account id (some acc) k = k acc

module _ (env : Env) (id reason : String) (operator_id : Option String) where
  -- The transaction that freeze and unfreeze run.
  abbrev pub write_flags_and_status :
      AccountAction → Flags → AccountStatus → Account → M (Option Account)
  write_flags_and_status action flags status acc = do
    write_control_flags env id flags
    update_account_status env id status
    log_account_action env id action (values (some acc.control_flags) (some acc.status))
        (values (some flags) (some status)) operator_id none (some reason)
    gets (get_account id)

  abbrev pub freeze_found : Account → M (Option Account)
  freeze_found acc =
      if acc.status == AccountStatus.closed
      then throw freeze_closed
      else write_flags_and_status AccountAction.frozen (set_flag acc.control_flags 4 b'1')
          AccountStatus.frozen acc

  unfoldable pub freeze : M (Option Account)
  freeze s = with_account id (get_account id s) freeze_found s

  unfoldable pub unfreeze : M (Option Account)
  unfreeze s =
      with_account id (get_account id s)
        (λ acc.
          write_flags_and_status AccountAction.unfrozen (set_flag acc.control_flags 4 b'0')
            AccountStatus.active acc)
        s

  abbrev pub close_found : Account → M (Option Account)
  close_found acc = if ltb_ℤ (pos 0) acc.balance then throw (close_positive acc.balance) else (do
    update_account_status env id AccountStatus.closed
    log_account_action env id AccountAction.closed (values none (some acc.status))
        (values none (some AccountStatus.closed)) operator_id none (some reason)
    gets (get_account id))

  unfoldable pub close : M (Option Account)
  close s = with_account id (get_account id s) close_found s

  abbrev pub write_flags : Flags → Account → M (Option Account)
  write_flags flags acc = do
    write_control_flags env id flags
    log_account_action env id AccountAction.control_changed (values (some acc.control_flags) none)
        (values (some flags) none) operator_id none (some reason)
    gets (get_account id)

  unfoldable pub update_control_flags : Flags → M (Option Account)
  update_control_flags flags s = with_account id (get_account id s) (write_flags flags) s
