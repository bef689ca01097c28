-- ===== src/Accounts/Store/Rows.antt =====
-- The methods on `accounts` and `account_logs`.
use Prim.Native.String.{◌++◌ as str_append}
use sman_server.Base.{
  ℕ, suc, ◌+◌, String, Bool, ◌&&◌, ◌||◌, Option, none, some, List, [], ◌∷◌, ◌++◌, ◌==◌, string_eq,
  nat_eq, find_where, exists_where, update_where, select_where, sort_desc, length, take,
  if◌then◌else◌,
}
use sman_server.Base.Int.{ℤ, pos, ◌+ℤ◌, ltb_ℤ}
use sman_server.Accounts.Types.{
  Account, AccountType, AccountStatus, AccountAction, account_type_eq, status_eq, Flags,
}
use sman_server.Accounts.Flags.{default_flags}
use sman_server.Accounts.Faults.{ok, err, not_active, check_failed, unique_failed}
use sman_server.Accounts.Store.Tables.{AccountDb, AccountLog, Values, Env}
use sman_server.Accounts.Store.Monad.{M, pure, modify, ◌>>◌}

-- genId.
unfoldable pub gen_id : Env → String → AccountDb → String
gen_id env prefix s = str_append prefix (str_append "_" (env.random_hex s.draws))

abbrev pub with_id : String → Account → Bool
with_id id a = a.id == id

abbrev pub of_user : String → AccountType → Account → Bool
of_user user type a = a.user_id == user && a.type == type

-- INSERT INTO accounts (id, user_id, type), with the defaults of the columns.
abbrev pub new_account : Env → String → String → AccountType → Account
new_account env id user type = record {
  id = id;
  user_id = user;
  type = type;
  currency = "SMC";
  balance = pos 0;
  control_flags = default_flags;
  status = AccountStatus.active;
  version = 1;
  created_at = env.now;
  updated_at = env.now;
}

unfoldable pub insert_account : Account → M (Unit {0})
insert_account a s =
    if exists_where (with_id a.id) s.accounts || exists_where (of_user a.user_id a.type) s.accounts
    then err (unique_failed "accounts")
    else ok (tt, record s { accounts = s.accounts ++ a ∷ []; draws = s.draws + 1 })

-- The SELECT that follows the INSERT returns the row inserted: its key was free.
unfoldable pub get_or_create_account : Env → String → AccountType → M Account
get_or_create_account env user type s = elim (find_where (of_user user type) s.accounts) [
  | some existing ↦ ok (existing, s)
  | none ↦
      (let a = new_account env (gen_id env "acc" s) user type in (do insert_account a; pure a)) s
]

unfoldable pub get_account_by_user : Env → String → AccountType → M Account
get_account_by_user env user type = get_or_create_account env user type

unfoldable pub get_account : String → AccountDb → Option Account
get_account id s = find_where (with_id id) s.accounts

abbrev pub active_with_id : String → Account → Bool
active_with_id id a = a.id == id && a.status == AccountStatus.active

abbrev pub add_balance : Env → ℤ → Account → Account
add_balance env delta a = record a { balance = a.balance +ℤ delta; updated_at = env.now }

-- The CHECK of the column refuses the statement before its count of changed rows is read.
unfoldable pub update_balance : Env → String → ℤ → M (Unit {0})
update_balance env id delta s =
    if exists_where (λ a. active_with_id id a && ltb_ℤ (a.balance +ℤ delta) (pos 0)) s.accounts
    then err (check_failed "balance")
    else if exists_where (active_with_id id) s.accounts
    then ok (
      tt,
      record s { accounts = update_where (active_with_id id) (add_balance env delta) s.accounts },
    )
    else err (not_active id)

unfoldable pub update_control_flags : Env → String → Flags → M (Unit {0})
update_control_flags env id flags = modify λ s. record s {
  accounts =
      update_where (with_id id) (λ a. record a { control_flags = flags; updated_at = env.now })
        s.accounts;
}

unfoldable pub update_account_status : Env → String → AccountStatus → M (Unit {0})
update_account_status env id status = modify λ s. record s {
  accounts =
      update_where (with_id id) (λ a. record a { status = status; updated_at = env.now })
        s.accounts;
}

unfoldable pub bump_version : Env → String → ℕ → M Bool
bump_version env id expected s =
    let p = λ (a : Account). a.id == id && a.version == expected in
    ok (
      exists_where p s.accounts,
      record s {
        accounts =
            update_where p (λ a. record a { version = a.version + 1; updated_at = env.now })
              s.accounts;
      },
    )

unfoldable pub log_account_action :
    Env
    → String
    → AccountAction
    → Option Values
    → Option Values
    → Option String
    → Option String
    → Option String
    → M (Unit {0})
log_account_action env account_id action old_values new_values operator_id operator_ip reason =
    modify λ s. record s {
      account_logs =
          s.account_logs
          ++ record {
            id = suc (length s.account_logs);
            account_id = account_id;
            action = action;
            old_values = old_values;
            new_values = new_values;
            operator_id = operator_id;
            operator_ip = operator_ip;
            reason = reason;
            created_at = env.now;
          }
            ∷ [];
    }

-- getAccountLogs.
pub get_account_logs : String → ℕ → AccountDb → List AccountLog
get_account_logs account_id limit s = take limit (
    sort_desc (λ (l : AccountLog). l.created_at)
      (select_where (λ (l : AccountLog). l.account_id == account_id) s.account_logs))
