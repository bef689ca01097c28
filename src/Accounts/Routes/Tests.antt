-- ===== src/Accounts/Routes/Tests.antt =====
-- An escrow that is locked and confirmed, and the theorem at that call.
use Prim.Native.String.{[] as empty_text, ◌∷◌ as text_cons}
use sman_server.Base.{
  ℕ, zero, suc, ◌+◌, ◌*◌, ◌/◌, ◌≡◌, refl, subst, String, true, none, some-injective, exists_where,
  find_where, update_where, select_where, sort_desc,
}
use sman_server.Base.Int.{ℤ, pos, negsuc, ◌+ℤ◌, ◌-ℤ◌, ltb_ℤ}
use sman_server.Accounts.Types.{TransactionDetail, TransactionType}
use sman_server.Accounts.Store.Tables.{Env, empty_db}
use sman_server.Accounts.Ledger.Params.{Ledger, system_user, to_result, map_action_type}
use sman_server.Accounts.Ledger.Entry.{
  record_entry, new_ledger, plain_params, validate_and_execute, execute_in_transaction, finish,
  unless_blocked, event_id_of,
}
use sman_server.Accounts.Ledger.Pipeline.{
  transaction_body, check_accounts, check_control_flags, check_config, check_limit, check_balance,
  execute_entry, debit_account, refuse,
}
use sman_server.Accounts.Store.Rows.{
  gen_id, get_or_create_account, insert_account, get_account, update_balance,
}
use sman_server.Accounts.Store.Txns.{get_txn_by_event_id, create_txn_detail, insert_txn}
use sman_server.Accounts.Flags.{parse_flags, is_frozen, can_debit, can_credit}
use sman_server.Accounts.Breaker.{new_breaker, can_execute, record_success}
use sman_server.Accounts.Control
use sman_server.Accounts.LimitCheck
use sman_server.Accounts.Store.Controls.{get_matching_configs}
use sman_server.Accounts.Store.Limits.{get_applicable_limits}
use sman_server.Accounts.History.{empty-IsSound}
use sman_server.Accounts.Ledger.Guarantees.{record_entry-IsSound}
use sman_server.Accounts.Ledger.Moves.{IsNewTxn}
use sman_server.Accounts.Ledger.Soundness.{IsSound}
use sman_server.Accounts.Ledger.Movement.{IsValid}
use sman_server.Accounts.Routes.{confirm, lock_params}
use sman_server.Accounts.Routes.Escrow.{release, fee_entry, Confirmed, confirm-Confirmed}

-- A draw for each number: that many strokes.
abbrev strokes : ℕ → String
strokes zero = empty_text
strokes (suc n) = text_cons "i" (strokes n)

abbrev env : Env
env = record { now_ms = 1000; now = 1; datetime = λ m. 0; random_hex = strokes; audited = λ m. m }

-- Fifteen per cent, rounded half up, of an amount that is not negative.
abbrev fifteen_percent : ℤ → ℤ
fifteen_percent (pos n) = pos ((n * 15 + 50) / 100)
fifteen_percent (negsuc n) = pos 0

abbrev funded : Ledger
funded =
    (record_entry env (plain_params TransactionType.topup system_user "alice" (pos 1000))
      (new_ledger empty_db)).1

abbrev locked : Ledger
locked = (record_entry env (lock_params "alice" (pos 400)) funded).1

ltb_fee : ltb_ℤ (pos 0) (fifteen_percent (pos 400)) ≡ true
ltb_fee = refl

release_succeeds : (release env fifteen_percent "alice" "bob" (pos 400) locked).0.success ≡ true
unfolding record_entry can_execute new_ledger new_breaker validate_and_execute
    execute_in_transaction transaction_body finish unless_blocked to_result event_id_of
    get_txn_by_event_id find_where exists_where update_where get_or_create_account insert_account
    get_account check_accounts check_control_flags can_debit can_credit is_frozen parse_flags
    check_config Control.check Control.check_top LimitCheck.check LimitCheck.check_limits
    get_matching_configs select_where sort_desc get_applicable_limits check_limit check_balance
    execute_entry debit_account update_balance create_txn_detail insert_txn record_success
    map_action_type refuse ◌+ℤ◌ ◌-ℤ◌ gen_id
release_succeeds = refl

release_is_new : IsNewTxn (release env fifteen_percent "alice" "bob" (pos 400) locked).0 locked.db
unfolding record_entry can_execute new_ledger new_breaker validate_and_execute
    execute_in_transaction transaction_body finish unless_blocked to_result event_id_of
    get_txn_by_event_id find_where exists_where update_where get_or_create_account insert_account
    get_account check_accounts check_control_flags can_debit can_credit is_frozen parse_flags
    check_config Control.check Control.check_top LimitCheck.check LimitCheck.check_limits
    get_matching_configs select_where sort_desc get_applicable_limits check_limit check_balance
    execute_entry debit_account update_balance create_txn_detail insert_txn record_success
    map_action_type refuse ◌+ℤ◌ ◌-ℤ◌ gen_id
release_is_new t e =
    subst (λ (u : TransactionDetail). get_txn_by_event_id u.event_id locked.db ≡ none)
      (some-injective _ _ e) refl

fee_succeeds : (fee_entry env fifteen_percent "alice" "bob" (pos 400) locked).0.success ≡ true
unfolding record_entry can_execute new_ledger new_breaker validate_and_execute
    execute_in_transaction transaction_body finish unless_blocked to_result event_id_of
    get_txn_by_event_id find_where exists_where update_where get_or_create_account insert_account
    get_account check_accounts check_control_flags can_debit can_credit is_frozen parse_flags
    check_config Control.check Control.check_top LimitCheck.check LimitCheck.check_limits
    get_matching_configs select_where sort_desc get_applicable_limits check_limit check_balance
    execute_entry debit_account update_balance create_txn_detail insert_txn record_success
    map_action_type refuse ◌+ℤ◌ ◌-ℤ◌ gen_id
fee_succeeds = refl

fee_is_new :
    IsNewTxn
      (fee_entry env fifteen_percent "alice" "bob" (pos 400) locked).0
      (release env fifteen_percent "alice" "bob" (pos 400) locked).1.db
unfolding record_entry can_execute new_ledger new_breaker validate_and_execute
    execute_in_transaction transaction_body finish unless_blocked to_result event_id_of
    get_txn_by_event_id find_where exists_where update_where get_or_create_account insert_account
    get_account check_accounts check_control_flags can_debit can_credit is_frozen parse_flags
    check_config Control.check Control.check_top LimitCheck.check LimitCheck.check_limits
    get_matching_configs select_where sort_desc get_applicable_limits check_limit check_balance
    execute_entry debit_account update_balance create_txn_detail insert_txn record_success
    map_action_type refuse ◌+ℤ◌ ◌-ℤ◌ gen_id
fee_is_new t e =
    subst
      (λ (u : TransactionDetail).
        get_txn_by_event_id u.event_id
          (release env fifteen_percent "alice" "bob" (pos 400) locked).1.db
        ≡ none)
      (some-injective _ _ e) refl

empty_ledger : IsSound (new_ledger empty_db).db
unfolding new_ledger
empty_ledger = empty-IsSound

locked-IsValid : IsValid locked.db
locked-IsValid =
    (record_entry-IsSound env (lock_params "alice" (pos 400)) funded (
      record_entry-IsSound env (plain_params TransactionType.topup system_user "alice" (pos 1000))
        (new_ledger empty_db) empty_ledger)).valid

confirm-Confirmed_example :
    ((confirm env fifteen_percent "alice" "bob" (pos 400) locked).0
      ≡ (release env fifteen_percent "alice" "bob" (pos 400) locked).0)
    × Confirmed env fifteen_percent "alice" "bob"
        (pos 400)
        locked
        (confirm env fifteen_percent "alice" "bob" (pos 400) locked).1
confirm-Confirmed_example =
    confirm-Confirmed env fifteen_percent "alice" "bob" (pos 400) locked locked-IsValid
      (λ e. cc (e)) (λ e. cc (e)) refl release_succeeds release_is_new fee_succeeds fee_is_new
