-- ===== src/Accounts/Tests.antt =====
-- Runs of the accounts' code on small databases, and the theorems at concrete calls.
use sman_server.Base.{
  inr, ◌∷◌, [], ℕ, zero, suc, ◌≡◌, refl, String, true, false, none, some, arith, exists_where,
  find_where, update_where, select_where, sort_desc,
}
use sman_server.Base.Int.{pos, ◌+ℤ◌, ◌-ℤ◌}
use sman_server.Accounts.Types.{TransactionDetail, TransactionType, TransactionStatus}
use sman_server.Accounts.Store.Tables.{Env, empty_db}
use sman_server.Accounts.Ledger.Params.{
  executed, duplicate, to_result, map_action_type, EntryParams, Ledger, system_user,
}
use sman_server.Accounts.Ledger.Entry.{
  record_entry, new_ledger, plain_params, validate_and_execute, execute_in_transaction, finish,
  unless_blocked, event_id_of,
}
use sman_server.Accounts.Ledger.Pipeline.{
  transaction_body, check_accounts, check_control_flags, check_config, check_limit, check_balance,
  execute_entry, debit_account, refuse,
}
use sman_server.Accounts.Store.Rows.{
  gen_id, get_or_create_account, insert_account, get_account, update_balance,
}
use sman_server.Accounts.Store.Txns.{get_txn_by_event_id, create_txn_detail, insert_txn}
use sman_server.Accounts.Flags.{parse_flags, is_frozen, can_debit, can_credit}
use sman_server.Accounts.Breaker.{new_breaker, can_execute, record_success}
use sman_server.Accounts.Control
use sman_server.Accounts.LimitCheck
use sman_server.Accounts.Store.Controls.{get_matching_configs}
use sman_server.Accounts.Store.Limits.{get_applicable_limits}
use sman_server.Accounts.History.{Reachable, Reachable-IsSound}
use sman_server.Accounts.Ledger.Movement.{Extends}
use sman_server.Accounts.Ledger.Stages.{SameMoney}
use sman_server.Accounts.Ledger.Guarantees.{record_entry-IsSound, unsuccessful-Extends}
use sman_server.Accounts.Ledger.Replay.{entries, known_event-record_entry, repeat-record_entry}
use sman_server.Accounts.Ledger.Soundness.{IsSound}
use sman_server.Accounts.Ledger.Effects.{Transferred, new_event-Transferred, balance_at}

abbrev hex : ℕ → String
hex zero = "00"
hex (suc zero) = "01"
hex (suc (suc zero)) = "02"
hex (suc (suc (suc zero))) = "03"
hex (suc (suc (suc (suc zero)))) = "04"
hex (suc (suc (suc (suc (suc n))))) = "05"

abbrev env_at : ℕ → Env
env_at n = record { now_ms = 1000; now = n; datetime = λ m. 0; random_hex = hex; audited = λ m. m }

abbrev event : String → EntryParams → EntryParams
event id p = record p { event_id = some id }

abbrev pay_in : EntryParams
pay_in = event "e1" (plain_params TransactionType.topup system_user "alice" (pos 1000))

abbrev pay : EntryParams
pay = event "e2" (plain_params TransactionType.transfer "alice" "bob" (pos 300))

abbrev overdraft : EntryParams
overdraft = event "e3" (plain_params TransactionType.transfer "alice" "bob" (pos 5000))

abbrev ledger0 : Ledger
ledger0 = (record_entry (env_at 1) pay_in (new_ledger empty_db)).1

abbrev ledger1 : Ledger
ledger1 = (record_entry (env_at 2) pay ledger0).1

-- A top-up and a transfer, and what they leave on the accounts.
pay_in_succeeds : (record_entry (env_at 1) pay_in (new_ledger empty_db)).0.success ≡ true
unfolding record_entry can_execute new_ledger new_breaker validate_and_execute
    execute_in_transaction transaction_body finish unless_blocked to_result event_id_of
    get_txn_by_event_id find_where exists_where update_where get_or_create_account insert_account
    get_account check_accounts check_control_flags can_debit can_credit is_frozen parse_flags
    check_config Control.check Control.check_top LimitCheck.check LimitCheck.check_limits
    get_matching_configs select_where sort_desc get_applicable_limits check_limit check_balance
    execute_entry debit_account update_balance create_txn_detail insert_txn record_success
    map_action_type refuse ◌+ℤ◌ ◌-ℤ◌ gen_id
pay_in_succeeds = refl

pay_succeeds : (record_entry (env_at 2) pay ledger0).0.success ≡ true
unfolding record_entry can_execute new_ledger new_breaker validate_and_execute
    execute_in_transaction transaction_body finish unless_blocked to_result event_id_of
    get_txn_by_event_id find_where exists_where update_where get_or_create_account insert_account
    get_account check_accounts check_control_flags can_debit can_credit is_frozen parse_flags
    check_config Control.check Control.check_top LimitCheck.check LimitCheck.check_limits
    get_matching_configs select_where sort_desc get_applicable_limits check_limit check_balance
    execute_entry debit_account update_balance create_txn_detail insert_txn record_success
    map_action_type refuse ◌+ℤ◌ ◌-ℤ◌ gen_id
pay_succeeds = refl

pay_is_new : get_txn_by_event_id "e2" ledger0.db ≡ none
unfolding record_entry can_execute new_ledger new_breaker validate_and_execute
    execute_in_transaction transaction_body finish unless_blocked to_result event_id_of
    get_txn_by_event_id find_where exists_where update_where get_or_create_account insert_account
    get_account check_accounts check_control_flags can_debit can_credit is_frozen parse_flags
    check_config Control.check Control.check_top LimitCheck.check LimitCheck.check_limits
    get_matching_configs select_where sort_desc get_applicable_limits check_limit check_balance
    execute_entry debit_account update_balance create_txn_detail insert_txn record_success
    map_action_type refuse ◌+ℤ◌ ◌-ℤ◌ gen_id
pay_is_new = refl

pay_balances :
    (balance_at "acc_03" ledger1.db ≡ pos 300)
    × (balance_at "acc_01" ledger1.db ≡ pos 700)
    × (balance_at "acc_00" ledger1.db ≡ pos 0)
unfolding record_entry can_execute new_ledger new_breaker validate_and_execute
    execute_in_transaction transaction_body finish unless_blocked to_result event_id_of
    get_txn_by_event_id find_where exists_where update_where get_or_create_account insert_account
    get_account check_accounts check_control_flags can_debit can_credit is_frozen parse_flags
    check_config Control.check Control.check_top LimitCheck.check LimitCheck.check_limits
    get_matching_configs select_where sort_desc get_applicable_limits check_limit check_balance
    execute_entry debit_account update_balance create_txn_detail insert_txn record_success
    map_action_type refuse ◌+ℤ◌ ◌-ℤ◌ gen_id
pay_balances = (refl, refl, refl)

overdraft_fails : (record_entry (env_at 3) overdraft ledger0).0.success ≡ false
unfolding record_entry can_execute new_ledger new_breaker validate_and_execute
    execute_in_transaction transaction_body finish unless_blocked to_result event_id_of
    get_txn_by_event_id find_where exists_where update_where get_or_create_account insert_account
    get_account check_accounts check_control_flags can_debit can_credit is_frozen parse_flags
    check_config Control.check Control.check_top LimitCheck.check LimitCheck.check_limits
    get_matching_configs select_where sort_desc get_applicable_limits check_limit check_balance
    execute_entry debit_account update_balance create_txn_detail insert_txn record_success
    map_action_type refuse ◌+ℤ◌ ◌-ℤ◌ gen_id
overdraft_fails = refl

ledger0-IsSound : IsSound ledger0.db
ledger0-IsSound = Reachable-IsSound (Reachable.entry (env_at 1) pay_in Reachable.start)

reached : Reachable ledger1
reached = Reachable.entry (env_at 2) pay (Reachable.entry (env_at 1) pay_in Reachable.start)

Reachable-IsSound_example : IsSound ledger1.db
Reachable-IsSound_example = Reachable-IsSound reached

new_event-Transferred_example :
    (t : TransactionDetail) × ((record_entry (env_at 2) pay ledger0).0 ≡ to_result (executed t))
    × Transferred (env_at 2) pay "e2" ledger0.db t ledger1.db
new_event-Transferred_example =
    new_event-Transferred (env_at 2) pay "e2" ledger0 ledger0-IsSound.valid refl pay_is_new
      pay_succeeds

-- The row that the transfer stores.
abbrev paid : TransactionDetail
paid = record {
  id = "txn_04";
  event_id = "e2";
  type = TransactionType.transfer;
  debit_account_id = "acc_01";
  credit_account_id = "acc_03";
  amount = pos 300;
  currency = "SMC";
  status = TransactionStatus.completed;
  reject_code = none;
  reject_reason = none;
  reference_type = none;
  reference_id = none;
  metadata = none;
  completed_at = none;
  created_at = 2;
}

paid_is_stored : get_txn_by_event_id "e2" ledger1.db ≡ some paid
unfolding record_entry can_execute new_ledger new_breaker validate_and_execute
    execute_in_transaction transaction_body finish unless_blocked to_result event_id_of
    get_txn_by_event_id find_where exists_where update_where get_or_create_account insert_account
    get_account check_accounts check_control_flags can_debit can_credit is_frozen parse_flags
    check_config Control.check Control.check_top LimitCheck.check LimitCheck.check_limits
    get_matching_configs select_where sort_desc get_applicable_limits check_limit check_balance
    execute_entry debit_account update_balance create_txn_detail insert_txn record_success
    map_action_type refuse ◌+ℤ◌ ◌-ℤ◌ gen_id
paid_is_stored = refl

breaker_lets_through : (can_execute 1000 ledger1.circuit_breaker).0 ≡ none
unfolding record_entry can_execute new_ledger new_breaker validate_and_execute
    execute_in_transaction transaction_body finish unless_blocked to_result event_id_of
    get_txn_by_event_id find_where exists_where update_where get_or_create_account insert_account
    get_account check_accounts check_control_flags can_debit can_credit is_frozen parse_flags
    check_config Control.check Control.check_top LimitCheck.check LimitCheck.check_limits
    get_matching_configs select_where sort_desc get_applicable_limits check_limit check_balance
    execute_entry debit_account update_balance create_txn_detail insert_txn record_success
    map_action_type refuse ◌+ℤ◌ ◌-ℤ◌ gen_id
breaker_lets_through = refl

lets_repeat :
    (can_execute 1000 (entries ((env_at 5, overdraft) ∷ []) ledger1).circuit_breaker).0 ≡ none
unfolding record_entry can_execute new_ledger new_breaker validate_and_execute
    execute_in_transaction transaction_body finish unless_blocked to_result event_id_of
    get_txn_by_event_id find_where exists_where update_where get_or_create_account insert_account
    get_account check_accounts check_control_flags can_debit can_credit is_frozen parse_flags
    check_config Control.check Control.check_top LimitCheck.check LimitCheck.check_limits
    get_matching_configs select_where sort_desc get_applicable_limits check_limit check_balance
    execute_entry debit_account update_balance create_txn_detail insert_txn record_success
    map_action_type refuse ◌+ℤ◌ ◌-ℤ◌ gen_id
lets_repeat = refl

record_entry-IsSound_example : IsSound (record_entry (env_at 3) overdraft ledger1).1.db
record_entry-IsSound_example =
    record_entry-IsSound (env_at 3) overdraft ledger1 (Reachable-IsSound reached)

unsuccessful-Extends_example : Extends ledger0.db (record_entry (env_at 3) overdraft ledger0).1.db
unsuccessful-Extends_example =
    unsuccessful-Extends (env_at 3) overdraft ledger0 ledger0-IsSound.valid overdraft_fails

known_event-record_entry_example :
    ((record_entry (env_at 3) pay ledger1).0 ≡ to_result (duplicate paid))
    × SameMoney ledger1.db (record_entry (env_at 3) pay ledger1).1.db
known_event-record_entry_example =
    known_event-record_entry (env_at 3) pay "e2" paid ledger1 refl paid_is_stored
      (ground arith, ground arith) breaker_lets_through

repeat-record_entry_example :
    let (r, l) = record_entry (env_at 2) pay ledger0 in
    let l2 = entries ((env_at 5, overdraft) ∷ []) l in
    ((record_entry (env_at 9) pay l2).0 ≡ r) × SameMoney l2.db (record_entry (env_at 9) pay l2).1.db
repeat-record_entry_example =
    repeat-record_entry (env_at 2) pay "e2" refl (env_at 9) ((env_at 5, overdraft) ∷ []) ledger0
      ledger0-IsSound.valid pay_succeeds (inr lets_repeat)
