-- ===== src/Accounts/Ledger/Pipeline.antt =====
-- ledger-engine.ts: the body of the transaction, stage by stage, and checkControlFlags.
use sman_server.Base.{
  String, Bool, true, not, ◌&&◌, Option, none, some, ◌==◌, string_eq, option_eq, or_default,
  if◌then◌else◌,
}
use sman_server.Base.Int.{ℤ, pos, neg, ltb_ℤ}
use sman_server.Accounts.Types.{
  Account, account_type_eq, main, escrow, TxnPhase, TxnAction, ControlType, ControlAction, Flags,
}
use sman_server.Accounts.Faults.{ok, would_go_negative}
use sman_server.Accounts.Rejects.{RejectResult, reject, text, insufficient}
use sman_server.Accounts.Flags.{parse_flags, is_frozen, can_debit, can_credit}
use sman_server.Accounts.Store.Tables.{LogDetail, Env}
use sman_server.Accounts.Store.Monad.{M, pure, throw_if, modify, ◌>>=◌, ◌>>◌}
use sman_server.Accounts.Store.Rows.{get_or_create_account, get_account, update_balance}
use sman_server.Accounts.Store.Txns.{TxnParams, get_txn_by_event_id, create_txn_detail, add_log}
use sman_server.Accounts.Store.Controls.{create_control_record}
use sman_server.Accounts.Control
use sman_server.Accounts.LimitCheck
use sman_server.Accounts.Ledger.Params.{
  EntryParams, Outcome, duplicate, executed, refused, map_action_type,
}

-- `!freshFrom || freshFrom.balance < amount`, and `freshFrom?.balance ?? 0`.
abbrev pub lacks : Option Account → ℤ → Bool
lacks none amount = true
lacks (some a) amount = ltb_ℤ a.balance amount

abbrev pub balance_of : Option Account → ℤ
balance_of none = pos 0
balance_of (some a) = a.balance

-- Log a refusal, and return it.
unfoldable pub refuse : Env → String → TxnPhase → TxnAction → RejectResult → M Outcome
refuse env event_id phase action r = do
  modify (add_log env event_id phase action (some (LogDetail.rejected r)))
  pure (refused r)

-- checkControlFlags: the result that its branches log and return.
unfoldable pub check_control_flags : Flags → Flags → Bool → Option RejectResult
check_control_flags from to is_system =
    if not is_system && is_frozen from
    then some (reject "B005" (some (text "账户已冻结")))
    else if not is_system && not (can_debit from)
    then some (reject "B001" (some (text "账户禁止扣减")))
    else if is_frozen to
    then some (reject "B005" (some (text "目标账户已冻结")))
    else if not (can_credit to)
    then some (reject "B002" (some (text "目标账户禁止增加")))
    else none

-- `if (afterDebit && afterDebit.balance < 0) throw …`.
abbrev pub refuse_negative : Option Account → M (Unit {0})
refuse_negative none = pure tt
refuse_negative (some after) = throw_if (ltb_ℤ after.balance (pos 0)) would_go_negative

module _ (env : Env) (event_id : String) (p : EntryParams) (is_system : Bool) where
  -- The debit, with the check of the balance that it leaves.
  unfoldable pub debit_account : String → M (Unit {0})
  debit_account id = do
    update_balance env id (neg p.amount)
    λ s. refuse_negative (get_account id s) s

  abbrev pub txn_params : Account → Account → TxnParams
  txn_params from to = record {
    event_id = event_id;
    type = p.type;
    debit_account_id = from.id;
    credit_account_id = to.id;
    amount = p.amount;
    status = none;
    reject_code = none;
    reject_reason = none;
    reference_type = p.reference_type;
    reference_id = p.reference_id;
    metadata = elim p.metadata [ none ↦ none | some m ↦ some (env.audited m) ];
  }

  -- [7] and [8].
  unfoldable pub execute_entry : Account → Account → M Outcome
  execute_entry from to = do
    if is_system then pure tt else debit_account from.id
    update_balance env to.id p.amount
    txn ← create_txn_detail env (txn_params from to)
    modify (add_log env event_id TxnPhase.execute TxnAction.success none)
    pure (executed txn)

  -- [6]
  unfoldable pub check_balance : Account → Account → M Outcome
  check_balance from to s =
      if not is_system && not (p.from_account_type == some escrow)
      then (let fresh = get_account from.id s in
          if lacks fresh p.amount
          then refuse env event_id TxnPhase.balance_check TxnAction.check_failed
              (reject "C001" (some (insufficient (balance_of fresh) p.amount))) s
          else execute_entry from to s)
      else execute_entry from to s

  -- [5]
  unfoldable pub check_limit : Account → Account → M Outcome
  check_limit from to s =
      if (parse_flags from.control_flags).limit_controlled && not is_system
      then elim (LimitCheck.check env from (map_action_type p.type) to.id p.scene s) [
        | none ↦ check_balance from to s
        | some r ↦
            (do
              modify (
                  add_log env event_id TxnPhase.limit_check TxnAction.limit_hit
                    (some (LogDetail.rejected r)))
              modify (
                  create_control_record env (record {
                    account_id = from.id;
                    config_id = none;
                    control_type = ControlType.limit_hit;
                    action = ControlAction.blocked;
                    trigger_event = some event_id;
                    detail = some (LogDetail.rejected r);
                    operator_id = none;
                  }))
              pure (refused r))
              s
      ]
      else check_balance from to s

  -- [4]
  unfoldable pub check_config : Account → Account → M Outcome
  check_config from to s =
      if (parse_flags from.control_flags).config_controlled && not is_system
      then (let (found, s') = Control.check env from (map_action_type p.type) p.scene s in
          elim found [
            | none ↦ check_limit from to s'
            | some r ↦ refuse env event_id TxnPhase.control_check TxnAction.control_blocked r s'
          ])
      else check_limit from to s

  -- The accounts differ, and [3].
  unfoldable pub check_accounts : Account → Account → M Outcome
  check_accounts from to =
      if from.id == to.id
      then refuse env event_id TxnPhase.pre_check TxnAction.check_failed (reject "D004" none)
      else elim (check_control_flags from.control_flags to.control_flags is_system) [
        | some r ↦ refuse env event_id TxnPhase.control_check TxnAction.check_failed r
        | none ↦ check_config from to
      ]

  -- [2] and what follows it: the function that `transaction` runs.
  unfoldable pub transaction_body : M Outcome
  transaction_body s = elim (get_txn_by_event_id event_id s) [
    | some existing ↦ ok (
      duplicate existing,
      add_log env event_id TxnPhase.pre_check TxnAction.check_failed
          (some LogDetail.duplicate_event) s,
    )
    | none ↦
        (do
          from ← get_or_create_account env p.from_user_id (or_default p.from_account_type main)
          to ← get_or_create_account env p.to_user_id (or_default p.to_account_type main)
          check_accounts from to)
          s
  ]
