-- ===== src/Accounts/Ledger/Stages.antt =====
-- One rule for each stage of the body: it refuses, and then changes no account and no transaction,
-- or it goes on, and then what it tests for holds.
use sman_server.Base.{
  subst, ◌≡◌, ◌≢◌, refl, ap, String, Bool, true, false, not, ◌&&◌, Option, none, some, List, [],
  ◌∷◌, nat_eq, arith, ◌==◌, ==_iff, string_eq, option_eq, Bool-cases, Option-cases, inl, inr,
}
use sman_server.Base.Int.{◌≤ℤ◌}
use sman_server.Accounts.Types.{Account, ControlConfig, Flags, account_type_eq, escrow, ActionType}
use sman_server.Accounts.Rejects.{
  RejectResult, IsCheck, AllChecks, reject_plain-IsCheck, reject_for-IsCheck,
}
use sman_server.Accounts.Flags.{parse_flags, is_frozen, can_debit, can_credit}
use sman_server.Accounts.Store.Tables.{AccountDb, Env}
use sman_server.Accounts.Store.Monad.{Ensures}
use sman_server.Accounts.Store.Rows.{get_account}
use sman_server.Accounts.Store.Controls.{create_control_record}
use sman_server.Accounts.Control
use sman_server.Accounts.LimitCheck
use sman_server.Accounts.Ledger.Refusals.{
  check_control_flags-AllChecks, check-AllChecks, control-AllChecks,
}
use sman_server.Accounts.Ledger.Params.{EntryParams, Outcome, refused, map_action_type}
use sman_server.Accounts.Ledger.Pipeline.{
  lacks, refuse, check_control_flags, execute_entry, check_balance, check_limit, check_config,
  check_accounts,
}

-- Neither the accounts nor the transactions differ.
pub record SameMoney (s s' : AccountDb) : Type 0 where
  pub accounts : s'.accounts ≡ s.accounts
  pub txns : s'.transaction_details ≡ s.transaction_details

pub check_control_flags_lem :
    (from to : Flags) (is_system : Bool)
    → check_control_flags from to is_system ≡ none
    → (is_system ≡ false → (is_frozen from ≡ false) × (can_debit from ≡ true))
      × (is_frozen to ≡ false)
      × (can_credit to ≡ true)
unfolding check_control_flags
check_control_flags_lem from to is_system e = ground arith

module _ (env : Env) (a : Account) where
  check_top_money :
      (cs : List ControlConfig) (s : AccountDb) → SameMoney s (Control.check_top env a cs s).1
  unfolding Control.check_top create_control_record
  check_top_money [] s = record { accounts = refl; txns = refl }
  check_top_money (c ∷ cs) s = elim (Bool-cases (c.is_whitelist == 0)) [
    | inl t ↦ rw t (record { accounts = refl; txns = refl })
    | inr n ↦ rw n (record { accounts = refl; txns = refl })
  ]

  check_top_passes :
      (cs : List ControlConfig) (s : AccountDb)
      → (Control.check_top env a cs s).0 ≡ none
      → Control.check_top env a cs s ≡ (none, s)
  unfolding Control.check_top
  check_top_passes [] s e = refl
  check_top_passes (c ∷ cs) s e = elim (Bool-cases (c.is_whitelist == 0)) [
    | inl t ↦ absurd (ground arith)
    | inr n ↦ rw n
  ]

  module _ (action : ActionType) (scene : Option String) (s : AccountDb) where
    check_money : SameMoney s (Control.check env a action scene s).1
    unfolding Control.check
    check_money = check_top_money _ s

    check_passes :
        (Control.check env a action scene s).0 ≡ none
        → Control.check env a action scene s ≡ (none, s)
    unfolding Control.check
    check_passes e = check_top_passes _ s e

module _ (env : Env) (event_id : String) (p : EntryParams) (is_system : Bool) (from to : Account)
    (s : AccountDb) (P : Outcome → AccountDb → Type 0) where
  abbrev Refusals : Type 0
  Refusals = (r : RejectResult) (s' : AccountDb) → IsCheck r → SameMoney s s' → P (refused r) s'

  lacks-balance :
      (o : Option Account)
      → lacks o p.amount ≡ false
      → (a : Account) → o ≡ some a
      → p.amount ≤ℤ a.balance
  lacks-balance none e a h = cc
  lacks-balance (some b) e a h = ground arith

  pub check_balance_rule :
      Refusals
      → ((is_system ≡ false
            → p.from_account_type ≢ some escrow
            → (a : Account) → get_account from.id s ≡ some a
            → p.amount ≤ℤ a.balance)
          → Ensures P (execute_entry env event_id p is_system from to s))
      → Ensures P (check_balance env event_id p is_system from to s)
  unfolding check_balance refuse
  check_balance_rule deny go =
      elim (Bool-cases (not is_system && not (p.from_account_type == some escrow))) [
        | inr skip ↦
            rw (skip, Ensures)
              (go (λ e n a h. absurd (ground (arith, ==_iff p.from_account_type (some escrow)))))
        | inl test ↦ elim (Bool-cases (lacks (get_account from.id s) p.amount)) [
          | inl short ↦
              rw (test, short, Ensures)
                (deny _ _ (reject_for-IsCheck _ _ (λ f e. cc (e)))
                  (record { accounts = refl; txns = refl }))
          | inr enough ↦ rw (test, enough, Ensures) (go (λ e n. lacks-balance _ enough))
        ]
      ]

  pub check_limit_rule :
      Refusals
      → ((is_system ≡ false
            → (parse_flags from.control_flags).limit_controlled ≡ true
            → LimitCheck.check env from (map_action_type p.type) to.id p.scene s ≡ none)
          → Ensures P (check_balance env event_id p is_system from to s))
      → Ensures P (check_limit env event_id p is_system from to s)
  unfolding check_limit create_control_record
  check_limit_rule deny go =
      elim (Bool-cases ((parse_flags from.control_flags).limit_controlled && not is_system)) [
        | inr skip ↦ rw (skip, Ensures) (go (λ e l. absurd (ground arith)))
        | inl test ↦
            elim (Option-cases
              (LimitCheck.check env from (map_action_type p.type) to.id p.scene s)) [
                | inl free ↦ rw (test, free, Ensures) (go (λ e l. free))
                | inr (r, hit) ↦
                    rw (test, hit, Ensures)
                      (deny _ _
                        (subst AllChecks hit
                          (check-AllChecks env from to.id (map_action_type p.type) p.scene s))
                        (record { accounts = refl; txns = refl }))
              ]
      ]

  pub check_config_rule :
      Refusals
      → ((is_system ≡ false
            → (parse_flags from.control_flags).config_controlled ≡ true
            → Control.check env from (map_action_type p.type) p.scene s ≡ (none, s))
          → Ensures P (check_limit env event_id p is_system from to s))
      → Ensures P (check_config env event_id p is_system from to s)
  unfolding check_config refuse
  check_config_rule deny go =
      elim (Bool-cases ((parse_flags from.control_flags).config_controlled && not is_system)) [
        | inr skip ↦ rw (skip, Ensures) (go (λ e l. absurd (ground arith)))
        | inl test ↦
            let c = Control.check env from (map_action_type p.type) p.scene s in
            let same = check_money env from (map_action_type p.type) p.scene s in
            elim (Option-cases c.0) [
              | inl free ↦
                  let passes = check_passes env from (map_action_type p.type) p.scene s free in
                  let back : c.1 ≡ s = ap (λ (x : Option RejectResult × AccountDb). x.1) passes in
                  rw (test, free, back, Ensures) (go (λ e l. passes))
              | inr (r, hit) ↦
                  rw (test, hit, Ensures)
                    (deny _ _
                      (subst AllChecks hit
                        (control-AllChecks env from (map_action_type p.type) p.scene s))
                      (record { accounts = same.accounts; txns = same.txns }))
            ]
      ]

  pub check_accounts_rule :
      Refusals
      → (from.id ≢ to.id
          → check_control_flags from.control_flags to.control_flags is_system ≡ none
          → Ensures P (check_config env event_id p is_system from to s))
      → Ensures P (check_accounts env event_id p is_system from to s)
  unfolding check_accounts refuse
  check_accounts_rule deny go = elim (Bool-cases (from.id == to.id)) [
    | inl self ↦
        rw (self, Ensures)
          (deny _ _ (reject_plain-IsCheck _) (record { accounts = refl; txns = refl }))
    | inr apart ↦
        elim (Option-cases (check_control_flags from.control_flags to.control_flags is_system)) [
          | inl free ↦ rw (apart, free, Ensures) (go (ground (arith, ==_iff from.id to.id)) free)
          | inr (r, hit) ↦
              rw (apart, hit, Ensures)
                (deny _ _
                  (subst AllChecks hit
                    (check_control_flags-AllChecks from.control_flags to.control_flags is_system))
                  (record { accounts = refl; txns = refl }))
        ]
  ]
