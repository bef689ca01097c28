-- ===== src/Accounts/Ledger/Refusals.antt =====
-- The refusals of the checks: each has a reason of its own, and none the reason of an error that was
-- thrown.
use sman_server.Base.{
  String, Bool, not, ◌&&◌, Option, none, some, List, [], ◌∷◌, nat_eq, if◌then◌else◌, ◌==◌,
  string_eq, option_eq, Bool-cases, inl, inr,
}
use sman_server.Base.Int.{ℤ, leb_ℤ}
use sman_server.Accounts.Types.{
  Limit, LimitDimension, time, counterparty, Account, ControlConfig, Flags, account_type_eq,
  ActionType,
}
use sman_server.Accounts.Rejects.{RejectResult, AllChecks, reject_for-IsCheck, format_limit_reason}
use sman_server.Accounts.Flags.{is_frozen, can_debit, can_credit}
use sman_server.Accounts.Store.Tables.{AccountDb, Env}
use sman_server.Accounts.Control
use sman_server.Accounts.LimitCheck
use sman_server.Accounts.Ledger.Pipeline.{check_control_flags}

pub check_control_flags-AllChecks :
    (from to : Flags) (is_system : Bool) → AllChecks (check_control_flags from to is_system)
unfolding check_control_flags
check_control_flags-AllChecks from to is_system =
    elim (Bool-cases (not is_system && is_frozen from)) [
      | inl y ↦ rw y (reject_for-IsCheck _ _ (λ f e. cc (e)))
      | inr n ↦ elim (Bool-cases (not is_system && not (can_debit from))) [
        | inl y ↦ rw (n, y) (reject_for-IsCheck _ _ (λ f e. cc (e)))
        | inr m ↦ elim (Bool-cases (is_frozen to)) [
          | inl y ↦ rw (n, m, y) (reject_for-IsCheck _ _ (λ f e. cc (e)))
          | inr o ↦ elim (Bool-cases (not (can_credit to))) [
            | inl y ↦ rw (n, m, o, y) (reject_for-IsCheck _ _ (λ f e. cc (e)))
            | inr q ↦ rw (n, m, o, q) tt
          ]
        ]
      ]
    ]

module _ (env : Env) (a : Account) where
  -- A limit gives a reason of its own.
  limit_result-AllChecks : (l : Limit) (n : ℤ) → AllChecks (LimitCheck.limit_result l n)
  unfolding LimitCheck.limit_result format_limit_reason
  limit_result-AllChecks l n = elim (Bool-cases (leb_ℤ l.threshold n)) [
    | inl y ↦ rw y (λ f e. cc (e))
    | inr m ↦ rw m tt
  ]

  check_limit-AllChecks :
      (other : String) (l : Limit) (s : AccountDb)
      → AllChecks (LimitCheck.check_limit env a other l s)
  unfolding LimitCheck.check_limit LimitCheck.check_time_limit LimitCheck.check_counterparty_limit
  check_limit-AllChecks other l s = go l.dimension
    where
      go :
          (d : LimitDimension)
          → AllChecks (elim d [
            | time ↦ LimitCheck.check_time_limit env a l s
            | counterparty ↦
                if other == "" then none else LimitCheck.check_counterparty_limit env a other l s
          ])
      go time = limit_result-AllChecks l _
      go counterparty = elim (Bool-cases (other == "")) [
        | inl y ↦ rw y tt
        | inr n ↦ rw n (limit_result-AllChecks l _)
      ]

  first_result-AllChecks :
      (o rest : Option RejectResult)
      → AllChecks o
      → AllChecks rest
      → AllChecks (LimitCheck.first_result o rest)
  first_result-AllChecks none rest h g = g
  first_result-AllChecks (some r) rest h g = h

  check_limits-AllChecks :
      (other : String) (ls : List Limit) (s : AccountDb)
      → AllChecks (LimitCheck.check_limits env a other ls s)
  unfolding LimitCheck.check_limits
  check_limits-AllChecks other [] s = tt
  check_limits-AllChecks other (l ∷ ls) s =
      first_result-AllChecks _ _ (check_limit-AllChecks other l s)
        (check_limits-AllChecks other ls s)

  pub check-AllChecks :
      (other : String) (action : ActionType) (scene : Option String) (s : AccountDb)
      → AllChecks (LimitCheck.check env a action other scene s)
  unfolding LimitCheck.check
  check-AllChecks other action scene s = check_limits-AllChecks other _ s

  check_top-AllChecks :
      (cs : List ControlConfig) (s : AccountDb) → AllChecks (Control.check_top env a cs s).0
  unfolding Control.check_top
  check_top-AllChecks [] s = tt
  check_top-AllChecks (c ∷ cs) s = elim (Bool-cases (c.is_whitelist == 0)) [
    | inl t ↦ rw t (reject_for-IsCheck _ _ (λ f e. cc (e)))
    | inr n ↦ rw n tt
  ]

  pub control-AllChecks :
      (action : ActionType) (scene : Option String) (s : AccountDb)
      → AllChecks (Control.check env a action scene s).0
  unfolding Control.check
  control-AllChecks action scene s = check_top-AllChecks _ s
