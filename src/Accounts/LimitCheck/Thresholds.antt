-- ===== src/Accounts/LimitCheck/Thresholds.antt =====
-- The limit check passes exactly when every limit that applies is unreached.
use sman_server.Base.{
  ◌≡◌, ◌↔◌, ◌⊎◌, refl, String, true, Option, none, some, List, [], ◌∷◌, arith, All, ==_iff,
  string_eq, sort_desc-All, All-of_sort_desc, All-of_select_where, All-select_where,
}
use sman_server.Base.Int.{ℤ, ◌≤ℤ◌}
use sman_server.Accounts.Types.{Account, ActionType, Limit, LimitDimension, time, counterparty}
use sman_server.Accounts.Store.Tables.{AccountDb, Env}
use sman_server.Accounts.Store.Limits.{limit_applies, get_applicable_limits}
use sman_server.Accounts.Control.{type_name}
use sman_server.Accounts.LimitCheck.{
  time_usage, counterparty_usage, limit_result, check_time_limit, check_counterparty_limit,
  check_limit, check_limits, check,
}

module _ (env : Env) (a : Account) (other : String) (s : AccountDb) where
  -- The usage of the window is below the threshold; a counterparty's limit binds only where there is
  -- a counterparty.
  abbrev pub Within : LimitDimension → Limit → Type 0
  Within time l = ¬ (l.threshold ≤ℤ time_usage env a l s)
  Within counterparty l = (other ≡ "") ⊎ (¬ (l.threshold ≤ℤ counterparty_usage env a other l s))

  abbrev pub IsWithin : Limit → Type 0
  IsWithin l = Within l.dimension l

  limit_result-none : (l : Limit) (n : ℤ) → (limit_result l n ≡ none) ↔ (¬ (l.threshold ≤ℤ n))
  unfolding limit_result
  limit_result-none l n = ground arith

  check_limit-none : (l : Limit) → (check_limit env a other l s ≡ none) ↔ IsWithin l
  unfolding check_limit check_time_limit check_counterparty_limit
  check_limit-none l = ground (
    arith,
    limit_result-none l (time_usage env a l s),
    limit_result-none l (counterparty_usage env a other l s),
    ==_iff other "",
  )

  check_limits-none : (ls : List Limit) → (check_limits env a other ls s ≡ none) ↔ All IsWithin ls
  unfolding check_limits
  check_limits-none [] = (λ _. tt, λ _. refl)
  check_limits-none (l ∷ ls) = ground (arith, check_limit-none l, check_limits-none ls)

  -- The check lets an action pass exactly when each limit that is active and applies to the account's
  -- type, the action and the scene still has room.
  pub check-none_iff :
      (action : ActionType) (scene : Option String)
      → (check env a action other scene s ≡ none)
        ↔ All
            (λ l. limit_applies (some (type_name a.type)) action scene l ≡ true → IsWithin l)
            s.limits
  unfolding check get_applicable_limits
  check-none_iff action scene = (
    λ e. All-of_select_where _ _ s.limits (All-of_sort_desc _ _ _ ((check_limits-none _).0 e)),
    λ h. (check_limits-none _).1 (sort_desc-All _ _ _ (All-select_where _ _ s.limits h)),
  )
