-- ===== src/Accounts/Checks.antt =====
-- The account engine, the checks, the flags and the breaker at concrete calls.
use sman_server.Base.{
  ◌≡◌, ◌≢◌, ◌↔◌, ◌<◌, ◌≤◌, ◌-◌, refl, true, false, not, ◌&&◌, none, some, [], ◌∷◌, arith, All,
  is_some, find_where, select_where, sort_desc,
}
use mathlib.Core.List.{Mem}
use sman_server.Base.Int.{pos, ◌≤ℤ◌}
use sman_server.Accounts.Types.{
  Account, AccountType, AccountStatus, ActionType, ControlScope, ControlConfig, Switch, Limit,
  LimitDimension, LimitMetric, ThresholdType, Flags,
}
use sman_server.Accounts.Faults.{ok, err, freeze_closed, close_positive}
use sman_server.Accounts.Rejects.{reject, blacklist_hit}
use sman_server.Accounts.Flags.{
  parse_flags, is_frozen, can_debit, can_credit, set_flag, default_flags,
}
use sman_server.Accounts.Flags.Bits.{tests-parse_flags, set_flag-parse_flags}
use sman_server.Accounts.Breaker.{
  CircuitBreaker, closed, open_circuit, half_open, can_execute, new_breaker, timeout,
}
use sman_server.Accounts.Breaker.States
use sman_server.Accounts.Store.Tables.{AccountDb, Env, empty_db}
use sman_server.Accounts.Store.Rows.{get_account}
use sman_server.Accounts.Store.Limits.{limit_applies}
use sman_server.Accounts.Store.Controls.{
  get_matching_configs, config_matches, scope_matches, action_matches, scene_matches,
}
use sman_server.Accounts.Control
use sman_server.Accounts.Control.Priority
use sman_server.Accounts.LimitCheck
use sman_server.Accounts.LimitCheck.Thresholds
use sman_server.Accounts.Engine.{freeze, unfreeze, close}
use sman_server.Accounts.Engine.Lifecycle.{Became, freeze_lem, freeze-unfreeze, close-unfreeze}

abbrev env : Env
env = record { now_ms = 1000; now = 7; datetime = λ m. 0; random_hex = λ n. "0a"; audited = λ m. m }

abbrev carol : Account
carol = record {
  id = "acc_1";
  user_id = "carol";
  type = AccountType.main;
  currency = "SMC";
  balance = pos 0;
  control_flags = default_flags;
  status = AccountStatus.active;
  version = 1;
  created_at = 1;
  updated_at = 1;
}

abbrev blacklist : ControlConfig
blacklist = record {
  id = "cfg_1";
  name = "no transfers";
  description = none;
  scope = ControlScope.global;
  scope_value = none;
  action_type = ActionType.transfer;
  scene = none;
  is_whitelist = 0;
  priority = 5;
  status = Switch.active;
  created_at = 1;
  updated_at = 1;
}

abbrev whitelist : ControlConfig
whitelist = record blacklist { id = "cfg_2"; name = "transfers"; is_whitelist = 1; priority = 9 }

abbrev ceiling : Limit
ceiling = record {
  id = "lmt_1";
  name = "one a day";
  dimension = LimitDimension.time;
  metric = LimitMetric.day;
  interval_value = 1;
  threshold = pos 1;
  threshold_type = ThresholdType.count;
  scope = ControlScope.global;
  scope_value = none;
  action_type = ActionType.all;
  scene = none;
  reject_code = "A001";
  priority = 0;
  status = Switch.active;
  created_at = 1;
  updated_at = 1;
}

abbrev one_account : AccountDb
one_account = record empty_db { accounts = carol ∷ []; limits = ceiling ∷ [] }

abbrev blocked_db : AccountDb
blocked_db = record one_account { control_configs = blacklist ∷ [] }

abbrev allowed_db : AccountDb
allowed_db = record one_account { control_configs = whitelist ∷ [] }

carol_is_there : get_account "acc_1" one_account ≡ some carol
unfolding get_account find_where
carol_is_there = refl

blocked :
    (Control.check env carol ActionType.transfer none blocked_db).0
    ≡ some (reject "B003" (some (blacklist_hit "no transfers")))
unfolding Control.check Control.check_top get_matching_configs select_where sort_desc config_matches
    scope_matches action_matches scene_matches
blocked = refl

freeze_lem_example :
    (AccountStatus.active ≢ AccountStatus.closed
      → (s' : AccountDb) × (b : Account) × (freeze env "acc_1" "audit" none one_account
          ≡ ok (some b, s'))
        × Became "acc_1" one_account s' b
        × (b.status ≡ AccountStatus.frozen)
        × (b.balance ≡ pos 0)
        × (is_frozen b.control_flags ≡ true)
        × (can_debit b.control_flags ≡ false)
        × (can_credit b.control_flags ≡ false)
        × (parse_flags b.control_flags ≡ record (parse_flags default_flags) { is_frozen = true }))
    × (AccountStatus.active ≡ AccountStatus.closed
        → freeze env "acc_1" "audit" none one_account ≡ err freeze_closed)
freeze_lem_example = freeze_lem env "acc_1" "audit" none one_account carol carol_is_there

freeze-unfreeze_example :
    (s1 s2 : AccountDb) × (b c : Account) × (freeze env "acc_1" "audit" none one_account
      ≡ ok (some b, s1))
    × (unfreeze env "acc_1" "done" none s1 ≡ ok (some c, s2))
    × Became "acc_1" one_account s2 c
    × (c.status ≡ AccountStatus.active)
    × (c.balance ≡ pos 0)
    × (parse_flags c.control_flags ≡ record (parse_flags default_flags) { is_frozen = false })
freeze-unfreeze_example =
    freeze-unfreeze env "acc_1" "audit" none one_account carol env "done" none carol_is_there
      (ground arith)

close-unfreeze_example :
    (pos 1 ≤ℤ pos 0 → close env "acc_1" "left" none one_account ≡ err (close_positive (pos 0)))
    × (pos 0 ≤ℤ pos 0
        → (s1 s2 : AccountDb) × (b c : Account) × (close env "acc_1" "left" none one_account
            ≡ ok (some b, s1))
          × (b.status ≡ AccountStatus.closed)
          × (freeze env "acc_1" "back" none s1 ≡ err freeze_closed)
          × (unfreeze env "acc_1" "back" none s1 ≡ ok (some c, s2))
          × Became "acc_1" one_account s2 c
          × (c.status ≡ AccountStatus.active)
          × (c.balance ≡ pos 0))
close-unfreeze_example =
    close-unfreeze env "acc_1" "left" none one_account carol env "back" none carol_is_there

check-none_iff_example :
    (LimitCheck.check env carol ActionType.transfer "acc_2" none one_account ≡ none)
    ↔ All
        (λ l.
          limit_applies (some "main") ActionType.transfer none l ≡ true
          → Thresholds.IsWithin env carol "acc_2" one_account l)
        (ceiling ∷ [])
check-none_iff_example =
    Thresholds.check-none_iff env carol "acc_2" one_account ActionType.transfer none

refused-check_example :
    (c : ControlConfig) × (Mem c (blacklist ∷ [])
      × (config_matches (some "main") ActionType.transfer none c ≡ true))
    × (reject "B003" (some (blacklist_hit "no transfers"))
        ≡ reject "B003" (some (blacklist_hit c.name)))
    × (c.is_whitelist ≡ 0)
    × All
        (λ d.
          config_matches (some "main") ActionType.transfer none d ≡ true → d.priority ≤ c.priority)
        (blacklist ∷ [])
refused-check_example = Priority.refused-check env carol ActionType.transfer none blocked_db blocked

whitelists-check_example :
    Control.check env carol ActionType.transfer none allowed_db ≡ (none, allowed_db)
whitelists-check_example =
    Priority.whitelists-check env carol ActionType.transfer none allowed_db (ground arith, tt)

abbrev tripped : CircuitBreaker
tripped = record {
  state = open_circuit;
  failure_count = 5;
  success_count = 0;
  last_failure_time = 900;
}

abbrev counting : CircuitBreaker
counting = record { state = closed; failure_count = 3; success_count = 0; last_failure_time = 900 }

run-IsSound_example :
    States.IsSound (States.run new_breaker (States.failed 3 ∷ States.ask 5 ∷ States.succeeded ∷ []))
run-IsSound_example = States.run-IsSound (States.failed 3 ∷ States.ask 5 ∷ States.succeeded ∷ [])

can_execute-refuses_iff_example :
    ((is_some (can_execute 1000 tripped).0 ≡ true)
      ↔ ((open_circuit ≡ open_circuit) × (1000 - 900 < timeout)))
    × (is_some (can_execute 1000 tripped).0 ≡ true
        → can_execute 1000 tripped ≡ (some (reject "E002" none), tripped))
can_execute-refuses_iff_example = States.can_execute-refuses_iff 1000 tripped

failures-open_example :
    ((can_execute 2000
        (States.run counting (States.ask 950 ∷ States.failed 960 ∷ States.ask 970 ∷ []))).0
      ≡ none)
    × ((can_execute 2000 (
          States.run counting (
            States.ask 950
            ∷ States.failed 960
            ∷ States.ask 970
            ∷ States.failed 1000
            ∷ States.ask 1500
            ∷ []))).0
        ≡ some (reject "E002" none))
failures-open_example =
    States.failures-open counting (States.ask 950 ∷ States.failed 960 ∷ States.ask 970 ∷ []) 1000
      2000 (1500 ∷ []) refl (tt, (tt, (tt, tt))) refl (omega arith, tt) (omega arith)

half_open_outcomes_example :
    ((can_execute 40000 tripped).0 ≡ none)
    × ((States.step tripped (States.ask 40000)).state ≡ half_open)
    × ((States.run tripped (States.ask 40000 ∷ States.succeeded ∷ States.succeeded ∷ [])).state
        ≡ half_open)
    × ((States.run tripped
          (States.ask 40000 ∷ States.succeeded ∷ States.succeeded ∷ States.succeeded ∷ [])).state
        ≡ closed)
    × ((States.run tripped (
          States.ask 40000
          ∷ States.succeeded
          ∷ States.succeeded
          ∷ States.succeeded
          ∷ [])).failure_count
        ≡ 0)
    × ((States.run tripped (States.ask 40000 ∷ States.failed 40001 ∷ [])).state ≡ open_circuit)
half_open_outcomes_example = States.half_open_outcomes 40000 40001 tripped refl (omega arith)

tests-parse_flags_example :
    let f : Flags = b'0' ∷ b'1' ∷ [] in
    (is_frozen f ≡ (parse_flags f).is_frozen)
    × (can_debit f ≡ (not (parse_flags f).no_debit && not (parse_flags f).is_frozen))
    × (can_credit f ≡ (not (parse_flags f).no_credit && not (parse_flags f).is_frozen))
tests-parse_flags_example = tests-parse_flags (b'0' ∷ b'1' ∷ [])

set_flag-parse_flags_example :
    let f : Flags = b'0' ∷ b'1' ∷ b'1' ∷ [] in
    (parse_flags (set_flag f 4 b'1') ≡ record (parse_flags f) { is_frozen = true })
    × (parse_flags (set_flag f 4 b'0') ≡ record (parse_flags f) { is_frozen = false })
set_flag-parse_flags_example = set_flag-parse_flags (b'0' ∷ b'1' ∷ b'1' ∷ [])
