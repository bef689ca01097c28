-- ===== src/Accounts/Store/Limits.antt =====
-- The methods on `limits`.
use sman_server.Base.{
  take, ℕ, ◌+◌, String, Bool, ◌&&◌, Option, List, [], ◌∷◌, ◌++◌, ◌==◌, string_eq, or_default,
  exists_where, select_where, update_where, sort_desc, if◌then◌else◌,
}
use sman_server.Base.Int.{ℤ}
use sman_server.Accounts.Types.{
  Limit, LimitDimension, LimitMetric, ThresholdType, ControlScope, ActionType, Switch, switch_eq,
}
use sman_server.Accounts.Faults.{Result, ok, err, unique_failed}
use sman_server.Accounts.Store.Tables.{AccountDb, Env}
use sman_server.Accounts.Store.Monad.{M, modify}
use sman_server.Accounts.Store.Rows.{gen_id}
use sman_server.Accounts.Store.Controls.{scope_matches, action_matches, scene_matches}

unfoldable pub limit_applies : Option String → ActionType → Option String → Limit → Bool
limit_applies scope_value action scene l =
    l.status == Switch.active
    && scope_matches l.scope l.scope_value scope_value
    && action_matches l.action_type action
    && scene_matches l.scene scene

-- getApplicableLimits, whose `scope` argument the statement does not use.
unfoldable pub get_applicable_limits :
    Option String → ActionType → Option String → AccountDb → List Limit
get_applicable_limits scope_value action scene s =
    sort_desc (λ (l : Limit). l.priority)
      (select_where (limit_applies scope_value action scene) s.limits)

-- The parameters of createLimit.
pub record LimitParams : Type 0 where
  pub name : String
  pub dimension : LimitDimension
  pub metric : LimitMetric
  pub interval_value : Option ℕ
  pub threshold : ℤ
  pub threshold_type : Option ThresholdType
  pub scope : Option ControlScope
  pub scope_value : Option String
  pub action_type : Option ActionType
  pub scene : Option String
  pub reject_code : Option String
  pub priority : Option ℕ

unfoldable pub insert_limit : Limit → AccountDb → Result (Limit × AccountDb)
insert_limit l s =
    if exists_where (λ (k : Limit). k.id == l.id) s.limits
    then err (unique_failed "limits")
    else ok (l, record s { limits = s.limits ++ l ∷ []; draws = s.draws + 1 })

unfoldable pub create_limit : Env → LimitParams → M Limit
create_limit env p s =
    insert_limit
      (record {
        id = gen_id env "lmt" s;
        name = p.name;
        dimension = p.dimension;
        metric = p.metric;
        interval_value = or_default p.interval_value 1;
        threshold = p.threshold;
        threshold_type = or_default p.threshold_type ThresholdType.count;
        scope = or_default p.scope ControlScope.global;
        scope_value = p.scope_value;
        action_type = or_default p.action_type ActionType.all;
        scene = p.scene;
        reject_code = or_default p.reject_code "A001";
        priority = or_default p.priority 0;
        status = Switch.active;
        created_at = env.now;
        updated_at = env.now;
      })
      s

-- ORDER BY priority DESC, created_at DESC.
unfoldable pub get_all_limits : ℕ → AccountDb → List Limit
get_all_limits limit s =
    take limit
      (sort_desc (λ (l : Limit). l.priority) (sort_desc (λ (l : Limit). l.created_at) s.limits))

unfoldable pub update_limit_status : Env → String → Switch → M (Unit {0})
update_limit_status env id status = modify λ s. record s {
  limits =
      update_where (λ (l : Limit). l.id == id)
        (λ l. record l { status = status; updated_at = env.now }) s.limits;
}
