-- ===== src/Accounts/Store/Controls.antt =====
-- The methods on `control_configs` and `control_records`.
use sman_server.Base.{
  take, ℕ, suc, ◌+◌, String, Bool, true, false, ◌&&◌, ◌||◌, Option, none, some, List, [], ◌∷◌, ◌++◌,
  ◌==◌, string_eq, nat_eq, option_eq, or_default, is_some, exists_where, select_where, update_where,
  sort_desc, length, if◌then◌else◌,
}
use sman_server.Accounts.Types.{
  ControlConfig, ControlScope, ControlType, ControlAction, ActionType, action_eq, Switch, switch_eq,
}
use sman_server.Accounts.Faults.{Result, ok, err, unique_failed}
use sman_server.Accounts.Store.Tables.{AccountDb, ControlRecord, LogDetail, Env}
use sman_server.Accounts.Store.Monad.{M, modify}
use sman_server.Accounts.Store.Rows.{gen_id}

-- `scope = 'global' OR (scope = 'account_type' AND scope_value = ?) OR (scope = 'account' AND
-- scope_value = ?)`, where both parameters are the one value; a comparison with NULL is not true.
unfoldable pub scope_matches : ControlScope → Option String → Option String → Bool
scope_matches ControlScope.global value asked = true
scope_matches scope (some v) (some w) = v == w
scope_matches scope value asked = false

-- `action_type = 'all' OR action_type = ?`.
unfoldable pub action_matches : ActionType → ActionType → Bool
action_matches action asked = action == ActionType.all || action == asked

-- With a scene asked for: `scene IS NULL OR scene = ?`; else `scene IS NULL`. The empty scene is
-- falsy, and counts as none.
unfoldable pub scene_matches : Option String → Option String → Bool
scene_matches none asked = true
scene_matches (some scene) none = false
scene_matches (some scene) (some asked) = if asked == "" then false else scene == asked

unfoldable pub config_matches : Option String → ActionType → Option String → ControlConfig → Bool
config_matches scope_value action scene c =
    c.status == Switch.active
    && scope_matches c.scope c.scope_value scope_value
    && action_matches c.action_type action
    && scene_matches c.scene scene

-- getMatchingConfigs, whose `scope` argument the statement does not use.
unfoldable pub get_matching_configs :
    Option String → ActionType → Option String → AccountDb → List ControlConfig
get_matching_configs scope_value action scene s =
    sort_desc (λ (c : ControlConfig). c.priority)
      (select_where (config_matches scope_value action scene) s.control_configs)

-- The parameters of createControlConfig.
pub record ConfigParams : Type 0 where
  pub name : String
  pub description : Option String
  pub scope : ControlScope
  pub scope_value : Option String
  pub action_type : ActionType
  pub scene : Option String
  pub is_whitelist : Option Bool
  pub priority : Option ℕ

abbrev pub scope_beq : ControlScope → ControlScope → Bool
scope_beq ControlScope.global ControlScope.global = true
scope_beq ControlScope.account_type ControlScope.account_type = true
scope_beq ControlScope.account ControlScope.account = true
scope_beq a b = false

-- UNIQUE(scope, scope_value, action_type, scene): NULLs are distinct from one another.
abbrev pub config_conflicts : ControlConfig → ControlConfig → Bool
config_conflicts c d =
    c.id == d.id
    || (scope_beq c.scope d.scope
        && is_some c.scope_value
        && c.scope_value == d.scope_value
        && c.action_type == d.action_type
        && is_some c.scene
        && c.scene == d.scene)

unfoldable pub insert_config : ControlConfig → AccountDb → Result (ControlConfig × AccountDb)
insert_config c s =
    if exists_where (config_conflicts c) s.control_configs
    then err (unique_failed "control_configs")
    else ok (c, record s { control_configs = s.control_configs ++ c ∷ []; draws = s.draws + 1 })

unfoldable pub create_control_config : Env → ConfigParams → M ControlConfig
create_control_config env p s =
    insert_config
      (record {
        id = gen_id env "cfg" s;
        name = p.name;
        description = p.description;
        scope = p.scope;
        scope_value = p.scope_value;
        action_type = p.action_type;
        scene = p.scene;
        is_whitelist = if or_default p.is_whitelist true then 1 else 0;
        priority = or_default p.priority 0;
        status = Switch.active;
        created_at = env.now;
        updated_at = env.now;
      })
      s

-- ORDER BY priority DESC, created_at DESC.
unfoldable pub get_all_configs : ℕ → AccountDb → List ControlConfig
get_all_configs limit s = take limit (
    sort_desc (λ (c : ControlConfig). c.priority)
      (sort_desc (λ (c : ControlConfig). c.created_at) s.control_configs))

unfoldable pub update_control_config_status : Env → String → Switch → M (Unit {0})
update_control_config_status env id status = modify λ s. record s {
  control_configs =
      update_where (λ (c : ControlConfig). c.id == id)
        (λ c. record c { status = status; updated_at = env.now }) s.control_configs;
}

-- The parameters of createControlRecord.
pub record RecordParams : Type 0 where
  pub account_id : String
  pub config_id : Option String
  pub control_type : ControlType
  pub action : ControlAction
  pub trigger_event : Option String
  pub detail : Option LogDetail
  pub operator_id : Option String

unfoldable pub create_control_record : Env → RecordParams → AccountDb → AccountDb
create_control_record env p s = record s {
  control_records =
      s.control_records
      ++ record {
        id = suc (length s.control_records);
        account_id = p.account_id;
        config_id = p.config_id;
        control_type = p.control_type;
        action = p.action;
        trigger_event = p.trigger_event;
        detail = p.detail;
        operator_id = p.operator_id;
        released_at = none;
        release_reason = none;
        created_at = env.now;
      }
        ∷ [];
}

unfoldable pub get_active_controls : String → AccountDb → List ControlRecord
get_active_controls account_id s =
    sort_desc (λ (r : ControlRecord). r.created_at)
      (select_where (λ (r : ControlRecord). r.account_id == account_id && r.released_at == none)
        s.control_records)

unfoldable pub release_control : Env → ℕ → String → AccountDb → AccountDb
release_control env record_id reason s = record s {
  control_records =
      update_where (λ (r : ControlRecord). r.id == record_id)
        (λ r. record r { released_at = some env.now; release_reason = some reason })
        s.control_records;
}
