-- ===== src/Rooms/Agents.antt =====
-- db-rooms.ts: the methods on `agents`.
use sman_server.Base.{
  ℕ, ◌-◌, String, Bool, not, Option, List, [], ◌∷◌, ◌++◌, ◌&&◌, ◌==◌, string_eq, or_default,
  find_where, exists_where, select_where, update_where, sort_desc, sort_asc, if◌then◌else◌, ltb,
  leb,
}
use sman_server.Rooms.Types.{
  AgentStatus, online, offline, agent_status_eq, AgentRecord, RoomDb, Env,
}

abbrev pub agent_with_id : String → AgentRecord → Bool
agent_with_id id a = a.id == id

unfoldable pub get_agent : String → RoomDb → Option AgentRecord
get_agent agent_id s = find_where (agent_with_id agent_id) s.agents

pub record RegisterParams : Type 0 where
  pub agent_id : String
  pub room_id : String
  pub client_id : String
  pub workspace : String
  pub capabilities : String
  pub max_concurrent : Option ℕ
  pub workspace_name : Option String

abbrev pub excluded : Env → RegisterParams → AgentRecord
excluded env p = record {
  id = p.agent_id;
  room_id = p.room_id;
  client_id = p.client_id;
  workspace = p.workspace;
  capabilities = p.capabilities;
  status = online;
  max_concurrent = or_default p.max_concurrent 2;
  last_heartbeat = env.now;
  registered_at = env.now;
  workspace_name = p.workspace_name;
}

-- ON CONFLICT(id) DO UPDATE: `registered_at` is left as it was.
unfoldable pub register_agent : Env → RegisterParams → RoomDb → Option AgentRecord × RoomDb
register_agent env p s =
    let s' = record s {
      agents =
          if exists_where (agent_with_id p.agent_id) s.agents
          then update_where (agent_with_id p.agent_id)
              (λ a. record (excluded env p) { id = a.id; registered_at = a.registered_at }) s.agents
          else s.agents ++ excluded env p ∷ [];
    } in
    (get_agent p.agent_id s', s')

unfoldable pub update_agent_status : String → AgentStatus → RoomDb → RoomDb
update_agent_status agent_id status s = record s {
  agents = update_where (agent_with_id agent_id) (λ a. record a { status = status }) s.agents;
}

unfoldable pub deregister_agent : String → RoomDb → RoomDb
deregister_agent agent_id = update_agent_status agent_id offline

unfoldable pub update_heartbeat : Env → String → RoomDb → RoomDb
update_heartbeat env agent_id s = record s {
  agents =
      update_where (agent_with_id agent_id) (λ a. record a { last_heartbeat = env.now }) s.agents;
}

unfoldable pub get_room_agents : String → RoomDb → List AgentRecord
get_room_agents room_id s =
    sort_asc (λ (a : AgentRecord). a.registered_at)
      (select_where (λ (a : AgentRecord). a.room_id == room_id) s.agents)

unfoldable pub get_client_agents : String → RoomDb → List AgentRecord
get_client_agents client_id s =
    sort_asc (λ (a : AgentRecord). a.registered_at)
      (select_where (λ (a : AgentRecord). a.client_id == client_id) s.agents)

unfoldable pub is_stale : Env → ℕ → AgentRecord → Bool
is_stale env older_than_ms a =
    not (a.status == offline) && ltb a.last_heartbeat (env.now - older_than_ms)

unfoldable pub get_stale_agents : Env → ℕ → RoomDb → List AgentRecord
get_stale_agents env older_than_ms s = select_where (is_stale env older_than_ms) s.agents

unfoldable pub get_online_agents : RoomDb → List AgentRecord
get_online_agents s =
    sort_desc (λ (a : AgentRecord). a.last_heartbeat)
      (select_where (λ (a : AgentRecord). a.status == online) s.agents)

unfoldable pub get_recent_agents : ℕ → RoomDb → List AgentRecord
get_recent_agents cutoff s =
    sort_desc (λ (a : AgentRecord). a.last_heartbeat)
      (select_where (λ (a : AgentRecord). leb cutoff a.last_heartbeat) s.agents)

unfoldable pub mark_agents_offline : List String → RoomDb → RoomDb
mark_agents_offline agent_ids s = record s {
  agents =
      update_where (λ (a : AgentRecord). exists_where (λ (i : String). i == a.id) agent_ids)
        (λ a. record a { status = offline }) s.agents;
}
