-- ===== src/Hub/RoomMessages.antt =====
-- ws-server.ts: the handlers of the messages room.* and agent.*, and checkStaleAgents.
use Prim.Native.String.{◌++◌ as str_append}
use sman_server.Base.{
  ℕ, String, Bool, true, false, not, ◌||◌, Option, none, some, List, [], ◌∷◌, map, ◌==◌, string_eq,
  if◌then◌else◌, or_default,
}
use sman_server.Base.Maps.{delete_entry}
use sman_server.Base.Texts.{is_empty, or_text, before_at}
use sman_server.Rooms.Types.{
  Visibility, private_room, RoomRecord, RoomMemberRecord, AgentRecord, AgentStatus, online, busy,
  RoomDb,
}
use sman_server.Rooms.Store.{
  create_room, join_room, leave_room, get_room, deactivate_room, list_rooms_visible_to,
  get_room_members, is_member, Created, created,
}
use sman_server.Rooms.Agents.{
  register_agent, get_agent, deregister_agent, update_heartbeat, update_agent_status,
  get_room_agents, get_stale_agents, mark_agents_offline,
}
use sman_server.Tasks.Types.{TaskStatus, dispatched, stopping, TaskRecord, TaskDb}
use sman_server.Tasks.Store.{list_room_tasks}
use sman_server.Hub.Types.{
  AuthedClient, RegisterAgent, room_created, room_joined, member_joined, room_left, member_left,
  room_dissolved, room_list_update, room_info_update, agent_registered, agent_online, agent_offline,
  agent_deregistered, agent_list_update,
}
use sman_server.Hub.State.{
  Env, Hub, key_exists, type_error, returned, thrown, M, rooms_env, send, send_error,
  broadcast_to_room, subscribe, unsubscribe,
}

abbrev pub with_rooms : RoomDb → Hub → Hub
with_rooms s h = record h { room_db = s }

abbrev active_statuses : List TaskStatus
active_statuses = dispatched ∷ TaskStatus.running ∷ stopping ∷ []

abbrev is_nil : List TaskRecord → Bool
is_nil [] = true
is_nil (t ∷ ts) = false

-- Whether the room has a task in one of the statuses.
unfoldable pub has_tasks : List TaskStatus → String → TaskDb → Bool
has_tasks [] room_id s = false
has_tasks (status ∷ rest) room_id s =
    not (is_nil (list_room_tasks room_id (some status) s)) || has_tasks rest room_id s

unfoldable pub has_active_tasks : String → TaskDb → Bool
unfolding has_tasks
has_active_tasks = has_tasks active_statuses

module _ (env : Env) where
  unfoldable pub tell_offline : List AgentRecord → Hub → Hub
  tell_offline [] h = h
  tell_offline (a ∷ rest) h =
      tell_offline rest (broadcast_to_room env a.room_id (agent_offline a.id a.room_id) h)

  -- STALE_THRESHOLD_MS is 90 seconds.
  abbrev pub stale_found : List AgentRecord → Hub → Hub
  stale_found [] h = h
  stale_found (a ∷ rest) h =
      tell_offline (a ∷ rest)
        (with_rooms (mark_agents_offline (map (λ (b : AgentRecord). b.id) (a ∷ rest)) h.room_db) h)

  unfoldable pub check_stale_agents : Hub → Hub
  unfolding tell_offline
  check_stale_agents h = stale_found (get_stale_agents (rooms_env env) 90_000 h.room_db) h

  module _ (client : AuthedClient) where
    -- ---- Rooms ----

    abbrev pub tell_room_created : Created × RoomDb → M (Unit {0})
    tell_room_created (Created.key_exists, s) h = (thrown key_exists, with_rooms s h)
    tell_room_created (created none, s) h =
        -- `room.id` of a room that is not there throws; the SELECT finds what the INSERT wrote.
        (thrown type_error, with_rooms s h)
    tell_room_created (created (some room), s) h = (
      returned tt,
      send env client.ws (room_created (some room)) (subscribe client room.id (with_rooms s h)),
    )

    unfoldable pub handle_room_create :
        String → Option String → Option ℕ → Option Visibility → M (Unit {0})
    handle_room_create name description max_agents visibility h =
        if is_empty name
        then (returned tt, send_error env client.ws "Room name is required" h)
        else tell_room_created
            (create_room (rooms_env env)
              (record {
                name = name;
                description = description;
                owner_id = client.client_id;
                max_agents = max_agents;
                visibility = some (or_default visibility private_room);
                password = none;
              })
              h.room_db)
            h

    abbrev pub tell_joined : String → Option RoomMemberRecord × RoomDb → Hub → Hub
    tell_joined room_id (none, s) h =
        send_error env client.ws "Cannot join room (not found, full, or already joined)"
          (with_rooms s h)
    tell_joined room_id (some member, s) h =
        broadcast_to_room env room_id (member_joined room_id member) (
          send env client.ws (room_joined room_id member)
            (subscribe client room_id (with_rooms s h)))

    unfoldable pub handle_room_join : String → String → Hub → Hub
    handle_room_join room_id display_name h =
        if is_empty room_id
        then send_error env client.ws "Room ID is required" h
        else tell_joined room_id
            (join_room (rooms_env env) room_id client.client_id
              (or_text display_name client.client_id) none h.room_db)
            h

    abbrev pub tell_left : String → Bool × RoomDb → Hub → Hub
    tell_left room_id (false, s) h = with_rooms s h
    tell_left room_id (true, s) h =
        broadcast_to_room env room_id (member_left room_id client.client_id)
          (send env client.ws (room_left room_id) (unsubscribe client room_id (with_rooms s h)))

    unfoldable pub handle_room_leave : String → Hub → Hub
    handle_room_leave room_id h =
        if is_empty room_id
        then h
        else tell_left room_id (leave_room room_id client.client_id h.room_db) h

    unfoldable pub dissolve : String → Hub → Hub
    dissolve room_id h =
        let h' =
          broadcast_to_room env room_id (room_dissolved room_id)
            (with_rooms (deactivate_room room_id h.room_db) h) in
        record h' { rooms = delete_entry room_id h'.rooms }

    abbrev pub dissolve_found : String → Option RoomRecord → Hub → Hub
    dissolve_found room_id none h = send_error env client.ws "Room not found" h
    dissolve_found room_id (some room) h =
        if not (room.owner_id == client.client_id)
        then send_error env client.ws "Only owner can dissolve room" h
        else if has_active_tasks room_id h.tasks
        then send_error env client.ws "Cannot dissolve: room has active tasks. Stop them first." h
        else dissolve room_id h

    unfoldable pub handle_room_dissolve : String → Hub → Hub
    unfolding dissolve
    handle_room_dissolve room_id h =
        if is_empty room_id then h else dissolve_found room_id (get_room room_id h.room_db) h

    unfoldable pub handle_room_list : Hub → Hub
    handle_room_list h =
        send env client.ws
          (room_list_update
            (list_rooms_visible_to (rooms_env env) client.client_id none none none h.room_db))
          h

    abbrev pub tell_info : String → Option RoomRecord → Hub → Hub
    tell_info room_id none h = send_error env client.ws "Room not found" h
    tell_info room_id (some room) h =
        send env client.ws
          (room_info_update room (get_room_members room_id h.room_db)
            (get_room_agents room_id h.room_db))
          h

    unfoldable pub handle_room_info : String → Hub → Hub
    handle_room_info room_id h = tell_info room_id (get_room room_id h.room_db) h

    -- ---- Agents ----

    unfoldable pub build_agent_id : String → String → String
    build_agent_id client_id workspace =
        str_append (or_text (before_at client_id) client_id)
          (str_append ":" (env.agent_hash client_id workspace))

    -- `agent.id` of the row that the SELECT finds is the id that was written.
    abbrev pub tell_registered : RegisterAgent → String → Option AgentRecord × RoomDb → Hub → Hub
    tell_registered p agent_id (agent, s) h =
        broadcast_to_room env p.room_id (agent_online agent_id p.room_id p.capabilities)
          (send env client.ws (agent_registered agent) (with_rooms s h))

    unfoldable pub handle_agent_register : RegisterAgent → Hub → Hub
    unfolding build_agent_id
    handle_agent_register p h =
        if is_empty p.room_id || is_empty p.workspace
        then send_error env client.ws "roomId and workspace are required" h
        else if not (is_member p.room_id client.client_id h.room_db)
        then send_error env client.ws "Must join room before registering agent" h
        else (let agent_id = build_agent_id client.client_id p.workspace in
            tell_registered p agent_id
              (register_agent (rooms_env env)
                (record {
                  agent_id = agent_id;
                  room_id = p.room_id;
                  client_id = client.client_id;
                  workspace = p.workspace;
                  capabilities = p.capabilities;
                  max_concurrent = p.max_concurrent;
                  workspace_name = p.workspace_name;
                })
                h.room_db)
              h)

    abbrev pub deregister_found : String → Option AgentRecord → Hub → Hub
    deregister_found agent_id none h = h
    deregister_found agent_id (some agent) h =
        if not (agent.client_id == client.client_id)
        then h
        else broadcast_to_room env agent.room_id (agent_offline agent_id agent.room_id) (
            send env client.ws (agent_deregistered agent_id)
              (with_rooms (deregister_agent agent_id h.room_db) h))

    unfoldable pub handle_agent_deregister : String → Hub → Hub
    handle_agent_deregister agent_id h = deregister_found agent_id (get_agent agent_id h.room_db) h

    -- The status of a heartbeat: `idle` is kept as `online`, and any other text is left out.
    abbrev pub heartbeat_status : String → Option AgentStatus
    heartbeat_status status =
        if status == "idle" || status == "online"
        then some online
        else if status == "busy"
        then some busy
        else none

    abbrev with_status : String → Option AgentStatus → RoomDb → RoomDb
    with_status agent_id none s = s
    with_status agent_id (some status) s = update_agent_status agent_id status s

    abbrev pub heartbeat_found : String → String → Option AgentRecord → Hub → Hub
    heartbeat_found agent_id status none h = h
    heartbeat_found agent_id status (some agent) h =
        if not (agent.client_id == client.client_id)
        then h
        else with_rooms
            (with_status agent_id (heartbeat_status status)
              (update_heartbeat (rooms_env env) agent_id h.room_db))
            h

    unfoldable pub handle_agent_heartbeat : String → String → Hub → Hub
    handle_agent_heartbeat agent_id status h =
        heartbeat_found agent_id status (get_agent agent_id h.room_db) h

    unfoldable pub handle_agent_list : String → Hub → Hub
    handle_agent_list room_id h =
        if is_empty room_id
        then send_error env client.ws "roomId is required" h
        else send env client.ws (agent_list_update room_id (get_room_agents room_id h.room_db)) h
