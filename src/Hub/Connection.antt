-- ===== src/Hub/Connection.antt =====
-- ws-server.ts: the connections, the routing of messages, and the timers.
use Prim.Native.String.{◌++◌ as str_append}
use sman_server.Base.{
  ℕ, ◌+◌, ◌-◌, ◌*◌, String, not, Option, none, some, List, [], ◌∷◌, ◌++◌, map, ◌==◌, string_eq,
  nat_eq, if◌then◌else◌, leb, ltb, select_where, delete_where, exists_where, update_where,
}
use sman_server.Base.Maps.{set_entry, delete_entry, value_of}
use sman_server.Base.Sets.{has, remove_member}
use sman_server.Base.Texts.{is_empty}
use sman_server.Rooms.Types.{AgentRecord}
use sman_server.Rooms.Agents.{deregister_agent, get_client_agents}
use sman_server.Im.Store.{delete_old_messages}
use sman_server.Certs.Verify.{X509, Peer, extract_peer_cert}
use sman_server.Hub.Types.{Socket, psk, mtls, AuthedClient, ClientMessage, agent_offline, auth_ok}
use sman_server.Hub.State.{
  Env, Hub, Outcome, returned, M, modify, client_of, send, send_error, broadcast_to_room,
  leave_socket,
}
use sman_server.Hub.AutoDispatch.{auto_dispatch_fires}
use sman_server.Hub.TaskMessages.{handle}
use sman_server.Hub.RoomMessages.{
  with_rooms, check_stale_agents, handle_room_create, handle_room_join, handle_room_leave,
  handle_room_dissolve, handle_room_list, handle_room_info, handle_agent_register,
  handle_agent_deregister, handle_agent_heartbeat, handle_agent_list,
}
use sman_server.Hub.Presence.{
  send_pending_im_invitations, schedule_presence_broadcast, presence_fires,
}
use sman_server.Hub.Search.{handle_clients_search}
use sman_server.Hub.ImMessages.{
  handle_im_send, handle_im_sync, handle_im_sync_batch, handle_im_transparent,
  handle_im_room_dissolved, handle_im_presence, handle_im_room_updated,
}

-- `clients.set(ws, client)`.
abbrev pub set_client : AuthedClient → List AuthedClient → List AuthedClient
set_client c clients =
    if exists_where (λ (d : AuthedClient). d.ws == c.ws) clients
    then update_where (λ (d : AuthedClient). d.ws == c.ws) (λ _. c) clients
    else clients ++ c ∷ []

abbrev pub close_socket : Socket → ℕ → Hub → Hub
close_socket ws reason h = record h { closed = h.closed ++ (ws, reason) ∷ [] }

-- The text of a message from a socket: no JSON, an auth.psk with its timestamp and what `decrypt`
-- makes of its payload, where it does not throw, or one of the others.
pub data Incoming : Type 0 where
  invalid_json : Incoming
  auth_psk : ℕ → Option String → Incoming
  message : ClientMessage → Incoming

-- The steps of handleDisconnect on the maps.
unfoldable pub leave_sockets :
    Socket → List String → List (String × List Socket) → List (String × List Socket)
unfolding leave_socket
leave_sockets ws [] rooms = rooms
leave_sockets ws (room_id ∷ rest) rooms = leave_sockets ws rest (leave_socket room_id ws rooms)

abbrev pub rooms_with : String → List (String × List String) → List String
rooms_with client_id m =
    map (λ (e : String × List String). e.0)
      (select_where (λ (e : String × List String). has client_id e.1) m)

abbrev pub without_member : String → List (String × List String) → List (String × List String)
without_member client_id m =
    map (λ (e : String × List String). (e.0, remove_member client_id e.1)) m

abbrev pub forget : AuthedClient → Hub → Hub
forget c h = record h {
  clients = delete_where (λ (d : AuthedClient). d.ws == c.ws) h.clients;
  client_id_to_ws = delete_entry c.client_id h.client_id_to_ws;
  im_room_members = without_member c.client_id h.im_room_members;
}

abbrev pub leave_all : AuthedClient → Hub → Hub
leave_all c h = record h { rooms = leave_sockets c.ws c.subscribed_rooms h.rooms }

module _ (env : Env) where
  -- Both maps, the answer, and the invitations.
  unfoldable pub admit_client : AuthedClient → Hub → Hub
  admit_client client h = send_pending_im_invitations env client (
      send env client.ws (auth_ok client.client_id client.auth_method) (record h {
        clients = set_client client h.clients;
        client_id_to_ws = set_entry client.client_id client.ws h.client_id_to_ws;
      }))

  abbrev pub psk_client : Socket → String → AuthedClient
  psk_client ws client_id = record {
    ws = ws;
    client_id = client_id;
    cert_serial = none;
    auth_method = psk;
    subscribed_rooms = [];
  }

  abbrev pub mtls_client : Socket → Peer → AuthedClient
  mtls_client ws peer = record {
    ws = ws;
    client_id = peer.identity;
    cert_serial = some peer.serial;
    auth_method = mtls;
    subscribed_rooms = [];
  }

  abbrev pub decrypted_auth : Socket → Option String → Hub → Hub
  decrypted_auth ws none h = close_socket ws 4005 h
  decrypted_auth ws (some client_id) h =
      if is_empty client_id
      then close_socket ws 4004 h
      else admit_client (psk_client ws client_id) h

  -- The timestamp, in seconds, is at most five minutes from the clock.
  unfoldable pub handle_auth : Socket → ℕ → Option String → Hub → Hub
  handle_auth ws timestamp payload h =
      if ltb (5 * 60 * 1000) ((env.now - timestamp * 1000) + (timestamp * 1000 - env.now))
      then close_socket ws 4003 h
      else decrypted_auth ws payload h

  -- A client with a certificate is authenticated at once; the handlers of the socket's messages and
  -- of its end are set only for the others.
  abbrev pub connected : Socket → Option Peer → Hub → Hub
  connected ws (some peer) h = admit_client (mtls_client ws peer) h
  connected ws none h = record h { listening = ws ∷ h.listening; auth_timers = ws ∷ h.auth_timers }

  unfoldable pub handle_connection : Option X509 → Hub → Hub
  unfolding admit_client
  handle_connection raw h =
      connected h.connections (extract_peer_cert h.cert_db raw)
        (record h { connections = h.connections + 1 })

  unfoldable pub auth_timeout : Socket → Hub → Hub
  auth_timeout ws h =
      if not (has ws h.auth_timers)
      then h
      else (let h' = record h { auth_timers = remove_member ws h.auth_timers } in
          elim (client_of ws h') [ none ↦ close_socket ws 4001 h' | some c ↦ h' ])

  -- ---- handleDisconnect ----

  unfoldable pub end_agents : List AgentRecord → Hub → Hub
  end_agents [] h = h
  end_agents (a ∷ rest) h = end_agents rest (
      broadcast_to_room env a.room_id (agent_offline a.id a.room_id)
        (with_rooms (deregister_agent a.id h.room_db) h))

  unfoldable pub schedule_each : List String → Hub → Hub
  schedule_each [] h = h
  schedule_each (room_id ∷ rest) h = schedule_each rest (schedule_presence_broadcast env room_id h)

  unfoldable pub disconnect_client : AuthedClient → Hub → Hub
  unfolding end_agents leave_sockets schedule_each
  disconnect_client c h =
      schedule_each (rooms_with c.client_id h.im_room_members)
        (forget c (end_agents (get_client_agents c.client_id h.room_db) (leave_all c h)))

  abbrev pub disconnect_found : Option AuthedClient → Hub → Hub
  disconnect_found none h = h
  disconnect_found (some c) h = disconnect_client c h

  unfoldable pub handle_disconnect : Socket → Hub → Hub
  unfolding disconnect_client
  handle_disconnect ws h = disconnect_found (client_of ws h) h

  -- ---- route ----

  -- At most MAX_IM_CONCURRENCY calls at once; `finally` gives the place back.
  abbrev pub release : Outcome (Unit {0}) × Hub → Outcome (Unit {0}) × Hub
  release (o, h) = (o, record h { im_active_count = h.im_active_count - 1 })

  unfoldable pub with_im_slot : AuthedClient → M (Unit {0}) → M (Unit {0})
  with_im_slot client m h =
      if leb 20 h.im_active_count
      then (returned tt, send_error env client.ws "Server busy, try again" h)
      else release (m (record h { im_active_count = h.im_active_count + 1 }))

  unfoldable pub dispatch_message : AuthedClient → ClientMessage → M (Unit {0})
  unfolding with_im_slot
  dispatch_message c (ClientMessage.task m) = handle env c m
  dispatch_message c (ClientMessage.room_create name description max_agents visibility) =
      handle_room_create env c name description max_agents visibility
  dispatch_message c (ClientMessage.room_join room_id display_name) =
      modify (handle_room_join env c room_id display_name)
  dispatch_message c (ClientMessage.room_leave room_id) = modify (handle_room_leave env c room_id)
  dispatch_message c ClientMessage.room_list = modify (handle_room_list env c)
  dispatch_message c (ClientMessage.room_dissolve room_id) =
      modify (handle_room_dissolve env c room_id)
  dispatch_message c (ClientMessage.room_info room_id) = modify (handle_room_info env c room_id)
  dispatch_message c (ClientMessage.agent_register p) = modify (handle_agent_register env c p)
  dispatch_message c (ClientMessage.agent_deregister id) = modify (handle_agent_deregister env c id)
  dispatch_message c (ClientMessage.agent_heartbeat id status) =
      modify (handle_agent_heartbeat env c id status)
  dispatch_message c (ClientMessage.agent_list room_id) = modify (handle_agent_list env c room_id)
  dispatch_message c (ClientMessage.im_send p) = with_im_slot c (handle_im_send env c p)
  dispatch_message c (ClientMessage.im_sync room_id after) =
      with_im_slot c (modify (handle_im_sync env c room_id after))
  dispatch_message c (ClientMessage.im_sync_batch items) =
      with_im_slot c (modify (handle_im_sync_batch env c items))
  dispatch_message c (ClientMessage.im_transparent p) = modify (handle_im_transparent env c p)
  dispatch_message c (ClientMessage.im_room_dissolved p) = modify (handle_im_room_dissolved env c p)
  dispatch_message c (ClientMessage.im_presence room_id) = modify (handle_im_presence env c room_id)
  dispatch_message c (ClientMessage.im_room_updated name members p) =
      with_im_slot c (modify (handle_im_room_updated env c name members p))
  dispatch_message c (ClientMessage.im_clients_search query seq) =
      modify (handle_clients_search env c query seq)
  dispatch_message c (ClientMessage.unknown type) =
      modify (send_error env c.ws (str_append "Unknown message type: " type))

  abbrev pub routed : Socket → Incoming → AuthedClient → M (Unit {0})
  routed ws invalid_json c = modify (send_error env ws "Invalid JSON")
  routed ws (auth_psk timestamp payload) c =
      modify (send_error env ws "Unknown message type: auth.psk")
  routed ws (message m) c = dispatch_message c m

  abbrev pub unauthenticated : Socket → Incoming → M (Unit {0})
  unauthenticated ws invalid_json = modify (send_error env ws "Invalid JSON")
  unauthenticated ws (auth_psk timestamp payload) = modify (λ h.
      handle_auth ws timestamp payload (record h { auth_timers = remove_member ws h.auth_timers }))
  unauthenticated ws (message m) = modify (close_socket ws 4002)

  abbrev pub on_message : Socket → Incoming → Option AuthedClient → M (Unit {0})
  on_message ws m none = unauthenticated ws m
  on_message ws m (some c) = routed ws m c

  -- ---- What happens to the hub: connections, messages and timers ----

  abbrev pub fire_auto : String → Option String → M (Unit {0})
  fire_auto task_id none h = (returned tt, h)
  fire_auto task_id (some room_id) h = auto_dispatch_fires env task_id room_id h

pub data Event : Type 0 where
  connects : Option X509 → Event
  times_out : Socket → Event
  receives : Socket → Incoming → Event
  closes : Socket → Event
  stale_check im_cleanup : Event
  presence_timer : String → Event
  auto_timer : String → Event

unfoldable pub step : Env → Event → M (Unit {0})
step env (connects raw) h = (returned tt, handle_connection env raw h)
step env (times_out ws) h = (returned tt, auth_timeout env ws h)
step env (receives ws m) h =
    if has ws h.listening then on_message env ws m (client_of ws h) h else (returned tt, h)
step env (closes ws) h = (returned tt, if has ws h.listening then handle_disconnect env ws h else h)
step env stale_check h = (returned tt, check_stale_agents env h)
step env im_cleanup h = (returned tt, record h { im_db = (delete_old_messages env.now h.im_db).1 })
step env (presence_timer room_id) h =
    (returned tt, if has room_id h.pending_presence then presence_fires env room_id h else h)
step env (auto_timer task_id) h = fire_auto env task_id (value_of task_id h.auto_dispatch) h

abbrev pub run_hub : List (Env × Event) → Hub → Hub
run_hub [] h = h
run_hub ((env, e) ∷ rest) h = run_hub rest (step env e h).1
