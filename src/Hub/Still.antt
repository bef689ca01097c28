-- ===== src/Hub/Still.antt =====
-- What the helpers that send leave alone: the connections, the rooms and the tasks.
use sman_server.Base.{
  ℕ, String, ◌≡◌, refl, ◌∙◌, true, false, Bool-cases, Option, none, some, List, [], ◌∷◌, ◌==◌,
  option_eq, string_eq, find_where, ◌&&◌, inl, inr, if◌then◌else◌,
}
use sman_server.Base.Maps.{value_of}
use sman_server.Rooms.Types.{AgentRecord}
use sman_server.Rooms.Agents.{get_agent}
use sman_server.Tasks.Types.{TaskDb}
use sman_server.Hub.Types.{Socket, AuthedClient, Message}
use sman_server.Hub.State.{
  Env, Hub, send, send_error, send_each, to_room, broadcast_to_room, send_if_known, send_members,
  to_members, to_first, to_client_of, broadcast_to_im_room, send_to_agent, add_im_room_member,
}

-- The part of the hub that its invariant and its tasks stand on.
pub record Part : Type 0 where
  pub clients : List AuthedClient
  pub client_id_to_ws : List (String × Socket)
  pub rooms : List (String × List Socket)
  pub im_active_count : ℕ
  pub connections : ℕ
  pub listening : List Socket
  pub tasks : TaskDb

abbrev pub part : Hub → Part
part h = record {
  clients = h.clients;
  client_id_to_ws = h.client_id_to_ws;
  rooms = h.rooms;
  im_active_count = h.im_active_count;
  connections = h.connections;
  listening = h.listening;
  tasks = h.tasks;
}

abbrev pub IsStill : (Hub → Hub) → Type 0
IsStill f = (h : Hub) → part (f h) ≡ part h

module _ (env : Env) where
  pub send-IsStill : (ws : Socket) (msg : Message) → IsStill (send env ws msg)
  unfolding send
  send-IsStill ws msg h = elim (Bool-cases (env.is_open ws)) [
    | inl y ↦ rw y refl
    | inr n ↦ rw n refl
  ]

  pub send_error-IsStill : (ws : Socket) (reason : String) → IsStill (send_error env ws reason)
  unfolding send_error
  send_error-IsStill ws reason h = send-IsStill ws _ h

  send_each-IsStill : (set : List Socket) (msg : Message) → IsStill (send_each env set msg)
  unfolding send_each
  send_each-IsStill [] msg h = refl
  send_each-IsStill (ws ∷ set) msg h =
      send_each-IsStill set msg (send env ws msg h) ∙ send-IsStill ws msg h

  to_room-IsStill : (o : Option (List Socket)) (msg : Message) → IsStill (to_room env o msg)
  to_room-IsStill none msg h = refl
  to_room-IsStill (some set) msg h = send_each-IsStill set msg h

  pub broadcast_to_room-IsStill :
      (room_id : String) (msg : Message) → IsStill (broadcast_to_room env room_id msg)
  unfolding broadcast_to_room
  broadcast_to_room-IsStill room_id msg h = to_room-IsStill (value_of room_id h.rooms) msg h

  pub send_if_known-IsStill :
      (o : Option Socket) (msg : Message) → IsStill (send_if_known env o msg)
  send_if_known-IsStill none msg h = refl
  send_if_known-IsStill (some ws) msg h = send-IsStill ws msg h

  send_members-IsStill :
      (members : List String) (exclude : Option String) (msg : Message)
      → IsStill (send_members env members exclude msg)
  unfolding send_members
  send_members-IsStill [] exclude msg h = refl
  send_members-IsStill (c ∷ rest) exclude msg h =
      let told = send_if_known env (value_of c h.client_id_to_ws) msg h in
      elim (some c == exclude)
        as (λ b. part (send_members env rest exclude msg (if b then h else told)) ≡ part h) [
          | true ↦ send_members-IsStill rest exclude msg h
          | false ↦
              send_members-IsStill rest exclude msg told
              ∙ send_if_known-IsStill (value_of c h.client_id_to_ws) msg h
        ]

  to_members-IsStill :
      (o : Option (List String)) (exclude : Option String) (msg : Message)
      → IsStill (to_members env o exclude msg)
  to_members-IsStill none exclude msg h = refl
  to_members-IsStill (some members) exclude msg h = send_members-IsStill members exclude msg h

  pub broadcast_to_im_room-IsStill :
      (room_id : String) (msg : Message) (exclude : Option String)
      → IsStill (broadcast_to_im_room env room_id msg exclude)
  unfolding broadcast_to_im_room
  broadcast_to_im_room-IsStill room_id msg exclude h =
      to_members-IsStill (value_of room_id h.im_room_members) exclude msg h

  to_first-IsStill : (o : Option AuthedClient) (msg : Message) → IsStill (to_first env o msg)
  to_first-IsStill none msg h = refl
  to_first-IsStill (some c) msg h = refl

  to_client_of-IsStill : (o : Option AgentRecord) (msg : Message) → IsStill (to_client_of env o msg)
  to_client_of-IsStill none msg h = refl
  to_client_of-IsStill (some a) msg h =
      to_first-IsStill
        (find_where (λ (c : AuthedClient). c.client_id == a.client_id && env.is_open c.ws)
          h.clients)
        msg h

  pub send_to_agent-IsStill :
      (agent_id : String) (msg : Message) → IsStill (send_to_agent env agent_id msg)
  unfolding send_to_agent
  send_to_agent-IsStill agent_id msg h = to_client_of-IsStill (get_agent agent_id h.room_db) msg h

pub add_im_room_member-IsStill :
    (room_id client_id : String) → IsStill (add_im_room_member room_id client_id)
unfolding add_im_room_member
add_im_room_member-IsStill room_id client_id h = refl
