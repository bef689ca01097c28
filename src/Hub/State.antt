-- ===== src/Hub/State.antt =====
-- ws-server.ts: the fields of WsHub with the databases that it uses, what it has sent, and the
-- helpers that send. A call may throw; what it did before stays.
use sman_server.Base.{
  ℕ, String, Bool, ◌&&◌, Option, none, some, List, [], ◌∷◌, ◌++◌, ◌==◌, string_eq, nat_eq,
  option_eq, find_where, update_where, if◌then◌else◌,
}
use sman_server.Base.Maps.{set_entry, delete_entry, value_of}
use sman_server.Base.Sets.{add_member, remove_member}
use sman_server.Rooms.Types.{RoomDb, AgentRecord, Env as RoomEnv}
use sman_server.Rooms.Agents.{get_agent}
use sman_server.Tasks.Types.{TaskDb, TaskFault, Env as TaskEnv}
use sman_server.Tasks.Types as Tasks
use sman_server.Im.Store.{ImDb}
use sman_server.Im.Cipher.{Cipher}
use sman_server.Certs.Store.{CertDb}
use sman_server.Hub.Types.{Socket, AuthedClient, Message, error_message}

-- The clock, the sockets that are OPEN, and the functions of JavaScript, SQLite and node:crypto.
pub record Env : Type 0 where
  pub now : ℕ
  pub is_open : Socket → Bool
  pub random_uuid : ℕ → String
  pub trim : String → String
  pub like : String → String → Bool
  -- JSON.stringify of a list of texts, and JSON.stringify of JSON.parse, which may throw.
  pub json : List String → String
  pub reparse : String → Option String
  pub cipher : Cipher
  -- The first digits of the SHA-256 of `clientId:workspace`.
  pub agent_hash : String → String → String
  -- The text of an error, and `a.toLowerCase().includes(query)`.
  pub message_of : TaskFault → String
  pub to_lower_case : String → String
  pub includes : String → String → Bool

abbrev pub rooms_env : Env → RoomEnv
rooms_env env = record {
  now = env.now;
  random_uuid = env.random_uuid;
  trim = env.trim;
  like = env.like;
}

abbrev pub tasks_env : Env → TaskEnv
tasks_env env = record { now = env.now; random_uuid = env.random_uuid }

pub record Hub : Type 0 where
  -- `clients` in the order of insertion, each client with its socket as the key.
  pub clients : List AuthedClient
  pub client_id_to_ws : List (String × Socket)
  pub rooms : List (String × List Socket)
  pub im_room_members : List (String × List String)
  -- The keys of pendingPresenceBroadcasts and, with its room, of autoDispatchTimers.
  pub pending_presence : List String
  pub auto_dispatch : List (String × String)
  pub im_active_count : ℕ
  pub room_db : RoomDb
  pub tasks : TaskDb
  pub im_db : ImDb
  pub cert_db : Option CertDb
  -- The clients of HubDB with their host names, the sockets with handlers of their messages, and
  -- what was sent, the oldest first.
  pub hub_clients : List (String × String)
  pub listening : List Socket
  pub sent : List (Socket × Message)
  -- The sockets that ws.close has been called on, with the code.
  pub closed : List (Socket × ℕ)
  -- How many random ids im.send has drawn, and how many connections there have been: each has a
  -- socket of its own.
  pub im_draws : ℕ
  pub connections : ℕ
  -- The sockets that have a timer for their authentication.
  pub auth_timers : List Socket

-- The constructor, over the databases as they are.
abbrev pub new_hub : RoomDb → TaskDb → ImDb → Option CertDb → List (String × String) → Hub
new_hub room_db tasks im_db cert_db hub_clients = record {
  clients = [];
  client_id_to_ws = [];
  rooms = [];
  im_room_members = [];
  pending_presence = [];
  auto_dispatch = [];
  im_active_count = 0;
  room_db = room_db;
  tasks = tasks;
  im_db = im_db;
  cert_db = cert_db;
  hub_clients = hub_clients;
  listening = [];
  sent = [];
  closed = [];
  im_draws = 0;
  connections = 0;
  auth_timers = [];
}

pub data Fault : Type 0 where
  of_tasks : TaskFault → Fault
  key_exists bad_json type_error : Fault

pub data Outcome (A : Type 0) : Type 0 where
  returned : A → Outcome A
  thrown : Fault → Outcome A

abbrev pub M : Type 0 → Type 0
M A = Hub → Outcome A × Hub

module _ {A B : Type 0} where
  abbrev pub continue : (A → M B) → Outcome A × Hub → Outcome B × Hub
  continue k (returned a, h) = k a h
  continue k (thrown f, h) = (thrown f, h)

  infixl 5 ◌>>=◌
  abbrev pub ◌>>=◌ : M A → (A → M B) → M B
  ◌>>=◌ m k h = continue k (m h)

infixl 5 ◌>>◌
abbrev pub ◌>>◌ : {B : Type 0} → M (Unit {0}) → M B → M B
m >> k = m >>= λ _. k

abbrev pub modify : (Hub → Hub) → M (Unit {0})
modify f h = (returned tt, f h)

abbrev pub gets : {A : Type 0} → (Hub → A) → M A
gets f h = (returned (f h), h)

-- A call of the task engine, or of the database of the rooms.
abbrev pub lifted : {A : Type 0} → Tasks.Outcome A → Outcome A
lifted (Tasks.returned a) = returned a
lifted (Tasks.thrown f) = thrown (of_tasks f)

abbrev pub in_tasks : {A : Type 0} → Tasks.M A → M A
in_tasks m h = (lifted (m h.tasks).0, record h { tasks = (m h.tasks).1 })

abbrev pub client_of : Socket → Hub → Option AuthedClient
client_of ws h = find_where (λ (c : AuthedClient). c.ws == ws) h.clients

-- ---- send, sendError, broadcastToRoom, broadcastToImRoom, sendToAgent ----

module _ (env : Env) where
  abbrev pub deliver : Socket → Message → Hub → Hub
  deliver ws msg h = record h { sent = h.sent ++ (ws, msg) ∷ [] }

  unfoldable pub send : Socket → Message → Hub → Hub
  send ws msg h = if env.is_open ws then deliver ws msg h else h

  unfoldable pub send_error : Socket → String → Hub → Hub
  unfolding send
  send_error ws reason = send ws (error_message reason)

  unfoldable pub send_each : List Socket → Message → Hub → Hub
  unfolding send
  send_each [] msg h = h
  send_each (ws ∷ rest) msg h = send_each rest msg (send ws msg h)

  abbrev pub to_room : Option (List Socket) → Message → Hub → Hub
  to_room none msg h = h
  to_room (some set) msg h = send_each set msg h

  unfoldable pub broadcast_to_room : String → Message → Hub → Hub
  unfolding send_each
  broadcast_to_room room_id msg h = to_room (value_of room_id h.rooms) msg h

  -- `clientIdToWs.get(clientId)`, where it is OPEN.
  abbrev pub send_if_known : Option Socket → Message → Hub → Hub
  send_if_known none msg h = h
  send_if_known (some ws) msg h = send ws msg h

  unfoldable pub send_members : List String → Option String → Message → Hub → Hub
  unfolding send
  send_members [] exclude msg h = h
  send_members (c ∷ rest) exclude msg h =
      send_members rest exclude msg
        (if some c == exclude then h else send_if_known (value_of c h.client_id_to_ws) msg h)

  abbrev pub to_members : Option (List String) → Option String → Message → Hub → Hub
  to_members none exclude msg h = h
  to_members (some members) exclude msg h = send_members members exclude msg h

  unfoldable pub broadcast_to_im_room : String → Message → Option String → Hub → Hub
  unfolding send_members
  broadcast_to_im_room im_room_id msg exclude h =
      to_members (value_of im_room_id h.im_room_members) exclude msg h

  -- The first socket of the agent's client that is OPEN.
  abbrev pub to_first : Option AuthedClient → Message → Hub → Hub
  to_first none msg h = h
  to_first (some c) msg h = deliver c.ws msg h

  abbrev pub to_client_of : Option AgentRecord → Message → Hub → Hub
  to_client_of none msg h = h
  to_client_of (some a) msg h =
      to_first
        (find_where (λ (c : AuthedClient). c.client_id == a.client_id && env.is_open c.ws)
          h.clients)
        msg h

  unfoldable pub send_to_agent : String → Message → Hub → Hub
  send_to_agent agent_id msg h = to_client_of (get_agent agent_id h.room_db) msg h

-- ---- subscribe, unsubscribe, addImRoomMember ----

abbrev pub change_client : Socket → (List String → List String) → Hub → Hub
change_client ws f h = record h {
  clients =
      update_where (λ (c : AuthedClient). c.ws == ws)
        (λ c. record c { subscribed_rooms = f c.subscribed_rooms }) h.clients;
}

abbrev pub set_of : Option (List Socket) → List Socket
set_of none = []
set_of (some set) = set

abbrev pub sockets_of : String → List (String × List Socket) → List Socket
sockets_of room_id rooms = set_of (value_of room_id rooms)

unfoldable pub subscribe : AuthedClient → String → Hub → Hub
subscribe client room_id h =
    let h' = change_client client.ws (add_member room_id) h in
    record h' {
      rooms = set_entry room_id (add_member client.ws (sockets_of room_id h.rooms)) h.rooms;
    }

-- `roomSet.delete(ws)`, and the room too once the set is empty.
abbrev pub keep_set :
    String → List Socket → List (String × List Socket) → List (String × List Socket)
keep_set room_id [] rooms = delete_entry room_id rooms
keep_set room_id (ws ∷ set) rooms = set_entry room_id (ws ∷ set) rooms

abbrev pub leave_set :
    String
    → Socket
    → Option (List Socket)
    → List (String × List Socket)
    → List (String × List Socket)
leave_set room_id ws none rooms = rooms
leave_set room_id ws (some set) rooms = keep_set room_id (remove_member ws set) rooms

unfoldable pub leave_socket :
    String → Socket → List (String × List Socket) → List (String × List Socket)
leave_socket room_id ws rooms = leave_set room_id ws (value_of room_id rooms) rooms

unfoldable pub unsubscribe : AuthedClient → String → Hub → Hub
unfolding leave_socket
unsubscribe client room_id h =
    let h' = change_client client.ws (remove_member room_id) h in
    record h' { rooms = leave_socket room_id client.ws h.rooms }

abbrev pub members_of : String → Hub → List String
members_of im_room_id h = elim (value_of im_room_id h.im_room_members) [
  | none ↦ []
  | some members ↦ members
]

unfoldable pub add_im_room_member : String → String → Hub → Hub
add_im_room_member im_room_id client_id h = record h {
  im_room_members =
      set_entry im_room_id (add_member client_id (members_of im_room_id h)) h.im_room_members;
}
