-- ===== src/Rooms/Types.antt =====
-- types.ts and db-rooms.ts: the rows of the tables of the rooms.
use sman_server.Base.{ℕ, String, ◌≡◌, ◌↔◌, Bool, true, false, Option, List, [], Eq, arith}

pub data Visibility : Type 0 where
  public_room private_room : Visibility

pub data RoomRole : Type 0 where
  owner member : RoomRole

pub data AgentStatus : Type 0 where
  online offline busy : AgentStatus

abbrev agent_status_beq : AgentStatus → AgentStatus → Bool
agent_status_beq online online = true
agent_status_beq offline offline = true
agent_status_beq busy busy = true
agent_status_beq a b = false

pub agent_status_beq_iff : (a b : AgentStatus) → (agent_status_beq a b ≡ true) ↔ (a ≡ b)
agent_status_beq_iff a b = ground arith

instance abbrev pub agent_status_eq : Eq AgentStatus
agent_status_eq = record { test = agent_status_beq; test_iff = agent_status_beq_iff }

pub record RoomRecord : Type 0 where
  pub id : String
  pub name : String
  pub description : Option String
  pub owner_id : String
  pub visibility : Visibility
  pub active : ℕ
  pub max_agents : ℕ
  pub created_at : ℕ
  pub password : Option String

pub record RoomMemberRecord : Type 0 where
  pub room_id : String
  pub client_id : String
  pub display_name : String
  pub role : RoomRole
  pub joined_at : ℕ

-- `capabilities` is the text that `JSON.stringify` gives.
pub record AgentRecord : Type 0 where
  pub id : String
  pub room_id : String
  pub client_id : String
  pub workspace : String
  pub capabilities : String
  pub status : AgentStatus
  pub max_concurrent : ℕ
  pub last_heartbeat : ℕ
  pub registered_at : ℕ
  pub workspace_name : Option String

pub record RoomDb : Type 0 where
  pub rooms : List RoomRecord
  pub room_members : List RoomMemberRecord
  pub agents : List AgentRecord
  -- How many random ids have been drawn.
  pub draws : ℕ

abbrev pub empty_rooms : RoomDb
empty_rooms = record { rooms = []; room_members = []; agents = []; draws = 0 }

-- The clock, the n-th draw of `crypto.randomUUID`, JavaScript's `trim`, and SQLite's LIKE.
pub record Env : Type 0 where
  pub now : ℕ
  pub random_uuid : ℕ → String
  pub trim : String → String
  pub like : String → String → Bool
