-- ===== src/Hub/Types.antt =====
-- ws-server.ts and ws-task-handler.ts: the messages. A message from a client is its `type` with the
-- fields that its handler reads, of the type to which the handler casts them; a text that the
-- handler tests for truth or looks up is empty where the message has none. A socket is a number.
use sman_server.Base.{ℕ, String, Bool, Option, List}
use sman_server.Rooms.Types.{RoomRecord, RoomMemberRecord, AgentRecord, Visibility}
use sman_server.Tasks.Types.{
  TaskRecord, TaskStatus, Subtask, TaskEventRecord, EvaluationReportRecord, TaskAssignmentRecord,
}
use sman_server.Tasks.Assignments.{CreateAssignmentParams}
use sman_server.Im.Store.{ImMessageRow}
use sman_server.Im.Cipher.{Fields}

abbrev pub Socket : Type 0
Socket = ℕ

pub data AuthMethod : Type 0 where
  psk mtls : AuthMethod

pub record AuthedClient : Type 0 where
  pub ws : Socket
  pub client_id : String
  pub cert_serial : Option String
  pub auth_method : AuthMethod
  pub subscribed_rooms : List String

-- The fields that task.create passes to the engine.
pub record NewTask : Type 0 where
  pub room_id : String
  pub title : String
  pub description : Option String
  pub priority : Option ℕ
  pub context : Option String
  pub acceptance_criteria : Option String
  pub subtasks : Option (List Subtask)
  pub auto_execute : Option Bool
  pub git_branch : Option String

pub record NewReport : Type 0 where
  pub task_id : String
  pub agent_id : String
  pub workspace : String
  pub claimed_subtasks : List String
  pub approach : String
  pub complexity : String
  pub dependencies : List String
  pub raw_response : String

-- The messages task.* and evaluation.*, and the arguments of each.
pub data TaskMessage : Type 0 where
  create : NewTask → TaskMessage
  claim : (task_id agent_id : String) → Option ℕ → TaskMessage
  start : (task_id agent_id : String) → TaskMessage
  progress complete fail : (task_id agent_id text : String) → TaskMessage
  cancel stop confirm detail list_reports approve : (id : String) → TaskMessage
  stop_ack : (task_id agent_id : String) → TaskMessage
  list : (room_id : String) → Option TaskStatus → TaskMessage
  reject reject_report : (id : String) → Option String → TaskMessage
  dispatch : (task_id : String) → List CreateAssignmentParams → TaskMessage
  submit_report : NewReport → TaskMessage

-- im.send, with the encrypted fields in `fields`.
pub record ImSend : Type 0 where
  pub room_id : String
  pub fields : Fields
  pub id : String
  pub timestamp : ℕ
  pub seq : ℕ
  pub sender : String
  pub msg_type : String
  pub status : String
  pub session_id : String
  pub mentioned_agents : Option String
  pub quote_id : String

-- A message that is passed on as it came; `rest` stands for its other fields.
pub record Forward : Type 0 where
  pub room_id : String
  pub type : String
  pub fields : Fields
  pub rest : String

pub record RegisterAgent : Type 0 where
  pub room_id : String
  pub workspace : String
  pub capabilities : String
  pub max_concurrent : Option ℕ
  pub workspace_name : Option String

pub data ClientMessage : Type 0 where
  task : TaskMessage → ClientMessage
  room_create : String → Option String → Option ℕ → Option Visibility → ClientMessage
  room_join : (room_id display_name : String) → ClientMessage
  room_leave room_dissolve room_info agent_list : (room_id : String) → ClientMessage
  room_list : ClientMessage
  agent_register : RegisterAgent → ClientMessage
  agent_deregister : (agent_id : String) → ClientMessage
  agent_heartbeat : (agent_id status : String) → ClientMessage
  im_send : ImSend → ClientMessage
  im_sync : (room_id : String) → ℕ → ClientMessage
  im_sync_batch : List (String × ℕ) → ClientMessage
  im_transparent im_room_dissolved : Forward → ClientMessage
  im_presence : (room_id : String) → ClientMessage
  im_room_updated : (name : String) → Option (List String) → Forward → ClientMessage
  im_clients_search : (query : String) → ℕ → ClientMessage
  unknown : (type : String) → ClientMessage

-- The full message that im.send spreads.
pub record ImMessage : Type 0 where
  pub id : String
  pub room_id : String
  pub sender : String
  pub fields : Fields
  pub msg_type : String
  pub timestamp : ℕ
  pub seq : ℕ
  pub mentioned_agents : Option String
  pub quote_id : Option String
  pub status : Option String
  pub session_id : Option String

pub record TaskDetail : Type 0 where
  pub task : TaskRecord
  pub events : List TaskEventRecord
  pub evaluations : List EvaluationReportRecord
  pub assignments : List TaskAssignmentRecord

-- The messages that the server sends. `task_news` and `report_news` carry the type of the message.
pub data Message : Type 0 where
  auth_ok : (client_id : String) → AuthMethod → Message
  error_message task_error : (reason : String) → Message
  room_created : Option RoomRecord → Message
  room_joined member_joined : (room_id : String) → RoomMemberRecord → Message
  room_left room_dissolved : (room_id : String) → Message
  member_left : (room_id client_id : String) → Message
  room_list_update : List RoomRecord → Message
  room_info_update : RoomRecord → List RoomMemberRecord → List AgentRecord → Message
  agent_registered : Option AgentRecord → Message
  agent_online : (agent_id room_id capabilities : String) → Message
  agent_offline : (agent_id room_id : String) → Message
  agent_deregistered : (agent_id : String) → Message
  agent_list_update : (room_id : String) → List AgentRecord → Message
  im_message : ImMessage → Message
  im_presence : (room_id : String) → List String → Message
  im_room_invited : (room_id : String) → List String → (name : String) → Message
  im_sync : (room_id : String) → List ImMessageRow → Message
  im_sync_batch : List (String × List ImMessageRow) → Message
  im_forwarded : Forward → Message
  im_room_updated : (name : String) → List String → Forward → Message
  im_clients_search : List String → ℕ → Message
  task_created : Option TaskRecord → Message
  task_news : (type : String) → TaskRecord → Message
  claim_failed : (task_id : String) → Message
  task_progress : (task_id agent_id progress : String) → Message
  task_dispatched : TaskRecord → List TaskAssignmentRecord → Message
  dispatched_to : TaskRecord → TaskAssignmentRecord → Message
  stopping_to : (task_id agent_id : String) → Message
  task_list_update : (room_id : String) → List TaskRecord → Message
  task_detail_update : TaskDetail → Message
  report_reply : (type : String) → Option EvaluationReportRecord → Message
  report_news : (type : String) → (task_id : String) → Option EvaluationReportRecord → Message
  report_list_update : (task_id : String) → List EvaluationReportRecord → Message
