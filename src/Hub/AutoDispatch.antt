-- ===== src/Hub/AutoDispatch.antt =====
-- ws-task-handler.ts: the automatic dispatch of a task with its timers, and the answers to a client.
use sman_server.Base.{
  ℕ, String, Bool, true, false, none, some, List, [], ◌∷◌, string_eq, nat_eq, if◌then◌else◌, length,
}
use sman_server.Base.Maps.{set_entry, delete_entry, has_key}
use sman_server.Rooms.Agents.{get_room_agents}
use sman_server.Tasks.Types as Tasks
use sman_server.Tasks.Types.{
  TaskStatus, evaluating, task_status_eq, TaskRecord, EvaluationReportRecord, ReportStatus,
  TaskAssignmentRecord, AssignmentStatus, TaskDb, TaskFault,
}
use sman_server.Tasks.Dispatch.{try_auto_confirm_and_dispatch, Dispatched}
use sman_server.Hub.Types.{
  AuthedClient, Message, task_error, task_news, task_dispatched, dispatched_to,
}
use sman_server.Hub.State.{
  Env, Hub, M, ◌>>=◌, ◌>>◌, modify, in_tasks, tasks_env, send, broadcast_to_room, send_to_agent,
}

-- A call of the engine, and what is sent for its result.
abbrev pub answer : {A : Type 0} → Tasks.M A → (A → Hub → Hub) → M (Unit {0})
answer m f = in_tasks m >>= λ a. modify (f a)

module _ (env : Env) where
  -- ---- The automatic dispatch, and its fallback thirty seconds after task.create ----

  unfoldable pub schedule_auto_dispatch_fallback : String → String → Hub → Hub
  schedule_auto_dispatch_fallback task_id room_id h =
      if has_key task_id h.auto_dispatch
      then h
      else record h { auto_dispatch = set_entry task_id room_id h.auto_dispatch }

  unfoldable pub clear_auto_dispatch_timer : String → Hub → Hub
  clear_auto_dispatch_timer task_id h = record h {
    auto_dispatch = delete_entry task_id h.auto_dispatch;
  }

  unfoldable pub tell_assigned : TaskRecord → List TaskAssignmentRecord → Hub → Hub
  tell_assigned task [] h = h
  tell_assigned task (a ∷ rest) h =
      tell_assigned task rest (send_to_agent env a.agent_id (dispatched_to task a) h)

  abbrev pub tell_dispatched : String → Dispatched → Hub → Hub
  tell_dispatched room_id none h = h
  tell_dispatched room_id (some (task, assignments)) h = tell_assigned task assignments (
      broadcast_to_room env room_id (task_dispatched task assignments)
        (broadcast_to_room env room_id (task_news "task.confirmed" task) h))

  -- `roomDB.getRoomAgents(roomId).length`, which the engine reads.
  abbrev pub room_agents : Hub → String → ℕ
  room_agents h room_id = length (get_room_agents room_id h.room_db)

  abbrev pub auto_dispatch_now : String → String → Bool → M (Unit {0})
  auto_dispatch_now task_id room_id force h =
      answer (try_auto_confirm_and_dispatch (tasks_env env) task_id (room_agents h) force)
        (tell_dispatched room_id) h

  -- The timer of the task fires.
  unfoldable pub auto_dispatch_fires : String → String → M (Unit {0})
  auto_dispatch_fires task_id room_id =
      modify (clear_auto_dispatch_timer task_id) >> auto_dispatch_now task_id room_id true

  unfoldable pub broadcast_auto_dispatch : String → String → M (Unit {0})
  broadcast_auto_dispatch task_id room_id =
      modify (clear_auto_dispatch_timer task_id) >> auto_dispatch_now task_id room_id false

  module _ (client : AuthedClient) where
    abbrev pub reply : Message → Hub → Hub
    reply msg = send env client.ws msg

    abbrev pub refuse : String → M (Unit {0})
    refuse reason = modify (reply (task_error reason))
