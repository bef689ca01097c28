-- ===== src/Hub/TaskMessages.antt =====
-- ws-task-handler.ts: the handlers of the messages task.*, and handle, which routes both kinds. Each
-- calls the task engine, answers the client, and tells the sockets of the room and the agents
-- concerned.
use sman_server.Base.{
  ℕ, String, ◌||◌, Option, none, some, List, [], ◌∷◌, ◌==◌, string_eq, nat_eq, find_where,
  if◌then◌else◌,
}
use sman_server.Base.Texts.{is_empty, or_text}
use sman_server.Tasks.Types as Tasks
use sman_server.Tasks.Types.{
  TaskStatus, evaluating, task_status_eq, TaskRecord, EvaluationReportRecord, ReportStatus,
  TaskAssignmentRecord, AssignmentStatus, TaskDb, TaskFault,
}
use sman_server.Tasks.Machine.{get_task}
use sman_server.Tasks.Store.{
  create_task, list_evaluation_reports, list_room_tasks, get_task_events, CreateTaskParams,
}
use sman_server.Tasks.Assignments.{
  claim_task, CreateAssignmentParams, get_assignments, update_assignment_status,
}
use sman_server.Tasks.Engine.{
  cancel_task, stop_task, reject_task, confirm_task, start_task, report_progress, complete_task,
  fail_task, dispatch_task,
}
use sman_server.Tasks.Dispatch.{Dispatched}
use sman_server.Hub.Types.{
  AuthedClient, NewTask, TaskMessage, create, claim, start, progress, complete, fail, cancel, stop,
  confirm, detail, list_reports, approve, stop_ack, list, reject, reject_report, dispatch,
  submit_report, TaskDetail, Message, task_error, task_created, task_news, claim_failed,
  task_progress, task_dispatched, stopping_to, task_list_update, task_detail_update,
}
use sman_server.Hub.State.{
  Env, Hub, M, ◌>>◌, modify, in_tasks, tasks_env, broadcast_to_room, send_to_agent,
}
use sman_server.Hub.AutoDispatch.{
  answer, schedule_auto_dispatch_fallback, tell_assigned, reply, refuse,
}
use sman_server.Hub.ReportMessages.{
  handle_evaluation_submit, handle_evaluation_list, handle_evaluation_approve,
  handle_evaluation_reject,
}

module _ (env : Env) where
  module _ (client : AuthedClient) where
    -- ---- handleCreate: what the engine throws is caught ----

    abbrev pub create_params : NewTask → CreateTaskParams
    create_params p = record {
      room_id = p.room_id;
      title = p.title;
      description = p.description;
      created_by = client.client_id;
      priority = p.priority;
      context = p.context;
      acceptance_criteria = p.acceptance_criteria;
      subtasks = p.subtasks;
      auto_execute = p.auto_execute;
      git_branch = p.git_branch;
    }

    abbrev pub tell_created : String → Option TaskRecord → Hub → Hub
    tell_created room_id task h =
        broadcast_to_room env room_id (task_created task) (reply env client (task_created task) h)

    -- The read of a field of a task that is not there throws.
    abbrev pub created_task : String → Option TaskRecord → Hub → Hub
    created_task room_id none h =
        reply env client (task_error "Cannot read properties of undefined (reading 'auto_execute')")
          (tell_created room_id none h)
    created_task room_id (some task) h =
        let h' = tell_created room_id (some task) h in
        if task.auto_execute == 1
        then schedule_auto_dispatch_fallback env task.id room_id h'
        else h'

    abbrev pub catch_created : String → Tasks.Outcome (Option TaskRecord) × TaskDb → Hub → Hub
    catch_created room_id (Tasks.returned task, s) h =
        created_task room_id task (record h { tasks = s })
    catch_created room_id (Tasks.thrown f, s) h =
        reply env client (task_error (env.message_of f)) (record h { tasks = s })

    unfoldable pub handle_create : NewTask → M (Unit {0})
    handle_create p h =
        if is_empty p.room_id || is_empty p.title
        then refuse env client "roomId and title are required" h
        else modify
            (catch_created p.room_id (create_task (tasks_env env) (create_params p) h.tasks)) h

    -- ---- The other messages on tasks ----

    -- An answer to the client and one to the room, or a refusal.
    abbrev pub tell : Message → String → String → Option TaskRecord → Hub → Hub
    tell refusal answered news none h = reply env client refusal h
    tell refusal answered news (some task) h =
        broadcast_to_room env task.room_id (task_news news task)
          (reply env client (task_news answered task) h)

    -- `maxConcurrent || 2`.
    abbrev pub concurrency : Option ℕ → ℕ
    concurrency none = 2
    concurrency (some n) = if n == 0 then 2 else n

    unfoldable pub handle_claim : String → String → Option ℕ → M (Unit {0})
    handle_claim task_id agent_id max_concurrent =
        if is_empty task_id || is_empty agent_id
        then refuse env client "taskId and agentId are required"
        else answer (claim_task (tasks_env env) task_id agent_id (concurrency max_concurrent))
            (tell (claim_failed task_id) "task.claimed" "task.dispatched")

    unfoldable pub handle_start : String → String → M (Unit {0})
    handle_start task_id agent_id =
        answer (start_task (tasks_env env) task_id agent_id)
          (tell (task_error "Cannot start task") "task.started" "task.running")

    abbrev pub tell_progress : String → String → String → Option TaskRecord → Hub → Hub
    tell_progress task_id agent_id text none h = h
    tell_progress task_id agent_id text (some task) h =
        broadcast_to_room env task.room_id (task_progress task_id agent_id text) h

    unfoldable pub handle_progress : String → String → String → M (Unit {0})
    handle_progress task_id agent_id text =
        in_tasks (report_progress (tasks_env env) task_id agent_id text)
        >> modify (λ h. tell_progress task_id agent_id text (get_task task_id h.tasks) h)

    unfoldable pub handle_complete : String → String → String → M (Unit {0})
    handle_complete task_id agent_id result =
        answer (complete_task (tasks_env env) task_id agent_id result)
          (tell (task_error "Cannot complete task") "task.completed" "task.completed")

    abbrev pub tell_failed : Option TaskRecord → Hub → Hub
    tell_failed none h = reply env client (task_error "Cannot fail task") h
    tell_failed (some task) h =
        broadcast_to_room env task.room_id
          (task_news (if task.status == evaluating then "task.retried" else "task.failed") task)
          (reply env client (task_news "task.failed" task) h)

    unfoldable pub handle_fail : String → String → String → M (Unit {0})
    handle_fail task_id agent_id error =
        answer (fail_task (tasks_env env) task_id agent_id (or_text error "Unknown error"))
          tell_failed

    unfoldable pub handle_cancel : String → M (Unit {0})
    handle_cancel task_id =
        answer (cancel_task (tasks_env env) task_id client.client_id)
          (tell (task_error "Cannot cancel task") "task.cancelled" "task.cancelled")

    unfoldable pub tell_stopping : String → List TaskAssignmentRecord → Hub → Hub
    tell_stopping task_id [] h = h
    tell_stopping task_id (a ∷ rest) h =
        tell_stopping task_id rest (send_to_agent env a.agent_id (stopping_to task_id a.agent_id) h)

    abbrev pub tell_stopped : String → Option TaskRecord → Hub → Hub
    tell_stopped task_id none h =
        reply env client (task_error "Cannot stop task (must be dispatched or running)") h
    tell_stopped task_id (some task) h = tell_stopping task_id (get_assignments task_id h.tasks) (
        broadcast_to_room env task.room_id (task_news "task.stopping" task)
          (reply env client (task_news "task.stopping" task) h))

    unfoldable pub handle_stop : String → M (Unit {0})
    handle_stop task_id =
        answer (stop_task (tasks_env env) task_id client.client_id) (tell_stopped task_id)

    -- `find(…)?.id || ''`.
    abbrev pub assignment_of : String → String → TaskDb → String
    assignment_of task_id agent_id s =
        elim (find_where (λ (a : TaskAssignmentRecord). a.agent_id == agent_id)
          (get_assignments task_id s)) [ none ↦ "" | some a ↦ a.id ]

    unfoldable pub handle_stop_ack : String → String → M (Unit {0})
    handle_stop_ack task_id agent_id = modify λ h. record h {
      tasks =
          update_assignment_status (assignment_of task_id agent_id h.tasks) AssignmentStatus.failed
            h.tasks;
    }

    unfoldable pub handle_list : String → Option TaskStatus → M (Unit {0})
    handle_list room_id status =
        if is_empty room_id
        then refuse env client "roomId is required"
        else modify (λ h.
          reply env client (task_list_update room_id (list_room_tasks room_id status h.tasks)) h)

    -- getTaskDetail.
    unfoldable pub get_task_detail : String → TaskDb → Option TaskDetail
    get_task_detail task_id s = elim (get_task task_id s) [
      | none ↦ none
      | some task ↦ some (record {
        task = task;
        events = get_task_events task_id s;
        evaluations = list_evaluation_reports task_id s;
        assignments = get_assignments task_id s;
      })
    ]

    abbrev pub tell_detail : Option TaskDetail → Hub → Hub
    tell_detail none h = reply env client (task_error "Task not found") h
    tell_detail (some d) h = reply env client (task_detail_update d) h

    unfoldable pub handle_detail : String → M (Unit {0})
    handle_detail task_id = modify λ h. tell_detail (get_task_detail task_id h.tasks) h

    unfoldable pub handle_confirm : String → M (Unit {0})
    handle_confirm task_id =
        if is_empty task_id
        then refuse env client "taskId is required"
        else answer (confirm_task (tasks_env env) task_id client.client_id) (
            tell (task_error "Cannot confirm task (wrong status or not found)") "task.confirmed"
              "task.confirmed")

    unfoldable pub handle_reject : String → Option String → M (Unit {0})
    handle_reject task_id reason =
        if is_empty task_id
        then refuse env client "taskId is required"
        else answer (reject_task (tasks_env env) task_id client.client_id reason)
            (tell (task_error "Cannot reject task") "task.rejected" "task.rejected")

    abbrev pub tell_manual : Dispatched → Hub → Hub
    tell_manual none h =
        reply env client (task_error "Cannot dispatch task (must be confirmed first)") h
    tell_manual (some (task, assignments)) h = tell_assigned env task assignments (
        broadcast_to_room env task.room_id (task_dispatched task assignments)
          (reply env client (task_dispatched task assignments) h))

    unfoldable pub handle_dispatch : String → List CreateAssignmentParams → M (Unit {0})
    handle_dispatch task_id [] = refuse env client "taskId and assignments[] are required"
    handle_dispatch task_id (a ∷ rest) =
        if is_empty task_id
        then refuse env client "taskId and assignments[] are required"
        else answer (dispatch_task (tasks_env env) task_id (a ∷ rest) client.client_id) tell_manual

    unfoldable pub handle : TaskMessage → M (Unit {0})
    handle (create p) = handle_create p
    handle (claim task_id agent_id n) = handle_claim task_id agent_id n
    handle (start task_id agent_id) = handle_start task_id agent_id
    handle (progress task_id agent_id text) = handle_progress task_id agent_id text
    handle (complete task_id agent_id text) = handle_complete task_id agent_id text
    handle (fail task_id agent_id text) = handle_fail task_id agent_id text
    handle (cancel id) = handle_cancel id
    handle (stop id) = handle_stop id
    handle (confirm id) = handle_confirm id
    handle (detail id) = handle_detail id
    handle (list_reports id) = handle_evaluation_list env client id
    handle (approve id) = handle_evaluation_approve env client id
    handle (stop_ack task_id agent_id) = handle_stop_ack task_id agent_id
    handle (list room_id status) = handle_list room_id status
    handle (reject id reason) = handle_reject id reason
    handle (reject_report id comment) = handle_evaluation_reject env client id comment
    handle (dispatch task_id assignments) = handle_dispatch task_id assignments
    handle (submit_report p) = handle_evaluation_submit env client p
