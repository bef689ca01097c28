-- ===== src/Tasks/Routes.antt =====
-- routes/tasks.ts: the routes of the administrator on tasks, after the test of the token. A missing
-- text is empty.
use sman_server.Base.{ℕ, String, not, ◌&&◌, ◌||◌, Option, none, some, List, [], ◌==◌, if◌then◌else◌}
use sman_server.Base.Texts.{is_empty, or_text}
use sman_server.Tasks.Types.{
  Env, TaskStatus, task_status_eq, queued, dispatched, cancelled, TaskRecord, TaskEventRecord,
  TaskDb, Metadata, Outcome, returned, thrown,
}
use sman_server.Tasks.Machine.{get_task, transition_status}
use sman_server.Tasks.Store.{create_task, list_room_tasks, get_task_events, Stats, get_stats}

-- The answers with an error, by their status; `internal` is what Express makes of an exception.
pub data Reply (A : Type 0) : Type 0 where
  bad_request not_found conflict internal : Reply A
  replied : A → Reply A

abbrev reply_of : {A : Type 0} → Outcome A × TaskDb → Reply A × TaskDb
reply_of (returned a, s) = (replied a, s)
reply_of (thrown f, s) = (internal, s)

unfoldable pub tasks_route : String → Option TaskStatus → TaskDb → List TaskRecord
tasks_route room_id status s = if is_empty room_id then [] else list_room_tasks room_id status s

abbrev task_found : Option TaskRecord → TaskDb → Reply (TaskRecord × List TaskEventRecord)
task_found none s = not_found
task_found (some task) s = replied (task, get_task_events task.id s)

unfoldable pub task_route : String → TaskDb → Reply (TaskRecord × List TaskEventRecord)
task_route id s = task_found (get_task id s) s

unfoldable pub events_route : String → TaskDb → List TaskEventRecord
events_route id s = get_task_events id s

unfoldable pub stats_route : String → TaskDb → Reply Stats × TaskDb
stats_route room_id s = reply_of (get_stats (some room_id) s)

module _ (env : Env) where
  unfoldable pub create_task_route :
      (room_id title : String)
      → Option String
      → Option ℕ
      → Option String
      → (created_by : String) → TaskDb
      → Reply (Option TaskRecord) × TaskDb
  create_task_route room_id title description priority context created_by s =
      if is_empty room_id || is_empty title
      then (bad_request, s)
      else reply_of (
          create_task env
            (record {
              room_id = room_id;
              title = title;
              description = description;
              created_by = or_text created_by "admin";
              priority = priority;
              context = context;
              acceptance_criteria = none;
              subtasks = none;
              auto_execute = none;
              git_branch = none;
            })
            s)

  -- The task is read again after the transition.
  abbrev read_again :
      String → Outcome (Option TaskRecord) × TaskDb → Reply (Option TaskRecord) × TaskDb
  read_again id (returned updated, s) = (replied (get_task id s), s)
  read_again id (thrown f, s) = (internal, s)

  abbrev cancel_if_open : String → Option TaskRecord → TaskDb → Reply (Option TaskRecord) × TaskDb
  cancel_if_open id none s = (not_found, s)
  cancel_if_open id (some task) s =
      if not (task.status == queued) && not (task.status == dispatched)
      then (conflict, s)
      else read_again id (transition_status env id cancelled (some "admin") Metadata.no_metadata s)

  unfoldable pub cancel_task_route : String → TaskDb → Reply (Option TaskRecord) × TaskDb
  cancel_task_route id s = cancel_if_open id (get_task id s) s
