-- ===== src/Tasks/Machine.antt =====
-- db-tasks.ts: VALID_TRANSITIONS, and transitionStatus.
use sman_server.Base.{
  ℕ, suc, String, Bool, true, false, not, ◌&&◌, ◌||◌, Option, none, some, List, [], ◌∷◌, ◌++◌, ◌==◌,
  string_eq, length, find_where, exists_where, update_where, if◌then◌else◌, is_some,
}
use sman_server.Tasks.Types.{
  TaskStatus, draft, evaluating, confirmed, dispatched, stopping, cancelled, queued, task_status_eq,
  TaskRecord, Metadata, TaskDb, Env, check_status, returned, thrown, M,
}

unfoldable pub valid_transitions : TaskStatus → List TaskStatus
valid_transitions draft = evaluating ∷ cancelled ∷ []
valid_transitions evaluating = confirmed ∷ TaskStatus.rejected ∷ cancelled ∷ []
valid_transitions confirmed = dispatched ∷ cancelled ∷ []
valid_transitions TaskStatus.rejected = draft ∷ cancelled ∷ []
valid_transitions dispatched = TaskStatus.running ∷ cancelled ∷ TaskStatus.failed ∷ stopping ∷ []
valid_transitions TaskStatus.running =
    TaskStatus.completed ∷ TaskStatus.failed ∷ cancelled ∷ stopping ∷ []
valid_transitions stopping = cancelled ∷ TaskStatus.failed ∷ []
valid_transitions TaskStatus.completed = []
valid_transitions TaskStatus.failed = evaluating ∷ []
valid_transitions cancelled = []
valid_transitions queued = dispatched ∷ cancelled ∷ []

-- `allowed.includes(newStatus)`.
unfoldable pub allows : TaskStatus → TaskStatus → Bool
unfolding valid_transitions exists_where
allows from to = exists_where (λ (s : TaskStatus). s == to) (valid_transitions from)

-- `eventMap[newStatus] || newStatus`.
unfoldable pub event_name : TaskStatus → String
event_name evaluating = "evaluation_started"
event_name confirmed = "confirmed"
event_name TaskStatus.rejected = "rejected"
event_name dispatched = "dispatched"
event_name TaskStatus.running = "started"
event_name TaskStatus.completed = "completed"
event_name TaskStatus.failed = "failed"
event_name cancelled = "cancelled"
event_name queued = "retried"
event_name draft = "draft"
event_name stopping = "stopping"

abbrev pub task_with_id : String → TaskRecord → Bool
task_with_id id t = t.id == id

unfoldable pub get_task : String → TaskDb → Option TaskRecord
get_task task_id s = find_where (task_with_id task_id) s.tasks

-- An UPDATE of one row of `tasks`.
unfoldable pub update_task : String → (TaskRecord → TaskRecord) → TaskDb → TaskDb
update_task task_id f s = record s { tasks = update_where (task_with_id task_id) f s.tasks }

unfoldable pub insert_event : Env → String → String → Option String → Metadata → TaskDb → TaskDb
insert_event env task_id event actor metadata s = record s {
  task_events =
      s.task_events
      ++ record {
        id = suc (length s.task_events);
        task_id = task_id;
        event = event;
        actor = actor;
        metadata = metadata;
        created_at = env.now;
      }
        ∷ [];
}

-- The SET list of the UPDATE; `started` is the row's `started_at` as it was read.
abbrev pub set_status : Env → TaskStatus → Option ℕ → TaskRecord → TaskRecord
set_status env status started t = record t {
  status = status;
  updated_at = env.now;
  started_at =
      if status == TaskStatus.running && not (is_some started) then some env.now else t.started_at;
  completed_at =
      if status == TaskStatus.completed || status == cancelled
      then some env.now
      else t.completed_at;
}

-- The CHECK of the column lists every status but `stopping`.
unfoldable pub status_is_storable : TaskStatus → Bool
status_is_storable stopping = false
status_is_storable s = true

module _ (env : Env) (task_id : String) (new_status : TaskStatus) (actor : Option String)
    (metadata : Metadata) where
  unfoldable pub write_status : TaskRecord → M (Option TaskRecord)
  write_status task s =
      if status_is_storable new_status
      then (let s' =
            insert_event env task_id (event_name new_status) actor metadata
              (update_task task_id (set_status env new_status task.started_at) s) in
          (returned (get_task task_id s'), s'))
      else (thrown check_status, s)

  unfoldable pub transition_found : Option TaskRecord → M (Option TaskRecord)
  transition_found none s = (returned none, s)
  transition_found (some task) s =
      if allows task.status new_status then write_status task s else (returned none, s)

  unfoldable pub transition_status : M (Option TaskRecord)
  transition_status s = transition_found (get_task task_id s) s
