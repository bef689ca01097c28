-- ===== src/Tasks/Assignments.antt =====
-- db-tasks.ts: the assignments of a task, and the claim of a task by an agent.
use sman_server.Base.{
  ℕ, ◌+◌, String, Bool, true, false, ◌&&◌, Option, none, some, List, [], ◌∷◌, ◌++◌, ◌==◌, string_eq,
  length, find_where, exists_where, update_where, select_where, if◌then◌else◌, leb,
}
use sman_server.Tasks.Types.{
  TaskStatus, evaluating, dispatched, queued, task_status_eq, TaskRecord, TaskAssignmentRecord,
  AssignmentStatus, Metadata, TaskDb, Env, key_exists, Outcome, returned, thrown, M, ◌>>=◌, ◌>>◌,
  pure, modify,
}
use sman_server.Tasks.Machine.{get_task, update_task, insert_event}
use sman_server.Tasks.Store.{get_active_task_count}

pub record CreateAssignmentParams : Type 0 where
  pub agent_id : String
  pub workspace : String
  pub subtask_ids : List String
  pub instructions : Option String
  pub report_id : Option String

abbrev pub new_assignment : Env → String → String → CreateAssignmentParams → TaskAssignmentRecord
new_assignment env id task_id a = record {
  id = id;
  task_id = task_id;
  agent_id = a.agent_id;
  workspace = a.workspace;
  subtask_ids = a.subtask_ids;
  instructions = a.instructions;
  report_id = a.report_id;
  status = AssignmentStatus.assigned;
  created_at = env.now;
}

-- The SELECT that follows an INSERT returns the row inserted: its key was free.
unfoldable pub insert_assignment : TaskAssignmentRecord → M TaskAssignmentRecord
insert_assignment a s =
    if exists_where (λ (b : TaskAssignmentRecord). b.id == a.id) s.task_assignments
    then (thrown key_exists, s)
    else (
      returned a,
      record s { task_assignments = s.task_assignments ++ a ∷ []; draws = s.draws + 1 },
    )

unfoldable pub insert_assignments :
    Env → String → List CreateAssignmentParams → M (List TaskAssignmentRecord)
insert_assignments env task_id [] s = (returned [], s)
insert_assignments env task_id (a ∷ rest) s =
    (do
      row ← insert_assignment (new_assignment env (env.random_uuid s.draws) task_id a)
      rows ← insert_assignments env task_id rest
      pure (row ∷ rows))
      s

-- A transaction that throws leaves what it found.
module _ {A : Type 0} where
  abbrev pub commit : TaskDb → Outcome A × TaskDb → Outcome A × TaskDb
  commit before (returned a, s) = (returned a, s)
  commit before (thrown f, s) = (thrown f, before)

unfoldable pub create_assignments :
    Env → String → List CreateAssignmentParams → M (List TaskAssignmentRecord)
create_assignments env task_id assignments = do
  created ← λ s. commit s (insert_assignments env task_id assignments s)
  modify (insert_event env task_id "dispatched" none (Metadata.of_assignments (length assignments)))
  pure created

unfoldable pub get_assignment : String → TaskDb → Option TaskAssignmentRecord
get_assignment assignment_id s =
    find_where (λ (a : TaskAssignmentRecord). a.id == assignment_id) s.task_assignments

unfoldable pub get_assignments : String → TaskDb → List TaskAssignmentRecord
get_assignments task_id s =
    select_where (λ (a : TaskAssignmentRecord). a.task_id == task_id) s.task_assignments

abbrev is_open_assignment : AssignmentStatus → Bool
is_open_assignment AssignmentStatus.assigned = true
is_open_assignment AssignmentStatus.running = true
is_open_assignment status = false

unfoldable pub get_agent_assignments : String → TaskDb → List TaskAssignmentRecord
get_agent_assignments agent_id s =
    select_where
      (λ (a : TaskAssignmentRecord). a.agent_id == agent_id && is_open_assignment a.status)
      s.task_assignments

unfoldable pub update_assignment_status : String → AssignmentStatus → TaskDb → TaskDb
update_assignment_status assignment_id status s = record s {
  task_assignments =
      update_where (λ (a : TaskAssignmentRecord). a.id == assignment_id)
        (λ a. record a { status = status }) s.task_assignments;
}

-- claimTask: the claim writes `dispatched` without a look at VALID_TRANSITIONS.
abbrev pub claimed_by : Env → String → TaskRecord → TaskRecord
claimed_by env agent_id t = record t {
  assigned_to = some agent_id;
  status = dispatched;
  updated_at = env.now;
}

abbrev pub is_claimable : TaskStatus → Bool
is_claimable queued = true
is_claimable evaluating = true
is_claimable status = false

module _ (env : Env) (task_id agent_id : String) where
  unfoldable pub claim_found : Option TaskRecord → M (Option TaskRecord)
  claim_found none s = (returned none, s)
  claim_found (some task) s =
      if is_claimable task.status
      then (let s' =
            insert_event env task_id "claimed" (some agent_id) Metadata.no_metadata
              (update_task task_id (claimed_by env agent_id) s) in
          (returned (get_task task_id s'), s'))
      else (returned none, s)

  unfoldable pub claim_task : ℕ → M (Option TaskRecord)
  claim_task max_concurrent s =
      if leb max_concurrent (get_active_task_count agent_id s)
      then (returned none, s)
      else claim_found (get_task task_id s) s
