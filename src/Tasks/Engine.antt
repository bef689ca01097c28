-- ===== src/Tasks/Engine.antt =====
-- task-engine.ts: the methods of the engine, less the automatic dispatch.
use Prim.Native.Char.{code}
use Prim.Native.String.{[] as empty_text, ◌∷◌ as text_cons}
use sman_server.Base.{
  ℕ, ◌+◌, String, Bool, true, false, not, ◌&&◌, ◌||◌, Option, none, some, List, [], ◌∷◌, map, ◌==◌,
  string_eq, nat_eq, option_eq, length, if◌then◌else◌, leb, ltb,
}
use sman_server.Tasks.Types.{
  TaskStatus, confirmed, dispatched, stopping, cancelled, evaluating, task_status_eq, TaskRecord,
  TaskAssignmentRecord, Metadata, Env, M, ◌>>=◌, ◌>>◌, pure, gets, modify,
}
use sman_server.Tasks.Machine.{get_task, insert_event, transition_status}
use sman_server.Tasks.Store.{assign_task, set_result, set_error, increment_retry}
use sman_server.Tasks.Assignments.{CreateAssignmentParams, create_assignments}

-- `toLowerCase` on the letters that the patterns have, and `includes`, over code points.
pub chars : String → List ℕ
chars empty_text = []
chars (text_cons c s) = code c ∷ chars s

abbrev pub lower : ℕ → ℕ
lower c = if leb 65 c && leb c 90 then c + 32 else c

pub starts_with : List ℕ → List ℕ → Bool
starts_with [] ys = true
starts_with (x ∷ xs) [] = false
starts_with (x ∷ xs) (y ∷ ys) = x == y && starts_with xs ys

pub includes : List ℕ → List ℕ → Bool
unfolding starts_with
includes [] pattern = starts_with pattern []
includes (y ∷ ys) pattern = starts_with pattern (y ∷ ys) || includes ys pattern

-- INFRA_ERROR_PATTERNS and isInfraError.
abbrev pub infra_error_patterns : List String
infra_error_patterns =
    "runtime_offline" ∷ "runtime_recovery" ∷ "timeout" ∷ "ECONNRESET" ∷ "ETIMEDOUT"
    ∷ "socket hang up" ∷ []

pub contains_one : List ℕ → List String → Bool
unfolding includes chars
contains_one text [] = false
contains_one text (p ∷ ps) = includes text (map lower (chars p)) || contains_one text ps

unfoldable pub is_infra_error : String → Bool
unfolding contains_one chars
is_infra_error error = contains_one (map lower (chars error)) infra_error_patterns

-- `task.max_retries || DEFAULT_MAX_RETRIES`.
abbrev pub retry_limit : TaskRecord → ℕ
retry_limit task = if task.max_retries == 0 then 3 else task.max_retries

-- `if (!task || task.assigned_to !== agentId) return null`, and the rest of the method.
module _ {A : Type 0} where
  abbrev pub if_assigned : String → A → M A → Option TaskRecord → M A
  if_assigned agent_id otherwise k none = pure otherwise
  if_assigned agent_id otherwise k (some task) =
      if task.assigned_to == some agent_id then k else pure otherwise

module _ (env : Env) (task_id : String) where
  abbrev pub cancel_found : String → Option TaskRecord → M (Option TaskRecord)
  cancel_found by none = pure none
  cancel_found by (some task) =
      if task.status == TaskStatus.completed || task.status == cancelled
      then pure none
      else transition_status env task_id cancelled (some by)
          (Metadata.of_reason (some "user_cancel"))

  unfoldable pub cancel_task : String → M (Option TaskRecord)
  cancel_task cancelled_by s = cancel_found cancelled_by (get_task task_id s) s

  abbrev pub stop_found : String → Option TaskRecord → M (Option TaskRecord)
  stop_found actor none = pure none
  stop_found actor (some task) =
      if not (task.status == dispatched) && not (task.status == TaskStatus.running)
      then pure none
      else transition_status env task_id stopping (some actor) Metadata.no_metadata

  unfoldable pub stop_task : String → M (Option TaskRecord)
  stop_task actor s = stop_found actor (get_task task_id s) s

  unfoldable pub reject_task : String → Option String → M (Option TaskRecord)
  reject_task actor reason =
      transition_status env task_id TaskStatus.rejected (some actor) (Metadata.of_reason reason)

  unfoldable pub confirm_task : String → M (Option TaskRecord)
  confirm_task actor = transition_status env task_id confirmed (some actor) Metadata.no_metadata

  unfoldable pub start_task : String → M (Option TaskRecord)
  start_task agent_id s =
      if_assigned agent_id none
        (transition_status env task_id TaskStatus.running (some agent_id) Metadata.no_metadata)
        (get_task task_id s) s

  unfoldable pub report_progress : String → String → M (Unit {0})
  report_progress agent_id progress s =
      if_assigned agent_id tt
        (modify
          (insert_event env task_id "progress" (some agent_id) (Metadata.of_progress progress)))
        (get_task task_id s) s

  unfoldable pub complete_task : String → String → M (Option TaskRecord)
  complete_task agent_id result s =
      if_assigned agent_id none
        (do
          modify (set_result env task_id result)
          transition_status env task_id TaskStatus.completed (some agent_id)
              (Metadata.of_result result))
        (get_task task_id s) s

  -- The retry: the task fails, and is evaluated again.
  abbrev pub fail_finally : String → String → M (Option TaskRecord)
  fail_finally agent_id error =
      transition_status env task_id TaskStatus.failed (some agent_id)
        (Metadata.of_error error false)

  abbrev pub retry_after : String → String → ℕ → Option TaskRecord → M (Option TaskRecord)
  retry_after agent_id error retry_count none = fail_finally agent_id error
  retry_after agent_id error retry_count (some retried) =
      transition_status env task_id evaluating none (Metadata.of_retry retry_count) >>= λ _.
      gets (get_task task_id)

  abbrev pub retry_task : String → String → M (Option TaskRecord)
  retry_task agent_id error = do
    retry_count ← increment_retry env task_id
    retried ←
        transition_status env task_id TaskStatus.failed (some agent_id)
          (Metadata.of_error error true)
    retry_after agent_id error retry_count retried

  abbrev pub fail_found : String → String → Option TaskRecord → M (Option TaskRecord)
  fail_found agent_id error none = pure none
  fail_found agent_id error (some task) =
      if not (task.status == stopping) && not (task.assigned_to == some agent_id)
      then pure none
      else (do
        modify (set_error env task_id error)
        (if is_infra_error error && ltb task.retry_count (retry_limit task)
            then retry_task agent_id error
            else fail_finally agent_id error))

  unfoldable pub fail_task : String → String → M (Option TaskRecord)
  fail_task agent_id error s = fail_found agent_id error (get_task task_id s) s

  -- dispatchTask: the first agent becomes the assignee.
  abbrev pub assign_first : List TaskAssignmentRecord → M (Unit {0})
  assign_first [] = pure tt
  assign_first (a ∷ rest) = assign_task env task_id a.agent_id >>= λ _. pure tt

  abbrev pub dispatched_with :
      List TaskAssignmentRecord
      → Option TaskRecord
      → Option (TaskRecord × List TaskAssignmentRecord)
  dispatched_with created none = none
  dispatched_with created (some updated) = some (updated, created)

  abbrev pub dispatch_found :
      List CreateAssignmentParams
      → String
      → Option TaskRecord
      → M (Option (TaskRecord × List TaskAssignmentRecord))
  dispatch_found assignments actor none = pure none
  dispatch_found assignments actor (some task) =
      if not (task.status == confirmed) then pure none else (do
        created ← create_assignments env task_id assignments
        assign_first created
        updated ← transition_status env task_id dispatched (some actor) (
            Metadata.of_dispatch (length created)
              (map (λ (a : CreateAssignmentParams). a.agent_id) assignments))
        pure (dispatched_with created updated))

  unfoldable pub dispatch_task :
      List CreateAssignmentParams → String → M (Option (TaskRecord × List TaskAssignmentRecord))
  dispatch_task assignments actor s = dispatch_found assignments actor (get_task task_id s) s
