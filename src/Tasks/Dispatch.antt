-- ===== src/Tasks/Dispatch.antt =====
-- task-engine.ts: tryAutoConfirmAndDispatch. The number of agents of a room comes from the rooms.
pub mod Claims
use sman_server.Base.Maps.{has_key, set_entry, change_entry}
use sman_server.Base.{
  ℕ, ◌+◌, String, Bool, true, false, not, ◌&&◌, ◌||◌, Option, none, some, List, [], ◌∷◌, ◌++◌, map,
  ◌==◌, string_eq, nat_eq, option_eq, length, find_where, exists_where, if◌then◌else◌, ltb,
}
use sman_server.Tasks.Types.{
  TaskStatus, confirmed, evaluating, task_status_eq, TaskRecord, Subtask, EvaluationReportRecord,
  TaskAssignmentRecord, Metadata, TaskDb, Env, Outcome, returned, M, ◌>>=◌, pure,
}
use sman_server.Tasks.Machine.{get_task, transition_status}
use sman_server.Tasks.Store.{list_evaluation_reports}
use sman_server.Tasks.Assignments.{CreateAssignmentParams}
use sman_server.Tasks.Engine.{dispatch_task}

-- `[...new Set(reports.map(r => r.agent_id))].length`.
pub distinct : List String → List String
distinct [] = []
distinct (x ∷ xs) =
    let rest = distinct xs in if exists_where (λ (y : String). y == x) rest then rest else x ∷ rest

abbrev pub agent_of : EvaluationReportRecord → String
agent_of r = r.agent_id

abbrev pub claims : String → EvaluationReportRecord → Bool
claims subtask r = exists_where (λ (c : String). c == subtask) r.claimed_subtasks

-- subtaskToAgent: each subtask with the first report that claims it.
abbrev pub note_claim :
    String
    → Option EvaluationReportRecord
    → List (String × EvaluationReportRecord)
    → List (String × EvaluationReportRecord)
note_claim subtask none m = m
note_claim subtask (some r) m = set_entry subtask r m

unfoldable pub claim_subtasks :
    List EvaluationReportRecord
    → List String
    → List (String × EvaluationReportRecord)
    → List (String × EvaluationReportRecord)
claim_subtasks reports [] m = m
claim_subtasks reports (subtask ∷ rest) m =
    claim_subtasks reports rest (note_claim subtask (find_where (claims subtask) reports) m)

-- The entries of agentMap.
pub record AgentWork : Type 0 where
  pub subtask_ids : List String
  pub workspace : String
  pub report_id : String

abbrev pub no_work : EvaluationReportRecord → AgentWork
no_work r = record { subtask_ids = []; workspace = r.workspace; report_id = r.id }

abbrev pub push_subtask : String → AgentWork → AgentWork
push_subtask subtask w = record w { subtask_ids = w.subtask_ids ++ subtask ∷ [] }

unfoldable pub group_by_agent :
    List (String × EvaluationReportRecord) → List (String × AgentWork) → List (String × AgentWork)
group_by_agent [] m = m
group_by_agent ((subtask, r) ∷ rest) m =
    let m' = if has_key r.agent_id m then m else set_entry r.agent_id (no_work r) m in
    group_by_agent rest (change_entry r.agent_id (push_subtask subtask) m')

-- With no subtasks the first reporter gets the whole task.
unfoldable pub agent_work : List String → List EvaluationReportRecord → List (String × AgentWork)
agent_work [] [] = []
agent_work [] (first ∷ rest) = (first.agent_id, no_work first) ∷ []
agent_work (subtask ∷ subtasks) reports =
    group_by_agent (claim_subtasks reports (subtask ∷ subtasks) []) []

abbrev pub to_params : String × AgentWork → CreateAssignmentParams
to_params (agent_id, w) = record {
  agent_id = agent_id;
  workspace = w.workspace;
  subtask_ids = w.subtask_ids;
  instructions = none;
  report_id = some w.report_id;
}

abbrev pub Dispatched : Type 0
Dispatched = Option (TaskRecord × List TaskAssignmentRecord)

module _ (env : Env) (task_id : String) where
  abbrev pub dispatch_confirmed : List (String × AgentWork) → Option TaskRecord → M Dispatched
  dispatch_confirmed work none = pure none
  dispatch_confirmed work (some task) = dispatch_task env task_id (map to_params work) "auto"

  unfoldable pub confirm_and_dispatch : List (String × AgentWork) → M Dispatched
  confirm_and_dispatch [] s = (returned none, s)
  confirm_and_dispatch (w ∷ work) s =
      (transition_status env task_id confirmed (some "auto") Metadata.no_metadata
          >>= dispatch_confirmed (w ∷ work))
        s

  -- Whether the agents of the room have reported, or need not.
  abbrev pub all_reported : Bool → ℕ → List EvaluationReportRecord → Bool
  all_reported force agents reports =
      force || not (ltb (length (distinct (map agent_of reports))) agents)

  -- `if (reports.length === 0) return null`, and the rest of the method.
  abbrev pub dispatch_reports : TaskRecord → List EvaluationReportRecord → M Dispatched
  dispatch_reports task [] s = (returned none, s)
  dispatch_reports task (r ∷ rs) s =
      confirm_and_dispatch (agent_work (map (λ (t : Subtask). t.id) task.subtasks) (r ∷ rs)) s

  abbrev pub auto_found : (String → ℕ) → Bool → Option TaskRecord → M Dispatched
  auto_found room_agents force none s = (returned none, s)
  auto_found room_agents force (some task) s =
      let reports = list_evaluation_reports task_id s in
      if not (task.auto_execute == 1)
        || not (task.status == evaluating)
        || not (all_reported force (room_agents task.room_id) reports)
      then (returned none, s)
      else dispatch_reports task reports s

  unfoldable pub try_auto_confirm_and_dispatch : (String → ℕ) → Bool → M Dispatched
  try_auto_confirm_and_dispatch room_agents force s =
      auto_found room_agents force (get_task task_id s) s
