-- ===== src/Tasks/Store.antt =====
-- db-tasks.ts: the other methods on the four tables.
use sman_server.Base.{
  ℕ, ◌+◌, String, Bool, true, ◌&&◌, ◌||◌, Option, none, some, List, [], ◌∷◌, ◌++◌, ◌==◌, string_eq,
  option_eq, find_where, exists_where, update_where, select_where, count_where, sort_desc, sort_asc,
  if◌then◌else◌, or_default,
}
use sman_server.Tasks.Types.{
  TaskStatus, evaluating, dispatched, task_status_eq, TaskRecord, Subtask, TaskEventRecord,
  EvaluationReportRecord, ReportStatus, Metadata, TaskDb, Env, key_exists, syntax_error, returned,
  thrown, M, ◌>>◌, pure, gets, modify,
}
use sman_server.Tasks.Machine.{get_task, update_task, insert_event}

-- ---- Tasks ----

pub record CreateTaskParams : Type 0 where
  pub room_id : String
  pub title : String
  pub description : Option String
  pub created_by : String
  pub priority : Option ℕ
  pub context : Option String
  pub acceptance_criteria : Option String
  pub subtasks : Option (List Subtask)
  pub auto_execute : Option Bool
  pub git_branch : Option String

-- INSERT INTO tasks, with the defaults of the columns.
abbrev pub new_task : Env → String → CreateTaskParams → TaskRecord
new_task env id p = record {
  id = id;
  room_id = p.room_id;
  title = p.title;
  description = p.description;
  status = evaluating;
  priority = or_default p.priority 0;
  created_by = p.created_by;
  assigned_to = none;
  context = or_default p.context "{}";
  result = none;
  error = none;
  retry_count = 0;
  max_retries = 3;
  acceptance_criteria = p.acceptance_criteria;
  subtasks = or_default p.subtasks [];
  auto_execute = if or_default p.auto_execute true then 1 else 0;
  git_branch = p.git_branch;
  version = 1;
  started_at = none;
  completed_at = none;
  created_at = env.now;
  updated_at = env.now;
}

unfoldable pub insert_task : TaskRecord → M (Unit {0})
insert_task t s =
    if exists_where (λ (u : TaskRecord). u.id == t.id) s.tasks
    then (thrown key_exists, s)
    else (returned tt, record s { tasks = s.tasks ++ t ∷ []; draws = s.draws + 1 })

unfoldable pub create_task : Env → CreateTaskParams → M (Option TaskRecord)
create_task env p s =
    (do
      insert_task (new_task env (env.random_uuid s.draws) p)
      modify (
          insert_event env (env.random_uuid s.draws) "created" (some p.created_by)
            (Metadata.of_title p.title))
      gets (get_task (env.random_uuid s.draws)))
      s

abbrev in_room : String → Option TaskStatus → TaskRecord → Bool
in_room room_id none t = t.room_id == room_id
in_room room_id (some status) t = t.room_id == room_id && t.status == status

-- ORDER BY priority DESC, created_at ASC.
unfoldable pub list_room_tasks : String → Option TaskStatus → TaskDb → List TaskRecord
list_room_tasks room_id status s =
    sort_desc (λ (t : TaskRecord). t.priority)
      (sort_asc (λ (t : TaskRecord). t.created_at) (select_where (in_room room_id status) s.tasks))

unfoldable pub list_all_tasks : TaskDb → List TaskRecord
list_all_tasks s = sort_desc (λ (t : TaskRecord). t.created_at) s.tasks

unfoldable pub assign_task : Env → String → String → M (Option TaskRecord)
assign_task env task_id agent_id = do
  modify (update_task task_id λ t. record t { assigned_to = some agent_id; updated_at = env.now })
  gets (get_task task_id)

unfoldable pub set_result : Env → String → String → TaskDb → TaskDb
set_result env task_id result =
    update_task task_id λ t. record t { result = some result; updated_at = env.now }

unfoldable pub set_error : Env → String → String → TaskDb → TaskDb
set_error env task_id error =
    update_task task_id λ t. record t { error = some error; updated_at = env.now }

abbrev pub retries_of : Option TaskRecord → ℕ
retries_of none = 0
retries_of (some t) = t.retry_count

unfoldable pub increment_retry : Env → String → M ℕ
increment_retry env task_id = do
  modify
      (update_task task_id λ t. record t { retry_count = t.retry_count + 1; updated_at = env.now })
  gets (λ s. retries_of (get_task task_id s))

abbrev pub is_active_for : String → TaskRecord → Bool
is_active_for agent_id t =
    t.assigned_to == some agent_id && (t.status == dispatched || t.status == TaskStatus.running)

unfoldable pub get_active_task_count : String → TaskDb → ℕ
get_active_task_count agent_id s = count_where (is_active_for agent_id) s.tasks

unfoldable pub get_task_events : String → TaskDb → List TaskEventRecord
get_task_events task_id s =
    sort_asc (λ (e : TaskEventRecord). e.created_at)
      (select_where (λ (e : TaskEventRecord). e.task_id == task_id) s.task_events)

-- ---- Evaluation Reports ----

pub record CreateEvaluationReportParams : Type 0 where
  pub task_id : String
  pub agent_id : String
  pub workspace : String
  pub claimed_subtasks : List String
  pub approach : String
  pub complexity : String
  pub dependencies : List String
  pub raw_response : String

unfoldable pub get_evaluation_report : String → TaskDb → Option EvaluationReportRecord
get_evaluation_report report_id s =
    find_where (λ (r : EvaluationReportRecord). r.id == report_id) s.evaluation_reports

abbrev pub new_report : Env → String → CreateEvaluationReportParams → EvaluationReportRecord
new_report env id p = record {
  id = id;
  task_id = p.task_id;
  agent_id = p.agent_id;
  workspace = p.workspace;
  claimed_subtasks = p.claimed_subtasks;
  approach = p.approach;
  complexity = p.complexity;
  dependencies = p.dependencies;
  raw_response = p.raw_response;
  status = ReportStatus.pending;
  review_comment = none;
  created_at = env.now;
  updated_at = env.now;
}

unfoldable pub insert_report : EvaluationReportRecord → M (Unit {0})
insert_report r s =
    if exists_where (λ (u : EvaluationReportRecord). u.id == r.id) s.evaluation_reports
    then (thrown key_exists, s)
    else (
      returned tt,
      record s { evaluation_reports = s.evaluation_reports ++ r ∷ []; draws = s.draws + 1 },
    )

unfoldable pub create_evaluation_report :
    Env → CreateEvaluationReportParams → M (Option EvaluationReportRecord)
create_evaluation_report env p s =
    (do
      insert_report (new_report env (env.random_uuid s.draws) p)
      modify (
          insert_event env p.task_id "evaluation_submitted" (some p.agent_id)
            (Metadata.of_report (env.random_uuid s.draws)))
      gets (get_evaluation_report (env.random_uuid s.draws)))
      s

unfoldable pub list_evaluation_reports : String → TaskDb → List EvaluationReportRecord
list_evaluation_reports task_id s =
    sort_asc (λ (r : EvaluationReportRecord). r.created_at)
      (select_where (λ (r : EvaluationReportRecord). r.task_id == task_id) s.evaluation_reports)

-- `evaluation_${status}`.
abbrev report_event : ReportStatus → String
report_event ReportStatus.pending = "evaluation_pending"
report_event ReportStatus.approved = "evaluation_approved"
report_event ReportStatus.rejected = "evaluation_rejected"

module _ (env : Env) (report_id : String) (status : ReportStatus) (comment : Option String) where
  abbrev pub review_found : Option EvaluationReportRecord → M (Option EvaluationReportRecord)
  review_found none = pure none
  review_found (some report) = do
    modify λ s. record s {
      evaluation_reports =
          update_where (λ (r : EvaluationReportRecord). r.id == report_id)
            (λ r. record r { status = status; review_comment = comment; updated_at = env.now })
            s.evaluation_reports;
    }
    modify
        (insert_event env report.task_id (report_event status) none (Metadata.of_report report_id))
    gets (get_evaluation_report report_id)

  unfoldable pub update_report_status : M (Option EvaluationReportRecord)
  update_report_status s = review_found (get_evaluation_report report_id s) s

-- ---- Stats ----

pub record Stats : Type 0 where
  pub total : ℕ
  pub evaluating : ℕ
  pub running : ℕ
  pub completed : ℕ
  pub failed : ℕ

abbrev count_tasks : String → TaskStatus → TaskDb → ℕ
count_tasks room_id status s = count_where (in_room room_id (some status)) s.tasks

-- getStats: without a room the statement that counts a status reads `FROM tasks  AND status = ?`.
unfoldable pub get_stats : Option String → M Stats
get_stats none s = (thrown syntax_error, s)
get_stats (some room_id) s = if room_id == "" then (thrown syntax_error, s) else (
  returned (record {
    total = count_where (in_room room_id none) s.tasks;
    evaluating = count_tasks room_id TaskStatus.evaluating s;
    running = count_tasks room_id TaskStatus.running s;
    completed = count_tasks room_id TaskStatus.completed s;
    failed = count_tasks room_id TaskStatus.failed s;
  }),
  s,
)
