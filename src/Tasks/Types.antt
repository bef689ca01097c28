-- ===== src/Tasks/Types.antt =====
-- types.ts and db-tasks.ts: the rows of the tables of the tasks. A column that holds a JSON list
-- that the code itself wrote is that list; the context of a task is kept as its text.
use sman_server.Base.{ℕ, String, ◌≡◌, ◌↔◌, Bool, true, false, Option, List, [], Eq, arith}

pub data TaskStatus : Type 0 where
  draft evaluating confirmed rejected dispatched running stopping : TaskStatus
  completed failed cancelled queued : TaskStatus

abbrev task_status_beq : TaskStatus → TaskStatus → Bool
task_status_beq draft draft = true
task_status_beq evaluating evaluating = true
task_status_beq confirmed confirmed = true
task_status_beq rejected rejected = true
task_status_beq dispatched dispatched = true
task_status_beq running running = true
task_status_beq stopping stopping = true
task_status_beq completed completed = true
task_status_beq failed failed = true
task_status_beq cancelled cancelled = true
task_status_beq queued queued = true
task_status_beq a b = false

pub task_status_beq_iff : (a b : TaskStatus) → (task_status_beq a b ≡ true) ↔ (a ≡ b)
task_status_beq_iff a b = ground arith

instance abbrev pub task_status_eq : Eq TaskStatus
task_status_eq = record { test = task_status_beq; test_iff = task_status_beq_iff }

pub data ReportStatus : Type 0 where
  pending approved rejected : ReportStatus

pub data AssignmentStatus : Type 0 where
  assigned running completed failed : AssignmentStatus

pub record Subtask : Type 0 where
  pub id : String
  pub name : String
  pub description : Option String

pub record TaskRecord : Type 0 where
  pub id : String
  pub room_id : String
  pub title : String
  pub description : Option String
  pub status : TaskStatus
  pub priority : ℕ
  pub created_by : String
  pub assigned_to : Option String
  pub context : String
  pub result : Option String
  pub error : Option String
  pub retry_count : ℕ
  pub max_retries : ℕ
  pub acceptance_criteria : Option String
  pub subtasks : List Subtask
  pub auto_execute : ℕ
  pub git_branch : Option String
  pub version : ℕ
  pub started_at : Option ℕ
  pub completed_at : Option ℕ
  pub created_at : ℕ
  pub updated_at : ℕ

-- The object that `JSON.stringify` writes into the metadata of an event.
pub data Metadata : Type 0 where
  no_metadata : Metadata
  of_title of_result of_progress of_report : String → Metadata
  of_reason : Option String → Metadata
  of_error : String → Bool → Metadata
  of_retry of_assignments : ℕ → Metadata
  of_dispatch : ℕ → List String → Metadata

pub record TaskEventRecord : Type 0 where
  pub id : ℕ
  pub task_id : String
  pub event : String
  pub actor : Option String
  pub metadata : Metadata
  pub created_at : ℕ

pub record EvaluationReportRecord : Type 0 where
  pub id : String
  pub task_id : String
  pub agent_id : String
  pub workspace : String
  pub claimed_subtasks : List String
  pub approach : String
  pub complexity : String
  pub dependencies : List String
  pub raw_response : String
  pub status : ReportStatus
  pub review_comment : Option String
  pub created_at : ℕ
  pub updated_at : ℕ

pub record TaskAssignmentRecord : Type 0 where
  pub id : String
  pub task_id : String
  pub agent_id : String
  pub workspace : String
  pub subtask_ids : List String
  pub instructions : Option String
  pub report_id : Option String
  pub status : AssignmentStatus
  pub created_at : ℕ

pub record TaskDb : Type 0 where
  pub tasks : List TaskRecord
  pub task_events : List TaskEventRecord
  pub evaluation_reports : List EvaluationReportRecord
  pub task_assignments : List TaskAssignmentRecord
  -- How many random ids have been drawn.
  pub draws : ℕ

abbrev pub empty_tasks : TaskDb
empty_tasks = record {
  tasks = [];
  task_events = [];
  evaluation_reports = [];
  task_assignments = [];
  draws = 0;
}

-- The clock, and the n-th draw of `crypto.randomUUID`.
pub record Env : Type 0 where
  pub now : ℕ
  pub random_uuid : ℕ → String

-- What the statements throw: the CHECK of the status column, a key that exists, and a statement
-- that does not parse.
pub data TaskFault : Type 0 where
  check_status : TaskFault
  key_exists : TaskFault
  syntax_error : TaskFault

pub data Outcome (A : Type 0) : Type 0 where
  returned : A → Outcome A
  thrown : TaskFault → Outcome A

-- Each statement commits by itself, so what a method wrote before it threw stays.
abbrev pub M : Type 0 → Type 0
M A = TaskDb → Outcome A × TaskDb

module _ {A B : Type 0} where
  abbrev pub continue : (A → M B) → Outcome A × TaskDb → Outcome B × TaskDb
  continue k (returned a, s) = k a s
  continue k (thrown f, s) = (thrown f, s)

  infixl 5 ◌>>=◌
  abbrev pub ◌>>=◌ : M A → (A → M B) → M B
  ◌>>=◌ m k s = continue k (m s)

infixl 5 ◌>>◌
abbrev pub ◌>>◌ : {B : Type 0} → M (Unit {0}) → M B → M B
m >> k = m >>= λ _. k

module _ {A : Type 0} where
  abbrev pub pure : A → M A
  pure a s = (returned a, s)

  abbrev pub gets : (TaskDb → A) → M A
  gets f s = (returned (f s), s)

abbrev pub modify : (TaskDb → TaskDb) → M (Unit {0})
modify f s = (returned tt, f s)
