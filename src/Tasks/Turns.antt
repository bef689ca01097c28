-- ===== src/Tasks/Turns.antt =====
-- The calls of the engine, and which statuses each of them can give to its task, in a table of its
-- own.
use sman_server.Base.{
  ℕ, String, ◌≡◌, ◌≢◌, true, ◌⊎◌, inl, inr, Bool, Option, List, arith, exists_where,
}
use sman_server.Tasks.Types.{
  TaskStatus, draft, evaluating, confirmed, dispatched, stopping, cancelled, queued, ReportStatus,
  AssignmentStatus, task_status_eq,
}
use sman_server.Tasks.Machine.{allows, valid_transitions}
use sman_server.Tasks.Store.{CreateTaskParams, CreateEvaluationReportParams}
use sman_server.Tasks.Assignments.{CreateAssignmentParams}

-- From which statuses a status can be reached by one transition.
abbrev pub Precedes : TaskStatus → TaskStatus → Type 0
Precedes draft a = a ≡ TaskStatus.rejected
Precedes evaluating a = (a ≡ draft) ⊎ (a ≡ TaskStatus.failed)
Precedes confirmed a = a ≡ evaluating
Precedes TaskStatus.rejected a = a ≡ evaluating
Precedes dispatched a = (a ≡ confirmed) ⊎ (a ≡ queued)
Precedes TaskStatus.running a = a ≡ dispatched
Precedes stopping a = (a ≡ dispatched) ⊎ (a ≡ TaskStatus.running)
Precedes TaskStatus.completed a = a ≡ TaskStatus.running
Precedes TaskStatus.failed a = (a ≡ dispatched) ⊎ (a ≡ TaskStatus.running) ⊎ (a ≡ stopping)
Precedes cancelled a = (a ≢ TaskStatus.completed) × (a ≢ TaskStatus.failed) × (a ≢ cancelled)
Precedes queued a = ⊥

pub allows-Precedes : (a n : TaskStatus) → allows a n ≡ true → Precedes n a
unfolding allows valid_transitions exists_where
allows-Precedes a draft h = ground arith
allows-Precedes a evaluating h = ground arith
allows-Precedes a confirmed h = ground arith
allows-Precedes a TaskStatus.rejected h = ground arith
allows-Precedes a dispatched h = ground arith
allows-Precedes a TaskStatus.running h = ground arith
allows-Precedes a stopping h = ground arith
allows-Precedes a TaskStatus.completed h = ground arith
allows-Precedes a TaskStatus.failed h = ground arith
allows-Precedes a cancelled h = ground arith
allows-Precedes a queued h = ground arith

pub Precedes-allows : (a n : TaskStatus) → Precedes n a → allows a n ≡ true
unfolding allows valid_transitions exists_where
Precedes-allows a draft h = ground arith
Precedes-allows a evaluating h = ground arith
Precedes-allows a confirmed h = ground arith
Precedes-allows a TaskStatus.rejected h = ground arith
Precedes-allows a dispatched h = ground arith
Precedes-allows a TaskStatus.running h = ground arith
Precedes-allows a stopping h = ground arith
Precedes-allows a TaskStatus.completed h = ground arith
Precedes-allows a TaskStatus.failed h = ground arith
Precedes-allows a cancelled h = ground arith
Precedes-allows a queued h = absurd h

pub data Call : Type 0 where
  create_call : CreateTaskParams → Call
  cancel_call stop_call confirm_call start_call : String → String → Call
  reject_call : String → String → Option String → Call
  claim_call : String → String → ℕ → Call
  progress_call complete_call fail_call : String → String → String → Call
  report_call : CreateEvaluationReportParams → Call
  review_call : String → ReportStatus → Option String → Call
  dispatch_call : String → List CreateAssignmentParams → String → Call
  auto_call : String → (String → ℕ) → Bool → Call
  assignment_call : String → AssignmentStatus → Call

-- The task of the id goes to the status `n`.
abbrev pub To : TaskStatus → String → String → TaskStatus → TaskStatus → Type 0
To n id j a b = (j ≡ id) × (b ≡ n) × Precedes n a

abbrev pub Turns : Call → String → TaskStatus → TaskStatus → Type 0
Turns (cancel_call id by) j a b = To cancelled id j a b
Turns (confirm_call id actor) j a b = To confirmed id j a b
Turns (start_call id agent) j a b = To TaskStatus.running id j a b
Turns (reject_call id actor reason) j a b = To TaskStatus.rejected id j a b
Turns (claim_call id agent n) j a b =
    (j ≡ id) × (b ≡ dispatched) × ((a ≡ queued) ⊎ (a ≡ evaluating))
Turns (complete_call id agent result) j a b = To TaskStatus.completed id j a b
Turns (fail_call id agent error) j a b = To TaskStatus.failed id j a b ⊎ To evaluating id j a b
Turns (dispatch_call id assignments actor) j a b = To dispatched id j a b
Turns (auto_call id agents force) j a b = To confirmed id j a b ⊎ To dispatched id j a b
Turns (create_call p) j a b = ⊥
Turns (stop_call id actor) j a b = ⊥
Turns (progress_call id agent text) j a b = ⊥
Turns (report_call p) j a b = ⊥
Turns (review_call id status comment) j a b = ⊥
Turns (assignment_call id status) j a b = ⊥

-- What some call can do.
abbrev pub Moves : String → TaskStatus → TaskStatus → Type 0
Moves id a b = Precedes b a ⊎ ((b ≡ dispatched) × ((a ≡ queued) ⊎ (a ≡ evaluating)))

pub Turns-Moves : (c : Call) (id : String) (a b : TaskStatus) → Turns c id a b → Moves id a b
Turns-Moves (cancel_call id by) j a b h = inl (rw h.1 h.2)
Turns-Moves (confirm_call id actor) j a b h = inl (rw h.1 h.2)
Turns-Moves (start_call id agent) j a b h = inl (rw h.1 h.2)
Turns-Moves (reject_call id actor reason) j a b h = inl (rw h.1 h.2)
Turns-Moves (claim_call id agent n) j a b h = inr (h.1, h.2)
Turns-Moves (complete_call id agent result) j a b h = inl (rw h.1 h.2)
Turns-Moves (fail_call id agent error) j a b (inl h) = inl (rw h.1 h.2)
Turns-Moves (fail_call id agent error) j a b (inr h) = inl (rw h.1 h.2)
Turns-Moves (dispatch_call id assignments actor) j a b h = inl (rw h.1 h.2)
Turns-Moves (auto_call id agents force) j a b (inl h) = inl (rw h.1 h.2)
Turns-Moves (auto_call id agents force) j a b (inr h) = inl (rw h.1 h.2)
Turns-Moves (create_call p) j a b h = absurd h
Turns-Moves (stop_call id actor) j a b h = absurd h
Turns-Moves (progress_call id agent text) j a b h = absurd h
Turns-Moves (report_call p) j a b h = absurd h
Turns-Moves (review_call id status comment) j a b h = absurd h
Turns-Moves (assignment_call id status) j a b h = absurd h
