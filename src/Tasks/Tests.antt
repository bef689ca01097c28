-- ===== src/Tasks/Tests.antt =====
-- The tasks' theorems at a small database: one task that is evaluated, one that runs.
use sman_server.Base.{
  ℕ, zero, suc, ◌<◌, ◌≤◌, ◌≡◌, ◌≢◌, ◌⊎◌, inl, refl, String, none, some, List, [], ◌∷◌, arith,
  find_where, exists_where, count_where, if◌then◌else◌, ◌==◌, string_eq,
}
use sman_server.Tasks.Types.{
  TaskStatus, evaluating, running, completed, stopping, dispatched, confirmed, queued, TaskRecord,
  Metadata, TaskDb, Env, returned, thrown, empty_tasks, check_status, EvaluationReportRecord,
  ReportStatus,
}
use sman_server.Tasks.Machine.{get_task, transition_status, insert_event}
use sman_server.Tasks.Store.{
  CreateTaskParams, new_task, create_task, insert_task, get_active_task_count,
}
use sman_server.Tasks.Assignments.{claim_task}
use sman_server.Tasks.Engine.{stop_task, complete_task}
use sman_server.Tasks.Dispatch.{claims, claim_subtasks}
use sman_server.Base.Maps.{value_of}
use sman_server.Tasks.Dispatch.Claims.{claim_subtasks-first}
use sman_server.Tasks.Turns.{Precedes, Call, cancel_call, complete_call, create_call, fail_call}
use sman_server.Tasks.History.{Story, run, run-Story, run-final, run-never_stopping, stop_task_lem}
use sman_server.Tasks.Effects.{Moved, transition_status_lem, complete_task_lem, claim_task_lem}

abbrev ids : ℕ → String
ids zero = "id0"
ids (suc zero) = "id1"
ids (suc (suc n)) = "id2"

abbrev env : Env
env = record { now = 5; random_uuid = ids }

abbrev build_it : CreateTaskParams
build_it = record {
  room_id = "r1";
  title = "build it";
  description = none;
  created_by = "ann";
  priority = none;
  context = none;
  acceptance_criteria = none;
  subtasks = none;
  auto_execute = none;
  git_branch = none;
}

abbrev waiting : TaskRecord
waiting = new_task env "t1" build_it

abbrev busy : TaskRecord
busy = record waiting { id = "t2"; status = running; assigned_to = some "bot" }

abbrev over : TaskRecord
over = record waiting { id = "t3"; status = completed }

abbrev held : TaskRecord
held = record waiting { id = "t4"; status = dispatched; assigned_to = some "bot" }

abbrev board : TaskDb
board = record empty_tasks { tasks = waiting ∷ busy ∷ over ∷ held ∷ [] }

waiting_is_there : get_task "t1" board ≡ some waiting
unfolding get_task find_where
waiting_is_there = refl

busy_is_there : get_task "t2" board ≡ some busy
unfolding get_task find_where
busy_is_there = refl

over_is_there : get_task "t3" board ≡ some over
unfolding get_task find_where
over_is_there = refl

has_room : get_active_task_count "bot" board < 3
unfolding get_active_task_count count_where
has_room = ground arith

abbrev day : List (Env × Call)
day =
    (env, cancel_call "t1" "ann")
    ∷ (env, fail_call "t2" "bot" "timeout of the runtime")
    ∷ (env, complete_call "t3" "bot" "again")
    ∷ []

created :
    get_task "id0" (run ((env, create_call build_it) ∷ []) empty_tasks)
    ≡ some (new_task env "id0" build_it)
unfolding get_task find_where create_task insert_task exists_where insert_event
created = refl

run-Story_example :
    (t' : TaskRecord) × (get_task "t2" (run day board) ≡ some t') × Story "t2" day running t'.status
run-Story_example = run-Story day board "t2" busy busy_is_there

run-final_example :
    (t' : TaskRecord) × (get_task "t3" (run day board) ≡ some t') × (t'.status ≡ completed)
run-final_example = run-final day board "t3" over over_is_there (inl refl)

run-never_stopping_example : evaluating ≢ stopping
run-never_stopping_example =
    run-never_stopping ((env, create_call build_it) ∷ []) "id0" (new_task env "id0" build_it)
      created

stop_task_lem_example :
    ((t : TaskRecord)
      → get_task "t2" board ≡ some t
      → ((t.status ≡ dispatched) ⊎ (t.status ≡ running)
          → stop_task env "t2" "ann" board ≡ (thrown check_status, board))
        × (t.status ≢ dispatched
            → t.status ≢ running
            → stop_task env "t2" "ann" board ≡ (returned none, board)))
    × (get_task "t2" board ≡ none → stop_task env "t2" "ann" board ≡ (returned none, board))
stop_task_lem_example = stop_task_lem env "t2" "ann" board

transition_status_lem_example :
    (confirmed ≢ stopping
      → (t : TaskRecord) → get_task "t1" board ≡ some t
      → (Precedes confirmed t.status
          → (t' : TaskRecord) × (s' : TaskDb) × (transition_status env "t1" confirmed
                (some "ann")
                Metadata.no_metadata
                board
              ≡ (returned (some t'), s'))
            × Moved env "t1" (some "ann") Metadata.no_metadata confirmed board t t' s')
        × (¬ Precedes confirmed t.status
            → transition_status env "t1" confirmed (some "ann") Metadata.no_metadata board
              ≡ (returned none, board)))
    × (get_task "t1" board ≡ none
        → transition_status env "t1" confirmed (some "ann") Metadata.no_metadata board
          ≡ (returned none, board))
transition_status_lem_example =
    transition_status_lem env "t1" (some "ann") Metadata.no_metadata confirmed board

complete_task_lem_example :
    (TaskStatus.running ≡ TaskStatus.running
      → (t' : TaskRecord) × (s' : TaskDb) × (complete_task env "t2" "bot" "done" board
          ≡ (returned (some t'), s'))
        × (get_task "t2" s' ≡ some t')
        × (t'.status ≡ completed)
        × (t'.result ≡ some "done")
        × (t'.completed_at ≡ some 5))
    × (TaskStatus.running ≢ TaskStatus.running
        → (s' : TaskDb) × (complete_task env "t2" "bot" "done" board ≡ (returned none, s'))
          × (get_task "t2" s' ≡ some (record busy { result = some "done"; updated_at = 5 })))
complete_task_lem_example = complete_task_lem env "t2" "bot" "done" board busy busy_is_there refl

claim_task_lem_example :
    (get_active_task_count "bot" board < 3
      → (waiting.status ≡ queued) ⊎ (waiting.status ≡ evaluating)
      → (t' : TaskRecord) × (s' : TaskDb) × (claim_task env "t1" "bot" 3 board
          ≡ (returned (some t'), s'))
        × (get_task "t1" s' ≡ some t')
        × (t' ≡ record waiting { assigned_to = some "bot"; status = dispatched; updated_at = 5 })
        × ((j : String) → j ≢ "t1" → get_task j s' ≡ get_task j board))
    × ((3 ≤ get_active_task_count "bot" board)
          ⊎ ((waiting.status ≢ queued) × (waiting.status ≢ evaluating))
        → claim_task env "t1" "bot" 3 board ≡ (returned none, board))
claim_task_lem_example = claim_task_lem env "t1" "bot" 3 board waiting waiting_is_there

abbrev report_of : String → String → List String → EvaluationReportRecord
report_of id agent claimed = record {
  id = id;
  task_id = "t1";
  agent_id = agent;
  workspace = "w";
  claimed_subtasks = claimed;
  approach = "";
  complexity = "";
  dependencies = [];
  raw_response = "";
  status = ReportStatus.pending;
  review_comment = none;
  created_at = 1;
  updated_at = 1;
}

abbrev two_reports : List EvaluationReportRecord
two_reports = report_of "e1" "bot" ("s1" ∷ []) ∷ report_of "e2" "cat" ("s1" ∷ "s2" ∷ []) ∷ []

claim_subtasks-first_example : value_of "s1" (claim_subtasks two_reports ("s1" ∷ "s2" ∷ []) []) ≡ (
    if exists_where (λ (i : String). i == "s1") ("s1" ∷ "s2" ∷ [])
    then find_where (claims "s1") two_reports
    else none)
claim_subtasks-first_example = claim_subtasks-first two_reports "s1" ("s1" ∷ "s2" ∷ [])
