-- ===== src/Tasks/Methods.antt =====
-- The engine's methods, each as a whole, over the steps of a status that it may make.
use sman_server.Base.{
  ℕ, ◌≡◌, refl, ◌∙◌, String, Bool, true, not, ◌||◌, Option, none, some, List, [], ◌∷◌, ◌==◌,
  string_eq, nat_eq, option_eq, All-append, find_where, find_where-append, exists_where, inl, inr,
  Bool-cases, leb,
}
use sman_server.Tasks.Types.{
  TaskStatus, confirmed, dispatched, evaluating, TaskRecord, EvaluationReportRecord, ReportStatus,
  Metadata, Env, returned, ◌>>=◌, modify, task_status_eq,
}
use sman_server.Tasks.Machine.{get_task, task_with_id, transition_status, insert_event}
use sman_server.Tasks.Store.{
  CreateTaskParams, create_task, insert_task, new_task, new_report, get_active_task_count,
  CreateEvaluationReportParams, create_evaluation_report, insert_report, update_report_status,
  list_evaluation_reports, get_evaluation_report, review_found, set_result,
}
use sman_server.Tasks.Assignments.{claim_task, is_claimable}
use sman_server.Tasks.Engine.{complete_task}
use sman_server.Tasks.Dispatch.{auto_found, dispatch_reports, all_reported}
use sman_server.Tasks.Keeps.{
  Step, Lets, Way, IsStored, Follows, Follows-same, Keeps, bind-Keeps, transition_status-Keeps,
}
use sman_server.Tasks.Moves.{
  if_assigned-Keeps, set_result-Keeps, claim_found-Follows, confirm_and_dispatch-Keeps,
}

module _ {E : Step} (env : Env) where
  pub insert_task-Keeps :
      (p : CreateTaskParams) (id : String) → Keeps E (insert_task (new_task env id p))
  unfolding insert_task get_task find_where
  insert_task-Keeps p id s =
      elim (Bool-cases (exists_where (λ (u : TaskRecord). u.id == id) s.tasks)) [
        | inl o ↦ rw o (Follows-same s s refl)
        | inr o ↦ rw o (record {
          kept = λ j t k. (
            t,
            find_where-append (task_with_id j) s.tasks (new_task env id p ∷ []) ∙ rw k refl,
            Way.stay,
          );
          stored = λ h. All-append IsStored s.tasks (new_task env id p ∷ []) h ((λ e. cc), tt);
        })
      ]

  pub create_task-Keeps : (p : CreateTaskParams) → Keeps E (create_task env p)
  unfolding create_task insert_event
  create_task-Keeps p s =
      let id = env.random_uuid s.draws in
      bind-Keeps (insert_task (new_task env id p))
        (λ _ u. (
          returned (
              get_task id
                (insert_event env id "created" (some p.created_by) (Metadata.of_title p.title) u)),
          insert_event env id "created" (some p.created_by) (Metadata.of_title p.title) u,
        ))
        (insert_task-Keeps p id) (λ _ u. Follows-same u _ refl) s

  pub insert_report-Keeps : (r : EvaluationReportRecord) → Keeps E (insert_report r)
  unfolding insert_report
  insert_report-Keeps r s =
      elim (Bool-cases
        (exists_where (λ (u : EvaluationReportRecord). u.id == r.id) s.evaluation_reports)) [
          | inl o ↦ rw o (Follows-same s s refl)
          | inr o ↦ rw o (Follows-same s _ refl)
        ]

  pub create_evaluation_report-Keeps :
      (p : CreateEvaluationReportParams) → Keeps E (create_evaluation_report env p)
  unfolding create_evaluation_report insert_event
  create_evaluation_report-Keeps p s =
      let id = env.random_uuid s.draws in
      let log =
        insert_event env p.task_id "evaluation_submitted" (some p.agent_id)
          (Metadata.of_report id) in
      bind-Keeps (insert_report (new_report env id p))
        (λ _ u. (returned (get_evaluation_report id (log u)), log u))
        (insert_report-Keeps (new_report env id p)) (λ _ u. Follows-same u _ refl) s

  pub review-Keeps :
      (id : String) (status : ReportStatus) (comment : Option String)
      → Keeps E (update_report_status env id status comment)
  unfolding update_report_status insert_event
  review-Keeps id status comment s = go (get_evaluation_report id s)
    where
      go :
          (o : Option EvaluationReportRecord)
          → Follows E s (review_found env id status comment o s).1
      go none = Follows-same s s refl
      go (some r) = Follows-same s _ refl

  pub dispatch_reports-Keeps :
      (id : String)
      → Lets E id confirmed
      → Lets E id dispatched
      → (t : TaskRecord) (reports : List EvaluationReportRecord)
      → Keeps E (dispatch_reports env id t reports)
  dispatch_reports-Keeps id confirms lets t [] s = Follows-same s s refl
  dispatch_reports-Keeps id confirms lets t (r ∷ rs) s =
      confirm_and_dispatch-Keeps env id confirms lets _ s

  pub auto-Keeps :
      (id : String)
      → Lets E id confirmed
      → Lets E id dispatched
      → (agents : String → ℕ) (force : Bool) (o : Option TaskRecord)
      → Keeps E (auto_found env id agents force o)
  auto-Keeps id confirms lets agents force none s = Follows-same s s refl
  auto-Keeps id confirms lets agents force (some t) s =
      let reports = list_evaluation_reports id s in
      let stop =
        not (t.auto_execute == 1)
        || not (t.status == evaluating)
        || not (all_reported env id force (agents t.room_id) reports) in
      elim (Bool-cases stop) [
        | inl y ↦ rw y (Follows-same s s refl)
        | inr n ↦ rw n (dispatch_reports-Keeps id confirms lets t reports s)
      ]

  pub claim_task-Keeps :
      (id agent : String) (n : ℕ)
      → ((a : TaskStatus) → is_claimable a ≡ true → E id a dispatched)
      → Keeps E (claim_task env id agent n)
  unfolding claim_task
  claim_task-Keeps id agent n claims s = elim (Bool-cases (leb n (get_active_task_count agent s))) [
    | inl y ↦ rw y (Follows-same s s refl)
    | inr y ↦ rw y (claim_found-Follows env id claims agent (get_task id s) s refl)
  ]

  pub complete_task-Keeps :
      (id agent result : String)
      → Lets E id TaskStatus.completed
      → Keeps E (complete_task env id agent result)
  unfolding complete_task
  complete_task-Keeps id agent result lets s =
      let finish =
        transition_status env id TaskStatus.completed (some agent) (Metadata.of_result result) in
      if_assigned-Keeps agent none (modify (set_result env id result) >>= λ _. finish)
        (get_task id s)
        (bind-Keeps (modify (set_result env id result)) (λ _. finish)
          (set_result-Keeps env id result)
          (λ _.
            transition_status-Keeps env id TaskStatus.completed (some agent)
              (Metadata.of_result result) lets))
        s
