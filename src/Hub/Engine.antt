-- ===== src/Hub/Engine.antt =====
-- The handlers of ws-task-handler.ts run the task engine and nothing else on the tasks: every message
-- is a list of the engine's calls.
use sman_server.Base.{
  String, ◌≡◌, refl, ◌∙◌, Bool, true, false, Bool-cases, Option, none, some, List, [], ◌∷◌, ◌==◌,
  ◌||◌, inl, inr, if◌then◌else◌, nat_eq,
}
use sman_server.Base.Maps.{has_key}
use sman_server.Base.Texts.{is_empty, or_text}
use sman_server.Tasks.Types as Tasks
use sman_server.Tasks.Types.{
  TaskRecord, EvaluationReportRecord, ReportStatus, TaskAssignmentRecord, AssignmentStatus, TaskDb,
  TaskStatus,
}
use sman_server.Tasks.Machine.{get_task}
use sman_server.Tasks.Store.{create_task}
use sman_server.Tasks.Dispatch.{Dispatched}
use sman_server.Tasks.Assignments.{get_assignments}
use sman_server.Tasks.History as History
use sman_server.Tasks.Turns.{
  Call, create_call, cancel_call, stop_call, confirm_call, start_call, reject_call, claim_call,
  progress_call, complete_call, fail_call, report_call, review_call, dispatch_call, assignment_call,
}
use sman_server.Hub.Types.{
  AuthedClient, NewTask, TaskMessage, create, claim, start, progress, complete, fail, cancel, stop,
  confirm, detail, list_reports, approve, stop_ack, list, reject, reject_report, dispatch,
  submit_report, TaskDetail, Message, task_error, task_news, task_created, task_progress,
  task_dispatched, stopping_to, report_news, report_reply,
}
use sman_server.Hub.State.{
  Env, Hub, M, ◌>>=◌, modify, gets, in_tasks, tasks_env, broadcast_to_room, send_to_agent,
}
use sman_server.Hub.AutoDispatch.{
  answer, schedule_auto_dispatch_fallback, broadcast_auto_dispatch, reply, refuse,
}
use sman_server.Hub.ReportMessages.{
  report_params, tell_submitted, submitted, handle_evaluation_submit, handle_evaluation_list,
  tell_room, tell_reviewed, handle_evaluation_approve, handle_evaluation_reject,
}
use sman_server.Hub.TaskMessages.{
  create_params, tell_created, created_task, catch_created, handle_create, tell, concurrency,
  handle_claim, handle_start, tell_progress, handle_progress, handle_complete, tell_failed,
  handle_fail, handle_cancel, tell_stopping, tell_stopped, handle_stop, assignment_of,
  handle_stop_ack, handle_list, get_task_detail, tell_detail, handle_detail, handle_confirm,
  handle_reject, tell_manual, handle_dispatch, handle,
}
use sman_server.Hub.Still.{
  part, IsStill, send-IsStill, broadcast_to_room-IsStill, send_to_agent-IsStill,
}
use sman_server.Hub.Calls.{
  RunsTo, Runs, bind-Runs, modify-Runs, in_tasks-Runs, answer-Runs, tell_assigned-IsStill,
  broadcast_auto_dispatch-Runs,
}

module _ (env : Env) where
  module _ (client : AuthedClient) where
    reply-IsStill : (msg : Message) → IsStill (reply env client msg)
    reply-IsStill msg = send-IsStill env client.ws msg

    refuse-Runs : (reason : String) → Runs (refuse env client reason)
    refuse-Runs reason = modify-Runs _ (reply-IsStill (task_error reason))

    -- A guard of the message, and what follows where it passes.
    guarded-Runs :
        (b : Bool) (reason : String) (m : M (Unit {0}))
        → Runs m
        → Runs (if b then refuse env client reason else m)
    guarded-Runs true reason m r = refuse-Runs reason
    guarded-Runs false reason m r = r

    tell_created-IsStill :
        (room_id : String) (o : Option TaskRecord) → IsStill (tell_created env client room_id o)
    tell_created-IsStill room_id o h =
        broadcast_to_room-IsStill env room_id (task_created o) _ ∙ reply-IsStill (task_created o) h

    schedule-IsStill :
        (task_id room_id : String) → IsStill (schedule_auto_dispatch_fallback env task_id room_id)
    unfolding schedule_auto_dispatch_fallback
    schedule-IsStill task_id room_id h = elim (Bool-cases (has_key task_id h.auto_dispatch)) [
      | inl y ↦ rw y refl
      | inr n ↦ rw n refl
    ]

    created_task-IsStill :
        (room_id : String) (o : Option TaskRecord) → IsStill (created_task env client room_id o)
    created_task-IsStill room_id none h = reply-IsStill _ _ ∙ tell_created-IsStill room_id none h
    created_task-IsStill room_id (some t) h =
        let told = tell_created env client room_id (some t) h in
        elim (t.auto_execute == 1)
          as (λ b.
            part (if b then schedule_auto_dispatch_fallback env t.id room_id told else told)
            ≡ part h) [
              | true ↦ schedule-IsStill t.id room_id told ∙ tell_created-IsStill room_id (some t) h
              | false ↦ tell_created-IsStill room_id (some t) h
            ]

    catch_created-part :
        (room_id : String) (r : Tasks.Outcome (Option TaskRecord) × TaskDb) (h : Hub)
        → part (catch_created env client room_id r h) ≡ record (part h) { tasks = r.1 }
    catch_created-part room_id (Tasks.returned task, s) h =
        created_task-IsStill room_id task (record h { tasks = s })
    catch_created-part room_id (Tasks.thrown f, s) h = reply-IsStill _ (record h { tasks = s })

    handle_create-Runs : (p : NewTask) → Runs (handle_create env client p)
    unfolding handle_create
    handle_create-Runs p = record {
      to = λ h.
          elim (is_empty p.room_id || is_empty p.title)
            as (λ b.
              RunsTo h
                (if b
                  then refuse env client "roomId and title are required" h
                  else modify
                      (catch_created env client p.room_id
                        (create_task (tasks_env env) (create_params env client p) h.tasks))
                      h).1) [
                        | true ↦ (refuse-Runs "roomId and title are required").to h
                        | false ↦ (
                          (tasks_env env, create_call (create_params env client p)) ∷ [],
                          catch_created-part p.room_id
                              (create_task (tasks_env env) (create_params env client p) h.tasks) h,
                        )
                      ];
    }

    tell-IsStill :
        (refusal : Message) (answered news : String) (o : Option TaskRecord)
        → IsStill (tell env client refusal answered news o)
    tell-IsStill refusal answered news none h = reply-IsStill refusal h
    tell-IsStill refusal answered news (some t) h =
        broadcast_to_room-IsStill env t.room_id (task_news news t) _
        ∙ reply-IsStill (task_news answered t) h

    -- A call of the engine that answers with the task.
    tell-Runs :
        (m : Tasks.M (Option TaskRecord)) (c : Call) (refusal : Message) (answered news : String)
        → ((s : TaskDb) → History.run_call (tasks_env env) c s ≡ (m s).1)
        → Runs (answer m (tell env client refusal answered news))
    tell-Runs m c refusal answered news e =
        answer-Runs m (tell env client refusal answered news) (tasks_env env) c e
          (tell-IsStill refusal answered news)

    tell_progress-IsStill :
        (task_id agent_id text : String) (o : Option TaskRecord)
        → IsStill (tell_progress env client task_id agent_id text o)
    tell_progress-IsStill task_id agent_id text none h = refl
    tell_progress-IsStill task_id agent_id text (some t) h =
        broadcast_to_room-IsStill env t.room_id (task_progress task_id agent_id text) h

    tell_failed-IsStill : (o : Option TaskRecord) → IsStill (tell_failed env client o)
    tell_failed-IsStill none h = reply-IsStill (task_error "Cannot fail task") h
    tell_failed-IsStill (some t) h =
        broadcast_to_room-IsStill env t.room_id _ _ ∙ reply-IsStill (task_news "task.failed" t) h

    tell_stopping-IsStill :
        (task_id : String) (assignments : List TaskAssignmentRecord)
        → IsStill (tell_stopping env client task_id assignments)
    unfolding tell_stopping
    tell_stopping-IsStill task_id [] h = refl
    tell_stopping-IsStill task_id (a ∷ rest) h =
        tell_stopping-IsStill task_id rest
          (send_to_agent env a.agent_id (stopping_to task_id a.agent_id) h)
        ∙ send_to_agent-IsStill env a.agent_id (stopping_to task_id a.agent_id) h

    tell_stopped-IsStill :
        (task_id : String) (o : Option TaskRecord) → IsStill (tell_stopped env client task_id o)
    tell_stopped-IsStill task_id none h = reply-IsStill _ h
    tell_stopped-IsStill task_id (some t) h =
        tell_stopping-IsStill task_id (get_assignments task_id h.tasks) _
        ∙ broadcast_to_room-IsStill env t.room_id (task_news "task.stopping" t) _
        ∙ reply-IsStill (task_news "task.stopping" t) h

    tell_detail-IsStill : (o : Option TaskDetail) → IsStill (tell_detail env client o)
    tell_detail-IsStill none h = reply-IsStill _ h
    tell_detail-IsStill (some d) h = reply-IsStill _ h

    tell_manual-IsStill : (d : Dispatched) → IsStill (tell_manual env client d)
    tell_manual-IsStill none h = reply-IsStill _ h
    tell_manual-IsStill (some (t, assignments)) h =
        tell_assigned-IsStill env t assignments _
        ∙ broadcast_to_room-IsStill env t.room_id (task_dispatched t assignments) _
        ∙ reply-IsStill (task_dispatched t assignments) h

    tell_submitted-Runs :
        (task_id : String) (report : Option EvaluationReportRecord) (o : Option TaskRecord)
        → Runs (tell_submitted env client task_id report o)
    tell_submitted-Runs task_id report none = modify-Runs _ (λ h. refl)
    tell_submitted-Runs task_id report (some t) =
        bind-Runs
          (modify
            (broadcast_to_room env t.room_id (report_news "evaluation.submitted" task_id report)))
          (λ _. broadcast_auto_dispatch env task_id t.room_id)
          (modify-Runs _ (
            broadcast_to_room-IsStill env t.room_id
              (report_news "evaluation.submitted" task_id report)))
          (λ _. broadcast_auto_dispatch-Runs env task_id t.room_id)

    submitted-Runs :
        (task_id : String) (report : Option EvaluationReportRecord)
        → Runs (submitted env client task_id report)
    submitted-Runs task_id report =
        bind-Runs (modify (reply env client (report_reply "evaluation.submitted" report)))
          (λ _. gets (λ h. get_task task_id h.tasks) >>= tell_submitted env client task_id report)
          (modify-Runs _ (reply-IsStill (report_reply "evaluation.submitted" report)))
          (λ _. record {
            to = λ h. (tell_submitted-Runs task_id report (get_task task_id h.tasks)).to h;
          })

    tell_room-IsStill :
        (news : String) (report : EvaluationReportRecord) (o : Option TaskRecord)
        → IsStill (tell_room env client news report o)
    tell_room-IsStill news report none h = refl
    tell_room-IsStill news report (some t) h =
        broadcast_to_room-IsStill env t.room_id (report_news news t.id (some report)) h

    tell_reviewed-IsStill :
        (news : String) (o : Option EvaluationReportRecord)
        → IsStill (tell_reviewed env client news o)
    tell_reviewed-IsStill news none h = reply-IsStill _ h
    tell_reviewed-IsStill news (some r) h =
        tell_room-IsStill news r (get_task r.task_id h.tasks) _
        ∙ reply-IsStill (report_reply news (some r)) h

    -- Every message on tasks or evaluations is a list of calls of the engine.
    pub handle-Runs : (m : TaskMessage) → Runs (handle env client m)
    unfolding handle handle_claim handle_start handle_progress handle_complete handle_fail
        handle_cancel handle_stop handle_stop_ack handle_list handle_detail handle_confirm
        handle_reject handle_dispatch handle_evaluation_submit handle_evaluation_list
        handle_evaluation_approve handle_evaluation_reject
    handle-Runs (create p) = handle_create-Runs p
    handle-Runs (claim id agent n) =
        guarded-Runs (is_empty id || is_empty agent) _ _
          (tell-Runs _ (claim_call id agent (concurrency env client n)) _ _ _ (λ s. refl))
    handle-Runs (start id agent) = tell-Runs _ (start_call id agent) _ _ _ (λ s. refl)
    handle-Runs (progress id agent text) =
        bind-Runs (in_tasks _) _
          (in_tasks-Runs _ (tasks_env env) (progress_call id agent text) (λ s. refl))
          (λ _. modify-Runs _ (λ h. tell_progress-IsStill id agent text (get_task id h.tasks) h))
    handle-Runs (complete id agent text) =
        tell-Runs _ (complete_call id agent text) _ _ _ (λ s. refl)
    handle-Runs (fail id agent text) =
        answer-Runs _ _ (tasks_env env) (fail_call id agent (or_text text "Unknown error"))
          (λ s. refl) tell_failed-IsStill
    handle-Runs (cancel id) = tell-Runs _ (cancel_call id client.client_id) _ _ _ (λ s. refl)
    handle-Runs (stop id) =
        answer-Runs _ _ (tasks_env env) (stop_call id client.client_id) (λ s. refl)
          (tell_stopped-IsStill id)
    handle-Runs (confirm id) =
        guarded-Runs (is_empty id) _ _
          (tell-Runs _ (confirm_call id client.client_id) _ _ _ (λ s. refl))
    handle-Runs (detail id) =
        modify-Runs _ (λ h. tell_detail-IsStill (get_task_detail env client id h.tasks) h)
    handle-Runs (list_reports id) =
        guarded-Runs (is_empty id) _ _ (modify-Runs _ (λ h. reply-IsStill _ h))
    handle-Runs (approve id) = guarded-Runs (is_empty id) _ _ (
        answer-Runs _ _ (tasks_env env) (review_call id ReportStatus.approved none) (λ s. refl)
          (tell_reviewed-IsStill "evaluation.approved"))
    handle-Runs (stop_ack id agent) = record {
      to = λ h. (
        (
          tasks_env env,
          assignment_call (assignment_of env client id agent h.tasks) AssignmentStatus.failed,
        )
            ∷ [],
        refl,
      );
    }
    handle-Runs (list room_id status) =
        guarded-Runs (is_empty room_id) _ _ (modify-Runs _ (λ h. reply-IsStill _ h))
    handle-Runs (reject id reason) =
        guarded-Runs (is_empty id) _ _
          (tell-Runs _ (reject_call id client.client_id reason) _ _ _ (λ s. refl))
    handle-Runs (reject_report id comment) = guarded-Runs (is_empty id) _ _ (
        answer-Runs _ _ (tasks_env env) (review_call id ReportStatus.rejected comment) (λ s. refl)
          (tell_reviewed-IsStill "evaluation.rejected"))
    handle-Runs (dispatch id []) = refuse-Runs _
    handle-Runs (dispatch id (a ∷ rest)) = guarded-Runs (is_empty id) _ _ (
        answer-Runs _ _ (tasks_env env) (dispatch_call id (a ∷ rest) client.client_id) (λ s. refl)
          tell_manual-IsStill)
    handle-Runs (submit_report p) =
        guarded-Runs (is_empty p.task_id || is_empty p.agent_id || is_empty p.workspace) _ _ (
          bind-Runs (in_tasks _) _
            (in_tasks-Runs _ (tasks_env env) (report_call (report_params env client p)) (λ s. refl))
            (submitted-Runs p.task_id))
