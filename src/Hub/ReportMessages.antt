-- ===== src/Hub/ReportMessages.antt =====
-- ws-task-handler.ts: the handlers of the messages evaluation.*.
use sman_server.Base.{String, ◌||◌, Option, none, some, string_eq, nat_eq, if◌then◌else◌}
use sman_server.Base.Texts.{is_empty, or_text}
use sman_server.Tasks.Types.{task_status_eq, TaskRecord, EvaluationReportRecord, ReportStatus}
use sman_server.Tasks.Machine.{get_task}
use sman_server.Tasks.Store.{
  create_evaluation_report, update_report_status, list_evaluation_reports,
  CreateEvaluationReportParams,
}
use sman_server.Hub.Types.{
  AuthedClient, NewReport, task_error, report_reply, report_news, report_list_update,
}
use sman_server.Hub.State.{
  Env, Hub, M, ◌>>=◌, ◌>>◌, modify, gets, in_tasks, tasks_env, broadcast_to_room,
}
use sman_server.Hub.AutoDispatch.{answer, broadcast_auto_dispatch, reply, refuse}

module _ (env : Env) where
  module _ (client : AuthedClient) where
    -- ---- Evaluation reports ----

    abbrev pub report_params : NewReport → CreateEvaluationReportParams
    report_params p = record {
      task_id = p.task_id;
      agent_id = p.agent_id;
      workspace = p.workspace;
      claimed_subtasks = p.claimed_subtasks;
      approach = p.approach;
      complexity = or_text p.complexity "medium";
      dependencies = p.dependencies;
      raw_response = p.raw_response;
    }

    abbrev pub tell_submitted :
        String → Option EvaluationReportRecord → Option TaskRecord → M (Unit {0})
    tell_submitted task_id report none = modify λ h. h
    tell_submitted task_id report (some task) =
        modify
          (broadcast_to_room env task.room_id (report_news "evaluation.submitted" task_id report))
        >> broadcast_auto_dispatch env task_id task.room_id

    abbrev pub submitted : String → Option EvaluationReportRecord → M (Unit {0})
    submitted task_id report =
        modify (reply env client (report_reply "evaluation.submitted" report))
        >> (gets (λ h. get_task task_id h.tasks) >>= tell_submitted task_id report)

    unfoldable pub handle_evaluation_submit : NewReport → M (Unit {0})
    unfolding broadcast_auto_dispatch
    handle_evaluation_submit p =
        if is_empty p.task_id || is_empty p.agent_id || is_empty p.workspace
        then refuse env client "taskId, agentId, workspace are required"
        else in_tasks (create_evaluation_report (tasks_env env) (report_params p))
          >>= submitted p.task_id

    unfoldable pub handle_evaluation_list : String → M (Unit {0})
    handle_evaluation_list task_id =
        if is_empty task_id
        then refuse env client "taskId is required"
        else modify (λ h.
          reply env client (report_list_update task_id (list_evaluation_reports task_id h.tasks)) h)

    abbrev pub tell_room : String → EvaluationReportRecord → Option TaskRecord → Hub → Hub
    tell_room news report none h = h
    tell_room news report (some task) h =
        broadcast_to_room env task.room_id (report_news news task.id (some report)) h

    abbrev pub tell_reviewed : String → Option EvaluationReportRecord → Hub → Hub
    tell_reviewed news none h = reply env client (task_error "Report not found") h
    tell_reviewed news (some report) h =
        tell_room news report (get_task report.task_id h.tasks)
          (reply env client (report_reply news (some report)) h)

    unfoldable pub handle_evaluation_approve : String → M (Unit {0})
    handle_evaluation_approve report_id =
        if is_empty report_id
        then refuse env client "reportId is required"
        else answer (update_report_status (tasks_env env) report_id ReportStatus.approved none)
            (tell_reviewed "evaluation.approved")

    unfoldable pub handle_evaluation_reject : String → Option String → M (Unit {0})
    handle_evaluation_reject report_id comment =
        if is_empty report_id
        then refuse env client "reportId is required"
        else answer (update_report_status (tasks_env env) report_id ReportStatus.rejected comment)
            (tell_reviewed "evaluation.rejected")
