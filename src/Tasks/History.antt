-- ===== src/Tasks/History.antt =====
-- Any history of the tasks: calls of the engine's methods, in any order, each with its own clock and
-- random draws, whether they return or throw.
use sman_server.Base.{
  All, ◌≡◌, ◌≢◌, refl, String, true, false, not, ◌&&◌, Option, none, some, some-injective, List, [],
  ◌∷◌, ◌==◌, string_eq, nat_eq, option_eq, arith, find_where-All, exists_where, ◌⊎◌, inl, inr,
}
use sman_server.Tasks.Types.{
  TaskStatus, queued, stopping, cancelled, confirmed, dispatched, evaluating, TaskRecord, Metadata,
  TaskDb, Env, returned, thrown, modify, task_status_eq, empty_tasks, check_status,
}
use sman_server.Tasks.Machine.{
  allows, get_task, task_with_id, transition_status, transition_found, write_status, insert_event,
  valid_transitions, status_is_storable,
}
use sman_server.Tasks.Store.{create_task, create_evaluation_report, update_report_status}
use sman_server.Tasks.Assignments.{claim_task, update_assignment_status, is_claimable}
use sman_server.Tasks.Engine.{
  cancel_task, stop_task, reject_task, confirm_task, start_task, report_progress, complete_task,
  fail_task, dispatch_task,
}
use sman_server.Tasks.Dispatch.{try_auto_confirm_and_dispatch}
use sman_server.Tasks.Methods.{
  create_task-Keeps, create_evaluation_report-Keeps, review-Keeps, auto-Keeps, claim_task-Keeps,
  complete_task-Keeps,
}
use sman_server.Tasks.Turns.{
  Call, create_call, cancel_call, stop_call, confirm_call, start_call, reject_call, claim_call,
  progress_call, complete_call, fail_call, report_call, review_call, dispatch_call, auto_call,
  assignment_call, To, Turns, Moves, Turns-Moves, allows-Precedes,
}
use sman_server.Tasks.Keeps.{
  Lets, Way-trans, Way, IsStored, Follows, Follows-same, transition_status-Keeps,
}
use sman_server.Tasks.Moves.{
  if_assigned-Keeps, insert_event-Keeps, cancel_found-Keeps, stop_found-Keeps, fail_found-Keeps,
  dispatch_task-Keeps,
}

abbrev pub run_call : Env → Call → TaskDb → TaskDb
run_call env (create_call p) s = (create_task env p s).1
run_call env (cancel_call id by) s = (cancel_task env id by s).1
run_call env (stop_call id actor) s = (stop_task env id actor s).1
run_call env (confirm_call id actor) s = (confirm_task env id actor s).1
run_call env (start_call id agent) s = (start_task env id agent s).1
run_call env (reject_call id actor reason) s = (reject_task env id actor reason s).1
run_call env (claim_call id agent n) s = (claim_task env id agent n s).1
run_call env (progress_call id agent text) s = (report_progress env id agent text s).1
run_call env (complete_call id agent result) s = (complete_task env id agent result s).1
run_call env (fail_call id agent error) s = (fail_task env id agent error s).1
run_call env (report_call p) s = (create_evaluation_report env p s).1
run_call env (review_call id status comment) s = (update_report_status env id status comment s).1
run_call env (dispatch_call id assignments actor) s = (dispatch_task env id assignments actor s).1
run_call env (auto_call id agents force) s = (try_auto_confirm_and_dispatch env id agents force s).1
run_call env (assignment_call id status) s = update_assignment_status id status s

abbrev pub run : List (Env × Call) → TaskDb → TaskDb
run [] s = s
run ((env, c) ∷ rest) s = run rest (run_call env c s)

-- A transition to a status is one of the call's turns where the table of the call has it.
to : (n : TaskStatus) (id : String) → Lets (To n id) id n
to n id e a h = (refl, refl, allows-Precedes a n h)

run_call-Follows : (env : Env) (c : Call) (s : TaskDb) → Follows (Turns c) s (run_call env c s)
unfolding cancel_task stop_task reject_task confirm_task start_task report_progress fail_task
    try_auto_confirm_and_dispatch update_assignment_status
run_call-Follows env (create_call p) s = create_task-Keeps env p s
run_call-Follows env (cancel_call id by) s =
    cancel_found-Keeps env id (to cancelled id) by (get_task id s) s
run_call-Follows env (stop_call id actor) s = stop_found-Keeps env id actor (get_task id s) s
run_call-Follows env (confirm_call id actor) s =
    transition_status-Keeps env id confirmed (some actor) Metadata.no_metadata (to confirmed id) s
run_call-Follows env (start_call id agent) s =
    if_assigned-Keeps agent none
      (transition_status env id TaskStatus.running (some agent) Metadata.no_metadata)
      (get_task id s)
      (transition_status-Keeps env id TaskStatus.running (some agent) Metadata.no_metadata
        (to TaskStatus.running id))
      s
run_call-Follows env (reject_call id actor reason) s =
    transition_status-Keeps env id TaskStatus.rejected (some actor) (Metadata.of_reason reason)
      (to TaskStatus.rejected id) s
run_call-Follows env (claim_call id agent n) s =
    claim_task-Keeps env id agent n (λ a h. (refl, refl, open_to a h)) s
  where
    open_to : (a : TaskStatus) → is_claimable a ≡ true → (a ≡ queued) ⊎ (a ≡ evaluating)
    open_to a h = ground arith
run_call-Follows env (progress_call id agent text) s =
    if_assigned-Keeps agent tt
      (modify (insert_event env id "progress" (some agent) (Metadata.of_progress text)))
      (get_task id s)
      (insert_event-Keeps env id "progress" (some agent) (Metadata.of_progress text)) s
run_call-Follows env (complete_call id agent result) s =
    complete_task-Keeps env id agent result (to TaskStatus.completed id) s
run_call-Follows env (fail_call id agent error) s =
    fail_found-Keeps env id (λ e a h. inl (to TaskStatus.failed id e a h))
      (λ e a h. inr (to evaluating id e a h)) agent error (get_task id s) s
run_call-Follows env (report_call p) s = create_evaluation_report-Keeps env p s
run_call-Follows env (review_call id status comment) s = review-Keeps env id status comment s
run_call-Follows env (dispatch_call id assignments actor) s =
    dispatch_task-Keeps env id (to dispatched id) assignments actor s
run_call-Follows env (auto_call id agents force) s =
    auto-Keeps env id (λ e a h. inl (to confirmed id e a h)) (λ e a h. inr (to dispatched id e a h))
      agents force (get_task id s) s
run_call-Follows env (assignment_call id status) s = Follows-same s _ refl

-- The statuses of a task of an id along a list of calls.
pub data Story (id : String) : List (Env × Call) → TaskStatus → TaskStatus → Type 0 where
  over : {a : TaskStatus} → Story id [] a a
  next :
      {env : Env} {c : Call} {rest : List (Env × Call)} {a b d : TaskStatus}
      → Way (Turns c) id a b
      → Story id rest b d
      → Story id ((env, c) ∷ rest) a d

-- Whatever is called, in whatever order, whether it returns or throws: no task is lost, and each call
-- moves the status of its own task only, and only as the table of the call says. Cancelling takes any
-- status but completed, failed and cancelled to cancelled; confirming takes evaluating to confirmed,
-- rejecting evaluating to rejected, starting dispatched to running, completing running to completed;
-- a claim takes queued or evaluating to dispatched; failing takes dispatched, running or stopping to
-- failed, and for a retry failed or draft on to evaluating; dispatching takes confirmed or queued to
-- dispatched, the automatic dispatch also evaluating to confirmed first; and no other call, a stop
-- included, moves a status.
pub run-Story :
    (calls : List (Env × Call)) (s : TaskDb) (id : String) (t : TaskRecord)
    → get_task id s ≡ some t
    → (t' : TaskRecord) × (get_task id (run calls s) ≡ some t') × Story id calls t.status t'.status
run-Story [] s id t k = (t, k, Story.over)
run-Story ((env, c) ∷ rest) s id t k =
    let (u, ku, w) = (run_call-Follows env c s).kept id t k in
    let (t', kt, v) = run-Story rest (run_call env c s) id u ku in (t', kt, Story.next w v)

run-stored :
    (calls : List (Env × Call)) (s : TaskDb)
    → All IsStored s.tasks
    → All IsStored (run calls s).tasks
run-stored [] s h = h
run-stored ((env, c) ∷ rest) s h =
    run-stored rest (run_call env c s) ((run_call-Follows env c s).stored h)

-- The steps of all calls together.
turns : (c : Call) {id : String} {a b : TaskStatus} → Way (Turns c) id a b → Way Moves id a b
turns c Way.stay = Way.stay
turns c {id} (Way.move {b} {c = d} w h) = Way.move (turns c w) (Turns-Moves c id b d h)

story :
    {id : String} {calls : List (Env × Call)} {a b : TaskStatus}
    → Story id calls a b
    → Way Moves id a b
story Story.over = Way.stay
story (Story.next {c} w v) = Way-trans (turns c w) (story v)

pub run-Way :
    (calls : List (Env × Call)) (s : TaskDb) (id : String) (t : TaskRecord)
    → get_task id s ≡ some t
    → (t' : TaskRecord) × (get_task id (run calls s) ≡ some t') × Way Moves id t.status t'.status
run-Way calls s id t k = let (t', k', w) = run-Story calls s id t k in (t', k', story w)

final-Way :
    {id : String} {a b : TaskStatus}
    → (a ≡ TaskStatus.completed) ⊎ (a ≡ cancelled)
    → Way Moves id a b
    → b ≡ a
final-Way f Way.stay = refl
final-Way {id} f (Way.move {b} {c} w h) = absurd (stuck b c h (final-Way f w) f)
  where
    stuck :
        {a : TaskStatus} (b c : TaskStatus)
        → Moves id b c
        → b ≡ a
        → (a ≡ TaskStatus.completed) ⊎ (a ≡ cancelled)
        → ⊥
    stuck b c = ground arith

-- A completed task stays completed and a cancelled task cancelled, whatever is called.
pub run-final :
    (calls : List (Env × Call)) (s : TaskDb) (id : String) (t : TaskRecord)
    → get_task id s ≡ some t
    → (t.status ≡ TaskStatus.completed) ⊎ (t.status ≡ cancelled)
    → (t' : TaskRecord) × (get_task id (run calls s) ≡ some t') × (t'.status ≡ t.status)
run-final calls s id t k f = let (t', k', w) = run-Way calls s id t k in (t', k', final-Way f w)

-- From an empty database no call ever stores a task that is stopping.
pub run-never_stopping :
    (calls : List (Env × Call)) (id : String) (t : TaskRecord)
    → get_task id (run calls empty_tasks) ≡ some t
    → t.status ≢ stopping
unfolding get_task
run-never_stopping calls id t k =
    find_where-All IsStored (task_with_id id) _ (run-stored calls empty_tasks tt) k

module _ (env : Env) (id actor : String) (s : TaskDb) where
  stopping_found :
      (t : TaskRecord) (o : Option TaskRecord)
      → o ≡ some t
      → allows t.status stopping ≡ true
      → transition_found env id stopping (some actor) Metadata.no_metadata o s
        ≡ (thrown check_status, s)
  unfolding transition_found write_status status_is_storable
  stopping_found t none k h = absurd (cc (k))
  stopping_found t (some u) k h = rw (some-injective _ _ k, h) refl

  stop_allowed :
      (a : TaskStatus)
      → (a ≡ dispatched) ⊎ (a ≡ TaskStatus.running)
      → (allows a stopping ≡ true)
        × ((not (a == dispatched) && not (a == TaskStatus.running)) ≡ false)
  unfolding allows valid_transitions exists_where
  stop_allowed a h = ground arith

  stop_null :
      (a : TaskStatus)
      → a ≢ dispatched
      → a ≢ TaskStatus.running
      → (not (a == dispatched) && not (a == TaskStatus.running)) ≡ true
  stop_null a h k = ground arith

  -- stopTask never stops a task: on a dispatched or a running task it throws, since the table refuses
  -- the status; on any other, and where there is no task, it returns null; and it never writes.
  pub stop_task_lem :
      ((t : TaskRecord)
        → get_task id s ≡ some t
        → ((t.status ≡ dispatched) ⊎ (t.status ≡ TaskStatus.running)
            → stop_task env id actor s ≡ (thrown check_status, s))
          × (t.status ≢ dispatched
              → t.status ≢ TaskStatus.running
              → stop_task env id actor s ≡ (returned none, s)))
      × (get_task id s ≡ none → stop_task env id actor s ≡ (returned none, s))
  unfolding stop_task transition_status
  stop_task_lem = (
    λ t k. (
      λ h. let (a, b) = stop_allowed t.status h in rw (k, b) (stopping_found t (get_task id s) k a),
      λ h g. rw (k, stop_null t.status h g) refl,
    ),
    λ k. rw k refl,
  )
