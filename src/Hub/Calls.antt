-- ===== src/Hub/Calls.antt =====
-- What it means that a handler runs the task engine and nothing else on the tasks, and the automatic
-- dispatch as such calls.
use sman_server.Base.{
  String, ◌≡◌, refl, sym, ◌∙◌, Bool, true, false, none, some, List, [], ◌∷◌, ◌++◌, nat_eq,
}
use sman_server.Tasks.Types as Tasks
use sman_server.Tasks.Types.{
  TaskRecord, EvaluationReportRecord, ReportStatus, TaskAssignmentRecord, AssignmentStatus, TaskDb,
  TaskStatus,
}
use sman_server.Tasks.Dispatch.{Dispatched, try_auto_confirm_and_dispatch}
use sman_server.Tasks.History as History
use sman_server.Tasks.Turns.{Call, auto_call}
use sman_server.Hub.Types.{task_news, task_dispatched, dispatched_to}
use sman_server.Hub.State.{
  Env, Hub, Outcome, returned, thrown, M, ◌>>=◌, continue, modify, in_tasks, tasks_env,
  send_to_agent,
}
use sman_server.Hub.AutoDispatch.{
  answer, clear_auto_dispatch_timer, tell_assigned, tell_dispatched, room_agents, auto_dispatch_now,
  auto_dispatch_fires, broadcast_auto_dispatch,
}
use sman_server.Hub.Still.{part, IsStill, broadcast_to_room-IsStill, send_to_agent-IsStill}

abbrev pub Calls : Type 0
Calls = List (Tasks.Env × Call)

pub run-append :
    (xs ys : Calls) (s : TaskDb) → History.run (xs ++ ys) s ≡ History.run ys (History.run xs s)
run-append [] ys s = refl
run-append ((env, c) ∷ xs) ys s = run-append xs ys (History.run_call env c s)

-- Of the part of the hub only the tasks change, by calls of the engine.
abbrev pub RunsTo : Hub → Hub → Type 0
RunsTo h h' = (calls : Calls) × (part h' ≡ record (part h) { tasks = History.run calls h.tasks })

pub record Runs {A : Type 0} (m : M A) : Type 0 where
  pub to : (h : Hub) → RunsTo h (m h).1

pub still-RunsTo : (h h' : Hub) → part h' ≡ part h → RunsTo h h'
still-RunsTo h h' e = ([], e)

pub RunsTo-trans : (h g k : Hub) → RunsTo h g → RunsTo g k → RunsTo h k
RunsTo-trans h g k (xs, e) (ys, d) = (
  xs ++ ys,
  d ∙ rw (run-append xs ys h.tasks) (λ i. record (e i) { tasks = History.run ys (e i).tasks }),
)

module _ {A B : Type 0} where
  pub continue-RunsTo :
      (h : Hub) (k : A → M B) (r : Outcome A × Hub)
      → RunsTo h r.1
      → ((a : A) → Runs (k a))
      → RunsTo h (continue k r).1
  continue-RunsTo h k (returned a, g) e f = RunsTo-trans h g (k a g).1 e ((f a).to g)
  continue-RunsTo h k (thrown t, g) e f = e

  pub bind-Runs : (m : M A) (k : A → M B) → Runs m → ((a : A) → Runs (k a)) → Runs (m >>= k)
  bind-Runs m k e f = record { to = λ h. continue-RunsTo h k (m h) (e.to h) f }

pub modify-Runs : (f : Hub → Hub) → IsStill f → Runs (modify f)
modify-Runs f e = record { to = λ h. still-RunsTo h (f h) (e h) }

-- One call of the engine, and what is sent for its result.
pub in_tasks-Runs :
    {A : Type 0} (m : Tasks.M A) (env : Tasks.Env) (c : Call)
    → ((s : TaskDb) → History.run_call env c s ≡ (m s).1)
    → Runs (in_tasks m)
in_tasks-Runs m env c e = record {
  to = λ h. ((env, c) ∷ [], λ i. record (part h) { tasks = sym (e h.tasks) i });
}

pub answer-Runs :
    {A : Type 0} (m : Tasks.M A) (f : A → Hub → Hub) (env : Tasks.Env) (c : Call)
    → ((s : TaskDb) → History.run_call env c s ≡ (m s).1)
    → ((a : A) → IsStill (f a))
    → Runs (answer m f)
answer-Runs m f env c e still =
    bind-Runs (in_tasks m) (λ a. modify (f a)) (in_tasks-Runs m env c e)
      (λ a. modify-Runs (f a) (still a))

module _ (env : Env) where
  pub tell_assigned-IsStill :
      (task : TaskRecord) (assignments : List TaskAssignmentRecord)
      → IsStill (tell_assigned env task assignments)
  unfolding tell_assigned
  tell_assigned-IsStill task [] h = refl
  tell_assigned-IsStill task (a ∷ rest) h =
      tell_assigned-IsStill task rest (send_to_agent env a.agent_id (dispatched_to task a) h)
      ∙ send_to_agent-IsStill env a.agent_id (dispatched_to task a) h

  pub tell_dispatched-IsStill :
      (room_id : String) (d : Dispatched) → IsStill (tell_dispatched env room_id d)
  tell_dispatched-IsStill room_id none h = refl
  tell_dispatched-IsStill room_id (some (task, assignments)) h =
      tell_assigned-IsStill task assignments _
      ∙ broadcast_to_room-IsStill env room_id (task_dispatched task assignments) _
      ∙ broadcast_to_room-IsStill env room_id (task_news "task.confirmed" task) h

  pub auto_dispatch_now-Runs :
      (task_id room_id : String) (force : Bool) → Runs (auto_dispatch_now env task_id room_id force)
  auto_dispatch_now-Runs task_id room_id force = record {
    to = λ h.
        (answer-Runs
            (try_auto_confirm_and_dispatch (tasks_env env) task_id (room_agents env h) force)
            (tell_dispatched env room_id) (tasks_env env)
            (auto_call task_id (room_agents env h) force) (λ s. refl)
            (tell_dispatched-IsStill room_id)).to
          h;
  }

  pub clear_auto_dispatch_timer-IsStill :
      (task_id : String) → IsStill (clear_auto_dispatch_timer env task_id)
  unfolding clear_auto_dispatch_timer
  clear_auto_dispatch_timer-IsStill task_id h = refl

  pub auto_dispatch_fires-Runs :
      (task_id room_id : String) → Runs (auto_dispatch_fires env task_id room_id)
  unfolding auto_dispatch_fires
  auto_dispatch_fires-Runs task_id room_id =
      bind-Runs (modify (clear_auto_dispatch_timer env task_id))
        (λ _. auto_dispatch_now env task_id room_id true)
        (modify-Runs _ (clear_auto_dispatch_timer-IsStill task_id))
        (λ _. auto_dispatch_now-Runs task_id room_id true)

  pub broadcast_auto_dispatch-Runs :
      (task_id room_id : String) → Runs (broadcast_auto_dispatch env task_id room_id)
  unfolding broadcast_auto_dispatch
  broadcast_auto_dispatch-Runs task_id room_id =
      bind-Runs (modify (clear_auto_dispatch_timer env task_id))
        (λ _. auto_dispatch_now env task_id room_id false)
        (modify-Runs _ (clear_auto_dispatch_timer-IsStill task_id))
        (λ _. auto_dispatch_now-Runs task_id room_id false)
