-- ===== src/Scheduler.antt =====
-- skill-scheduler.ts: the scheduler as a record with its methods. The workspaces that HubDB finds, the
-- clock, and the last part of a path are arguments; the timer that calls `tick` is not modelled.
pub mod Commands
mod Tests
use sman_server.Base.{
  ℕ, ◌+◌, ◌-◌, String, Bool, true, false, not, ◌&&◌, ◌||◌, Option, none, some, List, [], ◌∷◌, ◌++◌,
  ◌==◌, string_eq, nat_eq, option_eq, or_default, exists_where, length, if◌then◌else◌, ltb,
}
use sman_server.Base.Int.{ℤ, pos, ltb_ℤ, leb_ℤ}
use sman_server.Base.Maps.{set_entry, delete_entry, value_of}

abbrev pub equals : ℤ → ℤ → Bool
equals a b = leb_ℤ a b && leb_ℤ b a

pub data DispatchStatus : Type 0 where
  dispatched skipped : DispatchStatus

pub record DispatchLog : Type 0 where
  pub date : ℕ
  pub workspace : String
  pub project_name : String
  pub client_id : String
  pub hostname : String
  pub status : DispatchStatus
  pub reason : Option String

pub record SkillScheduler : Type 0 where
  pub last_run_date : Option String
  pub enabled : Bool
  pub logs : List DispatchLog
  pub schedule_hour : ℤ
  pub schedule_minute : ℤ
  pub pending_commands : List (String × List String)

abbrev pub max_logs : ℕ
max_logs = 500

unfoldable pub new_scheduler : Option ℤ → Option ℤ → SkillScheduler
new_scheduler hour minute = record {
  last_run_date = none;
  enabled = false;
  logs = [];
  schedule_hour = or_default hour (pos 3);
  schedule_minute = or_default minute (pos 3);
  pending_commands = [];
}

-- The local hours and minutes, the date of `toISOString`, and the time.
pub record Clock : Type 0 where
  pub hours : ℕ
  pub minutes : ℕ
  pub today : String
  pub now : ℕ

pub record Client : Type 0 where
  pub client_id : String
  pub hostname : String

pub record ActiveWorkspace : Type 0 where
  pub workspace : String
  pub clients : List Client

unfoldable pub set_enabled : Bool → SkillScheduler → SkillScheduler
set_enabled v s = record s { enabled = v }

-- `none` where it throws.
unfoldable pub set_schedule : ℤ → ℤ → SkillScheduler → Option SkillScheduler
set_schedule hour minute s =
    if ltb_ℤ hour (pos 0) || ltb_ℤ (pos 23) hour || ltb_ℤ minute (pos 0) || ltb_ℤ (pos 59) minute
    then none
    else some (record s { schedule_hour = hour; schedule_minute = minute })

-- `arr.slice(-n)`, for n from 1.
pub drop_logs : ℕ → List DispatchLog → List DispatchLog
drop_logs n [] = []
drop_logs n (l ∷ ls) = if n == 0 then l ∷ ls else drop_logs (n - 1) ls

unfoldable pub last_logs : ℕ → List DispatchLog → List DispatchLog
last_logs n ls = drop_logs (length ls - n) ls

unfoldable pub get_logs : ℕ → SkillScheduler → List DispatchLog
get_logs limit s = last_logs limit s.logs

unfoldable pub add_log : DispatchLog → SkillScheduler → SkillScheduler
add_log log s =
    let logs = s.logs ++ log ∷ [] in
    record s { logs = if ltb max_logs (length logs) then last_logs max_logs logs else logs }

-- getCommands: the commands are given once.
unfoldable pub commands_of :
    String → Option (List String) → SkillScheduler → List String × SkillScheduler
commands_of client_id none s = ([], s)
commands_of client_id (some workspaces) s =
    (workspaces, record s { pending_commands = delete_entry client_id s.pending_commands })

unfoldable pub get_commands : String → SkillScheduler → List String × SkillScheduler
get_commands client_id s = commands_of client_id (value_of client_id s.pending_commands) s

-- The workspaces of a client with one more, unless it is there.
abbrev pub with_workspace : String → List String → List String
with_workspace workspace existing =
    if exists_where (λ (w : String). w == workspace) existing
    then existing
    else existing ++ workspace ∷ []

abbrev pub pending_of : String → SkillScheduler → List String
pending_of client_id s = or_default (value_of client_id s.pending_commands) []

module _ (project_name : String → String) (clock : Clock) where
  -- One turn of the loop.
  unfoldable pub queue : String → Client → SkillScheduler → SkillScheduler
  queue workspace selected s =
      add_log
        (record {
          date = clock.now;
          workspace = workspace;
          project_name = project_name workspace;
          client_id = selected.client_id;
          hostname = selected.hostname;
          status = dispatched;
          reason = none;
        })
        (record s {
          pending_commands =
              set_entry selected.client_id
                (with_workspace workspace (pending_of selected.client_id s)) s.pending_commands;
        })

  -- One workspace, and the rest of the loop. A workspace with no client makes `selected.clientId`
  -- throw, and ends the loop.
  abbrev pub queue_first :
      (SkillScheduler → SkillScheduler) → String → List Client → SkillScheduler → SkillScheduler
  queue_first rest workspace [] s = s
  queue_first rest workspace (selected ∷ others) s = rest (queue workspace selected s)

  unfoldable pub dispatch_to_all_workspaces : List ActiveWorkspace → SkillScheduler → SkillScheduler
  dispatch_to_all_workspaces [] s = s
  dispatch_to_all_workspaces (a ∷ rest) s =
      queue_first (dispatch_to_all_workspaces rest) a.workspace a.clients s

  unfoldable pub tick : List ActiveWorkspace → SkillScheduler → SkillScheduler
  tick active s =
      if not s.enabled
      then s
      else if not (equals (pos clock.hours) s.schedule_hour)
          || not (equals (pos clock.minutes) s.schedule_minute)
      then s
      else if s.last_run_date == some clock.today
      then s
      else dispatch_to_all_workspaces active (record s { last_run_date = some clock.today })
