-- ===== src/Scheduler/Tests.antt =====
-- The scheduler's theorems at one workspace with one client.
use sman_server.Base.{◌≡◌, ◌≢◌, refl, String, true, none, List, [], ◌∷◌, All, arith}
use sman_server.Base.Int.{pos}
use sman_server.Scheduler.{SkillScheduler, Clock, ActiveWorkspace, get_commands, pending_of, tick}
use sman_server.Scheduler.Commands.{IsQueued, get_commands_lem, tick_lem}

abbrev clock : Clock
clock = record { hours = 3; minutes = 3; today = "2026-01-02"; now = 8 }

abbrev scheduler : SkillScheduler
scheduler = record {
  last_run_date = none;
  enabled = true;
  logs = [];
  schedule_hour = pos 3;
  schedule_minute = pos 3;
  pending_commands = ("c1", "repo" ∷ []) ∷ [];
}

abbrev active : List ActiveWorkspace
active =
    record { workspace = "other"; clients = record { client_id = "c1"; hostname = "h" } ∷ [] } ∷ []

abbrev same_name : String → String
same_name path = path

get_commands_lem_example :
    let (given, after) = get_commands "c1" scheduler in
    (given ≡ pending_of "c1" scheduler)
    × (pending_of "c1" after ≡ [])
    × ((other : String) → other ≢ "c1" → pending_of other after ≡ pending_of other scheduler)
get_commands_lem_example = get_commands_lem "c1" scheduler

tick_lem_example :
    let s1 = tick same_name clock active scheduler in
    All (IsQueued s1) active
    × ((later : Clock) (active2 : List ActiveWorkspace)
        → later.today ≡ "2026-01-02"
        → tick same_name later active2 s1 ≡ s1)
tick_lem_example =
    tick_lem same_name clock active scheduler refl refl refl (ground arith)
      ((λ e. ground (arith, e)), tt)
