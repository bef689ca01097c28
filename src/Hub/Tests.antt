-- ===== src/Hub/Tests.antt =====
-- A client that connects, makes a room with a task and leaves, and the theorems over that history.
use sman_server.Base.{◌≡◌, String, true, false, none, some, List, [], ◌∷◌}
use sman_server.Rooms.Types.{empty_rooms}
use sman_server.Tasks.Types.{empty_tasks, TaskRecord, TaskDb}
use sman_server.Tasks.Machine.{get_task}
use sman_server.Tasks.Store.{new_task}
use sman_server.Tasks.Keeps.{Way}
use sman_server.Tasks.Turns.{Moves}
use sman_server.Im.Store.{empty_im}
use sman_server.Hub.Types.{ClientMessage, TaskMessage}
use sman_server.Hub.State.{Env, new_hub, tasks_env}
use sman_server.Hub.Connection.{Event, connects, receives, closes, auth_psk, message, run_hub}
use sman_server.Hub.Still.{part}
use sman_server.Hub.Sound.{IsSound}
use sman_server.Hub.RoomSound.{Driven}
use sman_server.Hub.History.{run_hub-IsSound, run_hub-Engine}

abbrev pub env : Env
env = record {
  now = 5000;
  is_open = λ ws. true;
  random_uuid = λ n. "u1";
  trim = λ s. s;
  like = λ p s. false;
  json = λ ms. "[]";
  reparse = λ s. some s;
  cipher = record { encrypt = λ s. s; decrypt = λ s. some s };
  agent_hash = λ c w. "0123456789ab";
  message_of = λ f. "error";
  to_lower_case = λ s. s;
  includes = λ q s. true;
}

abbrev history : List (Env × Event)
history =
    (env, connects none)
    ∷ (env, receives 0 (auth_psk 5 (some "ann")))
    ∷ (env, receives 0 (message (ClientMessage.room_create "den" none none none)))
    ∷ (env, receives 0 (message (ClientMessage.task (TaskMessage.claim "t1" "a1" none))))
    ∷ (env, closes 0)
    ∷ []

run_hub-IsSound_example :
    IsSound (part (run_hub history (new_hub empty_rooms empty_tasks empty_im none [])))
run_hub-IsSound_example = run_hub-IsSound history empty_rooms empty_tasks empty_im none []

-- A task of the den, open to claims.
abbrev stored : TaskDb
stored = record empty_tasks {
  tasks =
      new_task (tasks_env env) "t1" (record {
        room_id = "den";
        title = "dig";
        description = none;
        created_by = "ann";
        priority = none;
        context = none;
        acceptance_criteria = none;
        subtasks = none;
        auto_execute = none;
        git_branch = none;
      })
      ∷ [];
}

run_hub-Engine_example :
    Driven stored (run_hub history (new_hub empty_rooms stored empty_im none [])).tasks
    × ((id : String) (t : TaskRecord)
        → get_task id stored ≡ some t
        → (t' : TaskRecord) × (get_task id
              (run_hub history (new_hub empty_rooms stored empty_im none [])).tasks
            ≡ some t')
          × Way Moves id t.status t'.status)
run_hub-Engine_example = run_hub-Engine history empty_rooms stored empty_im none []
