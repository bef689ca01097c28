-- ===== src/Rooms/Tests.antt =====
-- The rooms' theorems at a small database.
use sman_server.Base.{◌≡◌, ◌≢◌, ◌≤◌, ◌<◌, false, none, some, List, [], ◌∷◌, find_where}
use sman_server.Rooms.Types.{RoomRole, RoomMemberRecord, RoomDb, Env, empty_rooms}
use sman_server.Rooms.Store.{
  CreateRoomParams, is_row_of, new_member, new_room, get_room, get_member_count, join_room,
}
use sman_server.Rooms.Store.Capacity.{IsSound}
use sman_server.Rooms.History.{
  Call, create_call, join_call, leave_call, run, run_rooms-IsSound, joined, join_room_lem,
}

abbrev env : Env
env = record { now = 3; random_uuid = λ n. "r1"; trim = λ t. t; like = λ p t. false }

abbrev den : CreateRoomParams
den = record {
  name = "den";
  description = none;
  owner_id = "ann";
  max_agents = some 2;
  visibility = none;
  password = none;
}

abbrev visits : List (Env × Call)
visits =
    (env, create_call den)
    ∷ (env, join_call "r1" "bob" "Bob" none)
    ∷ (env, leave_call "r1" "ann")
    ∷ []

run_rooms-IsSound_example : IsSound (run visits empty_rooms)
run_rooms-IsSound_example = run_rooms-IsSound visits

abbrev one_room : RoomDb
one_room = record empty_rooms {
  rooms = new_room env "r1" den ∷ [];
  room_members = new_member env "r1" "ann" "ann" RoomRole.owner ∷ [];
}

join_room_lem_example :
    (get_room "r1" one_room ≡ some (new_room env "r1" den)
      → ((new_room env "r1" den).active ≢ 0
          → ((m : RoomMemberRecord)
              → find_where (is_row_of "r1" "bob") one_room.room_members ≡ some m
              → join_room env "r1" "bob" "Bob" none one_room ≡ (some m, one_room))
            × (find_where (is_row_of "r1" "bob") one_room.room_members ≡ none
                → 2 ≤ get_member_count "r1" one_room
                → join_room env "r1" "bob" "Bob" none one_room ≡ (none, one_room))
            × (find_where (is_row_of "r1" "bob") one_room.room_members ≡ none
                → get_member_count "r1" one_room < 2
                → join_room env "r1" "bob" "Bob" none one_room ≡ (
                  some (new_member env "r1" "bob" "Bob" RoomRole.member),
                  joined env "r1" "bob" "Bob" none one_room (new_room env "r1" den),
                )))
        × ((new_room env "r1" den).active ≡ 0
            → join_room env "r1" "bob" "Bob" none one_room ≡ (none, one_room)))
    × (get_room "r1" one_room ≡ none
        → join_room env "r1" "bob" "Bob" none one_room ≡ (none, one_room))
join_room_lem_example = join_room_lem env "r1" "bob" "Bob" none one_room (new_room env "r1" den)
