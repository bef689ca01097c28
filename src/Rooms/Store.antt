-- ===== src/Rooms/Store.antt =====
-- db-rooms.ts: the methods on `rooms` and `room_members`.
pub mod Capacity
pub mod Calls
use Prim.Native.String.{◌++◌ as str_append}
use sman_server.Base.{
  ℕ, zero, suc, ◌+◌, String, Bool, true, false, not, ◌&&◌, ◌||◌, Option, none, some, List, [], ◌∷◌,
  ◌++◌, ◌==◌, string_eq, nat_eq, or_default, find_where, exists_where, select_where, count_where,
  update_where, delete_where, sort_desc, sort_asc, take, if◌then◌else◌, leb, is_some,
}
use sman_server.Rooms.Types.{
  Visibility, public_room, private_room, RoomRole, RoomRecord, RoomMemberRecord, RoomDb, Env,
}

pub record CreateRoomParams : Type 0 where
  pub name : String
  pub description : Option String
  pub owner_id : String
  pub max_agents : Option ℕ
  pub visibility : Option Visibility
  pub password : Option String

abbrev pub room_with_id : String → RoomRecord → Bool
room_with_id id r = r.id == id

abbrev pub in_room : String → RoomMemberRecord → Bool
in_room room_id m = m.room_id == room_id

abbrev pub is_row_of : String → String → RoomMemberRecord → Bool
is_row_of room_id client_id m = m.room_id == room_id && m.client_id == client_id

-- `password || null`.
abbrev pub non_empty : Option String → Option String
non_empty none = none
non_empty (some text) = if text == "" then none else some text

abbrev pub new_room : Env → String → CreateRoomParams → RoomRecord
new_room env id p = record {
  id = id;
  name = p.name;
  description = p.description;
  owner_id = p.owner_id;
  visibility = or_default p.visibility private_room;
  active = 1;
  max_agents = or_default p.max_agents 10;
  created_at = env.now;
  password = non_empty p.password;
}

abbrev pub new_member : Env → String → String → String → RoomRole → RoomMemberRecord
new_member env room_id client_id display_name role = record {
  room_id = room_id;
  client_id = client_id;
  display_name = display_name;
  role = role;
  joined_at = env.now;
}

unfoldable pub get_room : String → RoomDb → Option RoomRecord
get_room room_id s = find_where (room_with_id room_id) s.rooms

-- A call that returns, or one whose INSERT meets a key that exists.
pub data Created : Type 0 where
  created : Option RoomRecord → Created
  key_exists : Created

-- The owner's row; its INSERT runs after that of the room has been committed.
unfoldable pub insert_owner : Env → RoomRecord → RoomDb → Created × RoomDb
insert_owner env r s =
    if exists_where (is_row_of r.id r.owner_id) s.room_members
    then (key_exists, s)
    else (let s' = record s {
      room_members =
          s.room_members ++ new_member env r.id r.owner_id r.owner_id RoomRole.owner ∷ [];
    } in
        (created (get_room r.id s'), s'))

unfoldable pub insert_room : Env → RoomRecord → RoomDb → Created × RoomDb
insert_room env r s =
    if exists_where (room_with_id r.id) s.rooms
    then (key_exists, s)
    else insert_owner env r (record s { rooms = s.rooms ++ r ∷ []; draws = s.draws + 1 })

unfoldable pub create_room : Env → CreateRoomParams → RoomDb → Created × RoomDb
create_room env p s = insert_room env (new_room env (env.random_uuid s.draws) p) s

unfoldable pub list_rooms : RoomDb → List RoomRecord
list_rooms s =
    sort_desc (λ (r : RoomRecord). r.created_at)
      (select_where (λ (r : RoomRecord). r.active == 1) s.rooms)

abbrev is_public : Visibility → Bool
is_public public_room = true
is_public private_room = false

-- The optional `AND (r.name LIKE ? OR r.owner_id LIKE ?)`, when the trimmed text is not empty.
abbrev matches_search : Env → Option String → RoomRecord → Bool
matches_search env none r = true
matches_search env (some search) r =
    let text = env.trim search in
    if text == ""
    then true
    else (let pattern = str_append "%" (str_append text "%") in
        env.like pattern r.name || env.like pattern r.owner_id)

unfoldable pub is_visible_to : Env → String → Option String → RoomDb → RoomRecord → Bool
is_visible_to env client_id search s r =
    r.active == 1
    && (is_public r.visibility || exists_where (is_row_of r.id client_id) s.room_members)
    && matches_search env search r

pub drop : ℕ → List RoomRecord → List RoomRecord
drop zero rs = rs
drop (suc n) [] = []
drop (suc n) (r ∷ rs) = drop n rs

unfoldable pub list_rooms_visible_to :
    Env → String → Option String → Option ℕ → Option ℕ → RoomDb → List RoomRecord
list_rooms_visible_to env client_id search limit offset s = take (or_default limit 10) (
    drop (or_default offset 0) (
      sort_desc (λ (r : RoomRecord). r.created_at)
        (select_where (is_visible_to env client_id search s) s.rooms)))

unfoldable pub count_rooms_visible_to : Env → String → Option String → RoomDb → ℕ
count_rooms_visible_to env client_id search s =
    count_where (is_visible_to env client_id search s) s.rooms

unfoldable pub deactivate_room : String → RoomDb → RoomDb
deactivate_room room_id s = record s {
  rooms = update_where (room_with_id room_id) (λ r. record r { active = 0 }) s.rooms;
}

unfoldable pub get_member_count : String → RoomDb → ℕ
get_member_count room_id s = count_where (in_room room_id) s.room_members

unfoldable pub is_member : String → String → RoomDb → Bool
is_member room_id client_id s = is_some (find_where (is_row_of room_id client_id) s.room_members)

unfoldable pub get_room_members : String → RoomDb → List RoomMemberRecord
get_room_members room_id s =
    sort_asc (λ (m : RoomMemberRecord). m.joined_at) (select_where (in_room room_id) s.room_members)

module _ (env : Env) (room_id client_id display_name : String) (role : Option RoomRole) where
  -- The count, the INSERT, and the SELECT of the row.
  unfoldable pub join_new :
      RoomRecord → Option RoomMemberRecord → RoomDb → Option RoomMemberRecord × RoomDb
  join_new room (some existing) s = (some existing, s)
  join_new room none s =
      if leb room.max_agents (get_member_count room_id s)
      then (none, s)
      else (let s' = record s {
        room_members =
            s.room_members
            ++ new_member env room_id client_id display_name (or_default role RoomRole.member) ∷ [];
      } in
          (find_where (is_row_of room_id client_id) s'.room_members, s'))

  unfoldable pub join_found : Option RoomRecord → RoomDb → Option RoomMemberRecord × RoomDb
  join_found none s = (none, s)
  join_found (some room) s =
      if room.active == 0
      then (none, s)
      else join_new room (find_where (is_row_of room_id client_id) s.room_members) s

  unfoldable pub join_room : RoomDb → Option RoomMemberRecord × RoomDb
  join_room s = join_found (get_room room_id s) s

unfoldable pub leave_found : String → String → Option RoomRecord → RoomDb → Bool × RoomDb
leave_found room_id client_id none s = (false, s)
leave_found room_id client_id (some room) s = if room.owner_id == client_id then (false, s) else (
  exists_where (is_row_of room_id client_id) s.room_members,
  record s { room_members = delete_where (is_row_of room_id client_id) s.room_members },
)

unfoldable pub leave_room : String → String → RoomDb → Bool × RoomDb
leave_room room_id client_id s = leave_found room_id client_id (get_room room_id s) s
