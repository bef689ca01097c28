-- ===== src/Rooms/Routes.antt =====
-- routes/rooms.ts: the routes of the administrator on rooms. A request is admitted by the test of its
-- authorization against the token; a missing text is empty.
use sman_server.Base.{
  ℕ, String, Bool, true, Option, none, some, List, [], ◌∷◌, ◌++◌, map, ◌==◌, string_eq,
  if◌then◌else◌,
}
use Prim.Native.String.{◌++◌ as str_append}
use sman_server.Base.Texts.{is_empty, or_text}
use sman_server.Rooms.Types.{Env, RoomRecord, RoomMemberRecord, AgentRecord, RoomDb}
use sman_server.Rooms.Store.{
  create_room, Created, created, get_room, list_rooms, get_room_members, get_member_count,
  join_room, leave_room, deactivate_room,
}
use sman_server.Rooms.Agents.{get_room_agents}

unfoldable pub is_authorized : (token authorization : String) → Bool
is_authorized token authorization = authorization == str_append "Bearer " token

-- The answers with an error, by their status; `internal` is what Express makes of an exception.
pub data Reply (A : Type 0) : Type 0 where
  bad_request not_found conflict internal : Reply A
  replied : A → Reply A

unfoldable pub rooms_route : RoomDb → List (RoomRecord × ℕ)
rooms_route s = map (λ (room : RoomRecord). (room, get_member_count room.id s)) (list_rooms s)

abbrev room_found :
    Option RoomRecord → RoomDb → Reply (RoomRecord × List RoomMemberRecord × List AgentRecord)
room_found none s = not_found
room_found (some room) s = replied (room, get_room_members room.id s, get_room_agents room.id s)

unfoldable pub room_route :
    String → RoomDb → Reply (RoomRecord × List RoomMemberRecord × List AgentRecord)
room_route id s = room_found (get_room id s) s

unfoldable pub agents_of : List RoomRecord → RoomDb → List AgentRecord
agents_of [] s = []
agents_of (room ∷ rooms) s = get_room_agents room.id s ++ agents_of rooms s

unfoldable pub agents_route : RoomDb → List AgentRecord
unfolding agents_of
agents_route s = agents_of (list_rooms s) s

abbrev reply_created : Created × RoomDb → Reply (Option RoomRecord) × RoomDb
reply_created (created room, s) = (replied room, s)
reply_created (Created.key_exists, s) = (internal, s)

module _ (env : Env) where
  unfoldable pub create_room_route :
      (name : String)
      → Option String
      → Option ℕ
      → (owner_id : String) → RoomDb
      → Reply (Option RoomRecord) × RoomDb
  create_room_route name description max_agents owner_id s =
      if is_empty name
      then (bad_request, s)
      else reply_created (
          create_room env
            (record {
              name = name;
              description = description;
              owner_id = or_text owner_id "admin";
              max_agents = max_agents;
              visibility = none;
              password = none;
            })
            s)

  abbrev reply_joined : Option RoomMemberRecord × RoomDb → Reply RoomMemberRecord × RoomDb
  reply_joined (none, s) = (conflict, s)
  reply_joined (some member, s) = (replied member, s)

  unfoldable pub join_room_route :
      (room_id client_id display_name : String) → RoomDb → Reply RoomMemberRecord × RoomDb
  join_room_route room_id client_id display_name s =
      if is_empty client_id
      then (bad_request, s)
      else reply_joined (join_room env room_id client_id (or_text display_name client_id) none s)

abbrev reply_left : Bool × RoomDb → Reply Bool × RoomDb
reply_left (left, s) = (replied left, s)

unfoldable pub leave_room_route : (room_id client_id : String) → RoomDb → Reply Bool × RoomDb
leave_room_route room_id client_id s =
    if is_empty client_id then (bad_request, s) else reply_left (leave_room room_id client_id s)

unfoldable pub delete_room_route : String → RoomDb → Reply Bool × RoomDb
delete_room_route id s = (replied true, deactivate_room id s)
