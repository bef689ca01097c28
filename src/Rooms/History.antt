-- ===== src/Rooms/History.antt =====
-- Any history of the rooms, and what joining does.
use sman_server.Base.{
  ◌≤◌, ◌<◌, ◌≡◌, ◌≢◌, refl, ◌∙◌, ap, String, true, false, Option, none, some, List, [], ◌∷◌, ◌++◌,
  arith, ◌==◌, ==_iff, ==_refl, string_eq, nat_eq, find_where, find_where-append, or_default,
  count_where, leb,
}
use sman_server.Rooms.Types.{
  RoomRole, AgentStatus, RoomRecord, RoomMemberRecord, RoomDb, Env, empty_rooms,
}
use sman_server.Rooms.Store.{
  CreateRoomParams, is_row_of, new_member, get_room, get_member_count, is_member, create_room,
  deactivate_room, join_new, join_found, join_room, leave_room,
}
use sman_server.Rooms.Store.Capacity.{IsSound}
use sman_server.Rooms.Store.Calls.{
  create_room-IsSound, join_found-IsSound, deactivate_room-IsSound, leave_found-IsSound,
}
use sman_server.Rooms.Agents.{
  RegisterParams, register_agent, update_agent_status, deregister_agent, update_heartbeat,
  mark_agents_offline,
}

pub data Call : Type 0 where
  create_call : CreateRoomParams → Call
  deactivate_call : String → Call
  join_call : String → String → String → Option RoomRole → Call
  leave_call : String → String → Call
  register_call : RegisterParams → Call
  status_call : String → AgentStatus → Call
  deregister_call : String → Call
  heartbeat_call : String → Call
  offline_call : List String → Call

abbrev pub run_call : Env → Call → RoomDb → RoomDb
run_call env (create_call p) s = (create_room env p s).1
run_call env (deactivate_call id) s = deactivate_room id s
run_call env (join_call id client name role) s = (join_room env id client name role s).1
run_call env (leave_call id client) s = (leave_room id client s).1
run_call env (register_call p) s = (register_agent env p s).1
run_call env (status_call id status) s = update_agent_status id status s
run_call env (deregister_call id) s = deregister_agent id s
run_call env (heartbeat_call id) s = update_heartbeat env id s
run_call env (offline_call ids) s = mark_agents_offline ids s

abbrev pub run : List (Env × Call) → RoomDb → RoomDb
run [] s = s
run ((env, c) ∷ rest) s = run rest (run_call env c s)

-- The rooms and the members are the same.
same_rooms-IsSound :
    (s s' : RoomDb) → s'.rooms ≡ s.rooms → s'.room_members ≡ s.room_members → IsSound s → IsSound s'
unfolding get_room is_member get_member_count
same_rooms-IsSound s s' r m h = record {
  owned = λ j q g. rw m (h.owned j q (rw r at g));
  fits = λ j q g. rw m (h.fits j q (rw r at g));
  settled = λ j g. rw m (h.settled j (rw r at g));
}

run_call-IsSound : (env : Env) (c : Call) (s : RoomDb) → IsSound s → IsSound (run_call env c s)
unfolding join_room leave_room register_agent update_agent_status deregister_agent update_heartbeat
    mark_agents_offline
run_call-IsSound env (create_call p) s h = create_room-IsSound env p s h
run_call-IsSound env (deactivate_call id) s h = deactivate_room-IsSound id s h
run_call-IsSound env (join_call id client name role) s h =
    join_found-IsSound env id client name role (get_room id s) s refl h
run_call-IsSound env (leave_call id client) s h =
    leave_found-IsSound id client (get_room id s) s refl h
run_call-IsSound env (register_call p) s h = same_rooms-IsSound s _ refl refl h
run_call-IsSound env (status_call id status) s h = same_rooms-IsSound s _ refl refl h
run_call-IsSound env (deregister_call id) s h = same_rooms-IsSound s _ refl refl h
run_call-IsSound env (heartbeat_call id) s h = same_rooms-IsSound s _ refl refl h
run_call-IsSound env (offline_call ids) s h = same_rooms-IsSound s _ refl refl h

run_from-IsSound : (calls : List (Env × Call)) (s : RoomDb) → IsSound s → IsSound (run calls s)
run_from-IsSound [] s h = h
run_from-IsSound ((env, c) ∷ rest) s h =
    run_from-IsSound rest (run_call env c s) (run_call-IsSound env c s h)

empty-IsSound : IsSound empty_rooms
unfolding get_room get_member_count find_where count_where
empty-IsSound = record {
  owned = λ j r g. absurd (cc (g));
  fits = λ j r g. absurd (cc (g));
  settled = λ j g. refl;
}

-- Whatever is called from an empty database on, and whether a call meets a key that exists or not:
-- each room, also one that is not active any more, has its owner among its members and at most as
-- many members as it has places, where a room with none has one for its owner, and an id that is no
-- room's has no members.
pub run_rooms-IsSound : (calls : List (Env × Call)) → IsSound (run calls empty_rooms)
run_rooms-IsSound calls = run_from-IsSound calls empty_rooms empty-IsSound

module _ (env : Env) (id client name : String) (role : Option RoomRole) (s : RoomDb)
    (room : RoomRecord) where
  abbrev pub joined : RoomDb
  joined = record s {
    room_members =
        s.room_members ++ new_member env id client name (or_default role RoomRole.member) ∷ [];
  }

  new_row :
      find_where (is_row_of id client) s.room_members ≡ none
      → find_where (is_row_of id client) joined.room_members
        ≡ some (new_member env id client name (or_default role RoomRole.member))
  unfolding find_where
  new_row n =
      find_where-append (is_row_of id client) s.room_members _
      ∙ rw (n, ==_refl id, ==_refl client) refl

  join_new_lem :
      (o : Option RoomMemberRecord)
      → find_where (is_row_of id client) s.room_members ≡ o
      → ((m : RoomMemberRecord)
          → o ≡ some m
          → join_new env id client name role room o s ≡ (some m, s))
        × (o ≡ none
            → room.max_agents ≤ get_member_count id s
            → join_new env id client name role room o s ≡ (none, s))
        × (o ≡ none
            → get_member_count id s < room.max_agents
            → join_new env id client name role room o s
              ≡ (some (new_member env id client name (or_default role RoomRole.member)), joined))
  unfolding join_new
  join_new_lem (some e) k = (λ m h. ap (λ o. (o, s)) h, λ h. absurd (cc (h)), λ h. absurd (cc (h)))
  join_new_lem none k = (
    λ m h. absurd (cc (h)),
    λ h f.
        let full : leb room.max_agents (get_member_count id s) ≡ true = ground arith in
        rw full refl,
    λ h f.
        let free : leb room.max_agents (get_member_count id s) ≡ false = ground arith in
        rw free (ap (λ o. (o, joined)) (new_row k)),
  )

  -- In an active room a member who joins again gets the stored row back, a client who is not a member
  -- is refused when the room has its number of members and is added otherwise, with the role given or
  -- as a member. Nothing is written in the other cases, and a room that is not active, or does not
  -- exist, refuses everyone, its members too.
  pub join_room_lem :
      (get_room id s ≡ some room
        → (room.active ≢ 0
            → ((m : RoomMemberRecord)
                → find_where (is_row_of id client) s.room_members ≡ some m
                → join_room env id client name role s ≡ (some m, s))
              × (find_where (is_row_of id client) s.room_members ≡ none
                  → room.max_agents ≤ get_member_count id s
                  → join_room env id client name role s ≡ (none, s))
              × (find_where (is_row_of id client) s.room_members ≡ none
                  → get_member_count id s < room.max_agents
                  → join_room env id client name role s ≡ (
                    some (new_member env id client name (or_default role RoomRole.member)),
                    joined,
                  )))
          × (room.active ≡ 0 → join_room env id client name role s ≡ (none, s)))
      × (get_room id s ≡ none → join_room env id client name role s ≡ (none, s))
  unfolding join_room join_found
  join_room_lem = (
    λ k. (
      λ a.
          let on : (room.active == 0) ≡ false = ground (arith, ==_iff room.active 0) in
          rw (k, on) (join_new_lem (find_where (is_row_of id client) s.room_members) refl),
      λ a.
          let out : (room.active == 0) ≡ true = ground (arith, ==_iff room.active 0) in
          rw (k, out) refl,
    ),
    λ k. rw k refl,
  )
