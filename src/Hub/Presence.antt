-- ===== src/Hub/Presence.antt =====
-- ws-server.ts: who is online in a room of instant messages, and the invitations of a client that
-- connects.
use sman_server.Base.{
  String, Bool, false, Option, none, some, List, [], ◌∷◌, string_eq, nat_eq, select_where,
}
use sman_server.Base.Maps.{set_entry, value_of}
use sman_server.Base.Sets.{add_member, remove_member, add_all}
use sman_server.Im.Store.{ImRoomRow, get_rooms_for_member}
use sman_server.Hub.Types.{AuthedClient, im_presence, im_room_invited}
use sman_server.Hub.State.{Env, Hub, send, broadcast_to_im_room, members_of}

module _ (env : Env) where
  -- ---- Presence ----

  abbrev pub is_online : Hub → String → Bool
  is_online h client_id = elim (value_of client_id h.client_id_to_ws) [
    | none ↦ false
    | some ws ↦ env.is_open ws
  ]

  abbrev pub presence_of : String → Option (List String) → Hub → Hub
  presence_of room_id none h = h
  presence_of room_id (some members) h =
      broadcast_to_im_room env room_id (im_presence room_id (select_where (is_online h) members))
        none h

  unfoldable pub broadcast_im_presence : String → Hub → Hub
  broadcast_im_presence room_id h = presence_of room_id (value_of room_id h.im_room_members) h

  -- A timer that is set already is set anew.
  unfoldable pub schedule_presence_broadcast : String → Hub → Hub
  schedule_presence_broadcast room_id h = record h {
    pending_presence = add_member room_id h.pending_presence;
  }

  unfoldable pub presence_fires : String → Hub → Hub
  unfolding broadcast_im_presence
  presence_fires room_id h =
      broadcast_im_presence room_id
        (record h { pending_presence = remove_member room_id h.pending_presence })

  -- ---- sendPendingImInvitations ----

  unfoldable pub invite_to : AuthedClient → List ImRoomRow → Hub → Hub
  invite_to client [] h = h
  invite_to client (room ∷ rest) h =
      let h' = record h {
        im_room_members =
            set_entry room.id (add_all room.members (members_of room.id h)) h.im_room_members;
      } in
      invite_to client rest (send env client.ws (im_room_invited room.id room.members room.name) h')

  unfoldable pub tell_presence : List ImRoomRow → Hub → Hub
  unfolding broadcast_im_presence
  tell_presence [] h = h
  tell_presence (room ∷ rest) h = tell_presence rest (broadcast_im_presence room.id h)

  unfoldable pub send_pending_im_invitations : AuthedClient → Hub → Hub
  unfolding invite_to tell_presence
  send_pending_im_invitations client h =
      let rooms = get_rooms_for_member env.like env.json client.client_id h.im_db in
      tell_presence rooms (invite_to client rooms h)
