-- ===== src/Hub/Handlers.antt =====
-- Every message of a client keeps the maps sound and calls the task engine only.
use sman_server.Base.{◌≡◌, some, nat_eq, string_eq}
use sman_server.Base.Texts.{is_empty}
use sman_server.Rooms.Store.{get_room}
use sman_server.Rooms.Agents.{get_agent}
use sman_server.Hub.Types.{AuthedClient, ClientMessage}
use sman_server.Hub.State.{Env, Hub, modify, client_of}
use sman_server.Hub.RoomMessages.{
  handle_room_join, handle_room_leave, handle_room_dissolve, handle_room_list, handle_room_info,
  handle_agent_deregister, handle_agent_heartbeat, handle_agent_list,
}
use sman_server.Hub.Search.{handle_clients_search}
use sman_server.Hub.ImMessages.{
  handle_im_send, handle_im_sync, handle_im_sync_batch, handle_im_transparent,
  handle_im_room_dissolved, handle_im_presence, handle_im_room_updated,
}
use sman_server.Hub.Connection.{with_im_slot, dispatch_message}
use sman_server.Hub.Still.{IsStill}
use sman_server.Hub.Engine.{handle-Runs}
use sman_server.Hub.RoomSound.{
  Sounds, same-Sounds, still-Sounds, runs-Sounds, if-Sounds, sent-Sounds, refused-Sounds,
  room_create-Sounds, joined-Sounds, left-Sounds, dissolve_found-Sounds, agent_register-Sounds,
  deregister_found-Sounds, heartbeat_found-Sounds, info-Sounds,
}
use sman_server.Hub.ImStill.{
  handle_im_send-part, dissolved-IsStill, transparent-IsStill, presence-IsStill, sync-IsStill,
  sync_batch-IsStill, updated-IsStill, search-IsStill, with_im_slot-part,
}

module _ (env : Env) where
  module _ (c : AuthedClient) where
    -- A handler that leaves the maps alone.
    kept : (f : Hub → Hub) → IsStill f → (h : Hub) → Sounds h (f h)
    kept f e h = still-Sounds h (f h) (e h)

    im_slot : (f : Hub → Hub) → IsStill f → (h : Hub) → Sounds h (with_im_slot env c (modify f) h).1
    im_slot f e h =
        still-Sounds h (with_im_slot env c (modify f) h).1 (with_im_slot-part env c (modify f) e h)

    pub dispatch_message-Sounds :
        (m : ClientMessage) (h : Hub) {d : AuthedClient}
        → client_of c.ws h ≡ some d
        → Sounds h (dispatch_message env c m h).1
    unfolding dispatch_message handle_room_join handle_room_leave handle_room_list
        handle_room_dissolve handle_room_info handle_agent_deregister handle_agent_heartbeat
        handle_agent_list
    dispatch_message-Sounds (ClientMessage.task m) h k =
        runs-Sounds h _ ((handle-Runs env c m).to h)
    dispatch_message-Sounds (ClientMessage.room_create name description n visibility) h k =
        room_create-Sounds env c name description n visibility h k
    dispatch_message-Sounds (ClientMessage.room_join room_id display_name) h k =
        if-Sounds (is_empty room_id) h _ _ (refused-Sounds env c.ws _ h h (same-Sounds h))
          (joined-Sounds env c room_id _ h k)
    dispatch_message-Sounds (ClientMessage.room_leave room_id) h k =
        if-Sounds (is_empty room_id) h _ _ (same-Sounds h) (left-Sounds env c room_id _ h)
    dispatch_message-Sounds ClientMessage.room_list h k = sent-Sounds env c.ws _ h h (same-Sounds h)
    dispatch_message-Sounds (ClientMessage.room_dissolve room_id) h k =
        if-Sounds (is_empty room_id) h _ _ (same-Sounds h)
          (dissolve_found-Sounds env c room_id (get_room room_id h.room_db) h)
    dispatch_message-Sounds (ClientMessage.room_info room_id) h k =
        info-Sounds env c room_id (get_room room_id h.room_db) h
    dispatch_message-Sounds (ClientMessage.agent_register p) h k = agent_register-Sounds env c p h
    dispatch_message-Sounds (ClientMessage.agent_deregister id) h k =
        deregister_found-Sounds env c id (get_agent id h.room_db) h
    dispatch_message-Sounds (ClientMessage.agent_heartbeat id status) h k =
        heartbeat_found-Sounds env c id status (get_agent id h.room_db) h
    dispatch_message-Sounds (ClientMessage.agent_list room_id) h k =
        if-Sounds (is_empty room_id) h _ _ (refused-Sounds env c.ws _ h h (same-Sounds h))
          (sent-Sounds env c.ws _ h h (same-Sounds h))
    dispatch_message-Sounds (ClientMessage.im_send p) h k =
        still-Sounds h (with_im_slot env c (handle_im_send env c p) h).1
          (with_im_slot-part env c (handle_im_send env c p) (handle_im_send-part env c p) h)
    dispatch_message-Sounds (ClientMessage.im_sync room_id after) h k =
        im_slot (handle_im_sync env c room_id after) (sync-IsStill env c room_id after) h
    dispatch_message-Sounds (ClientMessage.im_sync_batch items) h k =
        im_slot (handle_im_sync_batch env c items) (sync_batch-IsStill env c items) h
    dispatch_message-Sounds (ClientMessage.im_transparent p) h k =
        kept (handle_im_transparent env c p) (transparent-IsStill env c p) h
    dispatch_message-Sounds (ClientMessage.im_room_dissolved p) h k =
        kept (handle_im_room_dissolved env c p) (dissolved-IsStill env c p) h
    dispatch_message-Sounds (ClientMessage.im_presence room_id) h k =
        kept (handle_im_presence env c room_id) (presence-IsStill env c room_id) h
    dispatch_message-Sounds (ClientMessage.im_room_updated name members p) h k =
        im_slot (handle_im_room_updated env c name members p) (updated-IsStill env c name members p)
          h
    dispatch_message-Sounds (ClientMessage.im_clients_search query seq) h k =
        kept (handle_clients_search env c query seq) (search-IsStill env c query seq) h
    dispatch_message-Sounds (ClientMessage.unknown type) h k =
        refused-Sounds env c.ws _ h h (same-Sounds h)
