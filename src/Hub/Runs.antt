-- ===== src/Hub/Runs.antt =====
-- Two clients in a room of instant messages: a message, a sync, and the end of a connection.
use sman_server.Base.{
  ◌≡◌, refl, true, false, none, some, [], ◌∷◌, ◌⊎◌, find_where, exists_where, sort_desc,
  select_where,
}
use sman_server.Rooms.Types.{empty_rooms}
use sman_server.Tasks.Types.{empty_tasks}
use sman_server.Im.Store.{empty_im, ImDb, get_rooms_for_member}
use sman_server.Certs.Verify.{extract_peer_cert, verify_client_cert}
use sman_server.Hub.Types.{AuthedClient, psk, ImSend}
use sman_server.Hub.State.{Hub, new_hub, send, send_error}
use sman_server.Hub.Presence.{send_pending_im_invitations}
use sman_server.Hub.ImMessages.{handle_im_sync}
use sman_server.Hub.Connection.{
  connects, receives, auth_psk, run_hub, handle_disconnect, step, handle_connection, handle_auth,
}
use sman_server.Hub.Syncs.{is_im_member, Answered, handle_im_sync_lem}
use sman_server.Hub.Goodbyes.{Gone, handle_disconnect-Gone}
use sman_server.Hub.History.{run_hub-IsSound}
use sman_server.Hub.Tests.{env}

abbrev ann : AuthedClient
ann = record {
  ws = 0;
  client_id = "ann";
  cert_serial = none;
  auth_method = psk;
  subscribed_rooms = [];
}

-- Ann and Bob are in the room r1, which has one message.
abbrev chat : ImDb
chat = record empty_im {
  im_messages =
      record {
        id = "m1";
        room_id = "r1";
        sender = "bob";
        content = "hi";
        mentioned_agents = none;
        quote_id = none;
        type = "text";
        status = none;
        attachments = none;
        session_id = none;
        timestamp = 7;
        seq = 1;
      }
      ∷ [];
}

abbrev hub : Hub
hub = record (new_hub empty_rooms empty_tasks chat none []) {
  clients = ann ∷ [];
  client_id_to_ws = ("ann", 0) ∷ ("bob", 1) ∷ [];
  im_room_members = ("r1", "ann" ∷ "bob" ∷ []) ∷ [];
}

-- A message in the name of another.
abbrev hello : ImSend
hello = record {
  room_id = "r1";
  fields = record { content = some "hello"; attachments = none };
  id = "m2";
  timestamp = 9;
  seq = 2;
  sender = "bob";
  msg_type = "text";
  status = "";
  session_id = "";
  mentioned_agents = none;
  quote_id = "";
}

handle_im_sync_lem_example :
    ((is_im_member env ann "r1" 5 hub ≡ true)
      × Answered env ann "r1" 5 hub (handle_im_sync env ann "r1" 5 hub))
    ⊎ ((is_im_member env ann "r1" 5 hub ≡ false)
        × (handle_im_sync env ann "r1" 5 hub
            ≡ send_error env ann.ws "Not a member of this room" hub))
handle_im_sync_lem_example = handle_im_sync_lem env ann "r1" 5 hub refl

abbrev logged_in : Hub
logged_in =
    run_hub ((env, connects none) ∷ (env, receives 0 (auth_psk 5 (some "ann"))) ∷ [])
      (new_hub empty_rooms empty_tasks chat none [])

handle_disconnect-Gone_example : Gone ann 0 (handle_disconnect env 0 logged_in)
unfolding find_where step exists_where handle_connection extract_peer_cert verify_client_cert
    handle_auth send_pending_im_invitations get_rooms_for_member sort_desc select_where send
handle_disconnect-Gone_example =
    handle_disconnect-Gone env 0 ann logged_in
      (run_hub-IsSound ((env, connects none) ∷ (env, receives 0 (auth_psk 5 (some "ann"))) ∷ [])
        empty_rooms empty_tasks chat none [])
      refl
